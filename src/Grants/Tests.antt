-- ===== src/Grants/Tests.antt =====
-- One request: Ann asks, Bob is mailed, approves in the console or by his link; Ann edits.
use seyal_run.Prelude.{
  String, ◌≡◌, refl, ◌≢◌, Bool, true, false, none, some, List, [], ◌∷◌, ◌==◌, if◌then◌else◌, mem,
  lookup, insert, ok, err,
}
use seyal_run.Identity.Effective.{RoleTables}
use seyal_run.Identity.Authz.{qualifies, in_window, matches_principal, covers_by_group, rule_hosts}
use seyal_run.Rbac.{bypasses_authz, merge_roles, dedup}
use seyal_run.Identity.Effective.{effective_roles}
use seyal_run.Grants.{
  Authorization, System, World, Account, Payload, Token, decide, rule_of, submitted, decided, entry,
}
use seyal_run.Grants.Mail.{
  create_authorization, update_authorization, confirm, submit, validate_email_token, token_for,
}
use seyal_run.Grants.Workflow.{created, decided_by, Reachable, initial, then_step}
use seyal_run.Grants.FourEyes.{IsSeenByTwo, access-IsSeenByTwo}
use seyal_run.Grants.Links.Stale.{
  after_link, Enables, confirmed_links_spent, stale_link_grants_edit,
}

abbrev tables : RoleTables
tables = record {
  roles = ("r1", "admin") ∷ ("r2", "support") ∷ [];
  user_roles = ("ann", "r1") ∷ [];
  members = ("bob", "g1") ∷ [];
  group_roles = ("g1", "r1") ∷ [];
}

abbrev draw : String → String → String × String
draw user_id action = if action == "approve" then ("t1", "raw1") else ("t2", "raw2")

abbrev bob : Account
bob = record { id = "bob"; email = some "bob@example.org"; is_active = true }

abbrev world : World
world = record {
  now = 1000;
  default_ttl_days = 90;
  exempt_roles = "superadmin" ∷ [];
  accounts = record { id = "ann"; email = some "ann@example.org"; is_active = true } ∷ bob ∷ [];
  tables = tables;
  digest = λ s. s;
  drawn = draw;
  links_stored = true;
}

-- Access for kumar to one host.
abbrev asked : List String → Payload
asked hosts = record {
  name = "web";
  user_id = some "kumar";
  user_ids = [];
  user_group_id = none;
  user_group_ids = [];
  host_id = none;
  host_ids = hosts;
  host_group_id = none;
  host_group_ids = [];
  credential_id = none;
  credential_ids = [];
  actions = "ssh" ∷ [];
  date_start = none;
  date_expired = none;
}

abbrev payload : Payload
payload = asked ("h1" ∷ [])

abbrev empty : System
empty = record { rows = []; tokens = []; log = [] }

abbrev row : List String → Authorization
row hosts = record {
  rule = record {
    name = "web";
    user_id = some "kumar";
    user_ids = "kumar" ∷ [];
    user_group_id = none;
    user_group_ids = [];
    host_id = some "h1";
    host_ids = hosts;
    host_group_id = none;
    host_group_ids = [];
    credential_id = none;
    credential_ids = [];
    actions = "ssh" ∷ [];
    enabled = false;
    status = "pending_approval";
    date_start = none;
    date_expired = some 7777000;
  };
  requested_by = some "ann";
  approved_by = none;
  approved_at = none;
}

abbrev link : Token
link = token_for world "z1" "approve" "bob"

abbrev waiting_system : System
waiting_system = record {
  rows = ("z1", row ("h1" ∷ [])) ∷ [];
  tokens = link ∷ token_for world "z1" "reject" "bob" ∷ [];
  log = entry "ann" "authorization.create" "z1" ∷ [];
}

abbrev approved_system : System
approved_system = record {
  rows = ("z1", decided 1000 true "bob" (row ("h1" ∷ []))) ∷ [];
  tokens = waiting_system.tokens;
  log = entry "bob" "authorization.approve" "z1" ∷ waiting_system.log;
}

asked_once :
    create_authorization world "admin" (some "ann") (some "admin") "z1" payload empty
    ≡ ok waiting_system
unfolding create_authorization mem bypasses_authz merge_roles dedup effective_roles insert
asked_once = refl

approved_once : decide true world "admin" (some "bob") "z1" waiting_system ≡ ok approved_system
unfolding decide
approved_once = refl

not_by_herself : decide true world "admin" (some "ann") "z1" waiting_system ≡ err 403
unfolding decide
not_by_herself = refl

abbrev nobody : String → Bool
nobody user_id = false

not_exempt :
    (a : String) → some "ann" ≡ some a → mem "admin" world.exempt_roles ≡ true → nobody a ≡ true
unfolding mem
not_exempt a e h = cc

reached : Reachable nobody approved_system
unfolding lookup
reached =
    then_step waiting_system approved_system
      (then_step empty waiting_system initial (
        created world "admin" (some "ann") (some "admin") "z1" payload empty waiting_system refl
          not_exempt asked_once))
      (decided_by true world "admin" (some "bob") "z1" waiting_system approved_system approved_once)

no_groups : List String → List String
no_groups groups = []

kumar_qualifies :
    qualifies no_groups 2000 "kumar" [] "h1" (decided 1000 true "bob" (row ("h1" ∷ []))).rule ≡ true
unfolding qualifies in_window matches_principal covers_by_group rule_hosts mem
kumar_qualifies = refl

access-IsSeenByTwo_example : IsSeenByTwo nobody (some "ann") (some "bob")
unfolding lookup
access-IsSeenByTwo_example =
    access-IsSeenByTwo nobody approved_system "z1" (decided 1000 true "bob" (row ("h1" ∷ [])))
      no_groups 2000 "kumar" [] "h1" reached refl kumar_qualifies

-- Bob follows the link of his mail.
bobs_link : validate_email_token world "raw1" waiting_system ≡ ok (link, row ("h1" ∷ []), bob)
unfolding validate_email_token mem bypasses_authz merge_roles dedup effective_roles lookup
bobs_link = refl

abbrev confirmed_system : System
confirmed_system = after_link world waiting_system (link, row ("h1" ∷ []), bob)

confirmed_once : confirm world "raw1" waiting_system ≡ ok confirmed_system
unfolding confirm mem bypasses_authz merge_roles dedup effective_roles lookup
confirmed_once = refl

-- A link of another request in the same table.
abbrev other_link : Token
other_link = record {
  id = "t3";
  authorization_id = "z2";
  approver_user_id = "bob";
  action = "approve";
  token_hash = "raw3";
  expires_at = 5000;
  used_at = none;
}

abbrev two_requests : System
two_requests = record waiting_system {
  rows = ("z1", row ("h1" ∷ [])) ∷ ("z2", row ("h2" ∷ [])) ∷ [];
  tokens = other_link ∷ waiting_system.tokens;
}

abbrev after_one : System
after_one = after_link world two_requests (link, row ("h1" ∷ []), bob)

confirmed_links_spent_example : ◌≢◌ {A = String} "z2" "z1"
unfolding confirm validate_email_token mem bypasses_authz merge_roles dedup effective_roles lookup
    insert
confirmed_links_spent_example =
    confirmed_links_spent world world "raw1" "raw3" two_requests after_one
      (link, row ("h1" ∷ []), bob) (other_link, row ("h2" ∷ []), bob) after_one.rows refl refl refl

-- Ann edits after the mail: two hosts more.
abbrev wide : Payload
wide = asked ("h1" ∷ "db1" ∷ "db2" ∷ [])

abbrev edited_system : System
edited_system =
    submit world "authorization.update" "ann" "z1" (submitted world wide "ann" false) waiting_system

stale_link_grants_edit_example :
    Enables world "raw1" edited_system "z1" (rule_of world wide true) "bob"
unfolding update_authorization mem lookup
stale_link_grants_edit_example =
    stale_link_grants_edit world "raw1" "admin" "ann" (some "admin") wide waiting_system
      edited_system (link, row ("h1" ∷ []), bob) bobs_link refl refl refl refl
