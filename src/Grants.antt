-- ===== src/Grants.antt =====
-- core/services/identity-service/app/api/authorizations.py: an authorization is asked for by one
-- administrator and decided by another, in the console or by a link in a mail. The tables
-- za_authorizations and za_authz_approval_tokens and the audit entries are one `System`; times are
-- in seconds.
pub mod Mail
pub mod Workflow
pub mod FourEyes
pub mod Links
mod Tests
use seyal_run.Prelude.{
  ℕ, zero, suc, ◌+◌, ◌-◌, ◌*◌, ◌/◌, ◌≤◌, ◌<◌, min, max, String, ◌≡◌, refl, sym, subst, ap, fun_ext,
  ◌∙◌, ◌≢◌, ◌↔◌, ◌⊎◌, inl, inr, Bool, true, false, not, ◌&&◌, ◌||◌, false≢true, Option, none, some,
  List, [], ◌∷◌, ◌++◌, map, arith, ◌==◌, eq_iff, eq_refl, ltb, leb, eqb, if◌then◌else◌, ltb→lt,
  leb→le, Bool-cases, Option-cases, is_some, or_else, and_true, or_true, length, drop, any, all,
  keep, null, length-append, length-drop, any-append, All, All-keep, any_mono, mem, after_prefix,
  strip, lower_is, first_segment, ends_with, strip_slashes, codes, upper_code, mem-append,
  mem-cons_self, keep_nil, all_of_mem, mem-keep, any_of_mem, Dict, lookup, insert, erase, keys,
  lookup-insert, lookup-erase, dict_laws, All-insert, Result, ok, err, ◌>>=◌, ◌>>◌, guard,
  guard-eq-ok, bind-eq-ok, Result-cases,
}
use seyal_run.Identity.Authz.{Rule, with_single, head, add_missing}
use seyal_run.Identity.Effective.{RoleTables}

-- The columns that authorize, and those of the approval.
pub record Authorization : Type 0 where
  pub rule : Rule
  pub requested_by : Option String
  pub approved_by : Option String
  pub approved_at : Option ℕ

pub record Token : Type 0 where
  pub id : String
  pub authorization_id : String
  pub approver_user_id : String
  pub action : String
  pub token_hash : String
  pub expires_at : ℕ
  pub used_at : Option ℕ

-- What log_action is called with: the actor, the action and the authorization.
pub record Entry : Type 0 where
  pub user_id : String
  pub action : String
  pub resource_id : String

pub record System : Type 0 where
  pub rows : Dict Authorization
  pub tokens : List Token
  pub log : List Entry

pub record Account : Type 0 where
  pub id : String
  pub email : Option String
  pub is_active : Bool

-- What a request reads: the clock, the platform settings, za_users and the role tables, the
-- hash of a raw token (SHA-256), the id and the raw token that are drawn for an approver and an
-- action, and whether the links are stored (an exception before that is only logged).
pub record World : Type 0 where
  pub now : ℕ
  pub default_ttl_days : ℕ
  pub exempt_roles : List String
  pub accounts : List Account
  pub tables : RoleTables
  pub digest : String → String
  pub drawn : String → String → String × String
  pub links_stored : Bool

abbrev pub day : ℕ
day = 86400

pub record Payload : Type 0 where
  pub name : String
  pub user_id : Option String
  pub user_ids : List String
  pub user_group_id : Option String
  pub user_group_ids : List String
  pub host_id : Option String
  pub host_ids : List String
  pub host_group_id : Option String
  pub host_group_ids : List String
  pub credential_id : Option String
  pub credential_ids : List String
  pub actions : List String
  pub date_start : Option ℕ
  pub date_expired : Option ℕ

-- `_merge`: the list, then the single value, each once.
unfoldable pub with_scalar : List String → Option String → List String
unfolding add_missing
with_scalar arr scalar = add_missing [] (arr ++ with_single scalar [])

unfoldable pub users_of : Payload → List String
unfolding with_scalar
users_of p = with_scalar p.user_ids p.user_id

unfoldable pub user_groups_of : Payload → List String
unfolding with_scalar
user_groups_of p = with_scalar p.user_group_ids p.user_group_id

unfoldable pub hosts_of : Payload → List String
unfolding with_scalar
hosts_of p = with_scalar p.host_ids p.host_id

unfoldable pub host_groups_of : Payload → List String
unfolding with_scalar
host_groups_of p = with_scalar p.host_group_ids p.host_group_id

unfoldable pub credentials_of_payload : Payload → List String
unfolding with_scalar
credentials_of_payload p = with_scalar p.credential_ids p.credential_id

abbrev pub is_exempt : World → Option String → Bool
is_exempt w none = false
is_exempt w (some role) = mem role w.exempt_roles

-- The rule that the payload describes, on or waiting.
unfoldable pub rule_of : World → Payload → Bool → Rule
unfolding users_of user_groups_of hosts_of host_groups_of credentials_of_payload
rule_of w p exempt = record {
  name = p.name;
  user_id = head (users_of p);
  user_ids = users_of p;
  user_group_id = head (user_groups_of p);
  user_group_ids = user_groups_of p;
  host_id = head (hosts_of p);
  host_ids = hosts_of p;
  host_group_id = head (host_groups_of p);
  host_group_ids = host_groups_of p;
  credential_id = head (credentials_of_payload p);
  credential_ids = credentials_of_payload p;
  actions = p.actions;
  enabled = exempt;
  status = if exempt then "active" else "pending_approval";
  date_start = p.date_start;
  date_expired = some (or_else p.date_expired (w.now + w.default_ttl_days * day));
}

abbrev pub has_subject : Payload → Bool
has_subject p = not (null (users_of p) && null (user_groups_of p))

abbrev pub has_object : Payload → Bool
has_object p = not (null (hosts_of p) && null (host_groups_of p))

abbrev pub submitted : World → Payload → String → Bool → Authorization
submitted w p actor_id exempt = record {
  rule = rule_of w p exempt;
  requested_by = some actor_id;
  approved_by = if exempt then some actor_id else none;
  approved_at = if exempt then some w.now else none;
}

-- `_apply_and_require_reapproval`
unfoldable pub apply : World → Payload → String → Option String → Result ℕ Authorization
unfolding rule_of
apply w p actor_id actor_role =
    guard (has_subject p) 400
    >> (guard (has_object p) 400 >> ok (submitted w p actor_id (is_exempt w actor_role)))

-- `deps.require_admin`, on the header X-User-Role
unfoldable pub is_admin : String → Bool
is_admin role = role == "admin" || role == "superadmin"

-- `if not actor_id: raise 401`
abbrev pub actor_of : Option String → Result ℕ String
actor_of none = err 401
actor_of (some a) = if a == "" then err 401 else ok a

abbrev pub found : Option Authorization → Result ℕ Authorization
found none = err 404
found (some a) = ok a

abbrev pub entry : String → String → String → Entry
entry user_id action resource_id = record {
  user_id = user_id;
  action = action;
  resource_id = resource_id;
}

-- The commit of a row, with its audit entry.
unfoldable pub commit : String → Authorization → Entry → System → System
unfolding insert
commit id a e s = record s { rows = insert id a s.rows; log = e ∷ s.log }

abbrev pub is_pending : Authorization → Bool
is_pending a = a.rule.status == "pending_approval"

-- The decision of an approver, on a row.
abbrev pub decided : ℕ → Bool → String → Authorization → Authorization
decided now approve approver a = record a {
  rule = record a.rule { enabled = approve; status = if approve then "active" else "rejected" };
  approved_by = some approver;
  approved_at = some now;
}

abbrev pub is_requester : String → Authorization → Bool
is_requester user_id a = elim a.requested_by [ none ↦ false | some r ↦ user_id == r ]

-- `approve_authorization` and `reject_authorization`
unfoldable pub decide : Bool → World → String → Option String → String → System → Result ℕ System
unfolding is_admin commit lookup
decide approve w role actor_id id s =
    guard (is_admin role) 403
    >> (actor_of actor_id >>= λ actor. found (lookup id s.rows) >>= λ a.
        guard (is_pending a) 400
        >> (guard (not (is_requester actor a)) 403
            >> ok (
                commit id (decided w.now approve actor a)
                  (entry actor (if approve then "authorization.approve" else "authorization.reject")
                    id)
                  s)))

-- `delete_authorization`; the links of the row go with it.
unfoldable pub delete_authorization : String → Option String → String → System → Result ℕ System
unfolding is_admin lookup erase
delete_authorization role actor_id id s =
    guard (is_admin role) 403
    >> (found (lookup id s.rows) >>= λ a. ok record {
      rows = erase id s.rows;
      tokens = keep (λ t. not (t.authorization_id == id)) s.tokens;
      log = entry (or_else actor_id "") "authorization.delete" id ∷ s.log;
    })
