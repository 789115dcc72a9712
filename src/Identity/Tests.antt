-- ===== src/Identity/Tests.antt =====
-- Runs of the lockout table and of the authorization rules.
use seyal_run.Prelude.{
  Bool, Option, ◌==◌, ◌+◌, ◌-◌, ◌*◌, ◌/◌, String, ◌≡◌, refl, true, ◌&&◌, none, some, List, [], ◌∷◌,
  arith, ltb, if◌then◌else◌, any, all, not, ◌||◌, mem, Dict, lookup,
}
use seyal_run.Rbac.{bypasses_authz}
use seyal_run.Identity.Effective.{RoleTables, effective_roles, users_with_bypass_role}
use seyal_run.Identity.Effective.Bulk.{users_with_bypass_role_complete}
use seyal_run.Identity.Lockout.{Attempt, Policy, second, check_locked, record_failure}
use seyal_run.Identity.Lockout.Counting.{fail_at, counting, steady_failures_lock}
use seyal_run.Identity.LoginAcl.{LoginAcl, Login}
use seyal_run.Identity.Authz.{Rule, qualifies, authz_resolve, sweep_expired}
use seyal_run.Identity.Authz.Best.{is_before, resolved_actions}
use seyal_run.Identity.Authz.Sweep.{sweep_keeps_answers}

abbrev policy : Policy
policy = record { max_failures = 3; lockout_seconds = 900; window_seconds = 300 }

abbrev key : String
key = "kumar|10.0.0.7"

-- One failure at 10 seconds.
abbrev one_failure_table : Dict Attempt
one_failure_table = (key, counting 1 10000000) ∷ []

steady_failures_lock_example :
    (check_locked (fail_at one_failure_table policy key (20000000 ∷ [])) 40000000 key ≡ none)
    × (check_locked
          (record_failure
            (fail_at one_failure_table policy key (20000000 ∷ []))
            30000000
            policy
            key)
          40000000
          key
        ≡ (if ltb 40000000 (30000000 + 900 * second)
            then some ((30000000 + 900 * second - 40000000) / second)
            else none))
unfolding lookup
steady_failures_lock_example =
    steady_failures_lock one_failure_table policy key 1 10000000 30000000 40000000 (20000000 ∷ [])
      refl (omega arith, tt) (omega arith) refl

locked_for :
    (if ltb 40000000 (30000000 + 900 * second)
      then some ((30000000 + 900 * second - 40000000) / second)
      else none)
    ≡ some 890
locked_for = refl

abbrev any_rule : Rule
any_rule = record {
  name = "rule";
  user_id = none;
  user_ids = [];
  user_group_id = none;
  user_group_ids = [];
  host_id = none;
  host_ids = [];
  host_group_id = none;
  host_group_ids = [];
  credential_id = none;
  credential_ids = [];
  actions = [];
  enabled = true;
  status = "active";
  date_start = none;
  date_expired = none;
}

-- A rule for the user on the host, and one for a group of users on a group of hosts.
abbrev direct_rule : Rule
direct_rule = record any_rule { user_id = some "u1"; host_ids = "web1" ∷ []; actions = "ssh" ∷ [] }

abbrev group_rule : Rule
group_rule = record any_rule {
  user_group_ids = "ops" ∷ [];
  host_group_id = some "web";
  credential_id = some "c1";
  actions = "ssh" ∷ "sftp" ∷ [];
  date_expired = some 50;
}

abbrev rules : List Rule
rules = group_rule ∷ direct_rule ∷ []

abbrev members : List String → List String
members groups = if mem "web" groups then "web1" ∷ "web2" ∷ [] else []

resolved_actions_example :
    mem "sftp" (authz_resolve members 20 "u1" ("ops" ∷ []) "web2" rules).actions
    ≡ any
        (λ rule.
          qualifies members 20 "u1" ("ops" ∷ []) "web2" rule
          && (all
                (λ other.
                  not (qualifies members 20 "u1" ("ops" ∷ []) "web2" other)
                  || is_before members "web2" rule other)
                rules
              && mem "sftp" rule.actions))
        rules
resolved_actions_example = resolved_actions members 20 "u1" ("ops" ∷ []) "web2" rules "sftp"

sftp_shadowed : (authz_resolve members 20 "u1" ("ops" ∷ []) "web1" rules).actions ≡ "ssh" ∷ []
unfolding authz_resolve
sftp_shadowed = refl

sweep_keeps_answers_example :
    authz_resolve members 70 "u1" ("ops" ∷ []) "web2" (sweep_expired 60 rules).0
    ≡ authz_resolve members 70 "u1" ("ops" ∷ []) "web2" rules
sweep_keeps_answers_example =
    sweep_keeps_answers members 60 70 "u1" ("ops" ∷ []) "web2" rules (omega arith)

abbrev any_acl : LoginAcl
any_acl = record {
  name = "any";
  user_id = none;
  user_group_id = none;
  enabled = true;
  ip_cidr = none;
  time_start = none;
  time_end = none;
  days_of_week = some (0 ∷ 1 ∷ 2 ∷ 3 ∷ 4 ∷ 5 ∷ 6 ∷ []);
  action = "allow";
}

-- Nobody at night, and user u2 at no time.
abbrev night_acl : LoginAcl
night_acl = record any_acl {
  name = "night";
  time_start = some 1320;
  time_end = some 360;
  action = "deny";
}

abbrev u2_acl : LoginAcl
u2_acl = record any_acl {
  name = "u2";
  user_id = some "u2";
  ip_cidr = some "10.0.0.0/8";
  action = "deny";
}

abbrev late_login : Login
late_login = record { user_id = "u2"; group_ids = []; ip = "10.0.0.7"; minute = 1380; weekday = 2 }

abbrev ten_network : String → String → Option Bool
ten_network ip cidr = some (cidr == "10.0.0.0/8")

abbrev role_tables : RoleTables
role_tables = record {
  roles = ("r1", "admin") ∷ ("r2", "support") ∷ [];
  user_roles = ("ann", "r2") ∷ [];
  members = ("ann", "g1") ∷ [];
  group_roles = ("g1", "r1") ∷ [];
}

users_with_bypass_role_complete_example :
    mem "ann" (users_with_bypass_role role_tables)
    ≡ bypasses_authz (effective_roles role_tables "ann")
users_with_bypass_role_complete_example = users_with_bypass_role_complete role_tables "ann"

ann_bypasses : mem "ann" (users_with_bypass_role role_tables) ≡ true
unfolding users_with_bypass_role mem
ann_bypasses = refl
