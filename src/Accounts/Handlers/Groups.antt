-- ===== src/Accounts/Handlers/Groups.antt =====
-- The handlers of users.py on groups: their roles, policies, members and end.
use seyal_run.Prelude.{
  ℕ, String, Bool, false, not, none, some, List, [], ◌++◌, ◌==◌, mem, lookup, insert, erase, Result,
  ok, ◌>>=◌, ◌>>◌, guard,
}
use seyal_run.Identity.Authz.{add_missing}
use seyal_run.Accounts.Handlers.Users.{truthy_id}
use seyal_run.Accounts.{
  Directory, superadmin_role_id, guard_superadmin_bind, guard_last_superadmin,
  guard_superadmin_target, guard_group_mfa_enforce, without, without_second, each_to, links_anew,
  known, is_admin, effective_superadmin_count, firsts_with,
}

abbrev pub with_group_roles : String → List String → Directory → Directory
with_group_roles group_id role_ids d = record d {
  group_roles = links_anew group_id role_ids d.group_roles;
}

-- `set_group_roles`
unfoldable pub set_group_roles : String → String → List String → Directory → Result ℕ Directory
unfolding lookup guard_superadmin_bind links_anew effective_superadmin_count
set_group_roles actor_role group_id role_ids d =
    guard (is_admin actor_role) 403
    >> (known (lookup group_id d.groups) >>= λ g.
        guard_superadmin_bind role_ids (superadmin_role_id d) actor_role
        >> guard_last_superadmin (with_group_roles group_id role_ids d))

-- The new policies of a group.
pub record GroupPolicies : Type 0 where
  pub mfa_enforced : Bool
  pub setup_wizard : Bool
  pub notifications_enabled : Bool
  pub single_session_enabled : Bool
  pub ip_restriction_enabled : Bool

-- `set_group_policies`
unfoldable pub set_group_policies : String → String → GroupPolicies → Directory → Result ℕ Directory
unfolding lookup insert
set_group_policies actor_role group_id p d =
    guard (is_admin actor_role) 403
    >> (known (lookup group_id d.groups) >>= λ g.
        guard_group_mfa_enforce g.mfa_enforced p.mfa_enforced actor_role
        >> ok (record d {
          groups =
              insert group_id
                (record g {
                  mfa_enforced = p.mfa_enforced;
                  setup_wizard = p.setup_wizard;
                  notifications_enabled = p.notifications_enabled;
                  single_session_enabled = p.single_session_enabled;
                  ip_restriction_enabled = p.ip_restriction_enabled;
                })
                d.groups;
        }))

abbrev pub without_group : String → Directory → Directory
without_group group_id d = record d {
  groups = erase group_id d.groups;
  group_roles = without group_id d.group_roles;
  members = without_second group_id d.members;
}

-- `delete_group`
unfoldable pub delete_group : String → String → Directory → Result ℕ Directory
unfolding lookup erase effective_superadmin_count
delete_group actor_role group_id d =
    guard (actor_role == "superadmin") 403
    >> (known (lookup group_id d.groups) >>= λ g.
        guard (not (truthy_id g.zabbix_usrgrpid)) 409
        >> guard_last_superadmin (without_group group_id d))

-- Whether the group has the superadmin role.
abbrev pub grants_super : String → Directory → Bool
grants_super group_id d = elim (superadmin_role_id d) [
  | none ↦ false
  | some sid ↦ mem group_id (firsts_with sid d.group_roles)
]

abbrev pub with_members : String → List String → Directory → Directory
with_members group_id user_ids d = record d {
  members = without_second group_id d.members ++ each_to group_id (add_missing [] user_ids);
}

-- `set_group_members`
unfoldable pub set_group_members : String → String → List String → Directory → Result ℕ Directory
unfolding mem lookup add_missing effective_superadmin_count
set_group_members actor_role group_id user_ids d =
    guard (is_admin actor_role) 403
    >> (known (lookup group_id d.groups) >>= λ g.
        guard_superadmin_target (grants_super group_id d) actor_role
        >> guard_last_superadmin (with_members group_id user_ids d))
