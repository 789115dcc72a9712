-- ===== src/Accounts/Handlers/Users.antt =====
-- The handlers of users.py on accounts: create, update, delete, deprovision and reset.
use seyal_run.Prelude.{
  ℕ, String, Bool, true, false, not, ◌&&◌, ◌||◌, Option, none, some, List, [], ◌∷◌, ◌++◌, ◌==◌,
  if◌then◌else◌, is_some, or_else, null, mem, Dict, lookup, insert, erase, Result, ok, ◌>>=◌, ◌>>◌,
  guard,
}
use seyal_run.Identity.Authz.{head}
use seyal_run.Accounts.{
  Account, Directory, superadmin_role_id, guard_superadmin_bind, guard_last_superadmin,
  target_is_superadmin, guard_superadmin_target, without, links_anew, known, is_admin,
  effective_superadmin_count,
}

pub record UserCreate : Type 0 where
  pub username : String
  pub display_name : String
  pub email : String
  pub password_hash : String
  pub role_id : Option String
  pub role_ids : List String
  pub is_service_account : Bool

abbrev pub truthy_list : Option String → List String
truthy_list none = []
truthy_list (some x) = if x == "" then [] else x ∷ []

abbrev pub roles_asked : UserCreate → List String
roles_asked p = if null p.role_ids then truthy_list p.role_id else p.role_ids

abbrev pub username_taken : String → Dict Account → Bool
username_taken name [] = false
username_taken name ((id, a) ∷ rows) = a.username == name || username_taken name rows

-- `create_user`; the hash of the password stands in the payload.
unfoldable pub create_user : String → String → UserCreate → Directory → Result ℕ Directory
unfolding guard_superadmin_bind insert links_anew
create_user actor_role new_id p d =
    guard (is_admin actor_role) 403
    >> (guard (not (username_taken p.username d.accounts)) 409
        >> (guard_superadmin_bind (roles_asked p) (superadmin_role_id d) actor_role
            >> ok (record d {
              accounts =
                  insert new_id
                    (record {
                      username = p.username;
                      display_name = p.display_name;
                      email = p.email;
                      zabbix_userid = none;
                      role_id = head (truthy_list p.role_id ++ roles_asked p);
                      password_hash = p.password_hash;
                      is_active = true;
                      totp_secret = "";
                      totp_enabled = false;
                      mfa_method = none;
                      allowed_ips = [];
                      ip_restriction_enabled = false;
                      single_session_enabled = false;
                      is_service_account = p.is_service_account;
                    })
                    d.accounts;
              user_roles =
                  if null (roles_asked p)
                  then d.user_roles
                  else links_anew new_id (roles_asked p) d.user_roles;
            })))

-- A field is absent where the caller leaves it out; `password_hash` is absent for an empty password.
pub record UserUpdate : Type 0 where
  pub display_name : Option String
  pub email : Option String
  pub role_id : Option String
  pub role_ids : Option (List String)
  pub is_active : Option Bool
  pub password_hash : Option String
  pub allowed_ips : Option (List String)
  pub ip_restriction_enabled : Option Bool
  pub single_session_enabled : Option Bool
  pub is_service_account : Option Bool

-- Whether the update touches what a superadmin target is protected in.
abbrev pub is_sensitive : UserUpdate → Bool
is_sensitive p =
    is_some p.password_hash || (is_some p.is_active || (is_some p.role_ids || is_some p.role_id))

abbrev pub with_update : UserUpdate → Account → Account
with_update p a = record a {
  display_name = or_else p.display_name a.display_name;
  email = or_else p.email a.email;
  role_id = elim p.role_ids [
    | some ids ↦ head ids
    | none ↦ elim p.role_id [ some r ↦ some r | none ↦ a.role_id ]
  ];
  is_active = or_else p.is_active a.is_active;
  password_hash = or_else p.password_hash a.password_hash;
  allowed_ips = or_else p.allowed_ips a.allowed_ips;
  ip_restriction_enabled = or_else p.ip_restriction_enabled a.ip_restriction_enabled;
  single_session_enabled = or_else p.single_session_enabled a.single_session_enabled;
  is_service_account = or_else p.is_service_account a.is_service_account;
}

abbrev pub with_links : String → UserUpdate → List (String × String) → List (String × String)
with_links user_id p rows = elim p.role_ids [ none ↦ rows | some ids ↦ links_anew user_id ids rows ]

abbrev pub updated : String → UserUpdate → Account → Directory → Directory
updated user_id p a d = record d {
  accounts = insert user_id (with_update p a) d.accounts;
  user_roles = with_links user_id p d.user_roles;
}

-- `update_user`
unfoldable pub update_user : String → String → UserUpdate → Directory → Result ℕ Directory
unfolding lookup insert target_is_superadmin guard_superadmin_bind links_anew
    effective_superadmin_count
update_user actor_role user_id p d =
    guard (is_admin actor_role) 403
    >> (known (lookup user_id d.accounts) >>= λ a.
        guard_superadmin_target (is_sensitive p && target_is_superadmin d user_id) actor_role
        >> (guard_superadmin_bind (or_else p.role_ids []) (superadmin_role_id d) actor_role
            >> guard_last_superadmin (updated user_id p a d)))

abbrev pub truthy_id : Option String → Bool
truthy_id none = false
truthy_id (some x) = not (x == "")

abbrev pub without_user : String → Directory → Directory
without_user user_id d = record d {
  accounts = erase user_id d.accounts;
  user_roles = without user_id d.user_roles;
  members = without user_id d.members;
}

-- `delete_user`
unfoldable pub delete_user : String → Option String → String → Directory → Result ℕ Directory
unfolding lookup erase effective_superadmin_count
delete_user actor_role actor_id user_id d =
    guard (actor_role == "superadmin") 403
    >> (known (lookup user_id d.accounts) >>= λ a.
        guard (not (truthy_id a.zabbix_userid)) 409
        >> (guard (not (elim actor_id [ none ↦ false | some i ↦ user_id == i ])) 400
            >> guard_last_superadmin (without_user user_id d)))

abbrev pub deactivated : String → Account → Directory → Directory
deactivated user_id a d = record d {
  accounts = insert user_id (record a { is_active = false }) d.accounts;
}

-- `deprovision_user`, on the scopes of the caller's token; the answer of the terminal service is
-- not read.
unfoldable pub deprovision_user : List String → String → Directory → Result ℕ Directory
unfolding mem lookup insert effective_superadmin_count
deprovision_user scopes user_id d =
    guard (mem "deprovision" scopes) 403
    >> (known (lookup user_id d.accounts) >>= λ a.
        guard_last_superadmin (deactivated user_id a d) >>= λ d'.
        ok (record d' { terminated = user_id ∷ d'.terminated }))

-- `reset_user_mfa`
unfoldable pub reset_user_mfa : String → String → Directory → Result ℕ Directory
unfolding lookup insert
reset_user_mfa actor_role user_id d =
    guard (actor_role == "superadmin") 403
    >> (known (lookup user_id d.accounts) >>= λ a. ok (record d {
      accounts =
          insert user_id (record a { totp_secret = ""; totp_enabled = false; mfa_method = none })
            d.accounts;
    }))
