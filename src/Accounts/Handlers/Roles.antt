-- ===== src/Accounts/Handlers/Roles.antt =====
-- The handlers of users.py on roles.
use seyal_run.Prelude.{
  ℕ, String, false, not, Option, none, some, List, [], ◌∷◌, ◌==◌, is_some, or_else, mem, lookup,
  insert, erase, Result, ok, ◌>>=◌, ◌>>◌, guard,
}
use seyal_run.Rbac.{RoleDoc}
use seyal_run.Login.Provider.{role_named}
use seyal_run.Accounts.{
  RoleRow, Directory, role_names_of, guard_grants_allpower, without_second, known, is_admin,
}

abbrev pub reserved_role_names : List String
reserved_role_names =
    "superadmin" ∷ "admin" ∷ "automation" ∷ "support" ∷ "audit" ∷ "guest" ∷ "user" ∷ []

-- `create_role`, on the name that was stripped and lowered, with the id of the new row
unfoldable pub create_role :
    String → String → String → String → RoleDoc → Directory → Result ℕ Directory
unfolding mem guard_grants_allpower insert
create_role actor_role new_id name description doc d =
    guard (is_admin actor_role) 403
    >> (guard_grants_allpower doc actor_role
        >> (guard (not (name == "")) 400
            >> (guard (not (mem name reserved_role_names)) 409
                >> (guard (not (is_some (role_named name (role_names_of d.roles)))) 409
                    >> ok (record d {
                      roles =
                          insert new_id
                            (record {
                              name = name;
                              description = description;
                              permissions = doc;
                              is_builtin = false;
                            })
                            d.roles;
                    })))))

abbrev pub new_permissions : RoleRow → Option RoleDoc → String → Result ℕ RoleRow
new_permissions r none actor_role = ok r
new_permissions r (some doc) actor_role =
    guard_grants_allpower doc actor_role >> ok (record r { permissions = doc })

-- `update_role`
unfoldable pub update_role :
    String → String → Option String → Option RoleDoc → Directory → Result ℕ Directory
unfolding lookup insert guard_grants_allpower
update_role actor_role role_id description doc d =
    guard (is_admin actor_role) 403
    >> (known (lookup role_id d.roles) >>= λ r.
        guard (not r.is_builtin) 403
        >> (new_permissions (record r { description = or_else description r.description }) doc
              actor_role
            >>= λ r'. ok (record d { roles = insert role_id r' d.roles })))

-- `delete_role`; the links of the role go with it.
unfoldable pub delete_role : String → String → Directory → Result ℕ Directory
unfolding lookup erase
delete_role actor_role role_id d =
    guard (is_admin actor_role) 403
    >> (known (lookup role_id d.roles) >>= λ r.
        guard (not r.is_builtin) 403
        >> ok (record d {
          roles = erase role_id d.roles;
          user_roles = without_second role_id d.user_roles;
          group_roles = without_second role_id d.group_roles;
        }))
