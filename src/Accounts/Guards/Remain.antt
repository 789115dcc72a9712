-- ===== src/Accounts/Guards/Remain.antt =====
-- That the changes of users.py leave a superadmin.
use seyal_run.Prelude.{
  ℕ, String, ◌≡◌, subst, false, not, ◌&&◌, Option, none, some, List, [], ◌==◌, or_else, mem, lookup,
  Result, ok, guard-eq-ok, ok-injective, bind-eq-ok,
}
use seyal_run.Accounts.{
  Directory, superadmin_role_id, guard_superadmin_bind, guard_last_superadmin, target_is_superadmin,
  guard_superadmin_target, known, is_admin,
}
use seyal_run.Accounts.Handlers.{
  with_group_roles, with_members, without_user, without_group, deactivated, set_group_roles,
  update_user, UserUpdate, is_sensitive, updated, delete_user, deprovision_user, delete_group,
  set_group_members, grants_super, truthy_id,
}
use seyal_run.Accounts.Guards.{HasSuperadmin, guarded-HasSuperadmin}

-- The handlers of users.py that are guarded against taking the last superadmin away.
pub data Change : Type 0 where
  bind_group : String → String → List String → Change
  change_members : String → String → List String → Change
  change_user : String → String → UserUpdate → Change
  remove_user : String → Option String → String → Change
  deprovision : List String → String → Change
  remove_group : String → String → Change

abbrev pub run : Change → Directory → Result ℕ Directory
run (bind_group role group_id ids) d = set_group_roles role group_id ids d
run (change_members role group_id ids) d = set_group_members role group_id ids d
run (change_user role user_id p) d = update_user role user_id p d
run (remove_user role actor_id user_id) d = delete_user role actor_id user_id d
run (deprovision scopes user_id) d = deprovision_user scopes user_id d
run (remove_group role group_id) d = delete_group role group_id d

kept : (d t : Directory) → guard_last_superadmin d ≡ ok t → HasSuperadmin t
kept d t h = let (e, s) = guarded-HasSuperadmin d t h in subst HasSuperadmin e s

bind-kept :
    (role group_id : String) (ids : List String) (d t : Directory)
    → set_group_roles role group_id ids d ≡ ok t
    → HasSuperadmin t
unfolding set_group_roles
bind-kept role group_id ids d t h =
    let (_, h1) = guard-eq-ok (is_admin role) 403 _ h in
    let (_, _, h2) = bind-eq-ok (known (lookup group_id d.groups)) _ h1 in
    let (_, _, h3) = bind-eq-ok (guard_superadmin_bind ids (superadmin_role_id d) role) _ h2 in
    kept (with_group_roles group_id ids d) t h3

members-kept :
    (role group_id : String) (ids : List String) (d t : Directory)
    → set_group_members role group_id ids d ≡ ok t
    → HasSuperadmin t
unfolding set_group_members
members-kept role group_id ids d t h =
    let (_, h1) = guard-eq-ok (is_admin role) 403 _ h in
    let (_, _, h2) = bind-eq-ok (known (lookup group_id d.groups)) _ h1 in
    let (_, _, h3) = bind-eq-ok (guard_superadmin_target (grants_super group_id d) role) _ h2 in
    kept (with_members group_id ids d) t h3

update-kept :
    (role user_id : String) (p : UserUpdate) (d t : Directory)
    → update_user role user_id p d ≡ ok t
    → HasSuperadmin t
unfolding update_user
update-kept role user_id p d t h =
    let (_, h1) = guard-eq-ok (is_admin role) 403 _ h in
    let (a, _, h2) = bind-eq-ok (known (lookup user_id d.accounts)) _ h1 in
    let (_, _, h3) =
      bind-eq-ok (guard_superadmin_target (is_sensitive p && target_is_superadmin d user_id) role) _
        h2 in
    let (_, _, h4) =
      bind-eq-ok (guard_superadmin_bind (or_else p.role_ids []) (superadmin_role_id d) role) _ h3 in
    kept (updated user_id p a d) t h4

delete-kept :
    (role : String) (actor_id : Option String) (user_id : String) (d t : Directory)
    → delete_user role actor_id user_id d ≡ ok t
    → HasSuperadmin t
unfolding delete_user
delete-kept role actor_id user_id d t h =
    let (_, h1) = guard-eq-ok (role == "superadmin") 403 _ h in
    let (a, _, h2) = bind-eq-ok (known (lookup user_id d.accounts)) _ h1 in
    let (_, h3) = guard-eq-ok (not (truthy_id a.zabbix_userid)) 409 _ h2 in
    let (_, h4) =
      guard-eq-ok (not (elim actor_id [ none ↦ false | some i ↦ user_id == i ])) 400 _ h3 in
    kept (without_user user_id d) t h4

deprovision-kept :
    (scopes : List String) (user_id : String) (d t : Directory)
    → deprovision_user scopes user_id d ≡ ok t
    → HasSuperadmin t
unfolding deprovision_user
deprovision-kept scopes user_id d t h =
    let (_, h1) = guard-eq-ok (mem "deprovision" scopes) 403 _ h in
    let (a, _, h2) = bind-eq-ok (known (lookup user_id d.accounts)) _ h1 in
    let (d', e, h3) = bind-eq-ok (guard_last_superadmin (deactivated user_id a d)) _ h2 in
    subst HasSuperadmin (ok-injective h3) (kept (deactivated user_id a d) d' e)

group-kept :
    (role group_id : String) (d t : Directory)
    → delete_group role group_id d ≡ ok t
    → HasSuperadmin t
unfolding delete_group
group-kept role group_id d t h =
    let (_, h1) = guard-eq-ok (role == "superadmin") 403 _ h in
    let (g, _, h2) = bind-eq-ok (known (lookup group_id d.groups)) _ h1 in
    let (_, h3) = guard-eq-ok (not (truthy_id g.zabbix_usrgrpid)) 409 _ h2 in
    kept (without_group group_id d) t h3

-- Each of six handlers of users.py, which set the roles or the members of a group, update, delete
-- or deprovision an account, or delete a group, leaves an active account whose effective roles have
-- superadmin when it succeeds. The change of an account's role by a login through SSO or JumpServer
-- has no such guard and is not among them.
pub superadmin_remains : (c : Change) (d t : Directory) → run c d ≡ ok t → HasSuperadmin t
superadmin_remains (bind_group role group_id ids) d t h = bind-kept role group_id ids d t h
superadmin_remains (change_members role group_id ids) d t h = members-kept role group_id ids d t h
superadmin_remains (change_user role user_id p) d t h = update-kept role user_id p d t h
superadmin_remains (remove_user role actor_id user_id) d t h =
    delete-kept role actor_id user_id d t h
superadmin_remains (deprovision scopes user_id) d t h = deprovision-kept scopes user_id d t h
superadmin_remains (remove_group role group_id) d t h = group-kept role group_id d t h
