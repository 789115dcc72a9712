-- ===== src/Identity/Effective/Bulk.antt =====
-- The bulk query of rbacresolve.py beside the resolver that it stands for.
use seyal_run.Prelude.{
  String, ◌≡◌, refl, ap, fun_ext, ◌∙◌, ◌||◌, List, [], ◌∷◌, arith, eq_iff, any-append, mem,
  mem-append,
}
use seyal_run.Rbac.{authz_bypass, merge_roles, bypasses_authz}
use seyal_run.Rbac.Merge.{mem-merge_roles}
use seyal_run.Identity.Effective.{
  RoleTables, joined, role_names, direct_roles, granted_roles, effective_roles, names_bypass,
  grants_bypass, users_where, users_with_bypass_role,
}

bypass-names : (names : List String) → bypasses_authz names ≡ names_bypass names
unfolding bypasses_authz
bypass-names names = refl

names_bypass-mem :
    (names : List String) → names_bypass names ≡ (mem "superadmin" names || mem "admin" names)
unfolding mem
names_bypass-mem [] = refl
names_bypass-mem (n ∷ names) = ground (
  arith,
  names_bypass-mem names,
  eq_iff n "superadmin",
  eq_iff "superadmin" n,
  eq_iff n "admin",
  eq_iff "admin" n,
)

-- The empty name, that `merge_roles` drops, bypasses nothing.
names_bypass-merge_roles :
    (direct granted : List String)
    → names_bypass (merge_roles direct granted) ≡ (names_bypass direct || names_bypass granted)
names_bypass-merge_roles direct granted = ground (
  arith,
  names_bypass-mem (merge_roles direct granted),
  names_bypass-mem direct,
  names_bypass-mem granted,
  mem-merge_roles "superadmin" direct granted,
  mem-merge_roles "admin" direct granted,
)

-- A test of all the rows of a join, against the users that a bulk query selects by it.
names_bypass-joined :
    (f : String → List String) (u : String) (rows : List (String × String))
    → names_bypass (joined f u rows) ≡ mem u (users_where (λ x. names_bypass (f x)) rows)
unfolding mem
names_bypass-joined f u [] = refl
names_bypass-joined f u ((j, x) ∷ rows) = ground (
  arith,
  names_bypass-joined f u rows,
  any-append (λ n. mem n authz_bypass) (f x) (joined f u rows),
  eq_iff j u,
  eq_iff u j,
)

grants_bypass-joined :
    (t : RoleTables) (g : String) (rows : List (String × String))
    → names_bypass (joined (role_names t) g rows) ≡ grants_bypass t g rows
grants_bypass-joined t g [] = refl
grants_bypass-joined t g ((j, r) ∷ rows) = ground (
  arith,
  grants_bypass-joined t g rows,
  any-append (λ n. mem n authz_bypass) (role_names t r) (joined (role_names t) g rows),
)

-- The bulk query names exactly the users whose effective roles bypass the resource
-- authorizations, whatever the tables hold.
pub users_with_bypass_role_complete :
    (t : RoleTables) (user_id : String)
    → mem user_id (users_with_bypass_role t) ≡ bypasses_authz (effective_roles t user_id)
unfolding users_with_bypass_role effective_roles direct_roles granted_roles
users_with_bypass_role_complete t u =
    let by_group : (λ g. names_bypass (joined (role_names t) g t.group_roles))
        ≡ (λ g. grants_bypass t g t.group_roles) =
      fun_ext (λ g. grants_bypass-joined t g t.group_roles) in
    let indirect = names_bypass-joined (λ g. joined (role_names t) g t.group_roles) u t.members in
    let indirect' : names_bypass (granted_roles t u)
        ≡ mem u (users_where (λ g. grants_bypass t g t.group_roles) t.members) =
      indirect ∙ ap (λ p. mem u (users_where p t.members)) by_group in
    rw
      (
        mem-append,
        bypass-names,
        names_bypass-merge_roles,
        indirect',
        names_bypass-joined (role_names t) u t.user_roles,
      )
      refl
