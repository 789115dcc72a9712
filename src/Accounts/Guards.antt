-- ===== src/Accounts/Guards.antt =====
-- What the guard against the loss of the last superadmin counts: users.py.
pub mod Remain
pub mod Protect
use seyal_run.Prelude.{
  not-true, ℕ, zero, suc, ◌+◌, ◌-◌, ◌*◌, ◌/◌, ◌≤◌, ◌<◌, min, max, String, ◌≡◌, refl, sym, subst, ap,
  fun_ext, ◌∙◌, ◌≢◌, ◌↔◌, ◌⊎◌, inl, inr, Bool, true, false, not, ◌&&◌, ◌||◌, false≢true, Option,
  none, some, List, [], ◌∷◌, ◌++◌, map, arith, ◌==◌, eq_iff, eq_refl, ltb, leb, eqb, if◌then◌else◌,
  ltb→lt, leb→le, Bool-cases, Option-cases, is_some, or_else, and_true, or_true, length, drop, any,
  all, keep, null, length-append, length-drop, any-append, All, All-keep, any_mono, mem,
  after_prefix, strip, lower_is, first_segment, ends_with, strip_slashes, codes, upper_code,
  mem-append, mem-cons_self, keep_nil, all_of_mem, mem-keep, any_of_mem, Dict, lookup, insert,
  erase, keys, lookup-insert, lookup-erase, dict_laws, All-insert, Result, ok, err, ◌>>=◌, ◌>>◌,
  guard, some_injective, guard-eq-ok, ok-injective, bind-eq-ok, Result-cases,
}
use seyal_run.Rbac.{RoleDoc, doc_allows, methods_of, merge_roles}
use seyal_run.Rbac.Merge.{mem-merge_roles}
use seyal_run.Identity.Effective.{
  RoleTables, joined, role_names, direct_roles, granted_roles, effective_roles,
}
use seyal_run.Login.Provider.{role_named}
use seyal_run.Accounts.{
  Account, RoleRow, Directory, tables_of, superadmin_role_id, role_names_of, guard_superadmin_bind,
  guard_last_superadmin, target_is_superadmin, guard_superadmin_target, guard_grants_allpower,
  known, is_admin, effective_superadmin_count, firsts_with, firsts_in, holders, active_among,
}
use seyal_run.Accounts.Handlers.{
  with_group_roles, with_members, without_user, without_group, deactivated, set_group_roles,
  create_role, update_user, UserUpdate, is_sensitive, updated, with_update, delete_user,
  deprovision_user, delete_group, set_group_members, grants_super, truthy_id, reserved_role_names,
}

-- The row stands in the table.
abbrev pub IsRow : String → Account → Dict Account → Type 0
IsRow u a [] = ⊥
IsRow u a ((k, b) ∷ rows) = ((k ≡ u) × (b ≡ a)) ⊎ IsRow u a rows

-- Somebody can still act as a superadmin.
abbrev pub HasSuperadmin : Directory → Type 0
HasSuperadmin d =
    (u : String) × (a : Account) × IsRow u a d.accounts
    × (a.is_active ≡ true)
    × (mem "superadmin" (effective_roles (tables_of d) u) ≡ true)

named-role :
    (n sid : String) (rows : List (String × String))
    → role_named n rows ≡ some sid
    → mem n (joined (λ name. name ∷ []) sid rows) ≡ true
unfolding mem
named-role n sid [] h = cc
named-role n sid ((id, m) ∷ rows) h = elim (Bool-cases (m == n)) [
  | inl e ↦
      let same : id ≡ sid =
        some_injective (subst (λ b. (if b then some id else role_named n rows) ≡ some sid) e h) in
      ground (arith, same, eq_iff id sid, eq_iff n m, eq_iff m n, e)
  | inr e ↦
      let rest =
        named-role n sid rows
          (subst (λ b. (if b then some id else role_named n rows) ≡ some sid) e h) in
      ground (arith, rest)
]

mem-joined :
    (f : String → List String) (x k u : String) (rows : List (String × String))
    → mem x (f k) ≡ true
    → mem u (firsts_with k rows) ≡ true
    → mem x (joined f u rows) ≡ true
unfolding mem
mem-joined f x k u [] h m = cc
mem-joined f x k u ((a, b) ∷ rows) h m = ground (
  arith,
  h,
  m,
  eq_iff b k,
  eq_iff a u,
  eq_iff u a,
  mem-append x (f b) (joined f u rows),
  mem-joined f x k u rows h,
)

mem-joined_in :
    (f : String → List String) (x u : String) (ks : List String) (rows : List (String × String))
    → ((k : String) → mem k ks ≡ true → mem x (f k) ≡ true)
    → mem u (firsts_in ks rows) ≡ true
    → mem x (joined f u rows) ≡ true
unfolding mem
mem-joined_in f x u ks [] h m = cc
mem-joined_in f x u ks ((a, b) ∷ rows) h m = ground (
  arith,
  h b,
  m,
  eq_iff a u,
  eq_iff u a,
  mem-append x (f b) (joined f u rows),
  mem-joined_in f x u ks rows h,
)

holder-effective :
    (d : Directory) (sid u : String)
    → superadmin_role_id d ≡ some sid
    → mem u (holders sid d) ≡ true
    → mem "superadmin" (effective_roles (tables_of d) u) ≡ true
unfolding effective_roles direct_roles granted_roles
holder-effective d sid u e m =
    let t = tables_of d in
    let named : mem "superadmin" (role_names t sid) ≡ true = named-role "superadmin" sid _ e in
    let direct = mem-joined (role_names t) "superadmin" sid u d.user_roles named in
    let by_group =
      mem-joined_in (λ g. joined (role_names t) g d.group_roles) "superadmin" u
        (firsts_with sid d.group_roles) d.members
        (λ g. mem-joined (role_names t) "superadmin" sid g d.group_roles named) in
    ground (
      arith,
      m,
      direct,
      by_group,
      mem-append u (firsts_with sid d.user_roles)
          (firsts_in (firsts_with sid d.group_roles) d.members),
      mem-merge_roles "superadmin" (direct_roles t u) (granted_roles t u),
    )

some_active :
    (ids : List String) (rows : Dict Account)
    → eqb (active_among ids rows) 0 ≡ false
    → (u : String) × (a : Account) × IsRow u a rows × (a.is_active ≡ true) × (mem u ids ≡ true)
some_active ids [] h = cc
some_active ids ((k, b) ∷ rows) h = elim (Bool-cases (mem k ids && b.is_active)) [
  | inl e ↦ let (m, act) = and_true (mem k ids) b.is_active e in (k, b, inl (refl, refl), act, m)
  | inr e ↦
      let h' =
        subst
          (λ x. eqb (if x then suc (active_among ids rows) else active_among ids rows) 0 ≡ false) e
          h in
      let (u, a, row, act, m) = some_active ids rows h' in (u, a, inr row, act, m)
]

counted-HasSuperadmin :
    (d : Directory) → eqb (effective_superadmin_count d) 0 ≡ false → HasSuperadmin d
unfolding effective_superadmin_count
counted-HasSuperadmin d = elim (Option-cases (superadmin_role_id d)) [
  | inl e ↦ rw (effective_superadmin_count, e) λ h. cc
  | inr (sid, e) ↦
      rw (effective_superadmin_count, e)
        λ h.
          let (u, a, row, act, m) = some_active (holders sid d) d.accounts h in
          (u, a, row, act, holder-effective d sid u e m)
]

pub guarded-HasSuperadmin :
    (d t : Directory) → guard_last_superadmin d ≡ ok t → (d ≡ t) × HasSuperadmin d
guarded-HasSuperadmin d t h =
    let (g, e) = guard-eq-ok (not (eqb (effective_superadmin_count d) 0)) 409 _ h in
    (ok-injective e, counted-HasSuperadmin d (not-true _ g))
