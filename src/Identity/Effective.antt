-- ===== src/Identity/Effective.antt =====
-- core/services/identity-service/app/rbacresolve.py: the roles that a user holds, by itself and
-- through its groups. The tables are lists of rows; the order of a join's rows is their order.
pub mod Bulk
use seyal_run.Prelude.{
  ℕ, zero, suc, ◌+◌, ◌-◌, ◌*◌, ◌/◌, ◌≤◌, ◌<◌, min, max, String, ◌≡◌, refl, sym, subst, ap, fun_ext,
  ◌∙◌, ◌≢◌, ◌↔◌, ◌⊎◌, inl, inr, Bool, true, false, not, ◌&&◌, ◌||◌, false≢true, Option, none, some,
  List, [], ◌∷◌, ◌++◌, map, arith, ◌==◌, eq_iff, eq_refl, ltb, leb, eqb, if◌then◌else◌, ltb→lt,
  leb→le, Bool-cases, Option-cases, is_some, or_else, and_true, or_true, length, drop, any, all,
  keep, null, length-append, length-drop, any-append, All, All-keep, any_mono, mem, after_prefix,
  strip, lower_is, first_segment, ends_with, strip_slashes, codes, upper_code, mem-append,
  mem-cons_self, keep_nil, all_of_mem, mem-keep, any_of_mem, Dict, lookup, insert, erase, keys,
  lookup-insert, lookup-erase, dict_laws, All-insert, Result, ok, err, ◌>>=◌, ◌>>◌, guard,
  guard-eq-ok, bind-eq-ok, Result-cases,
}
use seyal_run.Rbac.{authz_bypass, merge_roles}

-- za_roles as (id, name), za_user_roles as (user, role), za_user_group_members as (user, group)
-- and za_group_roles as (group, role).
pub record RoleTables : Type 0 where
  pub roles : List (String × String)
  pub user_roles : List (String × String)
  pub members : List (String × String)
  pub group_roles : List (String × String)

-- The rows of a join on a key, by their other column.
abbrev pub joined {ℓ} : {A : Type ℓ} → (String → List A) → String → List (String × String) → List A
joined f k [] = []
joined f k ((j, v) ∷ rows) = if j == k then f v ++ joined f k rows else joined f k rows

-- `ZARole.name` joined to a role's id
abbrev pub role_names : RoleTables → String → List String
role_names t role_id = joined (λ name. name ∷ []) role_id t.roles

unfoldable pub direct_roles : RoleTables → String → List String
direct_roles t user_id = joined (role_names t) user_id t.user_roles

unfoldable pub granted_roles : RoleTables → String → List String
granted_roles t user_id = joined (λ g. joined (role_names t) g t.group_roles) user_id t.members

unfoldable pub effective_roles : RoleTables → String → List String
unfolding direct_roles granted_roles
effective_roles t user_id = merge_roles (direct_roles t user_id) (granted_roles t user_id)

-- `.where(ZARole.name.in_(bypass_roles))`, on the names that are joined to a role's id
abbrev pub names_bypass : List String → Bool
names_bypass names = any (λ n. mem n authz_bypass) names

abbrev pub is_bypass_role : RoleTables → String → Bool
is_bypass_role t role_id = names_bypass (role_names t role_id)

abbrev pub grants_bypass : RoleTables → String → List (String × String) → Bool
grants_bypass t group_id [] = false
grants_bypass t group_id ((g, role_id) ∷ rows) =
    g == group_id && is_bypass_role t role_id || grants_bypass t group_id rows

-- The first column of the rows whose second passes a test.
abbrev pub users_where : (String → Bool) → List (String × String) → List String
users_where p [] = []
users_where p ((u, x) ∷ rows) = if p x then u ∷ users_where p rows else users_where p rows

unfoldable pub users_with_bypass_role : RoleTables → List String
users_with_bypass_role t =
    users_where (is_bypass_role t) t.user_roles
    ++ users_where (λ g. grants_bypass t g t.group_roles) t.members
