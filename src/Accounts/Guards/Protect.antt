-- ===== src/Accounts/Guards/Protect.antt =====
-- What a plain admin can change of superadmins and of roles: users.py.
use seyal_run.Prelude.{
  String, ◌≡◌, refl, subst, ap, ◌∙◌, inl, inr, Bool, true, false, not, ◌&&◌, ◌||◌, Option, none,
  some, [], ◌∷◌, arith, ◌==◌, eq_refl, Bool-cases, is_some, or_else, mem, lookup, insert,
  lookup-insert, ok, guard-eq-ok, ok-injective, bind-eq-ok,
}
use seyal_run.Rbac.{RoleDoc, doc_allows, methods_of}
use seyal_run.Login.Provider.{role_named}
use seyal_run.Accounts.{
  Account, RoleRow, Directory, superadmin_role_id, role_names_of, guard_superadmin_bind,
  target_is_superadmin, known, is_admin,
}
use seyal_run.Accounts.Handlers.{
  create_role, update_user, UserUpdate, is_sensitive, updated, with_update, reserved_role_names,
}
use seyal_run.Accounts.Guards.{guarded-HasSuperadmin}

-- What a plain admin cannot change of a superadmin's account.
abbrev pub IsUntouched : String → Account → Directory → Directory → Type 0
IsUntouched user_id a d t =
    (b : Account) × (lookup user_id t.accounts ≡ some b)
    × (b.password_hash ≡ a.password_hash)
    × (b.is_active ≡ a.is_active)
    × (b.role_id ≡ a.role_id)
    × (t.user_roles ≡ d.user_roles)

four_absent :
    (p q r s : Bool)
    → (p || (q || (r || s))) ≡ false
    → (p ≡ false) × (q ≡ false) × (r ≡ false) × (s ≡ false)
four_absent p q r s h = ground (arith, h)

absent : {A : Type 0} (o : Option A) → is_some o ≡ false → o ≡ none
absent none h = refl
absent (some a) h = cc

updated-IsUntouched :
    (user_id : String) (p : UserUpdate) (a : Account) (d : Directory)
    → is_sensitive p ≡ false
    → IsUntouched user_id a d (updated user_id p a d)
updated-IsUntouched user_id p a d h =
    let (pw, act, ids, id) = four_absent _ _ _ _ h in
    (
      with_update p a,
      rw (lookup-insert, eq_refl user_id) refl,
      rw (absent p.password_hash pw) refl,
      rw (absent p.is_active act) refl,
      rw (absent p.role_ids ids, absent p.role_id id) refl,
      rw (absent p.role_ids ids) refl,
    )

mild_update :
    (sensitive super top : Bool)
    → super ≡ true
    → top ≡ false
    → not (sensitive && super && not top) ≡ true
    → sensitive ≡ false
mild_update sensitive super top h k g = ground (arith, h, k, g)

-- An update_user by anybody but a superadmin, of an account whose effective roles have superadmin,
-- that succeeds leaves the account's password, its active flag, its legacy role and every direct
-- role as they were. Other handlers, such as deprovision_user and set_group_roles, are not covered.
pub superadmin_account-IsUntouched :
    (role user_id : String) (p : UserUpdate) (a : Account) (d t : Directory)
    → role == "superadmin" ≡ false
    → target_is_superadmin d user_id ≡ true
    → lookup user_id d.accounts ≡ some a
    → update_user role user_id p d ≡ ok t
    → IsUntouched user_id a d t
unfolding update_user
superadmin_account-IsUntouched role user_id p a d t plain super e h =
    let (_, h1) = guard-eq-ok (is_admin role) 403 _ h in
    let (a', ea, h2) = bind-eq-ok (known (lookup user_id d.accounts)) _ h1 in
    let same : a ≡ a' = ok-injective (subst (λ o. known o ≡ ok a') e ea) in
    let (g, h3) =
      guard-eq-ok
        (not (is_sensitive p && target_is_superadmin d user_id && not (role == "superadmin"))) 403 _
        h2 in
    let (_, _, h4) =
      bind-eq-ok (guard_superadmin_bind (or_else p.role_ids []) (superadmin_role_id d) role) _ h3 in
    let (left, _) = guarded-HasSuperadmin (updated user_id p a' d) t h4 in
    let mild : is_sensitive p ≡ false =
      mild_update (is_sensitive p) (target_is_superadmin d user_id) (role == "superadmin") super
        plain g in
    subst (IsUntouched user_id a d) (ap (λ x. updated user_id p x d) same ∙ left)
      (updated-IsUntouched user_id p a d mild)

abbrev pub wildcard : RoleDoc
wildcard = record { all = false; perms = ("*", "*" ∷ []) ∷ []; flags = [] }

wildcard_allows : (method seg : String) → doc_allows wildcard method seg ≡ true
unfolding doc_allows methods_of lookup mem
wildcard_allows method seg = elim (Bool-cases ("*" == seg)) [
  | inl e ↦ rw (doc_allows, methods_of, e) (ground arith)
  | inr e ↦ rw (doc_allows, methods_of, e) (ground arith)
]

abbrev with_wildcard : String → String → String → Directory → Directory
with_wildcard new_id name description d = record d {
  roles =
      insert new_id
        (record {
          name = name;
          description = description;
          permissions = wildcard;
          is_builtin = false;
        })
        d.roles;
}

-- The handler create_role lets a caller whose role header is `admin` create a role whose
-- permissions are the wildcard under the wildcard segment: its guard for all-access roles, which is
-- for superadmins only, does not see them, and that role permits every method on every segment. The
-- gateway passes such a request on only when a role of the caller grants POST on roles, which the
-- built-in role admin does not.
pub wildcard_role_created :
    (new_id name description : String) (d : Directory)
    → name == "" ≡ false
    → mem name reserved_role_names ≡ false
    → role_named name (role_names_of d.roles) ≡ none
    → (t : Directory) × (r : RoleRow) × (create_role "admin" new_id name description wildcard d
        ≡ ok t)
      × (lookup new_id t.roles ≡ some r)
      × ((method seg : String) → doc_allows r.permissions method seg ≡ true)
unfolding create_role
wildcard_role_created new_id name description d n m o = (
  with_wildcard new_id name description d,
  record { name = name; description = description; permissions = wildcard; is_builtin = false },
  rw (create_role, n, m, o) refl,
  rw (lookup-insert, eq_refl new_id) refl,
  wildcard_allows,
)
