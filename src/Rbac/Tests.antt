-- ===== src/Rbac/Tests.antt =====
-- Runs of libs/rbaccore on the built-in roles.
use seyal_run.Prelude.{◌≡◌, refl, [], ◌∷◌, mem}
use seyal_run.Rbac.{dedup, merge_roles}

merged_order :
    merge_roles ("user" ∷ "auditor" ∷ []) ("" ∷ "admin" ∷ "user" ∷ [])
    ≡ "admin" ∷ "user" ∷ "auditor" ∷ []
unfolding merge_roles dedup mem
merged_order = refl
