-- ===== src/Rbac/Merge.antt =====
-- What `merge_roles` returns: the union of its lists, each role once, the strongest first.
use seyal_run.Prelude.{
  [], ◌∙◌, Bool, String, ◌≡◌, refl, ap, fun_ext, not, ◌&&◌, ◌||◌, List, ◌∷◌, ◌++◌, arith, ◌==◌,
  eq_iff, keep, mem, mem-append, mem-keep,
}
use seyal_run.Rbac.{dedup, merge_roles, precedence, primary_role, head_or}

mem-dedup :
    (x : String) (seen rs : List String)
    → mem x (dedup seen rs) ≡ (mem x seen || (not (x == "") && mem x rs))
unfolding dedup mem
mem-dedup x seen [] = ground arith
mem-dedup x seen (r ∷ rs) = ground (
  arith,
  mem-dedup x seen rs,
  mem-dedup x (seen ++ r ∷ []) rs,
  mem-append x seen (r ∷ []),
  eq_iff x r,
  eq_iff x "",
  eq_iff r "",
)

-- The merged list holds a role exactly when it is not the empty text and one of the two lists
-- holds it.
pub mem-merge_roles :
    (x : String) (direct group_roles : List String)
    → mem x (merge_roles direct group_roles)
      ≡ (not (x == "") && (mem x direct || mem x group_roles))
unfolding merge_roles
mem-merge_roles x direct group_roles =
    let seen = dedup [] (direct ++ group_roles) in
    ground (
      arith,
      mem-append x (keep (λ r. mem r seen) precedence) (keep (λ r. not (mem r precedence)) seen),
      mem-keep (λ r. mem r seen) x precedence,
      mem-keep (λ r. not (mem r precedence)) x seen,
      mem-dedup x [] (direct ++ group_roles),
      mem-append x direct group_roles,
    )

module _ (direct group_roles : List String) where
  abbrev merged : List String
  merged = merge_roles direct group_roles

  abbrev seen : List String
  seen = dedup [] (direct ++ group_roles)

  same_members : ◌≡◌ {A = String → Bool} (λ r. mem r merged) (λ r. mem r seen)
  unfolding mem
  same_members = fun_ext λ r. ground (
    arith,
    mem-merge_roles r direct group_roles,
    mem-dedup r [] (direct ++ group_roles),
    mem-append r direct group_roles,
  )

  head_of_ranked :
      (ranked tail : List String) (x : String) (xs : List String)
      → ranked ++ tail ≡ x ∷ xs
      → head_or ranked (head_or (x ∷ xs) "user") ≡ x
  head_of_ranked [] tail x xs e = refl
  head_of_ranked (y ∷ ys) tail x xs e = cc

  -- The first role of a merged list is its primary role: the gateway takes `roles[0]` for it.
  pub primary_role-merge_roles :
      (x : String) (xs : List String) → merged ≡ x ∷ xs → primary_role merged ≡ x
  unfolding primary_role merge_roles
  primary_role-merge_roles x xs e =
      ap (λ (p : String → Bool). head_or (keep p precedence) (head_or merged "user")) same_members
      ∙ ap (λ l. head_or (keep (λ r. mem r seen) precedence) (head_or l "user")) e
      ∙ head_of_ranked (keep (λ r. mem r seen) precedence) _ x xs e
