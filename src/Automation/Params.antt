-- ===== src/Automation/Params.antt =====
-- The parameters of a caller that filter_caller_params accepts: _params.py.
use seyal_run.Prelude.{
  [], String, ◌≡◌, refl, sym, subst, ap, ◌∙◌, inl, inr, true, false, not, Option, none, some, List,
  ◌∷◌, arith, ◌==◌, eq_iff, if◌then◌else◌, Bool-cases, is_some, keep, null, mem, keep_nil, Dict,
  lookup, insert, keys, lookup-insert, ok, guard-eq-ok,
}
use seyal_run.Automation.{
  Param, merge, Template, reserved_param_keys, allowed_param_keys_for, is_control,
  filter_caller_params,
}

mem-keys : (k : String) (d : Dict Param) → is_some (lookup k d) ≡ mem k (keys d)
unfolding lookup keys mem
mem-keys k [] = refl
mem-keys k ((j, v) ∷ d) = ground (arith, eq_iff j k, eq_iff k j, mem-keys k d)

null-nil : (xs : List String) → null xs ≡ true → xs ≡ []
null-nil [] h = refl
null-nil (x ∷ xs) h = cc

-- What an accepted dict is: the supplied one, each key of it free of the three rules.
pub accepted-keys :
    (tmpl : Template) (supplied accepted : Dict Param) (k : String)
    → filter_caller_params tmpl supplied ≡ ok accepted
    → mem k (keys supplied) ≡ true
    → (mem k reserved_param_keys ≡ false)
      × ((is_control k ≡ false) × (mem k (allowed_param_keys_for tmpl) ≡ true))
unfolding filter_caller_params
accepted-keys tmpl supplied accepted k h g =
    let (a, h1) =
      guard-eq-ok (null (keep (λ j. mem j reserved_param_keys) (keys supplied))) _ _ h in
    let (b, h2) = guard-eq-ok (null (keep is_control (keys supplied))) _ _ h1 in
    let (c, _) =
      guard-eq-ok (null (keep (λ j. not (mem j (allowed_param_keys_for tmpl))) (keys supplied))) _ _
        h2 in
    (
      keep_nil (λ j. mem j reserved_param_keys) k (keys supplied) (null-nil _ a) g,
      (
        keep_nil is_control k (keys supplied) (null-nil _ b) g,
        ground (
          arith,
          keep_nil (λ j. not (mem j (allowed_param_keys_for tmpl))) k (keys supplied) (null-nil _ c)
              g,
        ),
      ),
    )

accepted-same :
    (tmpl : Template) (supplied accepted : Dict Param)
    → filter_caller_params tmpl supplied ≡ ok accepted
    → accepted ≡ supplied
unfolding filter_caller_params
accepted-same tmpl supplied accepted h =
    let (_, h1) =
      guard-eq-ok (null (keep (λ j. mem j reserved_param_keys) (keys supplied))) _ _ h in
    let (_, h2) = guard-eq-ok (null (keep is_control (keys supplied))) _ _ h1 in
    let (_, h3) =
      guard-eq-ok (null (keep (λ j. not (mem j (allowed_param_keys_for tmpl))) (keys supplied))) _ _
        h2 in
    cc

some_absurd : (v : Param) → some v ≡ none → ⊥
some_absurd v h = cc

none_of : (o : Option Param) → is_some o ≡ false → o ≡ none
none_of none h = refl
none_of (some v) h = cc

lookup-cons_none :
    (k j : String) (v : Param) (b : Dict Param)
    → lookup k ((j, v) ∷ b) ≡ none
    → ((j == k) ≡ false) × (lookup k b ≡ none)
unfolding lookup
lookup-cons_none k j v b h = elim (Bool-cases (j == k)) [
  | inl e ↦ elim (some_absurd v (subst (λ t. (if t then some v else lookup k b) ≡ none) e h)) [ ]
  | inr e ↦ (e, subst (λ t. (if t then some v else lookup k b) ≡ none) e h)
]

pub lookup-merge-none :
    (k : String) (a b : Dict Param) → lookup k b ≡ none → lookup k (merge a b) ≡ lookup k a
unfolding merge
lookup-merge-none k a [] h = refl
lookup-merge-none k a ((j, v) ∷ b) h =
    let (g, rest) = lookup-cons_none k j v b h in
    lookup-merge-none k (insert j v a) b rest ∙ rw (lookup-insert j k v a, g) refl

reserved-absent :
    (tmpl : Template) (supplied accepted : Dict Param) (k : String)
    → filter_caller_params tmpl supplied ≡ ok accepted
    → mem k reserved_param_keys ≡ true
    → mem k (keys accepted) ≡ false
reserved-absent tmpl supplied accepted k h r = elim (Bool-cases (mem k (keys accepted))) [
  | inl e ↦
      let e' = ap (λ d. mem k (keys d)) (sym (accepted-same tmpl supplied accepted h)) ∙ e in
      let (free, _) = accepted-keys tmpl supplied accepted k h e' in cc
  | inr e ↦ e
]

-- Parameters of a caller that are accepted leave the two keys that select the code as they are in
-- the defaults.
pub lookup-accepted :
    (tmpl : Template) (supplied accepted : Dict Param) (k : String)
    → filter_caller_params tmpl supplied ≡ ok accepted
    → mem k reserved_param_keys ≡ true
    → lookup k (merge tmpl.default_params accepted) ≡ lookup k tmpl.default_params
lookup-accepted tmpl supplied accepted k h r = lookup-merge-none k tmpl.default_params accepted (
    none_of (lookup k accepted)
      (mem-keys k accepted ∙ reserved-absent tmpl supplied accepted k h r))
