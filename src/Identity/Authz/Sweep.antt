-- ===== src/Identity/Authz/Sweep.antt =====
-- The housekeeping sweep of expired authorizations, beside the answers of authz_resolve.
use seyal_run.Prelude.{
  [], ℕ, ◌≤◌, String, ◌≡◌, refl, ap, inl, inr, true, false, List, ◌∷◌, map, arith, if◌then◌else◌,
  Bool-cases, length, any, keep,
}
use seyal_run.Identity.Authz.{
  Rule, in_window, qualifies, qualifying, authz_resolve, is_overdue, sweep_expired,
}

abbrev pub swept_rule : ℕ → Rule → Rule
swept_rule now rule =
    if is_overdue now rule then record rule { enabled = false; status = "expired" } else rule

sweep_expired-map :
    (now : ℕ) (rules : List Rule) → (sweep_expired now rules).0 ≡ map (swept_rule now) rules
unfolding sweep_expired
sweep_expired-map now [] = refl
sweep_expired-map now (rule ∷ rules) = elim (Bool-cases (is_overdue now rule)) [
  | inl e ↦ rw e (
      ap (λ xs. record rule { enabled = false; status = "expired" } ∷ xs)
        (sweep_expired-map now rules))
  | inr e ↦ rw e (ap (λ xs. rule ∷ xs) (sweep_expired-map now rules))
]

-- A rule that the sweep changes was outside its window already, and stays outside.
overdue-outside :
    (now later : ℕ) (rule : Rule)
    → now ≤ later
    → is_overdue now rule ≡ true
    → in_window later rule ≡ false
unfolding in_window is_overdue
overdue-outside now later rule h e = ground arith

module _ (hosts_in_groups : List String → List String) where
  overdue-qualifies :
      (now later : ℕ) (user : String) (groups : List String) (host : String) (rule : Rule)
      → now ≤ later
      → is_overdue now rule ≡ true
      → qualifies hosts_in_groups later user groups host rule ≡ false
  unfolding qualifies
  overdue-qualifies now later user groups host rule h e =
      rw (overdue-outside now later rule h e) refl

  qualifying-swept :
      (now later : ℕ) (user : String) (groups : List String) (host : String) (rules : List Rule)
      → now ≤ later
      → qualifying hosts_in_groups later user groups host (map (swept_rule now) rules)
        ≡ qualifying hosts_in_groups later user groups host rules
  unfolding qualifying
  qualifying-swept now later user groups host [] h = refl
  qualifying-swept now later user groups host (rule ∷ rules) h =
      elim (Bool-cases (is_overdue now rule)) [
        | inl e ↦
            rw (e, overdue-qualifies now later user groups host rule h e)
              (qualifying-swept now later user groups host rules h)
        | inr e ↦ rw (e, qualifying-swept now later user groups host rules h) refl
      ]

  -- The sweep changes no answer: at its time and at any later one, authz_resolve returns the same
  -- for the rules that it leaves as for the rules before it.
  pub sweep_keeps_answers :
      (now later : ℕ) (user : String) (groups : List String) (host : String) (rules : List Rule)
      → now ≤ later
      → authz_resolve hosts_in_groups later user groups host (sweep_expired now rules).0
        ≡ authz_resolve hosts_in_groups later user groups host rules
  unfolding authz_resolve
  sweep_keeps_answers now later user groups host rules h =
      rw (sweep_expired-map now rules, qualifying-swept now later user groups host rules h) refl

-- The number that the sweep reports is the number of overdue rules, and after it none is overdue.
pub sweep_expired-counts :
    (now : ℕ) (rules : List Rule)
    → ((sweep_expired now rules).1 ≡ length (keep (is_overdue now) rules))
      × (any (is_overdue now) (sweep_expired now rules).0 ≡ false)
unfolding sweep_expired
sweep_expired-counts now [] = (refl, refl)
sweep_expired-counts now (rule ∷ rules) =
    let (h, k) = sweep_expired-counts now rules in
    elim (Bool-cases (is_overdue now rule)) [
      | inl e ↦ rw (e) (omega (arith, h), k)
      | inr e ↦ rw (e) (h, rw (e) k)
    ]
