-- ===== src/Identity/Authz/Best.antt =====
-- What authz_resolve grants: the rules of the best rank, and no others.
use seyal_run.Prelude.{
  [], ℕ, ◌≤◌, min, String, ◌≡◌, refl, sym, ap, fun_ext, ◌∙◌, inl, inr, Bool, true, not,
  if◌then◌else◌, and_true, all, ◌&&◌, ◌||◌, none, some, List, ◌∷◌, ◌++◌, arith, eq_iff, leb, eqb,
  Bool-cases, Option-cases, is_some, any, All, any_mono, mem, mem-append,
}
use seyal_run.Identity.Authz.{
  Rule, qualifies, qualifying, rank, rule_hosts, least, min_rank, add_missing, union_at,
  union_best_rank_actions, first_at, authz_resolve, answer, has_credential, covers_by_group,
}

-- Some rule of the list at this rank allows the action.
abbrev pub allowed_at : ℕ → String → List (ℕ × Rule) → Bool
allowed_at best act ranked = any (λ entry. eqb entry.0 best && mem act entry.1.actions) ranked

mem-add_missing :
    (act : String) (acts out : List String)
    → mem act (add_missing out acts) ≡ (mem act out || mem act acts)
unfolding mem add_missing
mem-add_missing act [] out = ground arith
mem-add_missing act (a ∷ acts) out = elim (Bool-cases (mem a out)) [
  | inl h ↦ rw h (ground (arith, mem-add_missing act acts out, eq_iff act a))
  | inr h ↦ rw h (
      ground (
        arith,
        mem-add_missing act acts (out ++ (a ∷ [])),
        mem-append act out (a ∷ []),
        eq_iff act a,
      ))
]

mem-union_at :
    (best : ℕ) (act : String) (ranked : List (ℕ × Rule)) (out : List String)
    → mem act (union_at best out ranked) ≡ (mem act out || allowed_at best act ranked)
unfolding union_at
mem-union_at best act [] out = ground arith
mem-union_at best act ((r, rule) ∷ rest) out = elim (Bool-cases (eqb r best)) [
  | inl h ↦ rw h (
      ground (
        arith,
        mem-union_at best act rest (add_missing out rule.actions),
        mem-add_missing act rule.actions out,
      ))
  | inr h ↦ rw h (ground (arith, mem-union_at best act rest out))
]

least-lower :
    (m : ℕ) (ranked : List (ℕ × Rule))
    → (least m ranked ≤ m) × All (λ entry. least m ranked ≤ entry.0) ranked
least-lower m [] = (omega arith, tt)
least-lower m ((r, rule) ∷ rest) =
    let (h, k) = least-lower (min m r) rest in (omega (arith, h), (omega (arith, h), k))

min_rank-lower : (ranked : List (ℕ × Rule)) → All (λ entry. min_rank ranked ≤ entry.0) ranked
min_rank-lower [] = tt
min_rank-lower ((r, rule) ∷ rest) = least-lower r rest

All-below :
    (b m : ℕ) (ranked : List (ℕ × Rule))
    → All (λ entry. m ≤ entry.0) ranked
    → any (λ entry. leb entry.0 b) ranked ≡ true
    → m ≤ b
All-below b m [] a h = ground arith
All-below b m ((r, rule) ∷ rest) (k, a) h = ground (arith, k, All-below b m rest a)

-- An entry of rank b or less bounds the least rank.
min_rank-below :
    (b : ℕ) (ranked : List (ℕ × Rule))
    → any (λ entry. leb entry.0 b) ranked ≡ true
    → min_rank ranked ≤ b
min_rank-below b ranked h = All-below b (min_rank ranked) ranked (min_rank-lower ranked) h

first_at-allowed :
    (best : ℕ) (act : String) (ranked : List (ℕ × Rule))
    → allowed_at best act ranked ≡ true
    → is_some (first_at best ranked) ≡ true
first_at-allowed best act [] h = ground arith
first_at-allowed best act ((r, rule) ∷ rest) h = ground (arith, first_at-allowed best act rest)

answer-none :
    (ranked : List (ℕ × Rule))
    → first_at (min_rank ranked) ranked ≡ none
    → (answer ranked).actions ≡ []
unfolding answer
answer-none ranked e = rw (answer, e) refl

answer-some :
    (ranked : List (ℕ × Rule)) (best : Rule)
    → first_at (min_rank ranked) ranked ≡ some best
    → (answer ranked).actions ≡ union_at (min_rank ranked) [] ranked
unfolding answer union_best_rank_actions
answer-some ranked best e = rw (answer, e) refl

answer-actions :
    (ranked : List (ℕ × Rule)) (act : String)
    → mem act (answer ranked).actions ≡ allowed_at (min_rank ranked) act ranked
unfolding mem
answer-actions ranked act = elim (Option-cases (first_at (min_rank ranked) ranked)) [
  | inl e ↦
      rw (answer-none ranked e)
        (ground (arith, ap (λ o. is_some o) e, first_at-allowed (min_rank ranked) act ranked))
  | inr (best, e) ↦ rw (answer-some ranked best e) (mem-union_at (min_rank ranked) act ranked [])
]

any_congr :
    (P f g : ℕ × Rule → Bool) (xs : List (ℕ × Rule))
    → ((x : ℕ × Rule) → P x ≡ true → f x ≡ g x)
    → all P xs ≡ true
    → any f xs ≡ any g xs
any_congr P f g [] h a = refl
any_congr P f g (x ∷ xs) h a =
    let (b, c) = and_true _ _ a in rw (h x b, any_congr P f g xs h c) refl

all-least :
    (r m : ℕ) (ranked : List (ℕ × Rule))
    → leb r (least m ranked) ≡ (leb r m && all (λ o. leb r o.0) ranked)
all-least r m [] = ground arith
all-least r m ((k, rule) ∷ rest) = ground (arith, all-least r (min m k) rest)

all-lower :
    (m : ℕ) (ranked : List (ℕ × Rule))
    → All (λ entry. m ≤ entry.0) ranked
    → all (λ entry. leb m entry.0) ranked ≡ true
all-lower m [] a = refl
all-lower m (x ∷ rest) (h, a) = ground (arith, h, all-lower m rest a)

allowed-first :
    (act : String) (ranked : List (ℕ × Rule))
    → allowed_at (min_rank ranked) act ranked
      ≡ any (λ entry. all (λ o. leb entry.0 o.0) ranked && mem act entry.1.actions) ranked
allowed-first act [] = refl
allowed-first act ((r, rule) ∷ rest) =
    any_congr (λ x. leb (least r rest) x.0)
      (λ entry. eqb entry.0 (least r rest) && mem act entry.1.actions)
      (λ entry. all (λ o. leb entry.0 o.0) ((r, rule) ∷ rest) && mem act entry.1.actions)
      ((r, rule) ∷ rest) (λ x h. ground (arith, h, all-least x.0 r rest))
      (all-lower (least r rest) ((r, rule) ∷ rest) (min_rank-lower ((r, rule) ∷ rest)))

module _ (hosts_in_groups : List String → List String) where
  -- Every entry of the qualifying list is a rule that qualifies, with its rank.
  pub qualifying-entry :
      (p : ℕ × Rule → Bool) (now : ℕ) (user : String) (groups : List String) (host : String)
      (rules : List Rule)
      → any p (qualifying hosts_in_groups now user groups host rules)
        ≡ any
            (λ rule.
              qualifies hosts_in_groups now user groups host rule
              && p (rank hosts_in_groups host rule, rule))
            rules
  unfolding qualifying
  qualifying-entry p now user groups host [] = refl
  qualifying-entry p now user groups host (rule ∷ rules) =
      elim (Bool-cases (qualifies hosts_in_groups now user groups host rule)) [
        | inl e ↦ rw e (ground (arith, qualifying-entry p now user groups host rules))
        | inr e ↦ rw e (ground (arith, qualifying-entry p now user groups host rules))
      ]

  qualifying-every :
      (p : ℕ × Rule → Bool) (now : ℕ) (user : String) (groups : List String) (host : String)
      (rules : List Rule)
      → all p (qualifying hosts_in_groups now user groups host rules)
        ≡ all
            (λ rule.
              not (qualifies hosts_in_groups now user groups host rule)
              || p (rank hosts_in_groups host rule, rule))
            rules
  unfolding qualifying
  qualifying-every p now user groups host [] = refl
  qualifying-every p now user groups host (rule ∷ rules) =
      elim (Bool-cases (qualifies hosts_in_groups now user groups host rule)) [
        | inl e ↦ rw e (ground (arith, qualifying-every p now user groups host rules))
        | inr e ↦ rw e (ground (arith, qualifying-every p now user groups host rules))
      ]

  -- The rule has a credential, and covers the host by name or by a group.
  abbrev pub is_armed : String → Rule → Bool
  is_armed host rule =
      has_credential rule
      && (mem host (rule_hosts rule) || covers_by_group hosts_in_groups host rule)

  -- A rule that names the host comes before one that does not; among two of a kind, one with a
  -- credential comes first, and two alike stand level.
  abbrev pub is_before : String → Rule → Rule → Bool
  is_before host a b =
      if mem host (rule_hosts a)
      then not (mem host (rule_hosts b)) || (is_armed host a || not (is_armed host b))
      else not (mem host (rule_hosts b)) && (is_armed host a || not (is_armed host b))

  rank-before :
      (host : String) (a b : Rule)
      → leb (rank hosts_in_groups host a) (rank hosts_in_groups host b) ≡ is_before host a b
  unfolding rank
  rank-before host a b = ground arith

  -- A rule is at the least rank when it comes before every rule that qualifies.
  first-before :
      (now : ℕ) (user : String) (groups : List String) (host : String) (rules : List Rule)
      (rule : Rule)
      → all
          (λ o. leb (rank hosts_in_groups host rule) o.0)
          (qualifying hosts_in_groups now user groups host rules)
        ≡ all
            (λ other.
              not (qualifies hosts_in_groups now user groups host other)
              || is_before host rule other)
            rules
  first-before now user groups host rules rule =
      qualifying-every (λ o. leb (rank hosts_in_groups host rule) o.0) now user groups host rules
      ∙ ap (λ g. all g rules)
          (fun_ext λ other.
            ap (λ x. not (qualifies hosts_in_groups now user groups host other) || x)
              (rank-before host rule other))

  resolved_at_least :
      (now : ℕ) (user : String) (groups : List String) (host : String) (rules : List Rule)
      (act : String)
      → mem act (authz_resolve hosts_in_groups now user groups host rules).actions
        ≡ any
            (λ rule.
              qualifies hosts_in_groups now user groups host rule
              && (eqb
                    (rank hosts_in_groups host rule)
                    (min_rank (qualifying hosts_in_groups now user groups host rules))
                  && mem act rule.actions))
            rules
  unfolding authz_resolve
  resolved_at_least now user groups host rules act =
      let ranked = qualifying hosts_in_groups now user groups host rules in
      answer-actions ranked act
      ∙ qualifying-entry (λ entry. eqb entry.0 (min_rank ranked) && mem act entry.1.actions) now
          user groups host rules

  -- authz_resolve returns an action exactly when some rule that qualifies lists it, and every rule
  -- that qualifies comes after that one or stands level with it: a rule that names the host shuts
  -- out those that cover it by a group, and a rule with a credential shuts out those of its kind
  -- without one.
  pub resolved_actions :
      (now : ℕ) (user : String) (groups : List String) (host : String) (rules : List Rule)
      (act : String)
      → mem act (authz_resolve hosts_in_groups now user groups host rules).actions
        ≡ any
            (λ rule.
              qualifies hosts_in_groups now user groups host rule
              && (all
                    (λ other.
                      not (qualifies hosts_in_groups now user groups host other)
                      || is_before host rule other)
                    rules
                  && mem act rule.actions))
            rules
  unfolding authz_resolve
  resolved_actions now user groups host rules act =
      let ranked = qualifying hosts_in_groups now user groups host rules in
      answer-actions ranked act
      ∙ allowed-first act ranked
      ∙ qualifying-entry (λ entry. all (λ o. leb entry.0 o.0) ranked && mem act entry.1.actions) now
          user groups host rules
      ∙ ap (λ f. any f rules)
          (fun_ext λ rule.
            ap
              (λ x.
                qualifies hosts_in_groups now user groups host rule && (x && mem act rule.actions))
              (first-before now user groups host rules rule))

  rank-direct :
      (host : String) (rule : Rule)
      → leb (rank hosts_in_groups host rule) 1 ≡ mem host (rule_hosts rule)
  unfolding rank
  rank-direct host rule = ground arith

  -- A rule that names the host directly and qualifies shuts out the rules of host groups: each
  -- action that is returned then comes from a qualifying rule that names the host directly.
  pub direct_rules_shadow :
      (now : ℕ) (user : String) (groups : List String) (host : String) (rules : List Rule)
      (act : String)
      → any
          (λ rule.
            qualifies hosts_in_groups now user groups host rule && mem host (rule_hosts rule))
          rules
        ≡ true
      → mem act (authz_resolve hosts_in_groups now user groups host rules).actions ≡ true
      → any
          (λ rule.
            qualifies hosts_in_groups now user groups host rule
            && (mem host (rule_hosts rule) && mem act rule.actions))
          rules
        ≡ true
  direct_rules_shadow now user groups host rules act h k =
      let direct =
        any_mono
          (λ rule.
            qualifies hosts_in_groups now user groups host rule && mem host (rule_hosts rule))
          (λ rule.
            qualifies hosts_in_groups now user groups host rule
            && leb (rank hosts_in_groups host rule) 1)
          rules (λ rule g. rw (rank-direct host rule) g) h in
      let low =
        min_rank-below 1 (qualifying hosts_in_groups now user groups host rules)
          (qualifying-entry (λ entry. leb entry.0 1) now user groups host rules ∙ direct) in
      any_mono _ _ rules (λ rule g. ground (arith, low, g, rank-direct host rule))
        (sym (resolved_at_least now user groups host rules act) ∙ k)
