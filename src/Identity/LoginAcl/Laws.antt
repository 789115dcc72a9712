-- ===== src/Identity/LoginAcl/Laws.antt =====
-- Which rules decide a login.
use seyal_run.Prelude.{
  ℕ, ◌<◌, String, ◌≡◌, refl, ◌∙◌, inl, inr, Bool, true, false, ◌&&◌, Option, none, some, List, [],
  ◌∷◌, ◌++◌, arith, ◌==◌, if◌then◌else◌, Bool-cases, any,
}
use seyal_run.Identity.LoginAcl.{
  LoginAcl, AclVerdict, Login, selected, in_hours, acl_matches, first_verdict, login_acls_check,
}

module _ (in_network : String → String → Option Bool) (login : Login) where
  abbrev pub decides : LoginAcl → Bool
  decides acl = selected login acl && acl_matches in_network login acl

  abbrev pub verdict_of : LoginAcl → AclVerdict
  verdict_of acl = record { allowed = acl.action == "allow"; matched_rule = some acl.name }

  check_cons :
      (acl : LoginAcl) (acls : List LoginAcl)
      → login_acls_check in_network login (acl ∷ acls)
        ≡ (if decides acl then verdict_of acl else login_acls_check in_network login acls)
  unfolding login_acls_check first_verdict
  check_cons acl acls = elim (Bool-cases (selected login acl)) [
    | inl e ↦ elim (Bool-cases (acl_matches in_network login acl)) [
      | inl f ↦ rw (e, f) refl
      | inr f ↦ rw (e, f) refl
    ]
    | inr e ↦ rw (e) refl
  ]

  no_match :
      (before rest : List LoginAcl)
      → any decides before ≡ false
      → login_acls_check in_network login (before ++ rest) ≡ login_acls_check in_network login rest
  no_match [] rest h = refl
  no_match (acl ∷ before) rest h =
      let off : decides acl ≡ false = ground arith in
      let others : any decides before ≡ false = ground arith in
      rw (check_cons acl (before ++ rest), off) (no_match before rest others)

  no_match_allowed :
      (acls : List LoginAcl)
      → any decides acls ≡ false
      → login_acls_check in_network login acls ≡ record { allowed = true; matched_rule = none }
  unfolding login_acls_check
  no_match_allowed [] h = refl
  no_match_allowed (acl ∷ acls) h =
      let off : decides acl ≡ false = ground arith in
      let others : any decides acls ≡ false = ground arith in
      rw (check_cons acl acls, off) (no_match_allowed acls others)

  -- The first rule, in the order of the query, that is selected for the login and matches it
  -- decides: the login is allowed when its action is allow. With no such rule it is allowed.
  pub first_match_decides :
      (before after : List LoginAcl) (acl : LoginAcl)
      → any decides before ≡ false
      → decides acl ≡ true
      → (login_acls_check in_network login (before ++ acl ∷ after)
          ≡ record { allowed = acl.action == "allow"; matched_rule = some acl.name })
        × (login_acls_check in_network login before
            ≡ record { allowed = true; matched_rule = none })
  first_match_decides before after acl h d = (
    no_match before (acl ∷ after) h ∙ rw (check_cons acl after, d) refl,
    no_match_allowed before h,
  )

  same_without :
      (before after : List LoginAcl) (acl : LoginAcl)
      → decides acl ≡ false
      → login_acls_check in_network login (before ++ acl ∷ after)
        ≡ login_acls_check in_network login (before ++ after)
  same_without [] after acl off = rw (check_cons acl after, off) refl
  same_without (first ∷ before) after acl off =
      rw
        (
          check_cons first (before ++ acl ∷ after),
          check_cons first (before ++ after),
          same_without before after acl off,
        )
        refl

  overnight-off :
      (acl : LoginAcl) (s e : ℕ)
      → acl.time_start ≡ some s
      → acl.time_end ≡ some e
      → e < s
      → decides acl ≡ false
  unfolding acl_matches in_hours
  overnight-off acl s e b c h = ground (arith, b, c)

  -- A rule whose hours begin later than they end, such as one for the night, never matches:
  -- the answer is the same without it.
  pub overnight_rule_ignored :
      (before after : List LoginAcl) (acl : LoginAcl) (s e : ℕ)
      → acl.time_start ≡ some s
      → acl.time_end ≡ some e
      → e < s
      → login_acls_check in_network login (before ++ acl ∷ after)
        ≡ login_acls_check in_network login (before ++ after)
  overnight_rule_ignored before after acl s e b c h =
      same_without before after acl (overnight-off acl s e b c h)
