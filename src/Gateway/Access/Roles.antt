-- ===== src/Gateway/Access/Roles.antt =====
-- How the decision depends on the caller's roles.
use seyal_run.Prelude.{
  [], String, ◌≡◌, refl, sym, subst, ◌≢◌, ◌⊎◌, inl, inr, Bool, true, false, not, ◌&&◌, false≢true,
  Option, none, List, ◌∷◌, arith, ◌==◌, eq_iff, Option-cases, is_some, or_true, any, mem,
  first_segment, mem-cons_self, any_of_mem, Dict,
}
use seyal_run.Rbac.{RoleDoc, primary_role, role_allows, doc_can_reveal, doc_can_mfa}
use seyal_run.Gateway.Access.{
  always, doc_for, named_role_allows, can_reveal, can_use_mfa, is_authorized, downstream_role,
}

any_subset :
    (p : String → Bool) (xs ys : List String)
    → ((x : String) → mem x xs ≡ true → mem x ys ≡ true)
    → any p xs ≡ true
    → any p ys ≡ true
any_subset p [] ys sub h = cc
any_subset p (x ∷ xs) ys sub h = elim (or_true (p x) (any p xs) h) [
  | inl here ↦ any_of_mem p x ys (sub x (mem-cons_self x xs)) here
  | inr there ↦ any_subset p xs ys (λ z m. sub z (unfold mem in ground (arith, m))) there
]

-- A caller with more roles is refused nothing that one with fewer is granted; so neither the
-- order of the roles nor repetitions matter.
pub is_authorized_mono :
    (cache : Dict RoleDoc) (rs qs : List String) (method path : String)
    → ((r : String) → mem r rs ≡ true → mem r qs ≡ true)
    → is_authorized cache rs method path ≡ true
    → is_authorized cache qs method path ≡ true
unfolding is_authorized can_use_mfa can_reveal
is_authorized_mono cache rs qs method path sub = ground (
  arith,
  any_subset (λ r. doc_can_mfa (doc_for cache r)) rs qs sub,
  any_subset (λ r. doc_can_reveal (doc_for cache r)) rs qs sub,
  any_subset (named_role_allows cache "POST" "job-templates") rs qs sub,
  any_subset (named_role_allows cache "POST" "playbook-run") rs qs sub,
  any_subset (named_role_allows cache method (first_segment path)) rs qs sub,
)

no_documents :
    (cache : Dict RoleDoc) (f : Option RoleDoc → Bool) (roles : List String)
    → f none ≡ false
    → any (λ r. is_some (doc_for cache r)) roles ≡ false
    → any (λ r. f (doc_for cache r)) roles ≡ false
no_documents cache f [] n h = refl
no_documents cache f (r ∷ rs) n h = elim (Option-cases (doc_for cache r)) [
  | inl e ↦ rw e (rw n (no_documents cache f rs n (rw e at h)))
  | inr (doc, e) ↦ absurd (false≢true (sym (rw e at h)))
]

-- A caller none of whose roles has a document is let through on the segments that are open to
-- all, and nowhere else; enrolling in MFA is not among them.
pub unknown_roles_denied :
    (cache : Dict RoleDoc) (roles : List String) (method path : String)
    → any (λ r. is_some (doc_for cache r)) roles ≡ false
    → is_authorized cache roles method path ≡ (
        mem (first_segment path) always
        && not (method == "POST" && mem path ("auth/mfa/setup" ∷ "auth/mfa/setup-email" ∷ [])))
unfolding is_authorized can_use_mfa can_reveal named_role_allows role_allows doc_can_mfa
    doc_can_reveal
unknown_roles_denied cache roles method path h = ground (
  arith,
  no_documents cache doc_can_mfa roles refl h,
  no_documents cache doc_can_reveal roles refl h,
  no_documents cache (λ d. role_allows d "POST" "job-templates") roles refl h,
  no_documents cache (λ d. role_allows d "POST" "playbook-run") roles refl h,
  no_documents cache (λ d. role_allows d method (first_segment path)) roles refl h,
)

mem-primary_role : (x : String) (xs : List String) → mem (primary_role (x ∷ xs)) (x ∷ xs) ≡ true
unfolding primary_role
mem-primary_role x xs = ground (arith, mem-cons_self x xs)

forwarded_held :
    (roles : List String) (r : String)
    → (r == "user") ≡ false
    → primary_role roles ≡ r
    → mem r roles ≡ true
forwarded_held [] r h e =
    absurd (false≢true (sym (unfold primary_role in subst (λ z. (z == "user") ≡ false) (sym e) h)))
forwarded_held (x ∷ xs) r h e = subst (λ z. mem z (x ∷ xs) ≡ true) e (mem-primary_role x xs)

-- What is forwarded as the caller's role: `superadmin` and `admin` as they are, no elevation for
-- terminals and reads, and `admin` for every other request.
pub downstream_role_lem :
    (roles : List String) (method seg : String)
    → (downstream_role roles method seg ≡ "superadmin" → mem "superadmin" roles ≡ true)
      × (downstream_role roles method seg ≡ "admin"
          → (mem "admin" roles ≡ true) ⊎ ((seg ≢ "ssh") × (method ≢ "GET")))
unfolding downstream_role
downstream_role_lem roles method seg = (
  ground (arith, forwarded_held roles "superadmin" refl, eq_iff "admin" "superadmin"),
  ground (
    arith,
    forwarded_held roles "admin" refl,
    eq_iff "superadmin" "admin",
    eq_iff seg "ssh",
    eq_iff method "GET",
  ),
)
