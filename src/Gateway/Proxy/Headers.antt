-- ===== src/Gateway/Proxy/Headers.antt =====
-- The identity headers that reach a service are the gateway's own.
use seyal_run.Prelude.{
  [], String, ◌≡◌, refl, sym, ◌∙◌, ◌⊎◌, inl, inr, Bool, true, false, not, ◌&&◌, false≢true, some,
  List, ◌∷◌, arith, ◌==◌, eqb, if◌then◌else◌, Bool-cases, any, null, All, mem, lower_is, any_of_mem,
  lookup, insert, lookup-insert, All-insert,
}
use seyal_run.Gateway.Proxy.{
  identity_headers, HeaderValue, text, joined, decimal, Headers, lower_in, filtered_headers, set_if,
  Caller, base_headers, forward_headers,
}

-- No header of the list has the name, in any case.
abbrev pub Lacks : String → Headers → Type 0
Lacks name headers = All (λ h. lower_is h.0 name ≡ false) headers

any-false :
    (p : String → Bool) (x : String) (xs : List String)
    → mem x xs ≡ true
    → any p xs ≡ false
    → p x ≡ false
any-false p x xs m h = elim (Bool-cases (p x)) [
  | inl e ↦ absurd (false≢true (sym h ∙ any_of_mem p x xs m e))
  | inr e ↦ e
]

filtered-Lacks :
    (name : String) (client : Headers)
    → mem name identity_headers ≡ true
    → Lacks name (filtered_headers client)
unfolding filtered_headers lower_in
filtered-Lacks name [] m = tt
filtered-Lacks name ((k, v) ∷ client) m =
    ground
      (arith, filtered-Lacks name client m, any-false (λ n. lower_is k n) name identity_headers m)

Lacks-insert :
    (name key : String) (v : HeaderValue) (headers : Headers)
    → lower_is key name ≡ false
    → Lacks name headers
    → Lacks name (insert key v headers)
Lacks-insert name key v headers e h = All-insert (λ x. lower_is x.0 name ≡ false) key v headers e h

Lacks-set_if :
    (test : Bool) (name key : String) (v : HeaderValue) (headers : Headers)
    → lower_is key name ≡ false ⊎ (test ≡ false)
    → Lacks name headers
    → Lacks name (set_if test key v headers)
Lacks-set_if false name key v headers e h = h
Lacks-set_if true name key v headers (inl e) h = Lacks-insert name key v headers e h
Lacks-set_if true name key v headers (inr e) h = absurd (false≢true (sym e))

-- The headers that are always set have other names.
abbrev IsOptional : String → Type 0
IsOptional name =
    (mem name identity_headers ≡ true)
    × (lower_is "X-User-Name" name ≡ false)
    × (lower_is "X-User-Real-Role" name ≡ false)
    × (lower_is "X-User-Role" name ≡ false)
    × (lower_is "X-User-Id" name ≡ false)
    × (lower_is "X-Service-Token" name ≡ false)

base-Lacks :
    (name : String) (client : Headers) (token : String) (who : Caller)
    → IsOptional name
    → Lacks name (base_headers client token who)
unfolding base_headers
base-Lacks name client token who (listed, n, rr, r, i, t) = Lacks-insert name _ _ _ n (
    Lacks-insert name _ _ _ rr (
      Lacks-insert name _ _ _ r (
        Lacks-insert name _ _ _ i (Lacks-insert name _ _ _ t (filtered-Lacks name client listed)))))

module _ (client : Headers) (token : String) (who : Caller) where
  forward-Lacks :
      (name : String)
      → IsOptional name
      → lower_is "X-Elevated-Until" name ≡ false ⊎ (not (eqb who.elevated_until 0) ≡ false)
      → lower_is "X-User-Scopes" name ≡ false ⊎ (not (null who.scopes) ≡ false)
      → lower_is "X-Kiosk-Host-Id" name ≡ false ⊎ (not (who.kiosk_host_id == "") ≡ false)
      → Lacks name (forward_headers client token who)
  unfolding forward_headers
  forward-Lacks name optional e s k =
      let base = base_headers client token who in
      let kiosk =
        set_if (not (who.kiosk_host_id == "")) "X-Kiosk-Host-Id" (text who.kiosk_host_id) base in
      let scoped = set_if (not (null who.scopes)) "X-User-Scopes" (joined who.scopes) kiosk in
      Lacks-set_if (not (eqb who.elevated_until 0)) name "X-Elevated-Until"
        (decimal who.elevated_until) scoped e
        (Lacks-set_if (not (null who.scopes)) name "X-User-Scopes" (joined who.scopes) kiosk s (
          Lacks-set_if (not (who.kiosk_host_id == "")) name "X-Kiosk-Host-Id"
            (text who.kiosk_host_id) base k (base-Lacks name client token who optional)))

  -- What a client sends cannot pass for an elevation, a token's scopes or a kiosk binding: a caller
  -- who has none of them has no header of that name upstream, in any spelling.
  pub no_forged_headers :
      (who.elevated_until ≡ 0 → Lacks "x-elevated-until" (forward_headers client token who))
      × (who.scopes ≡ [] → Lacks "x-user-scopes" (forward_headers client token who))
      × (who.kiosk_host_id ≡ "" → Lacks "x-kiosk-host-id" (forward_headers client token who))
  unfolding lower_is mem
  no_forged_headers = (
    λ e.
        forward-Lacks "x-elevated-until" (refl, refl, refl, refl, refl, refl) (inr (rw e))
          (inl refl) (inl refl),
    λ e.
        forward-Lacks "x-user-scopes" (refl, refl, refl, refl, refl, refl) (inl refl) (inr (rw e))
          (inl refl),
    λ e.
        forward-Lacks "x-kiosk-host-id" (refl, refl, refl, refl, refl, refl) (inl refl) (inl refl)
          (inr (rw e)),
  )

and_false : (b : Bool) → (b && false) ≡ false
and_false true = refl
and_false false = refl

lookup-set_if :
    (test : Bool) (key j : String) (v : HeaderValue) (headers : Headers)
    → lookup j (set_if test key v headers) ≡ (if test && key == j then some v else lookup j headers)
lookup-set_if false key j v headers = refl
lookup-set_if true key j v headers = lookup-insert key j v headers

-- The role, the user and the token that a service reads are those that the gateway resolved.
pub forwarded_identity :
    (client : Headers) (token : String) (who : Caller)
    → (lookup "X-User-Id" (forward_headers client token who) ≡ some (text who.user_id))
      × (lookup "X-User-Role" (forward_headers client token who) ≡ some (text who.role))
      × (lookup "X-User-Real-Role" (forward_headers client token who) ≡ some (text who.real_role))
      × (lookup "X-Service-Token" (forward_headers client token who) ≡ some (text token))
unfolding forward_headers base_headers
forwarded_identity client token who =
    simp (lookup-set_if, lookup-insert, and_false) (refl, refl, refl, refl)
