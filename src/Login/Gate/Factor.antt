-- ===== src/Login/Gate/Factor.antt =====
-- What the handlers that ask for the second factor have seen when they succeed: auth.py.
use seyal_run.Prelude.{
  ℕ, String, ◌≡◌, refl, ◌⊎◌, inl, inr, Bool, true, false, not, Option, ◌==◌, if◌then◌else◌,
  Bool-cases, Result, ok, err, Result-cases,
}
use seyal_run.Login.{User, OtpStore, State, World, require_user}
use seyal_run.Login.Otp.{consume_otp}
use seyal_run.Login.Mint.{has_mfa, is_method}
use seyal_run.Login.Mfa.{
  totp_passes, prove_factor, after_proof, mfa_disable, mfa_verify_login, mfa_verify, elevate_verify,
}

-- The handlers that act only after the second factor.
pub data Guarded : Type 0 where
  end_login end_factor elevation : Guarded
  reveal : String → Guarded

abbrev pub is_ok {ℓ κ} : {E : Type ℓ} {A : Type κ} → Result E A → Bool
is_ok (ok a) = true
is_ok (err e) = false

module _ (store : OtpStore) where
  abbrev Store : Type 0
  Store = State store.State

  -- The code is the authenticator's, or the mailed code of the purpose.
  abbrev pub IsProved : World → String → User → String → Store → Type 0
  IsProved w purpose u code s =
      ((is_method "totp" u ≡ true) × (totp_passes store w u code ≡ true))
      ⊎ ((is_method "totp" u ≡ false) × ((consume_otp store w u.id code purpose s.otps).0 ≡ ok tt))

  chosen :
      (b : Bool) (x y : Result ℕ (Unit {0}) × Store)
      → (if b then x else y).0 ≡ ok tt
      → ((b ≡ true) × (x.0 ≡ ok tt)) ⊎ ((b ≡ false) × (y.0 ≡ ok tt))
  chosen true x y h = inl (refl, h)
  chosen false x y h = inr (refl, h)

  test_passed :
      (b : Bool) → ◌≡◌ {A = Result ℕ (Unit {0})} (if b then ok tt else err 401) (ok tt) → b ≡ true
  test_passed true h = refl
  test_passed false h = cc

  proved :
      (w : World) (purpose : String) (u : User) (code : String) (s : Store)
      → (prove_factor store w purpose u code s).0 ≡ ok tt
      → IsProved w purpose u code s
  unfolding prove_factor
  proved w purpose u code s h = elim (chosen (is_method "totp" u) _ _ h) [
    | inl (e, t) ↦ inl (e, test_passed (totp_passes store w u code) t)
    | inr (e, t) ↦ inr (e, t)
  ]

  -- What a success says about the caller.
  abbrev pub IsSeen : World → String → Option String → String → Store → Type 0
  IsSeen w purpose user_id code s =
      (u : User) × (require_user user_id s.users ≡ ok u)
      × (has_mfa u ≡ true)
      × IsProved w purpose u code s

  -- Nothing but the one-time codes, whose guesses are counted, has changed.
  abbrev pub IsQuiet : Store → Store → Type 0
  IsQuiet s t = t ≡ record s { otps = t.otps }

  -- A success for a caller of whom `Seen` holds, or a refusal that does nothing.
  abbrev pub Settles {κ} : {B : Type κ} → Type 0 → Store → Result ℕ B × Store → Type 0
  Settles Seen s x = ((is_ok x.0 ≡ true) × Seen) ⊎ ((is_ok x.0 ≡ false) × IsQuiet s x.1)

  prove_factor-IsQuiet :
      (w : World) (purpose : String) (u : User) (code : String) (s : Store)
      → IsQuiet s (prove_factor store w purpose u code s).1
  unfolding prove_factor
  prove_factor-IsQuiet w purpose u code s = elim (Bool-cases (is_method "totp" u)) [
    | inl e ↦ rw (prove_factor, e) refl
    | inr e ↦ rw (prove_factor, e) refl
  ]

  after-Settles :
      {B Seen : Type 0} (s : Store) (r : Result ℕ (Unit {0}) × Store)
      (k : Unit {0} → Store → Result ℕ B × Store)
      → (r.0 ≡ ok tt → Seen)
      → IsQuiet s r.1
      → ((t : Store) → is_ok (k tt t).0 ≡ true)
      → Settles Seen s (after_proof store r k)
  after-Settles s (ok tt, t) k seen q good = inl (good t, seen refl)
  after-Settles s (err e, t) k seen q good = inr (refl, q)

  -- A handler on a user, from its test for a factor on.
  guarded-Settles :
      {B Seen : Type 0} (w : World) (purpose : String) (u : User) (code : String) (s : Store)
      (bad : ℕ) (k : Unit {0} → Store → Result ℕ B × Store)
      → (has_mfa u ≡ true → IsProved w purpose u code s → Seen)
      → ((t : Store) → is_ok (k tt t).0 ≡ true)
      → Settles Seen s (
          if not (has_mfa u)
          then (err bad, s)
          else after_proof store (prove_factor store w purpose u code s) k)
  guarded-Settles w purpose u code s bad k seen good = elim (Bool-cases (has_mfa u)) [
    | inl m ↦ rw m (
        after-Settles s (prove_factor store w purpose u code s) k
          (λ h. seen m (proved w purpose u code s h)) (prove_factor-IsQuiet w purpose u code s)
          good)
    | inr m ↦ rw m (inr (refl, refl))
  ]

  login-decides :
      (w : World) (user_id : Option String) (code : String) (s : Store)
      → Settles (IsSeen w "login" user_id code s) s (mfa_verify_login store w user_id code s)
  unfolding mfa_verify_login
  login-decides w user_id code s = elim (Result-cases (require_user user_id s.users)) [
    | inr (bad, e) ↦ rw (mfa_verify_login, e) (inr (refl, refl))
    | inl (u, e) ↦
        rw (mfa_verify_login, e)
          (guarded-Settles w "login" u code s 400 _ (λ m q. (u, refl, m, q)) λ t. refl)
  ]

  disable-decides :
      (w : World) (user_id : Option String) (code : String) (s : Store)
      → Settles (IsSeen w "disable" user_id code s) s (mfa_disable store w user_id code s)
  unfolding mfa_disable
  disable-decides w user_id code s = elim (Result-cases (require_user user_id s.users)) [
    | inr (bad, e) ↦ rw (mfa_disable, e) (inr (refl, refl))
    | inl (u, e) ↦
        rw (mfa_disable, e)
          (guarded-Settles w "disable" u code s 400 _ (λ m q. (u, refl, m, q)) λ t. refl)
  ]

  reveal-decides :
      (w : World) (user_id : Option String) (credential_id code : String) (s : Store)
      → Settles
          (IsSeen w "reveal" user_id code s)
          s
          (mfa_verify store w user_id credential_id code s)
  unfolding mfa_verify
  reveal-decides w user_id credential_id code s = elim (Bool-cases (credential_id == "")) [
    | inl f ↦ rw (mfa_verify, f) (inr (refl, refl))
    | inr f ↦ elim (Result-cases (require_user user_id s.users)) [
      | inr (bad, e) ↦ rw (mfa_verify, f, e) (inr (refl, refl))
      | inl (u, e) ↦
          rw (mfa_verify, f, e)
            (guarded-Settles w "reveal" u code s 403 _ (λ m q. (u, refl, m, q)) λ t. refl)
    ]
  ]

  unless-Settles :
      {B Seen : Type 0} (s : Store) (b : Bool) (bad : ℕ) (x : Result ℕ B × Store)
      → Settles Seen s x
      → Settles Seen s (if b then (err bad, s) else x)
  unless-Settles s true bad x h = inr (refl, refl)
  unless-Settles s false bad x h = h

  elevation-decides :
      (w : World) (user_id : Option String) (code : String) (s : Store)
      → Settles (IsSeen w "elevate" user_id code s) s (elevate_verify store w user_id code s)
  unfolding elevate_verify
  elevation-decides w user_id code s = elim (Result-cases (require_user user_id s.users)) [
    | inr (bad, e) ↦ rw (elevate_verify, e) (inr (refl, refl))
    | inl (u, e) ↦
        rw (elevate_verify, e)
          (unless-Settles s _ 403 _
            (guarded-Settles w "elevate" u code s 403 _ (λ m q. (u, refl, m, q)) λ t. refl))
  ]

  -- What the handler of the action decides.
  abbrev pub IsDecided : Guarded → World → Option String → String → Store → Type 0
  IsDecided end_login w user_id code s =
      Settles (IsSeen w "login" user_id code s) s (mfa_verify_login store w user_id code s)
  IsDecided end_factor w user_id code s =
      Settles (IsSeen w "disable" user_id code s) s (mfa_disable store w user_id code s)
  IsDecided elevation w user_id code s =
      Settles (IsSeen w "elevate" user_id code s) s (elevate_verify store w user_id code s)
  IsDecided (reveal credential_id) w user_id code s =
      Settles (IsSeen w "reveal" user_id code s) s (mfa_verify store w user_id credential_id code s)

  -- The four handlers that end a login, remove one's own factor, reveal a credential and elevate
  -- succeed only for a caller with a second factor whose code is right: the authenticator's, or the
  -- mailed code of just that purpose. Otherwise they answer an error and change nothing but the
  -- one-time codes: no session, no account, no elevation and no log entry. The reset of a factor
  -- by an administrator, which asks for no code, is not one of the four.
  pub guarded_actions_proved :
      (g : Guarded) (w : World) (user_id : Option String) (code : String) (s : Store)
      → IsDecided g w user_id code s
  guarded_actions_proved end_login w user_id code s = login-decides w user_id code s
  guarded_actions_proved end_factor w user_id code s = disable-decides w user_id code s
  guarded_actions_proved elevation w user_id code s = elevation-decides w user_id code s
  guarded_actions_proved (reveal credential_id) w user_id code s =
      reveal-decides w user_id credential_id code s
