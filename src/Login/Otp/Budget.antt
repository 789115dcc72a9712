-- ===== src/Login/Otp/Budget.antt =====
-- How often a one-time code may be guessed, and how often it may be used.
use seyal_run.Prelude.{
  ℕ, ◌+◌, ◌*◌, ◌≤◌, ◌<◌, String, ◌≡◌, refl, sym, subst, ◌≢◌, inl, inr, Bool, true, false, not, ◌||◌,
  Option, none, some, List, [], ◌∷◌, arith, ◌==◌, eq_iff, eq_refl, ltb, leb, if◌then◌else◌,
  Bool-cases, Option-cases, length, Result, ok, err,
}
use seyal_run.Identity.Lockout.{second}
use seyal_run.Login.{OtpBlob, OtpKey, same_otp_key, OtpStore, World, unix_time}
use seyal_run.Login.Otp.{otp_max_attempts, otp_key, check_otp, consume_otp}

same_key_refl : (k : OtpKey) → same_otp_key k k ≡ true
same_key_refl k = rw (eq_refl k.purpose, eq_refl k.user_id) refl

or_not : (a b : Bool) → b ≡ false → (a || not b) ≡ true
or_not a b h = ground arith

-- At least `n` guesses are counted, or there is no code.
abbrev IsCounted : ℕ → Option OtpBlob → Type 0
IsCounted n none = Unit
IsCounted n (some b) = n ≤ b.attempts

any_count : (o : Option OtpBlob) → IsCounted 0 o
any_count none = tt
any_count (some b) = omega arith

abbrev gate : {S : Type 0} → Bool → Bool → Bool → S → S → S → S → Result ℕ (Unit {0}) × S
gate late full bad x y z s =
    if late
    then (err 401, x)
    else if full
    then (err 429, y)
    else if bad
    then (err 401, z)
    else (ok tt, s)

-- An accepted code passed the three tests.
passed :
    (late full bad : Bool) {S : Type 0} (x y z s : S)
    → (gate late full bad x y z s).0 ≡ ok tt
    → (late ≡ false) × (full ≡ false) × (bad ≡ false)
passed true full bad x y z s h = cc
passed false true bad x y z s h = cc
passed false false true x y z s h = cc
passed false false false x y z s h = (refl, refl, refl)

abbrev pub IsOther : String → Option OtpBlob → Type 0
IsOther code none = Unit
IsOther code (some b) = code == b.code ≡ false

module _ (store : OtpStore) (user_id purpose : String) where
  open store use {State, get, set, del}

  abbrev key : OtpKey
  key = otp_key user_id purpose

  -- From a time on, the code has `n` guesses counted, and is not the one that is guessed.
  abbrev IsWorn : ℕ → ℕ → State → Type 0
  IsWorn n from s = (t : ℕ) → from ≤ t → IsCounted n (get s t key)

  del-IsWorn : (n from : ℕ) (s : State) → IsWorn n from (del s key)
  del-IsWorn n from s t h = rw (store.get-del s t key key, same_key_refl key) tt

  set-IsWorn :
      (n from now ttl : ℕ) (b : OtpBlob) (s : State)
      → n ≤ b.attempts
      → IsWorn n from (set s now key b ttl)
  set-IsWorn n from now ttl b s h t k = elim (Bool-cases (ltb t (now + ttl * second))) [
    | inl e ↦ rw (store.get-set s now t ttl key key b, same_key_refl key, e) h
    | inr e ↦ rw (store.get-set s now t ttl key key b, same_key_refl key, e) tt
  ]

  none-IsWorn : (n from now : ℕ) (s : State) → get s now key ≡ none → now ≤ from → IsWorn n from s
  none-IsWorn n from now s e h t k = rw (store.get-later s now t key (omega (arith, h, k)) e) tt

  -- A guess is wrong when the code that it finds is another.
  abbrev pub IsWrong : World → String → State → Type 0
  IsWrong w code s = IsOther code (get s w.now key)

  wrong-found :
      (n : ℕ) (w : World) (code : String) (b : OtpBlob) (s : State)
      → code == b.code ≡ false
      → n ≤ b.attempts
      → IsWorn (n + 1) w.now (check_otp store w key code (some b) s).1
  wrong-found n w code b s c h = elim (Bool-cases (ltb b.expires_at (unix_time w))) [
    | inl e ↦ rw e (del-IsWorn (n + 1) w.now s)
    | inr e ↦ elim (Bool-cases (leb otp_max_attempts b.attempts)) [
      | inl f ↦ rw (e, f) (del-IsWorn (n + 1) w.now s)
      | inr f ↦
          rw (e, f, or_not (code == "") (code == b.code) c)
            (set-IsWorn (n + 1) w.now w.now _ (record b { attempts = b.attempts + 1 }) s
              (omega (arith, h)))
    ]
  ]

  wrong-IsWorn :
      (n from : ℕ) (w : World) (code : String) (s : State)
      → IsWorn n from s
      → from ≤ w.now
      → IsWrong w code s
      → IsWorn (n + 1) w.now (consume_otp store w user_id code purpose s).1
  unfolding consume_otp
  wrong-IsWorn n from w code s worn h wrong = elim (Option-cases (get s w.now key)) [
    | inl e ↦ rw (consume_otp, e) (none-IsWorn (n + 1) w.now w.now s e (omega arith))
    | inr (b, e) ↦
        rw (consume_otp, e)
          (wrong-found n w code b s (subst (IsOther code) e wrong)
            (subst (IsCounted n) e (worn w.now h)))
  ]

  -- Guesses in the order of time, each wrong where it is made.
  abbrev pub guesses : State → List (World × String) → State
  guesses s [] = s
  guesses s ((w, code) ∷ gs) = guesses (consume_otp store w user_id code purpose s).1 gs

  abbrev pub AreWrong : ℕ → State → List (World × String) → Type 0
  AreWrong from s [] = Unit
  AreWrong from s ((w, code) ∷ gs) =
      (from ≤ w.now)
      × IsWrong w code s
      × AreWrong w.now (consume_otp store w user_id code purpose s).1 gs

  abbrev pub last_guess : ℕ → List (World × String) → ℕ
  last_guess from [] = from
  last_guess from ((w, code) ∷ gs) = last_guess w.now gs

  guesses-IsWorn :
      (n from : ℕ) (s : State) (gs : List (World × String))
      → IsWorn n from s
      → AreWrong from s gs
      → IsWorn (n + length gs) (last_guess from gs) (guesses s gs)
  guesses-IsWorn n from s [] worn h t k =
      subst (λ m. IsCounted m (get s t key)) (omega arith) (worn t k)
  guesses-IsWorn n from s ((w, code) ∷ gs) worn (a, b, c) t k =
      subst (λ m. IsCounted m (get (guesses s ((w, code) ∷ gs)) t key)) (omega arith)
        (guesses-IsWorn (n + 1) w.now _ gs (wrong-IsWorn n from w code s worn a b) c t k)

  worn-refuses :
      (n : ℕ) (from : ℕ) (w : World) (code : String) (s : State)
      → otp_max_attempts ≤ n
      → IsWorn n from s
      → from ≤ w.now
      → (consume_otp store w user_id code purpose s).0 ≢ ok tt
  unfolding consume_otp
  worn-refuses n from w code s m worn h = elim (Option-cases (get s w.now key)) [
    | inl e ↦ rw (consume_otp, e) λ x. cc
    | inr (b, e) ↦
        let counted : n ≤ b.attempts = subst (IsCounted n) e (worn w.now h) in
        let full : leb otp_max_attempts b.attempts ≡ true = ground (arith, m, counted) in
        elim (Bool-cases (ltb b.expires_at (unix_time w))) [
          | inl f ↦ rw (consume_otp, e, f) λ x. cc
          | inr f ↦ rw (consume_otp, e, f, full) λ x. cc
        ]
  ]

  -- Once five wrong guesses were made at a code, at any times, no later code that is tried is
  -- accepted, not the right one either, until another code is issued.
  pub five_guesses :
      (from : ℕ) (w : World) (s : State) (gs : List (World × String)) (code : String)
      → AreWrong from s gs
      → 5 ≤ length gs
      → last_guess from gs ≤ w.now
      → (consume_otp store w user_id code purpose (guesses s gs)).0 ≢ ok tt
  five_guesses from w s gs code wrong enough later =
      worn-refuses (0 + length gs) (last_guess from gs) w code _ (omega (arith, enough))
        (guesses-IsWorn 0 from s gs (λ t k. any_count (get s t key)) wrong) later

  -- What an accepted code was, and what is left.
  abbrev pub IsSpent : World → String → State → Type 0
  IsSpent w code s =
      (b : OtpBlob) × (get s w.now key ≡ some b)
      × (code ≡ b.code)
      × (b.attempts < otp_max_attempts)
      × (unix_time w ≤ b.expires_at)
      × ((consume_otp store w user_id code purpose s).1 ≡ del s key)

  found-spent :
      (w : World) (code : String) (b : OtpBlob) (s : State)
      → (check_otp store w key code (some b) s).0 ≡ ok tt
      → (code ≡ b.code)
        × (b.attempts < otp_max_attempts)
        × (unix_time w ≤ b.expires_at)
        × ((check_otp store w key code (some b) s).1 ≡ del s key)
  found-spent w code b s h =
      let late = ltb b.expires_at (unix_time w) in
      let full = leb otp_max_attempts b.attempts in
      let bad = code == "" || not (code == b.code) in
      let (f, g, k) = passed late full bad _ _ _ _ h in
      (
        ground (arith, k, eq_iff code b.code),
        ground (arith, g),
        ground (arith, f),
        rw (f, g, k) refl,
      )

  -- An accepted code is the one that was stored, within its time and its guesses, and it is
  -- accepted once: every later code is refused with 401 until another is issued.
  pub accepted_once :
      (w later : World) (code code' : String) (s : State)
      → (consume_otp store w user_id code purpose s).0 ≡ ok tt
      → IsSpent w code s
        × ((consume_otp store later user_id code' purpose
              (consume_otp store w user_id code purpose s).1).0
            ≡ err 401)
  unfolding consume_otp
  accepted_once w later code code' s h = elim (Option-cases (get s w.now key)) [
    | inl e ↦
        let h' : (check_otp store w key code none s).0 ≡ ok tt =
          subst (λ o. (check_otp store w key code o s).0 ≡ ok tt) e h in
        cc
    | inr (b, e) ↦
        let h' : (check_otp store w key code (some b) s).0 ≡ ok tt =
          subst (λ o. (check_otp store w key code o s).0 ≡ ok tt) e h in
        let (same, few, soon, left) = found-spent w code b s h' in
        let left' : (consume_otp store w user_id code purpose s).1 ≡ del s key =
          subst (λ o. (check_otp store w key code o s).1 ≡ del s key) (sym e) left in
        (
          (b, e, same, few, soon, left'),
          rw (left', consume_otp, store.get-del s later.now key key, same_key_refl key) refl,
        )
  ]
