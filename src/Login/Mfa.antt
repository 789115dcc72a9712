-- ===== src/Login/Mfa.antt =====
-- The second factor: the handlers under /auth/mfa and /auth/elevate of auth.py.
use seyal_run.Prelude.{
  ℕ, ◌+◌, String, Bool, true, false, not, ◌&&◌, ◌||◌, Option, none, some, ◌∷◌, ◌==◌, ltb,
  if◌then◌else◌, mem, insert, Result, ok, err, ◌>>◌,
}
use seyal_run.Identity.Effective.{effective_roles}
use seyal_run.Login.{User, OtpBlob, OtpStore, State, World, require_user, unix_time}
use seyal_run.Login.Otp.{otp_key, issue_otp, consume_otp}
use seyal_run.Login.Mint.{
  Minted, add_session, logged, session_for, has_mfa, is_method, needs_wizard,
}

-- The claims of the token that reveals one credential.
pub record RevealToken : Type 0 where
  pub sub : String
  pub cid : String
  pub iat : ℕ
  pub exp : ℕ

module _ (store : OtpStore) where
  abbrev pub Store : Type 0
  Store = State store.State

  -- An answer of the one-time codes, in the state.
  abbrev pub with_otps : {A : Type 0} → Result ℕ A × store.State → Store → Result ℕ A × Store
  with_otps (r, otps') s = (r, record s { otps = otps' })

  abbrev pub totp_passes : World → User → String → Bool
  totp_passes w u code = not (u.totp_secret == "") && w.totp_verify u.totp_secret code

  -- The proof of the second factor: `bad` is the status of a wrong authenticator code.
  unfoldable pub prove_factor : World → String → User → String → Store → Result ℕ (Unit {0}) × Store
  unfolding consume_otp
  prove_factor w purpose u code s =
      if is_method "totp" u
      then ((if totp_passes w u code then ok tt else err 401), s)
      else with_otps (consume_otp store w u.id code purpose s.otps) s

  -- A session without gates.
  abbrev pub clean_session : World → User → Store → Result ℕ Minted × Store
  clean_session w u s = (
    ok record {
      access_token = w.session_id;
      mfa_required = false;
      mfa_method = none;
      mfa_setup_required = false;
      needs_setup_wizard = needs_wizard w u;
    },
    add_session store (session_for w u (effective_roles s.tables u.id) none false false false) s,
  )

  abbrev pub put_user : User → Store → Store
  put_user u s = record s { users = insert u.id u s.users }

  -- `mfa_setup`
  unfoldable pub mfa_setup : World → Option String → Store → Result ℕ (Unit {0}) × Store
  unfolding require_user insert
  mfa_setup w user_id s = elim (require_user user_id s.users) [
    | err e ↦ (err e, s)
    | ok u ↦ if has_mfa u then (err 400, s) else (
      ok tt,
      put_user (record u { totp_secret = w.new_totp_secret; totp_enabled = false }) s,
    )
  ]

  -- `mfa_setup_email`
  unfoldable pub mfa_setup_email : World → Option String → Store → Result ℕ (Unit {0}) × Store
  unfolding require_user issue_otp
  mfa_setup_email w user_id s = elim (require_user user_id s.users) [
    | err e ↦ (err e, s)
    | ok u ↦ if has_mfa u then (err 400, s) else with_otps (issue_otp store w u "enroll" s.otps) s
  ]

  -- The three `request-code` handlers, by their purpose: disable, reveal and elevate.
  unfoldable pub request_code : World → String → Option String → Store → Result ℕ (Unit {0}) × Store
  unfolding require_user issue_otp
  request_code w purpose user_id s = elim (require_user user_id s.users) [
    | err e ↦ (err e, s)
    | ok u ↦
        if is_method "email" u
        then with_otps (issue_otp store w u purpose s.otps) s
        else (err 400, s)
  ]

  -- What is proved when a factor is enrolled, and the row that it leaves.
  unfoldable pub enroll : World → String → String → User → Store → Result ℕ User × Store
  unfolding consume_otp
  enroll w method code u s =
      let consumed = consume_otp store w u.id code "enroll" s.otps in
      if method == "email"
      then with_otps ((consumed.0 >> ok (record u { mfa_method = some "email" })), consumed.1) s
      else (
        (if totp_passes w u code
            then ok (record u { totp_enabled = true; mfa_method = some "totp" })
            else err 400),
        s,
      )

  abbrev pub after_proof :
      {A B : Type 0} → Result ℕ A × Store → (A → Store → Result ℕ B × Store) → Result ℕ B × Store
  after_proof (ok a, s) k = k a s
  after_proof (err e, s) k = (err e, s)

  -- `mfa_enable`
  unfoldable pub mfa_enable :
      World → Option String → String → String → Store → Result ℕ Minted × Store
  unfolding require_user enroll insert effective_roles
  mfa_enable w user_id method code s = elim (require_user user_id s.users) [
    | err e ↦ (err e, s)
    | ok u ↦
        if has_mfa u
        then (err 400, s)
        else after_proof (enroll w method code u s)
            λ u' s'. clean_session w u' (logged store u.id "mfa.enable" (put_user u' s'))
  ]

  -- `mfa_disable`
  unfoldable pub mfa_disable : World → Option String → String → Store → Result ℕ (Unit {0}) × Store
  unfolding require_user prove_factor insert
  mfa_disable w user_id code s = elim (require_user user_id s.users) [
    | err e ↦ (err e, s)
    | ok u ↦
        if not (has_mfa u)
        then (err 400, s)
        else after_proof (prove_factor w "disable" u code s) λ _ s'. (
          ok tt,
          logged store u.id "mfa.disable" (
              put_user (record u { totp_secret = ""; totp_enabled = false; mfa_method = none }) s'),
        )
  ]

  -- `mfa_verify_login`
  unfoldable pub mfa_verify_login : World → Option String → String → Store → Result ℕ Minted × Store
  unfolding require_user prove_factor effective_roles
  mfa_verify_login w user_id code s = elim (require_user user_id s.users) [
    | err e ↦ (err e, s)
    | ok u ↦
        if not (has_mfa u)
        then (err 400, s)
        else after_proof (prove_factor w "login" u code s)
            λ _ s'. let (m, t) = clean_session w u s' in (m, logged store u.id "mfa.verify_login" t)
  ]

  abbrev pub cools : World → Option OtpBlob → Bool
  cools w none = false
  cools w (some b) = ltb (unix_time w) (b.sent_at + 30)

  -- `mfa_resend`
  unfoldable pub mfa_resend : World → Option String → Store → Result ℕ (Unit {0}) × Store
  unfolding require_user issue_otp
  mfa_resend w user_id s = elim (require_user user_id s.users) [
    | err e ↦ (err e, s)
    | ok u ↦
        if not (is_method "email" u)
        then (err 400, s)
        else if cools w (store.get s.otps w.now (otp_key u.id "login"))
        then (err 429, s)
        else with_otps (issue_otp store w u "login" s.otps) s
  ]

  -- `mfa_verify`
  unfoldable pub mfa_verify :
      World → Option String → String → String → Store → Result ℕ RevealToken × Store
  unfolding require_user prove_factor
  mfa_verify w user_id credential_id code s =
      if credential_id == "" then (err 400, s) else elim (require_user user_id s.users) [
        | err e ↦ (err e, s)
        | ok u ↦
            if not (has_mfa u)
            then (err 403, s)
            else after_proof (prove_factor w "reveal" u code s) λ _ s'. (
              ok record {
                sub = u.id;
                cid = credential_id;
                iat = unix_time w;
                exp = unix_time w + 30;
              },
              s',
            )
      ]

  -- `elevate_verify`; the result is the minutes.
  unfoldable pub elevate_verify : World → Option String → String → Store → Result ℕ ℕ × Store
  unfolding require_user effective_roles prove_factor mem
  elevate_verify w user_id code s = elim (require_user user_id s.users) [
    | err e ↦ (err e, s)
    | ok u ↦
        if not (
          mem "admin" (effective_roles s.tables u.id)
          || mem "superadmin" (effective_roles s.tables u.id))
        then (err 403, s)
        else if not (has_mfa u)
        then (err 403, s)
        else after_proof (prove_factor w "elevate" u code s) λ _ s'. (
          ok w.elevated_minutes,
          logged store u.id "auth.elevate"
              (record s' { elevations = (u.id, w.elevated_minutes) ∷ s'.elevations }),
        )
  ]

  -- `setup_complete`
  unfoldable pub setup_complete : Option String → Store → Result ℕ (Unit {0}) × Store
  unfolding require_user insert
  setup_complete user_id s = elim (require_user user_id s.users) [
    | err e ↦ (err e, s)
    | ok u ↦ (ok tt, put_user (record u { setup_completed = true }) s)
  ]
