-- ===== src/Login/Password.antt =====
-- The handlers of auth.py that open a session: the password, the two delegated logins, and the
-- change of a password.
use seyal_run.Prelude.{
  append, cut, ℕ, ◌+◌, ◌*◌, String, false, not, ◌&&◌, ◌||◌, Option, none, some, ◌∷◌, leb,
  if◌then◌else◌, length, keep, mem, ends_with, Dict, insert, Result, ok, err,
}
use seyal_run.Identity.Lockout.{Attempt, second, check_locked, record_failure, clear}
use seyal_run.Login.{
  User, OtpStore, State, World, ip_login_allowed, require_user, validate_new_password,
}
use seyal_run.Login.Mint.{Minted, resolve_kiosk_host, logged, mint_session}
use seyal_run.Login.Provider.{
  authenticate_local, authenticate_sso, authenticate_jumpserver, Profile,
}

-- `attempt_key`
unfoldable pub attempt_key : World → String → String
attempt_key w username = cut 320 (append (w.lower username) (append "|" w.client_ip))

-- `distinct_username_failures`: LIKE `%|ip`, for an address without wildcards
unfoldable pub distinct_username_failures : World → Dict Attempt → ℕ
unfolding ends_with
distinct_username_failures w table = length (
    keep
      (λ r. ends_with r.0 (append "|" w.client_ip) && elim r.1.updated_at [
        | none ↦ false
        | some t ↦ leb w.now (t + w.lockout.window_seconds * second)
      ])
      table)

module _ (store : OtpStore) where
  abbrev pub Store : Type 0
  Store = State store.State

  -- A login that knows its user: the addresses, then the session, then the audit entry.
  unfoldable pub open_session :
      World → String → Option String → User → Store → Result ℕ Minted × Store
  unfolding ip_login_allowed mint_session resolve_kiosk_host
  open_session w action kiosk_target u s =
      let done =
        mint_session store w u (resolve_kiosk_host w kiosk_target) u.must_change_password s in
      if not (ip_login_allowed w u) then (err 403, logged store u.id "login_denied_ip" s) else (
        done.0,
        elim done.0 [
          | err e ↦ done.1
          | ok m ↦
              logged store u.id
                (if m.mfa_required || m.mfa_setup_required
                  then append action "_mfa_pending"
                  else action)
                done.1
        ],
      )

  unfoldable pub login_failed : World → String → Store → Store
  unfolding attempt_key record_failure distinct_username_failures
  login_failed w username s =
      let attempts' = record_failure s.attempts w.now w.lockout (attempt_key w username) in
      let s' : Store = logged store "" "login_failed" (record s { attempts = attempts' }) in
      if leb w.spike_threshold (distinct_username_failures w attempts')
      then record s' { alerts = w.client_ip ∷ s'.alerts }
      else s'

  -- `login`
  unfoldable pub login : World → String → String → Option String → Store → Result ℕ Minted × Store
  unfolding attempt_key check_locked clear
  login w username password kiosk_target s =
      elim (check_locked s.attempts w.now (attempt_key w username)) [
        | some locked_for ↦ (err 429, s)
        | none ↦ elim (authenticate_local w username password s.users) [
          | none ↦ (err 401, login_failed w username s)
          | some u ↦
              open_session w "login" kiosk_target u
                (record s { attempts = clear s.attempts (attempt_key w username) })
        ]
      ]

  abbrev pub delegated : World → String → Option User × Store → Result ℕ Minted × Store
  delegated w action (none, s) = (err 401, s)
  delegated w action (some u, s) = open_session w action none u s

  -- `_require_idp_enabled` and `sso_exchange`
  unfoldable pub sso_exchange : World → String → Store → Result ℕ Minted × Store
  unfolding mem
  sso_exchange w code s =
      if mem "zabbix_sso" w.disabled_idps
      then (err 403, s)
      else delegated w "login_sso" (authenticate_sso w code s)

  -- `jumpserver_login`, with the profile that JumpServer has for the token
  unfoldable pub jumpserver_login : World → Option Profile → Store → Result ℕ Minted × Store
  unfolding mem
  jumpserver_login w profile s =
      if mem "jumpserver" w.disabled_idps
      then (err 403, s)
      else delegated w "login_jumpserver" (authenticate_jumpserver w profile s)

  abbrev pub new_password : World → String → User → User
  new_password w password u = record u {
    password_hash = w.hash_password password;
    must_change_password = false;
  }

  -- What `change_password` does for the user that it found.
  unfoldable pub rotate :
      World → String → String → Option String → User → Store → Result ℕ Minted × Store
  unfolding validate_new_password insert mint_session resolve_kiosk_host
  rotate w current password kiosk_target u s =
      let u' = new_password w password u in
      let s' : Store = record s { users = insert u.id u' s.users } in
      let done = mint_session store w u' (resolve_kiosk_host w kiosk_target) false s' in
      if not (w.verify_password current u.password_hash)
      then (err 401, s)
      else elim (validate_new_password w.lower u.username current password) [
        | some reason ↦ (err 400, s)
        | none ↦ (
          done.0,
          elim done.0 [ err e ↦ done.1 | ok m ↦ logged store u.id "password_change" done.1 ],
        )
      ]

  -- `change_password`
  unfoldable pub change_password :
      World → Option String → String → String → Option String → Store → Result ℕ Minted × Store
  unfolding require_user rotate
  change_password w user_id current password kiosk_target s = elim (require_user user_id s.users) [
    | err e ↦ (err e, s)
    | ok u ↦ rotate w current password kiosk_target u s
  ]
