-- ===== src/Login/Access.antt =====
-- Who is let in by auth.py, and who is kept out: lockouts and inactive accounts.
use seyal_run.Prelude.{
  ℕ, ◌-◌, ◌/◌, ◌≤◌, ◌<◌, String, ◌≡◌, refl, ap, ◌∙◌, inl, inr, Bool, true, false, ◌&&◌, Option,
  none, some, ◌∷◌, arith, ◌==◌, ltb, leb, if◌then◌else◌, Bool-cases, keep, mem, lookup, erase, ok,
  err, Result,
}
use seyal_run.Identity.Lockout.{Attempt, second, check_locked}
use seyal_run.Identity.Effective.{effective_roles}
use seyal_run.Sessions.{Request}
use seyal_run.Login.{User, OtpStore, State, World, ip_login_allowed, SsoCode}
use seyal_run.Login.Otp.{issue_otp}
use seyal_run.Login.Mint.{
  Minted, session_for, resolve_kiosk_host, has_mfa, is_method, mint_session, must_enroll,
  needs_wizard,
}
use seyal_run.Login.Provider.{
  user_named, authenticate_local, provision, authenticate_sso, with_role, role_named,
  role_by_user_type,
}
use seyal_run.Login.Password.{open_session, login, sso_exchange, attempt_key}

-- Where the second factor is a code by mail, the mail can be sent.
abbrev pub CanMail : World → User → Type 0
CanMail w u =
    (has_mfa u && is_method "email" u) ≡ true → (w.mail_sent ≡ true) × (u.email == "" ≡ false)

module _ (store : OtpStore) where
  abbrev Store : Type 0
  Store = State store.State

  abbrev response : World → User → Minted
  response w u = record {
    access_token = w.session_id;
    mfa_required = has_mfa u;
    mfa_method = if has_mfa u then u.mfa_method else none;
    mfa_setup_required = must_enroll w u;
    needs_setup_wizard = needs_wizard w u;
  }

  -- A success for the user: the token of the response is that of a session of the user, which is
  -- stored beside those of before.
  abbrev pub HasOpened : World → User → Store → Result ℕ Minted × Store → Type 0
  HasOpened w u s r =
      (m : Minted) × (q : Request) × (r.0 ≡ ok m)
      × (r.1.sessions ≡ q ∷ s.sessions)
      × (q.user_id ≡ u.id)
      × (q.session_id ≡ m.access_token)

  abbrev Mints : World → User → Option String → Bool → Store → Result ℕ Minted × Store → Type 0
  Mints w u kiosk pwc s r =
      (r.0 ≡ ok (response w u))
      × (r.1.sessions
          ≡ session_for w u (effective_roles s.tables u.id) kiosk pwc (has_mfa u) (must_enroll w u)
            ∷ s.sessions)

  mint-ok :
      (w : World) (u : User) (kiosk : Option String) (pwc : Bool) (s : Store)
      → CanMail w u
      → Mints w u kiosk pwc s (mint_session store w u kiosk pwc s)
  unfolding mint_session issue_otp
  mint-ok w u kiosk pwc s c = elim (Bool-cases (has_mfa u && is_method "email" u)) [
    | inl e ↦ let (m, a) = c e in rw (mint_session, e, issue_otp, a, m) (refl, refl)
    | inr e ↦ rw (mint_session, e) (refl, refl)
  ]

  open-ok :
      (w : World) (action : String) (kiosk : Option String) (u : User) (s : Store)
      → CanMail w u
      → ip_login_allowed w u ≡ true
      → HasOpened w u s (open_session store w action kiosk u s)
  unfolding open_session
  open-ok w action kiosk u s m i =
      let k = resolve_kiosk_host w kiosk in
      let (a, b) = mint-ok w u k u.must_change_password s m in
      (
        response w u,
        session_for w u (effective_roles s.tables u.id) k u.must_change_password (has_mfa u)
            (must_enroll w u),
        rw (open_session, i) a,
        rw (open_session, i, a) b,
        refl,
        refl,
      )

  -- Until a lockout is over every password is refused with 429 and nothing changes, not even the
  -- count; from then on the right password of an active account, from an allowed address, succeeds
  -- and stores a session of the account, provided that a mail can be sent where the second factor
  -- is a code by mail.
  pub lockout_ends :
      (w : World) (name word : String) (kiosk : Option String) (s : Store) (u : User)
      (row : Attempt) (until : ℕ)
      → lookup (attempt_key w name) s.attempts ≡ some row
      → row.locked_until ≡ some until
      → user_named name s.users ≡ some u
      → u.is_active ≡ true
      → w.verify_password word u.password_hash ≡ true
      → ip_login_allowed w u ≡ true
      → CanMail w u
      → (w.now < until → (any_word : String) → login store w name any_word kiosk s ≡ (err 429, s))
        × (until ≤ w.now → HasOpened w u s (login store w name word kiosk s))
  unfolding login check_locked authenticate_local
  lockout_ends w name word kiosk s u row until a l f act v i m =
      let early : ltb w.now until ≡ true
          → (left : ℕ) × (check_locked s.attempts w.now (attempt_key w name) ≡ some left) =
        λ h. ((until - w.now) / second, rw (check_locked, a, l, h) refl) in
      let late : ltb w.now until ≡ false
          → check_locked s.attempts w.now (attempt_key w name) ≡ none =
        λ h. rw (check_locked, a, l, h) refl in
      let both : (u.is_active && w.verify_password word u.password_hash) ≡ true =
        rw (act, v) refl in
      (
        λ h any_word. let (left, e) = early (ground (arith, h)) in rw (login, e) refl,
        λ h.
            rw (login, late (ground (arith, h)), authenticate_local, f, both)
              (open-ok w "login" kiosk u _ m i),
      )

  provision-known :
      (w : World) (name : String) (u : User) (role : String) (s : Store)
      → user_named name s.users ≡ some u
      → provision w name role s ≡ with_role false u (role_named role s.tables.roles) s
  unfolding provision
  provision-known w name u role s f = rw (provision, f) refl

  -- A new role changes neither the addresses nor the mail of an account.
  role-allowed :
      (w : World) (u : User) (role : Option String) (s : Store)
      → ip_login_allowed w (with_role false u role s).0 ≡ ip_login_allowed w u
  unfolding ip_login_allowed
  role-allowed w u none s = refl
  role-allowed w u (some role) s = refl

  role-CanMail :
      (w : World) (u : User) (role : Option String) (s : Store)
      → CanMail w u
      → CanMail w (with_role false u role s).0
  role-CanMail w u none s h = h
  role-CanMail w u (some role) s h = h

  -- Nor does it change the id of the account or the sessions.
  role-HasOpened :
      (w : World) (u : User) (role : Option String) (s : Store) (r : Result ℕ Minted × Store)
      → HasOpened w (with_role false u role s).0 (with_role false u role s).1 r
      → HasOpened w u s r
  role-HasOpened w u none s r h = h
  role-HasOpened w u (some role) s r h = h

  sso-known :
      (w : World) (code : String) (u : User) (s : Store) (c : SsoCode)
      → lookup code (keep (λ c. leb w.now c.1.expires_at) s.sso_codes) ≡ some c
      → user_named c.username s.users ≡ some u
      → let done =
          with_role false u
            (role_named (role_by_user_type c.zabbix_user_type) s.tables.roles)
            (record s {
              sso_codes = erase code (keep (λ c. leb w.now c.1.expires_at) s.sso_codes);
            }) in
        authenticate_sso w code s ≡ (some done.0, done.1)
  unfolding authenticate_sso
  sso-known w code u s c l f =
      let s' : Store = record s {
        sso_codes = erase code (keep (λ c. leb w.now c.1.expires_at) s.sso_codes);
      } in
      rw
        (
          authenticate_sso,
          l,
          provision-known w c.username u (role_by_user_type c.zabbix_user_type) s' f,
        )
        refl

  sso-open :
      (w : World) (code : String) (s : Store) (u : User) (t : Store)
      → mem "zabbix_sso" w.disabled_idps ≡ false
      → authenticate_sso w code s ≡ (some u, t)
      → sso_exchange store w code s ≡ open_session store w "login_sso" none u t
  unfolding sso_exchange
  sso-open w code s u t d e = rw (sso_exchange, d, e) refl

  -- An account that was deactivated logs in no more by its password, whatever it is, but a valid SSO
  -- code that names it still succeeds and stores a session of it, where SSO is enabled, the address
  -- is allowed, and a mail can be sent if the second factor is a code by mail.
  pub inactive_logs_in_by_sso :
      (w : World) (name word code : String) (kiosk : Option String) (s : Store) (u : User)
      (c : SsoCode)
      → user_named name s.users ≡ some u
      → u.is_active ≡ false
      → c.username ≡ name
      → lookup code (keep (λ c. leb w.now c.1.expires_at) s.sso_codes) ≡ some c
      → mem "zabbix_sso" w.disabled_idps ≡ false
      → ip_login_allowed w u ≡ true
      → CanMail w u
      → (authenticate_local w name word s.users ≡ none)
        × HasOpened w u s (sso_exchange store w code s)
  unfolding authenticate_local
  inactive_logs_in_by_sso w name word code kiosk s u c f a n l d i m =
      let f' : user_named c.username s.users ≡ some u = ap (λ x. user_named x s.users) n ∙ f in
      let role = role_named (role_by_user_type c.zabbix_user_type) s.tables.roles in
      let s' : Store = record s {
        sso_codes = erase code (keep (λ c. leb w.now c.1.expires_at) s.sso_codes);
      } in
      let done = with_role false u role s' in
      (
        rw (authenticate_local, f, a) refl,
        rw (sso-open w code s done.0 done.1 d (sso-known w code u s c l f')) (
            role-HasOpened w u role s' (open_session store w "login_sso" none done.0 done.1) (
              open-ok w "login_sso" none done.0 done.1 (role-CanMail w u role s' m)
                (role-allowed w u role s' ∙ i))),
      )
