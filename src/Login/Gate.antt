-- ===== src/Login/Gate.antt =====
-- That no way to log in goes around the second factor: auth.py.
pub mod Factor
use seyal_run.Prelude.{
  ℕ, zero, suc, ◌+◌, ◌-◌, ◌*◌, ◌/◌, ◌≤◌, ◌<◌, min, max, String, ◌≡◌, refl, sym, subst, ap, fun_ext,
  ◌∙◌, ◌≢◌, ◌↔◌, ◌⊎◌, inl, inr, Bool, true, false, not, ◌&&◌, ◌||◌, false≢true, Option, none, some,
  List, [], ◌∷◌, ◌++◌, map, arith, ◌==◌, eq_iff, eq_refl, ltb, leb, eqb, if◌then◌else◌, ltb→lt,
  leb→le, Bool-cases, Option-cases, is_some, or_else, and_true, or_true, length, drop, any, all,
  keep, null, length-append, length-drop, any-append, All, All-keep, any_mono, mem, after_prefix,
  strip, lower_is, first_segment, ends_with, strip_slashes, codes, upper_code, mem-append,
  mem-cons_self, keep_nil, all_of_mem, mem-keep, any_of_mem, Dict, lookup, insert, erase, keys,
  lookup-insert, lookup-erase, dict_laws, All-insert, Result, ok, err, ◌>>=◌, ◌>>◌, guard,
  some_injective, guard-eq-ok, ok-injective, bind-eq-ok, Result-cases,
}
use seyal_run.Identity.Lockout.{check_locked, clear}
use seyal_run.Identity.Effective.{effective_roles}
use seyal_run.Sessions.{Request}
use seyal_run.Login.{
  User, OtpStore, State, World, ip_login_allowed, require_user, user_found, validate_new_password,
  Group,
}
use seyal_run.Login.Otp.{issue_otp}
use seyal_run.Login.Mint.{
  Minted, resolve_kiosk_host, session_for, has_mfa, is_method, must_enroll, mint_session,
}
use seyal_run.Login.Provider.{
  user_named, authenticate_local, provision, authenticate_sso, authenticate_jumpserver, Profile,
  with_role, role_named, new_account, role_by_user_type, role_for_profile,
}
use seyal_run.Login.Password.{
  open_session, login_failed, login, delegated, sso_exchange, jumpserver_login, new_password,
  rotate, change_password, attempt_key, distinct_username_failures,
}

-- The account is a row of the table.
abbrev pub IsRow : User → Dict User → Type 0
IsRow u [] = ⊥
IsRow u ((k, v) ∷ d) = (v ≡ u) ⊎ IsRow u d

user_named-IsRow :
    (name : String) (users : Dict User) (u : User) → user_named name users ≡ some u → IsRow u users
user_named-IsRow name [] u h = cc
user_named-IsRow name ((k, v) ∷ d) u h = elim (Bool-cases (v.username == name)) [
  | inl e ↦
      inl (some_injective (subst (λ b. (if b then some v else user_named name d) ≡ some u) e h))
  | inr e ↦ inr (
      user_named-IsRow name d u
        (subst (λ b. (if b then some v else user_named name d) ≡ some u) e h))
]

insert-IsRow : (k : String) (u : User) (users : Dict User) → IsRow u (insert k u users)
unfolding insert
insert-IsRow k u [] = inl refl
insert-IsRow k u ((j, v) ∷ d) = elim (Bool-cases (j == k)) [
  | inl e ↦ rw e (inl refl)
  | inr e ↦ rw e (inr (insert-IsRow k u d))
]

-- The ways to log in that prove a first factor, or renew one.
pub data FirstFactor : Type 0 where
  password : String → String → Option String → FirstFactor
  sso_code : String → FirstFactor
  jumpserver_token : Option Profile → FirstFactor
  rotation : Option String → String → String → Option String → FirstFactor

module _ (store : OtpStore) where
  abbrev pub run : FirstFactor → World → State store.State → Result ℕ Minted × State store.State
  run (password name word kiosk) w s = login store w name word kiosk s
  run (sso_code code) w s = sso_exchange store w code s
  run (jumpserver_token profile) w s = jumpserver_login store w profile s
  run (rotation user_id current word kiosk) w s =
      change_password store w user_id current word kiosk s

  -- No session is new, or one is, of an account of the table and with that account's gates.
  abbrev pub IsGated : World → State store.State → State store.State → Type 0
  IsGated w s t =
      (t.sessions ≡ s.sessions)
      ⊎ ((r : Request) × (u : User) × IsRow u t.users
          × (t.sessions ≡ r ∷ s.sessions)
          × (r.user_id ≡ u.id)
          × (r.mfa_pending ≡ has_mfa u)
          × (r.mfa_setup_required ≡ must_enroll w u))

  mint-gated :
      (w : World) (u : User) (kiosk : Option String) (pwc : Bool) (s : State store.State)
      → ((mint_session store w u kiosk pwc s).1.sessions
          ≡ session_for w u (effective_roles s.tables u.id) kiosk pwc (has_mfa u) (must_enroll w u)
            ∷ s.sessions)
        × ((mint_session store w u kiosk pwc s).1.users ≡ s.users)
  unfolding mint_session
  mint-gated w u kiosk pwc s = elim (Bool-cases (has_mfa u && is_method "email" u)) [
    | inl e ↦ rw (mint_session, e) (refl, refl)
    | inr e ↦ rw (mint_session, e) (refl, refl)
  ]

  open-IsGated :
      (w : World) (action : String) (kiosk : Option String) (u : User) (s : State store.State)
      → IsRow u s.users
      → IsGated w s (open_session store w action kiosk u s).1
  unfolding open_session
  open-IsGated w action kiosk u s h =
      let (minted, kept) = mint-gated w u (resolve_kiosk_host w kiosk) u.must_change_password s in
      let request =
        session_for w u (effective_roles s.tables u.id) (resolve_kiosk_host w kiosk)
          u.must_change_password (has_mfa u) (must_enroll w u) in
      let row = subst (IsRow u) (sym kept) h in
      let done = mint_session store w u (resolve_kiosk_host w kiosk) u.must_change_password s in
      elim (Bool-cases (ip_login_allowed w u)) [
        | inr e ↦ rw (open_session, e) (inl refl)
        | inl e ↦ elim (Result-cases done.0) [
          | inl (m, f) ↦ rw (open_session, e, f) (inr (request, u, row, minted, refl, refl, refl))
          | inr (bad, f) ↦ rw (open_session, e, f) (inr (request, u, row, minted, refl, refl, refl))
        ]
      ]

  failed-sessions :
      (w : World) (name : String) (s : State store.State)
      → (login_failed store w name s).sessions ≡ s.sessions
  unfolding login_failed
  failed-sessions w name s = ground arith

  login-IsGated :
      (w : World) (name word : String) (kiosk : Option String) (s : State store.State)
      → IsGated w s (login store w name word kiosk s).1
  unfolding login authenticate_local
  login-IsGated w name word kiosk s =
      elim (Option-cases (check_locked s.attempts w.now (attempt_key w name))) [
        | inr (left, e) ↦ rw (login, e) (inl refl)
        | inl e ↦ elim (Option-cases (user_named name s.users)) [
          | inl f ↦ rw (login, e, authenticate_local, f) (inl (failed-sessions w name s))
          | inr (u, f) ↦ elim (Bool-cases (u.is_active && w.verify_password word u.password_hash)) [
            | inr g ↦ rw (login, e, authenticate_local, f, g) (inl (failed-sessions w name s))
            | inl g ↦
                rw (login, e, authenticate_local, f, g)
                  (open-IsGated w "login" kiosk u _ (user_named-IsRow name s.users u f))
          ]
        ]
      ]

  with_role-IsRow :
      (is_new : Bool) (u : User) (role : Option String) (s : State store.State)
      → IsRow (with_role is_new u role s).0 (with_role is_new u role s).1.users
        × ((with_role is_new u role s).1.sessions ≡ s.sessions)
  with_role-IsRow is_new u none s = (insert-IsRow u.id u s.users, refl)
  with_role-IsRow is_new u (some role) s =
      (insert-IsRow u.id (record u { role_id = some role }) s.users, refl)

  provision-IsRow :
      (w : World) (name role : String) (s : State store.State)
      → IsRow (provision w name role s).0 (provision w name role s).1.users
        × ((provision w name role s).1.sessions ≡ s.sessions)
  unfolding provision
  provision-IsRow w name role s = elim (Option-cases (user_named name s.users)) [
    | inl e ↦
        rw (provision, e)
          (with_role-IsRow true (new_account w name none) (role_named role s.tables.roles) s)
    | inr (u, e) ↦ rw (provision, e) (with_role-IsRow false u (role_named role s.tables.roles) s)
  ]

  provisioned-IsGated :
      (w : World) (action name role : String) (s : State store.State)
      → IsGated w s
          (open_session store w action none
            (provision w name role s).0
            (provision w name role s).1).1
  provisioned-IsGated w action name role s =
      let (row, same) = provision-IsRow w name role s in
      let done = provision w name role s in
      let t = (open_session store w action none done.0 done.1).1 in
      subst
        (λ l.
          (t.sessions ≡ l)
          ⊎ ((r : Request) × (u : User) × IsRow u t.users
              × (t.sessions ≡ r ∷ l)
              × (r.user_id ≡ u.id)
              × (r.mfa_pending ≡ has_mfa u)
              × (r.mfa_setup_required ≡ must_enroll w u)))
        same (open-IsGated w action none done.0 done.1 row)

  sso-IsGated :
      (w : World) (code : String) (s : State store.State)
      → IsGated w s (sso_exchange store w code s).1
  unfolding sso_exchange authenticate_sso
  sso-IsGated w code s =
      let live = keep (λ c. leb w.now c.1.expires_at) s.sso_codes in
      let s' : State store.State = record s { sso_codes = erase code live } in
      elim (Bool-cases (mem "zabbix_sso" w.disabled_idps)) [
        | inl e ↦ rw (sso_exchange, e) (inl refl)
        | inr e ↦ elim (Option-cases (lookup code live)) [
          | inl f ↦ rw (sso_exchange, e, authenticate_sso, f) (inl refl)
          | inr (c, f) ↦
              rw (sso_exchange, e, authenticate_sso, f)
                (provisioned-IsGated w "login_sso" c.username (role_by_user_type c.zabbix_user_type)
                  s')
        ]
      ]

  jumpserver-IsGated :
      (w : World) (profile : Option Profile) (s : State store.State)
      → IsGated w s (jumpserver_login store w profile s).1
  unfolding jumpserver_login authenticate_jumpserver
  jumpserver-IsGated w none s = elim (Bool-cases (mem "jumpserver" w.disabled_idps)) [
    | inl e ↦ rw (jumpserver_login, e) (inl refl)
    | inr e ↦ rw (jumpserver_login, e) (inl refl)
  ]
  jumpserver-IsGated w (some p) s = elim (Bool-cases (mem "jumpserver" w.disabled_idps)) [
    | inl e ↦ rw (jumpserver_login, e) (inl refl)
    | inr e ↦
        rw (jumpserver_login, e)
          (provisioned-IsGated w "login_jumpserver" p.username (role_for_profile p) s)
  ]

  rotate-IsGated :
      (w : World) (current word : String) (kiosk : Option String) (u : User) (s : State store.State)
      → IsGated w s (rotate store w current word kiosk u s).1
  unfolding rotate
  rotate-IsGated w current word kiosk u s =
      let u' = new_password store w word u in
      let s' : State store.State = record s { users = insert u.id u' s.users } in
      let host = resolve_kiosk_host w kiosk in
      let (minted, kept) = mint-gated w u' host false s' in
      let request =
        session_for w u' (effective_roles s.tables u.id) host false (has_mfa u')
          (must_enroll w u') in
      let row : IsRow u' (mint_session store w u' host false s').1.users =
        subst (IsRow u') (sym kept) (insert-IsRow u.id u' s.users) in
      let done = mint_session store w u' host false s' in
      elim (Bool-cases (w.verify_password current u.password_hash)) [
        | inr e ↦ rw (rotate, e) (inl refl)
        | inl e ↦ elim (Option-cases (validate_new_password w.lower u.username current word)) [
          | inr (reason, f) ↦ rw (rotate, e, f) (inl refl)
          | inl f ↦ elim (Result-cases done.0) [
            | inl (m, g) ↦ rw (rotate, e, f, g) (inr (request, u', row, minted, refl, refl, refl))
            | inr (bad, g) ↦ rw (rotate, e, f, g) (inr (request, u', row, minted, refl, refl, refl))
          ]
        ]
      ]

  change-IsGated :
      (w : World) (user_id : Option String) (current word : String) (kiosk : Option String)
      (s : State store.State)
      → IsGated w s (change_password store w user_id current word kiosk s).1
  unfolding change_password
  change-IsGated w user_id current word kiosk s =
      elim (Result-cases (require_user user_id s.users)) [
        | inl (u, e) ↦ rw (change_password, e) (rotate-IsGated w current word kiosk u s)
        | inr (bad, e) ↦ rw (change_password, e) (inl refl)
      ]

  -- Whatever the outcome of a password, an SSO code, a JumpServer token or a change of password, it
  -- opens no session, or one for an account of the table: that session waits for the second factor
  -- exactly when the account has one, and for its enrolment exactly when a group of the account
  -- enforces one that the account does not have.
  pub sessions-IsGated :
      (f : FirstFactor) (w : World) (s : State store.State) → IsGated w s (run f w s).1
  sessions-IsGated (password name word kiosk) w s = login-IsGated w name word kiosk s
  sessions-IsGated (sso_code code) w s = sso-IsGated w code s
  sessions-IsGated (jumpserver_token profile) w s = jumpserver-IsGated w profile s
  sessions-IsGated (rotation user_id current word kiosk) w s =
      change-IsGated w user_id current word kiosk s
