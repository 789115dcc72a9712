-- ===== src/Login/Tests.antt =====
-- Runs of the login handlers, on a Redis that is a function from keys to codes with their expiry.
use seyal_run.Prelude.{
  ℕ, ◌+◌, ◌*◌, ◌≤◌, ◌<◌, String, ◌≡◌, refl, ◌≢◌, inl, inr, true, false, ◌&&◌, Option, none, some,
  List, [], ◌∷◌, arith, ◌==◌, ltb, if◌then◌else◌, Bool-cases, mem, lookup, ok, err,
}
use seyal_run.Identity.Lockout.{second}
use seyal_run.Login.{
  User, OtpBlob, OtpKey, same_otp_key, OtpStore, State, World, ip_login_allowed, require_user,
}
use seyal_run.Login.Otp.{consume_otp}
use seyal_run.Login.Otp.Budget.{guesses, five_guesses, accepted_once, IsSpent}
use seyal_run.Login.Provider.{authenticate_local}
use seyal_run.Login.Password.{login, attempt_key, sso_exchange}
use seyal_run.Login.Mfa.{mfa_verify_login, prove_factor}
use seyal_run.Login.Gate.{password, run, IsGated, sessions-IsGated}
use seyal_run.Login.Gate.Factor.{end_login, is_ok, IsDecided, guarded_actions_proved}
use seyal_run.Login.Access.{HasOpened, lockout_ends, inactive_logs_in_by_sso}

abbrev Table : Type 0
Table = OtpKey → Option (OtpBlob × ℕ)

abbrev alive : ℕ → Option (OtpBlob × ℕ) → Option OtpBlob
alive t none = none
alive t (some (v, expiry)) = if ltb t expiry then some v else none

abbrev table_get : Table → ℕ → OtpKey → Option OtpBlob
table_get s t j = alive t (s j)

abbrev table_set : Table → ℕ → OtpKey → OtpBlob → ℕ → Table
table_set s now k v ttl = λ j. if same_otp_key k j then some (v, now + ttl * second) else s j

abbrev table_del : Table → OtpKey → Table
table_del s k = λ j. if same_otp_key k j then none else s j

table_get-set :
    (s : Table) (now t ttl : ℕ) (k j : OtpKey) (v : OtpBlob)
    → table_get (table_set s now k v ttl) t j ≡ (
        if same_otp_key k j
        then (if ltb t (now + ttl * second) then some v else none)
        else table_get s t j)
table_get-set s now t ttl k j v = elim (Bool-cases (same_otp_key k j)) [
  | inl e ↦ rw (e) refl
  | inr e ↦ rw (e) refl
]

table_get-del :
    (s : Table) (t : ℕ) (k j : OtpKey)
    → table_get (table_del s k) t j ≡ (if same_otp_key k j then none else table_get s t j)
table_get-del s t k j = elim (Bool-cases (same_otp_key k j)) [
  | inl e ↦ rw (e) refl
  | inr e ↦ rw (e) refl
]

alive-later : (o : Option (OtpBlob × ℕ)) (t u : ℕ) → t ≤ u → alive t o ≡ none → alive u o ≡ none
alive-later none t u h e = refl
alive-later (some (v, expiry)) t u h e = ground (arith, h, e)

abbrev store : OtpStore
store = record {
  State = Table;
  get = table_get;
  set = table_set;
  del = table_del;
  get-set = table_get-set;
  get-del = table_get-del;
  get-later = λ s t u k. alive-later (s k) t u;
}

-- At a time in seconds.
abbrev at : ℕ → World
at t = record {
  now = t * second;
  client_ip = "10.0.0.7";
  session_id = "s1";
  otp_code = "123456";
  new_user_id = "new";
  new_totp_secret = "sealed";
  groups_of = λ u.
      record {
        mfa_enforced = true;
        setup_wizard = false;
        single_session_enabled = false;
        ip_restriction_enabled = true;
        cidrs = "10.0.0.0/8" ∷ [];
      }
      ∷ [];
  verify_password = λ p h. p == h;
  hash_password = λ p. p;
  totp_verify = λ secret code. code == "654321";
  is_ip = λ ip. true;
  in_network = λ ip cidr. cidr == "10.0.0.0/8";
  mail_sent = true;
  lockout = record { max_failures = 5; lockout_seconds = 900; window_seconds = 300 };
  idle_minutes = 30;
  elevated_minutes = 30;
  spike_threshold = 10;
  disabled_idps = [];
  lower = λ s. s;
  inventory = none;
}

abbrev kumar : User
kumar = record {
  id = "u1";
  username = "kumar";
  email = "kumar@example.org";
  role_id = none;
  password_hash = "secret";
  must_change_password = false;
  is_active = true;
  totp_secret = "sealed";
  totp_enabled = true;
  mfa_method = some "totp";
  allowed_ips = [];
  ip_restriction_enabled = false;
  single_session_enabled = false;
  setup_completed = true;
}

abbrev mail_code : OtpBlob
mail_code = record { code = "123456"; expires_at = 1300; attempts = 0; sent_at = 1000 }

abbrev state_of : User → Option ℕ → State Table
state_of u until = record {
  users = ("u1", u) ∷ [];
  tables = record {
    roles = ("r1", "user") ∷ [];
    user_roles = ("u1", "r1") ∷ [];
    members = [];
    group_roles = [];
  };
  attempts =
      ("kumar|10.0.0.7", record { fail_count = 5; locked_until = until; updated_at = some 0 }) ∷ [];
  sso_codes =
      ("c1", record { username = "kumar"; zabbix_user_type = 1; expires_at = 2000 * second }) ∷ [];
  otps = λ k.
      if k.purpose == "login" && k.user_id == "u1" then some (mail_code, 1300 * second) else none;
  sessions = [];
  log = [];
  alerts = [];
  elevations = [];
}

abbrev locked_state : State Table
locked_state = state_of kumar (some (900 * second))

sessions-IsGated_example :
    IsGated store
      (at 1000)
      locked_state
      (run store (password "kumar" "secret" none) (at 1000) locked_state).1
sessions-IsGated_example =
    sessions-IsGated store (password "kumar" "secret" none) (at 1000) locked_state

guarded_actions_proved_example :
    IsDecided store end_login (at 1000) (some "u1") "654321" locked_state
guarded_actions_proved_example =
    guarded_actions_proved store end_login (at 1000) (some "u1") "654321" locked_state

-- The code is the right one, so the decision is a success.
login_ended : is_ok (mfa_verify_login store (at 1000) (some "u1") "654321" locked_state).0 ≡ true
unfolding mfa_verify_login prove_factor require_user lookup
login_ended = refl

lockout_ends_example :
    ((at 1000).now < 900 * second
      → (any_word : String)
      → login store (at 1000) "kumar" any_word none locked_state ≡ (err 429, locked_state))
    × (900 * second ≤ (at 1000).now
        → HasOpened store
            (at 1000)
            kumar
            locked_state
            (login store (at 1000) "kumar" "secret" none locked_state))
unfolding attempt_key lookup ip_login_allowed
lockout_ends_example =
    lockout_ends store (at 1000) "kumar" "secret" none locked_state kumar
      (record { fail_count = 5; locked_until = some (900 * second); updated_at = some 0 })
      (900 * second) refl refl refl refl refl refl (λ _. (refl, refl))

abbrev former : User
former = record kumar { is_active = false }

inactive_logs_in_by_sso_example :
    (authenticate_local (at 1000) "kumar" "secret" (state_of former none).users ≡ none)
    × HasOpened store
        (at 1000)
        former
        (state_of former none)
        (sso_exchange store (at 1000) "c1" (state_of former none))
unfolding lookup mem ip_login_allowed
inactive_logs_in_by_sso_example =
    inactive_logs_in_by_sso store (at 1000) "kumar" "secret" "c1" none (state_of former none) former
      (record { username = "kumar"; zabbix_user_type = 1; expires_at = 2000 * second }) refl refl
      refl refl refl refl (λ _. (refl, refl))

-- Five wrong guesses, then the right code.
abbrev wrong_guesses : List (World × String)
wrong_guesses =
    (at 1001, "000000")
    ∷ (at 1002, "000001")
    ∷ (at 1003, "000002")
    ∷ (at 1004, "000003")
    ∷ (at 1005, "000004")
    ∷ []

five_guesses_example :
    (consume_otp store
      (at 1006)
      "u1"
      "123456"
      "login"
      (guesses store "u1" "login" locked_state.otps wrong_guesses)).0
    ≢ ok tt
unfolding consume_otp
five_guesses_example =
    five_guesses store "u1" "login" 1000 (at 1006) locked_state.otps wrong_guesses "123456"
      (
        (omega arith),
        refl,
        (
          (omega arith),
          refl,
          ((omega arith), refl, ((omega arith), refl, ((omega arith), refl, tt))),
        ),
      )
      (omega arith) (omega arith)

accepted_once_example :
    IsSpent store "u1" "login" (at 1006) "123456" locked_state.otps
    × ((consume_otp store
          (at 1007)
          "u1"
          "123456"
          "login"
          (consume_otp store (at 1006) "u1" "123456" "login" locked_state.otps).1).0
        ≡ err 401)
unfolding consume_otp
accepted_once_example =
    accepted_once store "u1" "login" (at 1006) (at 1007) "123456" "123456" locked_state.otps refl
