-- ===== src/Login.antt =====
-- core/services/identity-service/app/api/auth.py, with _pwpolicy.py, grouppolicy.py and the
-- providers of plugins/idp: how a caller becomes a session. Times are in microseconds.
pub mod Otp
pub mod Mint
pub mod Provider
pub mod Password
pub mod Mfa
pub mod Gate
pub mod Access
pub mod Addresses
mod Tests
use seyal_run.Prelude.{
  text_length, ℕ, zero, suc, ◌+◌, ◌-◌, ◌*◌, ◌/◌, ◌≤◌, ◌<◌, min, max, String, ◌≡◌, refl, sym, subst,
  ap, fun_ext, ◌∙◌, ◌≢◌, ◌↔◌, ◌⊎◌, inl, inr, Bool, true, false, not, ◌&&◌, ◌||◌, false≢true, Option,
  none, some, List, [], ◌∷◌, ◌++◌, map, arith, ◌==◌, eq_iff, eq_refl, ltb, leb, eqb, if◌then◌else◌,
  ltb→lt, leb→le, Bool-cases, Option-cases, is_some, or_else, and_true, or_true, length, drop, any,
  all, keep, null, length-append, length-drop, any-append, All, All-keep, any_mono, mem,
  after_prefix, strip, lower_is, first_segment, ends_with, strip_slashes, codes, upper_code,
  mem-append, mem-cons_self, keep_nil, all_of_mem, mem-keep, any_of_mem, Dict, lookup, insert,
  erase, keys, lookup-insert, lookup-erase, dict_laws, All-insert, Result, ok, err, ◌>>=◌, ◌>>◌,
  guard, guard-eq-ok, ok-injective, bind-eq-ok, Result-cases,
}
use seyal_run.Identity.Lockout.{Attempt, Policy, second}
use seyal_run.Identity.Effective.{RoleTables}
use seyal_run.Sessions.{Request}

pub record User : Type 0 where
  pub id : String
  pub username : String
  pub email : String
  pub role_id : Option String
  pub password_hash : String
  pub must_change_password : Bool
  pub is_active : Bool
  pub totp_secret : String
  pub totp_enabled : Bool
  pub mfa_method : Option String
  pub allowed_ips : List String
  pub ip_restriction_enabled : Bool
  pub single_session_enabled : Bool
  pub setup_completed : Bool

-- The policies of a group, with the addresses of its IP restriction.
pub record Group : Type 0 where
  pub mfa_enforced : Bool
  pub setup_wizard : Bool
  pub single_session_enabled : Bool
  pub ip_restriction_enabled : Bool
  pub cidrs : List String

pub record Policies : Type 0 where
  pub mfa_enforced : Bool
  pub setup_wizard : Bool
  pub single_session_enabled : Bool

-- `effective_group_policies`
unfoldable pub effective_group_policies : List Group → Policies
effective_group_policies groups = record {
  mfa_enforced = any (λ g. g.mfa_enforced) groups;
  setup_wizard = any (λ g. g.setup_wizard) groups;
  single_session_enabled = any (λ g. g.single_session_enabled) groups;
}

-- The code of an e-mail OTP, and the numbers that stand with it.
pub record OtpBlob : Type 0 where
  pub code : String
  pub expires_at : ℕ
  pub attempts : ℕ
  pub sent_at : ℕ

-- `_otp_key`, by the purpose and the user
pub record OtpKey : Type 0 where
  pub purpose : String
  pub user_id : String

abbrev pub same_otp_key : OtpKey → OtpKey → Bool
same_otp_key k j = k.purpose == j.purpose && k.user_id == j.user_id

-- The Redis commands that auth.py uses: `set s t k v ttl` is SET k v EX ttl at the time `t`.
pub record OtpStore : Type 1 where
  pub State : Type 0
  pub get : State → ℕ → OtpKey → Option OtpBlob
  pub set : State → ℕ → OtpKey → OtpBlob → ℕ → State
  pub del : State → OtpKey → State
  pub get-set :
      (s : State) (now t ttl : ℕ) (k j : OtpKey) (v : OtpBlob)
      → get (set s now k v ttl) t j ≡ (
          if same_otp_key k j
          then (if ltb t (now + ttl * second) then some v else none)
          else get s t j)
  pub get-del :
      (s : State) (t : ℕ) (k j : OtpKey)
      → get (del s k) t j ≡ (if same_otp_key k j then none else get s t j)
  pub get-later : (s : State) (t u : ℕ) (k : OtpKey) → t ≤ u → get s t k ≡ none → get s u k ≡ none

pub record SsoCode : Type 0 where
  pub username : String
  pub zabbix_user_type : ℕ
  pub expires_at : ℕ

-- What log_action is called with.
pub record Entry : Type 0 where
  pub user_id : String
  pub action : String

-- The tables, the codes of zabbix_sso.py, the codes in Redis, the calls of create_session and of
-- log_action, newest first, and the addresses that fire_security_alert was called
-- for, and the calls of `elevate` with their minutes.
pub record State (Otps : Type 0) : Type 0 where
  pub users : Dict User
  pub tables : RoleTables
  pub attempts : Dict Attempt
  pub sso_codes : Dict SsoCode
  pub otps : Otps
  pub sessions : List Request
  pub log : List Entry
  pub alerts : List String
  pub elevations : List (String × ℕ)

-- What a request reads that is not part of the repository or of the tables: the clock, the random
-- values, bcrypt, pyotp with the vault, `ipaddress`, `str.lower`, whether a mail is sent, the hosts of the inventory
-- service by id and Zabbix id (nothing when it fails), and the settings.
pub record World : Type 0 where
  pub now : ℕ
  pub client_ip : String
  pub session_id : String
  pub otp_code : String
  pub new_user_id : String
  pub new_totp_secret : String
  pub groups_of : String → List Group
  pub verify_password : String → String → Bool
  pub hash_password : String → String
  pub totp_verify : String → String → Bool
  pub is_ip : String → Bool
  pub in_network : String → String → Bool
  pub mail_sent : Bool
  pub lockout : Policy
  pub idle_minutes : ℕ
  pub elevated_minutes : ℕ
  pub spike_threshold : ℕ
  pub disabled_idps : List String
  pub lower : String → String
  pub inventory : Option (List (String × String))

-- `int(time.time())`
abbrev pub unix_time : World → ℕ
unix_time w = w.now / second

-- The lists of addresses that a login must match, each by itself.
abbrev pub own_constraint : User → List (List String)
own_constraint u =
    if u.ip_restriction_enabled && not (null u.allowed_ips) then u.allowed_ips ∷ [] else []

abbrev pub group_constraints : List Group → List (List String)
group_constraints [] = []
group_constraints (g ∷ gs) =
    if g.ip_restriction_enabled && not (null g.cidrs)
    then g.cidrs ∷ group_constraints gs
    else group_constraints gs

-- `_matches_any_cidr`; a malformed entry matches nothing.
abbrev pub matches_any_cidr : World → String → List String → Bool
matches_any_cidr w addr cidrs = any (w.in_network addr) cidrs

unfoldable pub ip_login_allowed : World → User → Bool
ip_login_allowed w u =
    let constraints = own_constraint u ++ group_constraints (w.groups_of u.id) in
    null constraints
    || (not (w.client_ip == "")
        && (w.is_ip w.client_ip && all (matches_any_cidr w w.client_ip) constraints))

-- `_ROLE_PRECEDENCE` of auth.py
abbrev pub role_precedence : List String
role_precedence =
    "superadmin" ∷ "admin" ∷ "automation" ∷ "support" ∷ "audit" ∷ "guest" ∷ "user" ∷ []

abbrev pub first_of : List String → String → String
first_of [] d = d
first_of (x ∷ xs) d = x

-- The primary role that `_resolve_roles` returns beside the names.
unfoldable pub primary_of : List String → String
unfolding mem
primary_of names = first_of (keep (λ r. mem r names) role_precedence) (first_of names "user")

-- `_require_user`
abbrev pub user_found : Option User → Result ℕ User
user_found none = err 404
user_found (some u) = ok u

unfoldable pub require_user : Option String → Dict User → Result ℕ User
unfolding lookup
require_user none users = err 401
require_user (some id) users = if id == "" then err 401 else user_found (lookup id users)

-- `validate_new_password`; `lowered` is the new password in lower case, and the user name's.
pub data Reason : Type 0 where
  too_short same_as_current shipped_default same_as_username : Reason

unfoldable pub validate_new_password : (String → String) → String → String → String → Option Reason
validate_new_password lower username current new_password =
    if ltb (text_length new_password) 8
    then some too_short
    else if new_password == current
    then some same_as_current
    else if lower new_password == "seyalrun"
    then some shipped_default
    else if not (username == "") && lower new_password == lower username
    then some same_as_username
    else none
