-- ===== src/Login/Otp.antt =====
-- The one-time codes of auth.py: issued with five guesses and five minutes.
use seyal_run.Prelude.{
  ℕ, zero, suc, ◌+◌, ◌-◌, ◌*◌, ◌/◌, ◌≤◌, ◌<◌, min, max, String, ◌≡◌, refl, sym, subst, ap, fun_ext,
  ◌∙◌, ◌≢◌, ◌↔◌, ◌⊎◌, inl, inr, Bool, true, false, not, ◌&&◌, ◌||◌, false≢true, Option, none, some,
  List, [], ◌∷◌, ◌++◌, map, arith, ◌==◌, eq_iff, eq_refl, ltb, leb, eqb, if◌then◌else◌, ltb→lt,
  leb→le, Bool-cases, Option-cases, is_some, or_else, and_true, or_true, length, drop, any, all,
  keep, null, length-append, length-drop, any-append, All, All-keep, any_mono, mem, after_prefix,
  strip, lower_is, first_segment, ends_with, strip_slashes, codes, upper_code, mem-append,
  mem-cons_self, keep_nil, all_of_mem, mem-keep, any_of_mem, Dict, lookup, insert, erase, keys,
  lookup-insert, lookup-erase, dict_laws, All-insert, Result, ok, err, ◌>>=◌, ◌>>◌, guard,
  guard-eq-ok, ok-injective, bind-eq-ok, Result-cases,
}
use seyal_run.Identity.Lockout.{second}
use seyal_run.Login.{User, OtpBlob, OtpKey, OtpStore, World, unix_time}
pub mod Budget

abbrev pub otp_ttl : ℕ
otp_ttl = 300

abbrev pub otp_max_attempts : ℕ
otp_max_attempts = 5

abbrev pub otp_key : String → String → OtpKey
otp_key user_id purpose = record { purpose = purpose; user_id = user_id }

abbrev pub new_otp : World → OtpBlob
new_otp w = record {
  code = w.otp_code;
  expires_at = unix_time w + otp_ttl;
  attempts = 0;
  sent_at = unix_time w;
}

module _ (store : OtpStore) where
  open store use {State, get, set, del}

  -- `_issue_otp`: the code is stored before the mail is tried.
  unfoldable pub issue_otp : World → User → String → State → Result ℕ (Unit {0}) × State
  issue_otp w u purpose s = if u.email == "" then (err 400, s) else (
    (if w.mail_sent then ok tt else err 502),
    set s w.now (otp_key u.id purpose) (new_otp w) otp_ttl,
  )

  -- `_consume_otp`, on the blob that was found
  abbrev pub check_otp :
      World → OtpKey → String → Option OtpBlob → State → Result ℕ (Unit {0}) × State
  check_otp w key code none s = (err 401, s)
  check_otp w key code (some b) s =
      if ltb b.expires_at (unix_time w)
      then (err 401, del s key)
      else if leb otp_max_attempts b.attempts
      then (err 429, del s key)
      else if code == "" || not (code == b.code)
      then (
        err 401,
        set s w.now key (record b { attempts = b.attempts + 1 })
            (max ((b.expires_at * second - w.now) / second) 1),
      )
      else (ok tt, del s key)

  unfoldable pub consume_otp :
      World → String → String → String → State → Result ℕ (Unit {0}) × State
  consume_otp w user_id code purpose s =
      check_otp w (otp_key user_id purpose) code (get s w.now (otp_key user_id purpose)) s
