-- ===== src/Identity/Lockout.antt =====
-- core/services/identity-service/app/_lockout.py. The table za_login_attempts is a dict from the
-- key `username|ip` to its row; times are in microseconds.
pub mod Counting
use seyal_run.Prelude.{
  ℕ, ◌+◌, ◌-◌, ◌*◌, ◌/◌, String, Bool, false, ◌||◌, Option, none, some, ltb, leb, if◌then◌else◌,
  or_else, Dict, lookup, insert, erase,
}

pub record Attempt : Type 0 where
  pub fail_count : ℕ
  pub locked_until : Option ℕ
  pub updated_at : Option ℕ

abbrev pub second : ℕ
second = 1000000

pub record Policy : Type 0 where
  pub max_failures : ℕ
  pub lockout_seconds : ℕ
  pub window_seconds : ℕ

unfoldable pub should_reset : Option ℕ → Option ℕ → ℕ → ℕ → Bool
should_reset locked_until updated_at now window_seconds =
    elim locked_until [ none ↦ false | some t ↦ leb t now ]
    || elim updated_at [ none ↦ false | some t ↦ ltb (t + window_seconds * second) now ]

abbrev pub remaining : ℕ → Option Attempt → Option ℕ
remaining now none = none
remaining now (some row) = elim row.locked_until [
  | none ↦ none
  | some t ↦ if ltb now t then some ((t - now) / second) else none
]

-- The remaining seconds of a lockout.
unfoldable pub check_locked : Dict Attempt → ℕ → String → Option ℕ
unfolding lookup
check_locked table now key = remaining now (lookup key table)

abbrev pub new_attempt : Attempt
new_attempt = record { fail_count = 0; locked_until = none; updated_at = none }

abbrev pub refreshed : Attempt → ℕ → Policy → Attempt
refreshed row now p =
    if should_reset row.locked_until row.updated_at now p.window_seconds
    then record row { fail_count = 0; locked_until = none }
    else row

-- One more failure on a row.
unfoldable pub fail_row : Attempt → ℕ → Policy → Attempt
unfolding should_reset
fail_row row now p =
    let row' = refreshed row now p in
    record {
      fail_count = row'.fail_count + 1;
      locked_until =
          if leb p.max_failures (row'.fail_count + 1)
          then some (now + p.lockout_seconds * second)
          else row'.locked_until;
      updated_at = some now;
    }

unfoldable pub record_failure : Dict Attempt → ℕ → Policy → String → Dict Attempt
unfolding fail_row lookup insert
record_failure table now p key =
    insert key (fail_row (or_else (lookup key table) new_attempt) now p) table

unfoldable pub clear : Dict Attempt → String → Dict Attempt
unfolding erase
clear table key = erase key table
