-- ===== src/Identity/Lockout/Counting.antt =====
-- When a key is locked, and for how long.
use seyal_run.Prelude.{
  [], ℕ, ◌+◌, ◌-◌, ◌*◌, ◌/◌, ◌≤◌, ◌<◌, String, ◌≡◌, refl, ◌≢◌, true, none, some, List, ◌∷◌, arith,
  ◌==◌, eq_iff, eq_refl, ltb, leb, if◌then◌else◌, or_else, length, Dict, lookup, lookup-insert,
}
use seyal_run.Identity.Lockout.{
  Attempt, second, Policy, should_reset, check_locked, new_attempt, fail_row, record_failure,
}

-- Failures of one key at the given times.
abbrev pub fail_at : Dict Attempt → Policy → String → List ℕ → Dict Attempt
fail_at table p key [] = table
fail_at table p key (t ∷ ts) = fail_at (record_failure table t p key) p key ts

-- No two neighbours of `last ∷ times` are further apart than the window.
abbrev pub IsSteady : ℕ → ℕ → List ℕ → Type 0
IsSteady window last [] = Unit
IsSteady window last (t ∷ ts) = (t ≤ last + window * second) × IsSteady window t ts

abbrev pub last_time : ℕ → List ℕ → ℕ
last_time last [] = last
last_time last (t ∷ ts) = last_time t ts

-- A row that has counted `n` failures, the last at `t`, and is not locked.
abbrev pub counting : ℕ → ℕ → Attempt
counting n t = record { fail_count = n; locked_until = none; updated_at = some t }

abbrev pub locked : ℕ → ℕ → Policy → Attempt
locked n t p = record {
  fail_count = n;
  locked_until = some (t + p.lockout_seconds * second);
  updated_at = some t;
}

fail_counting :
    (n t now : ℕ) (p : Policy)
    → now ≤ t + p.window_seconds * second
    → fail_row (counting n t) now p
      ≡ (if leb p.max_failures (n + 1) then locked (n + 1) now p else counting (n + 1) now)
unfolding fail_row
fail_counting n t now p h = ground arith

lookup-record_failure :
    (table : Dict Attempt) (now : ℕ) (p : Policy) (key j : String)
    → lookup j (record_failure table now p key) ≡ (
        if key == j
        then some (fail_row (or_else (lookup key table) new_attempt) now p)
        else lookup j table)
unfolding record_failure
lookup-record_failure table now p key j =
    lookup-insert key j (fail_row (or_else (lookup key table) new_attempt) now p) table

one_failure :
    (table : Dict Attempt) (p : Policy) (key : String) (n t u : ℕ)
    → lookup key table ≡ some (counting n t)
    → u ≤ t + p.window_seconds * second
    → lookup key (record_failure table u p key)
      ≡ some (if leb p.max_failures (n + 1) then locked (n + 1) u p else counting (n + 1) u)
one_failure table p key n t u e h =
    rw (lookup-record_failure table u p key key, eq_refl key, e, fail_counting n t u p h) refl

steady_counting :
    (table : Dict Attempt) (p : Policy) (key : String) (n t : ℕ) (times : List ℕ)
    → lookup key table ≡ some (counting n t)
    → IsSteady p.window_seconds t times
    → n + length times < p.max_failures
    → lookup key (fail_at table p key times)
      ≡ some (counting (n + length times) (last_time t times))
steady_counting table p key n t [] e s h = ground (arith, e)
steady_counting table p key n t (u ∷ us) e (g, s) h =
    let step : lookup key (record_failure table u p key) ≡ some (counting (n + 1) u) =
      ground (arith, one_failure table p key n t u e g) in
    let low : (n + 1) + length us < p.max_failures = omega arith in
    ground (arith, steady_counting (record_failure table u p key) p key (n + 1) u us step s low)

-- A key whose row has counted n failures, none of them a lock, is locked for lockout_seconds by
-- the failure that brings the count to max_failures, when no two neighbouring failures are
-- further apart than the window; before that failure the key is not locked.
pub steady_failures_lock :
    (table : Dict Attempt) (p : Policy) (key : String) (n t u now : ℕ) (times : List ℕ)
    → lookup key table ≡ some (counting n t)
    → IsSteady p.window_seconds t times
    → u ≤ last_time t times + p.window_seconds * second
    → n + length times + 1 ≡ p.max_failures
    → (check_locked (fail_at table p key times) now key ≡ none)
      × (check_locked (record_failure (fail_at table p key times) u p key) now key ≡ (
          if ltb now (u + p.lockout_seconds * second)
          then some ((u + p.lockout_seconds * second - now) / second)
          else none))
unfolding check_locked
steady_failures_lock table p key n t u now times e s h m =
    let low : n + length times < p.max_failures = omega (arith, m) in
    let before = steady_counting table p key n t times e s low in
    let last =
      one_failure (fail_at table p key times) p key (n + length times) (last_time t times) u before
        h in
    let full : leb p.max_failures (n + length times + 1) ≡ true = ground (arith, m) in
    (rw (before) refl, rw (last, full) refl)

fail_served :
    (row : Attempt) (until now : ℕ) (p : Policy)
    → row.locked_until ≡ some until
    → until ≤ now
    → 1 < p.max_failures
    → fail_row row now p ≡ counting 1 now
unfolding fail_row should_reset
fail_served row until now p l h m = ground (arith, l)

-- The first failure after a lockout has been served starts a fresh count: the row holds one
-- failure and, with a limit of more than one, no lock. The rows of other keys are as before.
pub served_lockout_restarts :
    (table : Dict Attempt) (p : Policy) (key j : String) (row : Attempt) (until now : ℕ)
    → lookup key table ≡ some row
    → row.locked_until ≡ some until
    → until ≤ now
    → 1 < p.max_failures
    → (lookup key (record_failure table now p key) ≡ some (counting 1 now))
      × (key ≢ j → lookup j (record_failure table now p key) ≡ lookup j table)
served_lockout_restarts table p key j row until now e l h m = (
  rw (lookup-record_failure table now p key key, eq_refl key, e, fail_served row until now p l h m)
      refl,
  λ k. ground (arith, eq_iff key j, lookup-record_failure table now p key j),
)
