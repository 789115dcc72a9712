-- ===== src/Automation/Runner/Attempts.antt =====
-- How often the runner tries, and what a run that it executed looks like.
use seyal_run.Prelude.{
  Option, none, [], ℕ, zero, suc, ◌+◌, ◌-◌, ◌≤◌, ◌<◌, String, ◌≡◌, refl, sym, subst, ap, ◌∙◌, inl,
  inr, true, false, some, List, ◌∷◌, ◌++◌, arith, eq_refl, leb, leb→le, Bool-cases, length,
  length-drop, lookup, lookup-insert,
}
use seyal_run.Automation.Runs.{Status, Run, Runs, is_held}
use seyal_run.Automation.Runner.{
  Ended, returned, timed_out, raised, Attempt, last_lines, publish_line, publish_lines, status_of,
  Messages, is_success, Finish, attempts_from, run_attempts, stop_at, retry_lines, newer, diff_of,
}

module _ (m : Messages) (executor : ℕ → Attempt) where
  abbrev pub outcome_at : ℕ → Status
  outcome_at n = status_of (executor n).ended

  -- The attempts that were made end at the first success, or at the last one allowed.
  abbrev pub IsFirstSuccess : ℕ → ℕ → Finish → Type 0
  IsFirstSuccess first last f =
      (first ≤ f.attempts)
      × ((f.attempts ≤ last)
          × ((f.final_status ≡ outcome_at f.attempts)
              × (((k : ℕ) → first ≤ k → k < f.attempts → is_success (outcome_at k) ≡ false)
                  × (is_success f.final_status ≡ false → f.attempts ≡ last))))

  none_before : (n a k : ℕ) → a ≡ n → n ≤ k → k < a → is_success (outcome_at k) ≡ false
  none_before n a k e g b = ground (arith, e, g, b)

  one_more :
      (n j a : ℕ)
      → is_success (outcome_at n) ≡ false
      → ((k : ℕ) → n + 1 ≤ k → k < a → is_success (outcome_at k) ≡ false)
      → n ≤ j
      → j < a
      → is_success (outcome_at j) ≡ false
  one_more n j a e before g b = elim (Bool-cases (leb (n + 1) j)) [
    | inl h ↦ before j (leb→le (n + 1) j h) b
    | inr h ↦
        let same : n ≡ j = ground (arith, h, g) in
        subst (λ i. is_success (outcome_at i) ≡ false) same e
  ]

  stops_here :
      (n last : ℕ) (f : Finish)
      → f.attempts ≡ n
      → f.final_status ≡ outcome_at n
      → n ≤ last
      → (is_success (outcome_at n) ≡ false → n ≡ last)
      → IsFirstSuccess n last f
  stops_here n last f e s h l = (
    omega (arith, e),
    (
      omega (arith, e, h),
      (
        s ∙ ap outcome_at (sym e),
        ((λ k g b. none_before n f.attempts k e g b), (λ b. e ∙ l (ap is_success (sym s) ∙ b))),
      ),
    ),
  )

  goes_on :
      (n left : ℕ) (f : Finish)
      → is_success (outcome_at n) ≡ false
      → IsFirstSuccess (n + 1) (n + 1 + left) f
      → IsFirstSuccess n (n + suc left) f
  goes_on n left f e (h, (k, (s, (before, done)))) = (
    omega (arith, h),
    (
      omega (arith, k),
      (s, ((λ j g b. one_more n j f.attempts e before g b), (λ b. omega (arith, done b)))),
    ),
  )

  attempts_from-IsFirstSuccess :
      (total n left : ℕ) (out : List String) (diff : Option String)
      → IsFirstSuccess n (n + left) (attempts_from m executor total n left out diff)
  unfolding attempts_from
  attempts_from-IsFirstSuccess total n zero out diff =
      stops_here n (n + 0) (attempts_from m executor total n zero out diff) refl refl (omega arith)
        (λ b. omega arith)
  attempts_from-IsFirstSuccess total n (suc left) out diff =
      let lines = retry_lines m executor total n out in
      let kept = newer (diff_of (executor n).ended) diff in
      elim (Bool-cases (is_success (outcome_at n))) [
        | inl e ↦ rw (e) (
            stops_here n (n + suc left) (stop_at m executor total n out diff) refl refl
              (omega arith) (λ b. cc))
        | inr e ↦ rw (e) (
            goes_on n left (attempts_from m executor total (n + 1) left lines kept) e
              (attempts_from-IsFirstSuccess total (n + 1) left lines kept))
      ]

-- What is kept of the output is at most max_lines lines.
length-last_lines :
    (max_lines : ℕ) (lines : List String)
    → 0 < max_lines
    → length (last_lines max_lines lines) ≤ max_lines
unfolding last_lines
length-last_lines max_lines lines h = ground (arith, length-drop (length lines - max_lines) lines)

module _ (m : Messages) (executor : ℕ → Attempt) where
  -- The runner tries at least once and at most 1 + retry_count times: it stops at the first attempt
  -- that succeeds, every earlier one failed, the final status is that of the last attempt made,
  -- and a run that does not succeed has used every attempt.
  pub run_attempts-IsFirstSuccess :
      (retry_count : ℕ)
      → IsFirstSuccess m executor 1 (1 + retry_count) (run_attempts m executor retry_count)
  unfolding run_attempts
  run_attempts-IsFirstSuccess retry_count =
      attempts_from-IsFirstSuccess m executor (retry_count + 1) 1 retry_count [] none

pub lookup-publish_line :
    (max_lines : ℕ) (mask : String → String) (id line : String) (runs : Runs) (run : Run)
    → lookup id runs ≡ some run
    → lookup id (publish_line max_lines mask id line runs)
      ≡ some (record run {
        output_lines = last_lines max_lines (run.output_lines ++ (mask line ∷ []));
      })
unfolding publish_line
lookup-publish_line max_lines mask id line runs run e =
    rw
      (
        publish_line,
        e,
        lookup-insert id id
            (record run {
              output_lines = last_lines max_lines (run.output_lines ++ (mask line ∷ []));
            })
            runs,
        eq_refl id,
      )
      refl

-- The rows that publish_line can leave: the same run with other output, at most max_lines of it.
pub lookup-publish_lines :
    (max_lines : ℕ) (mask : String → String) (id : String) (lines : List String) (runs : Runs)
    (run : Run)
    → 0 < max_lines
    → length run.output_lines ≤ max_lines
    → lookup id runs ≡ some run
    → (out : List String) × (length out ≤ max_lines)
      × (lookup id (publish_lines max_lines mask id lines runs)
          ≡ some (record run { output_lines = out }))
unfolding publish_lines
lookup-publish_lines max_lines mask id [] runs run h k e = (run.output_lines, k, e)
lookup-publish_lines max_lines mask id (line ∷ lines) runs run h k e =
    let kept = last_lines max_lines (run.output_lines ++ (mask line ∷ [])) in
    lookup-publish_lines max_lines mask id lines (publish_line max_lines mask id line runs)
      (record run { output_lines = kept }) h
      (length-last_lines max_lines (run.output_lines ++ (mask line ∷ [])) h)
      (lookup-publish_line max_lines mask id line runs run e)

status_of-not_held : (e : Ended) → is_held (status_of e) ≡ false
status_of-not_held (returned true code output diff) = refl
status_of-not_held (returned false code output diff) = refl
status_of-not_held timed_out = refl
status_of-not_held (raised message) = refl

pub run_attempts-not_held :
    (m : Messages) (executor : ℕ → Attempt) (retry_count : ℕ)
    → is_held (run_attempts m executor retry_count).final_status ≡ false
run_attempts-not_held m executor retry_count =
    let f = run_attempts m executor retry_count in
    let (_, (_, (e, _))) = run_attempts-IsFirstSuccess m executor retry_count in
    ap is_held e ∙ status_of-not_held (executor f.attempts).ended
