-- ===== src/Automation/Runner.antt =====
-- core/services/automation-service/app/runner.py and integration_state.py: the life of a run from
-- its dispatch to its final status. The executor is an argument: the lines that an attempt
-- publishes and how it ends. `mask` is the redaction of a line.
pub mod Attempts
pub mod Execute
use seyal_run.Prelude.{
  [], ℕ, zero, suc, ◌+◌, ◌-◌, min, String, Bool, true, false, not, ◌&&◌, Option, none, some, List,
  ◌∷◌, ◌++◌, ◌==◌, ltb, eqb, if◌then◌else◌, or_else, length, drop, mem, lookup, insert,
}
use seyal_run.Automation.Runs.{Status, running, success, failed, error, Runs}

-- How `wait_for(executor.execute(...))` ends: with `ok`, the exit code, the output and the
-- diff_summary of the details, by the timeout, or by an exception.
pub data Ended : Type 0 where
  returned : Bool → Option ℕ → String → Option String → Ended
  timed_out : Ended
  raised : String → Ended

pub record Attempt : Type 0 where
  pub lines : List String
  pub ended : Ended

-- The cache of the disabled executors: the time of the last good read, and its answer.
pub record StateCache : Type 0 where
  pub at : ℕ
  pub disabled : Option (List String)

abbrev pub state_ttl : ℕ
state_ttl = 30

abbrev pub reread : ℕ → Option (List String) → StateCache → List String × StateCache
reread now (some fresh) cache = (fresh, record { at = now; disabled = some fresh })
reread now none cache = (or_else cache.disabled [], cache)

-- The disabled executors at `now`, where `reply` is what the identity service answers if asked.
unfoldable pub get_state : ℕ → Option (List String) → StateCache → List String × StateCache
get_state now reply cache = elim cache.disabled [
  | none ↦ reread now reply cache
  | some known ↦ if ltb (now - cache.at) state_ttl then (known, cache) else reread now reply cache
]

unfoldable pub executor_disabled : List String → String → Bool
unfolding mem
executor_disabled disabled name = not (name == "") && mem name disabled

-- The template's timeout can only tighten the platform's.
unfoldable pub effective_timeout : ℕ → Option ℕ → ℕ
effective_timeout ceiling none = ceiling
effective_timeout ceiling (some t) = if eqb t 0 then ceiling else min t ceiling

-- `lines[-max_lines:]`, the whole list when max_lines is 0.
unfoldable pub last_lines : ℕ → List String → List String
last_lines max_lines lines =
    if eqb max_lines 0 then lines else drop (length lines - max_lines) lines

unfoldable pub publish_line : ℕ → (String → String) → String → String → Runs → Runs
unfolding lookup insert last_lines
publish_line max_lines mask id line runs = elim (lookup id runs) [
  | none ↦ runs
  | some run ↦
      insert id
        (record run { output_lines = last_lines max_lines (run.output_lines ++ (mask line ∷ [])) })
        runs
]

unfoldable pub publish_lines : ℕ → (String → String) → String → List String → Runs → Runs
unfolding publish_line
publish_lines max_lines mask id [] runs = runs
publish_lines max_lines mask id (line ∷ lines) runs =
    publish_lines max_lines mask id lines (publish_line max_lines mask id line runs)

-- The refusal of a disabled executor writes the row whole: ended_at is not among the columns it
-- sets.
unfoldable pub refuse : String → String → Runs → Runs
unfolding lookup insert
refuse id reason runs = elim (lookup id runs) [
  | none ↦ runs
  | some run ↦
      insert id (record run { status = failed; output_lines = run.output_lines ++ (reason ∷ []) })
        runs
]

unfoldable pub start_run : String → Runs → Option Runs
unfolding lookup insert
start_run id runs = elim (lookup id runs) [
  | none ↦ none
  | some run ↦ some (insert id (record run { status = running }) runs)
]

abbrev pub status_of : Ended → Status
status_of (returned good code output diff) = if good then success else failed
status_of timed_out = error
status_of (raised message) = error

abbrev pub code_of : Ended → Option ℕ
code_of (returned good code output diff) = some (or_else code (if good then 0 else 1))
code_of timed_out = none
code_of (raised message) = none

-- The diff_summary after an attempt, where `diff` is that of the attempts before it.
abbrev pub newer : Option String → Option String → Option String
newer (some d) diff = some d
newer none diff = diff

abbrev pub diff_of : Ended → Option String
diff_of (returned good code output diff) = diff
diff_of timed_out = none
diff_of (raised message) = none

-- What the runner prints of the end of an attempt; `timeout_line` is its message for a timeout.
abbrev pub last_words : String → (String → String) → Ended → List String
last_words timeout_line error_line (returned good code output diff) =
    if output == "" then [] else output ∷ []
last_words timeout_line error_line timed_out = timeout_line ∷ []
last_words timeout_line error_line (raised message) = error_line message ∷ []

-- The texts that the runner composes.
pub record Messages : Type 0 where
  pub banner : ℕ → ℕ → String
  pub retrying : ℕ → ℕ → Status → String
  pub timeout_line : String
  pub error_line : String → String

abbrev pub is_success : Status → Bool
is_success success = true
is_success _ = false

-- What a finished loop leaves: the last attempt's status and exit code, and the lines published.
pub record Finish : Type 0 where
  pub final_status : Status
  pub exit_code : Option ℕ
  pub diff_summary : Option String
  pub attempts : ℕ
  pub published : List String

unfoldable pub finish_run : ℕ → String → Finish → Runs → Runs
unfolding lookup insert
finish_run now id f runs = elim (lookup id runs) [
  | none ↦ runs
  | some run ↦
      insert id
        (record run {
          status = f.final_status;
          exit_code = f.exit_code;
          diff_summary = newer f.diff_summary run.diff_summary;
          ended_at = some now;
        })
        runs
]

module _ (m : Messages) (executor : ℕ → Attempt) where
  abbrev pub attempt_lines : ℕ → ℕ → List String
  attempt_lines total n =
      (if ltb 1 n then m.banner n total ∷ [] else [])
      ++ ((executor n).lines ++ last_words m.timeout_line m.error_line (executor n).ended)

  abbrev pub stop_at : ℕ → ℕ → List String → Option String → Finish
  stop_at total n out diff = record {
    final_status = status_of (executor n).ended;
    exit_code = code_of (executor n).ended;
    diff_summary = newer (diff_of (executor n).ended) diff;
    attempts = n;
    published = out ++ attempt_lines total n;
  }

  abbrev pub retry_lines : ℕ → ℕ → List String → List String
  retry_lines total n out =
      out ++ (attempt_lines total n ++ (m.retrying n total (status_of (executor n).ended) ∷ []))

  -- The attempts from number `n`, with `left` more after it.
  unfoldable pub attempts_from : ℕ → ℕ → ℕ → List String → Option String → Finish
  attempts_from total n zero out diff = stop_at total n out diff
  attempts_from total n (suc left) out diff =
      let rest =
        attempts_from total (n + 1) left (retry_lines total n out)
          (newer (diff_of (executor n).ended) diff) in
      if is_success (status_of (executor n).ended) then stop_at total n out diff else rest

  -- `total_attempts = max(1, retry_count + 1)`
  unfoldable pub run_attempts : ℕ → Finish
  unfolding attempts_from
  run_attempts retry_count = attempts_from (retry_count + 1) 1 retry_count [] none

  -- A run executed with no other handler in between.
  unfoldable pub execute :
      ℕ → (String → String) → List String → String → String → ℕ → ℕ → String → Runs → Runs
  unfolding executor_disabled refuse start_run run_attempts publish_lines finish_run
  execute max_lines mask disabled name reason retry_count now id runs =
      if executor_disabled disabled name then refuse id reason runs else elim (start_run id runs) [
        | none ↦ runs
        | some going ↦
            let f = run_attempts retry_count in
            finish_run now id f (publish_lines max_lines mask id f.published going)
      ]
