-- ===== src/Automation/Approval/Roles.antt =====
-- Who releases a waiting run, and what a cancellation does not stop.
use seyal_run.Prelude.{
  ℕ, String, ◌≡◌, refl, true, false, some, arith, eq_refl, lookup, insert, lookup-insert, ok,
}
use seyal_run.Automation.Runs.{Status, cancelled, Run, Runs, is_live, is_finished, cancel_run}
use seyal_run.Automation.Runner.{Messages, Attempt, run_attempts, newer, finish_run}
use seyal_run.Automation.Runner.Execute.{lookup-finish_run}

live-unfinished : (status : Status) → is_live status ≡ true → is_finished status ≡ false
live-unfinished status h = ground arith

-- A live run can be cancelled, and a task that is finishing it afterwards overwrites the cancelled
-- status with the final status of its attempts.
pub cancelled_status_lost :
    (now later : ℕ) (m : Messages) (executor : ℕ → Attempt) (retry_count : ℕ) (id : String)
    (runs : Runs) (run : Run)
    → lookup id runs ≡ some run
    → is_live run.status ≡ true
    → (runs' : Runs) × (cancel_run now id runs ≡ ok runs')
      × (lookup id runs' ≡ some (record run { status = cancelled; ended_at = some now }))
      × (lookup id (finish_run later id (run_attempts m executor retry_count) runs')
          ≡ some (record run {
            status = (run_attempts m executor retry_count).final_status;
            exit_code = (run_attempts m executor retry_count).exit_code;
            diff_summary =
                newer (run_attempts m executor retry_count).diff_summary run.diff_summary;
            ended_at = some later;
          }))
unfolding cancel_run
cancelled_status_lost now later m executor retry_count id runs run e l =
    let gone = record run { status = cancelled; ended_at = some now } in
    let row : lookup id (insert id gone runs) ≡ some gone =
      rw (lookup-insert id id gone runs, eq_refl id) refl in
    (
      insert id gone runs,
      rw (cancel_run, e, live-unfinished run.status l) refl,
      row,
      lookup-finish_run later id (run_attempts m executor retry_count) (insert id gone runs) gone
          row,
    )
