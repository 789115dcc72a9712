-- ===== src/Automation/Approval.antt =====
-- The handlers and the runner as steps of one system: the rows of za_job_runs, and the ids that
-- were handed to the runner as tasks. The steps may come in any order.
use seyal_run.Prelude.{
  [], ℕ, String, ◌≡◌, Bool, true, false, none, some, List, ◌∷◌, mem, Dict, lookup, ok,
}
use seyal_run.Automation.{Param, Template}
use seyal_run.Automation.Runs.{
  Runs, is_held, Outcome, started, cancel_run, approve_run, reject_run, rerun,
}
use seyal_run.Automation.Dispatch.{
  World, Payload, run_template, create_run_internal, Tick, fired, tick_schedule,
}
use seyal_run.Automation.Runner.{
  publish_line, refuse, start_run, Messages, Attempt, run_attempts, finish_run,
}
pub mod Handlers
pub mod Safety
pub mod Roles

pub record System : Type 0 where
  pub runs : Runs
  pub tasks : List String

-- `asyncio.create_task(_runner.execute(run_id, ...))`
abbrev pub with_task : Outcome → List String → List String
with_task (started id request) tasks = id ∷ tasks
with_task _ tasks = tasks

abbrev pub after : List String → Outcome × Runs → System
after tasks (outcome, runs) = record { runs = runs; tasks = with_task outcome tasks }

abbrev pub after_tick : List String → Tick × Runs → System
after_tick tasks (fired outcome, runs) = after tasks (outcome, runs)
after_tick tasks (_, runs) = record { runs = runs; tasks = tasks }

-- A new run's id is a fresh uuid4: no task has it yet.
pub data Step (w : World) (templates : Dict Template) : System → System → Type 0 where
  manual :
      (s : System) (template_id : String) (payload : Payload) (run_id trigger : String)
      → mem run_id s.tasks ≡ false
      → Step w templates s
          (after s.tasks (run_template w templates template_id payload run_id trigger s.runs))
  webhook :
      (s : System) (template_id : String) (supplied : Dict Param) (hosts : List String)
      (run_id trigger : String)
      → mem run_id s.tasks ≡ false
      → Step w templates s (
          after s.tasks
            (create_run_internal w templates template_id supplied hosts run_id trigger s.runs))
  schedule :
      (s : System) (template_id : String) (override : Dict Param) (run_id trigger : String)
      → mem run_id s.tasks ≡ false
      → Step w templates s (
          after_tick s.tasks (tick_schedule w templates template_id override run_id trigger s.runs))
  again :
      (s : System) (now : ℕ) (trigger new_id id : String)
      → mem new_id s.tasks ≡ false
      → Step w templates s
          (after s.tasks (rerun now w.executors templates trigger new_id id s.runs))
  approve :
      (s : System) (role id : String)
      → Step w templates s (after s.tasks (approve_run w.executors templates role id s.runs))
  cancel :
      (s : System) (now : ℕ) (id : String) (runs : Runs)
      → cancel_run now id s.runs ≡ ok runs
      → Step w templates s (record s { runs = runs })
  reject :
      (s : System) (now : ℕ) (role reason id : String) (runs : Runs)
      → reject_run now templates role reason id s.runs ≡ ok runs
      → Step w templates s (record s { runs = runs })
  start :
      (s : System) (id : String) (runs : Runs)
      → mem id s.tasks ≡ true
      → start_run id s.runs ≡ some runs
      → Step w templates s (record s { runs = runs })
  publish :
      (s : System) (max_lines : ℕ) (mask : String → String) (id line : String)
      → mem id s.tasks ≡ true
      → Step w templates s (record s { runs = publish_line max_lines mask id line s.runs })
  finish :
      (s : System) (now : ℕ) (id : String) (m : Messages) (executor : ℕ → Attempt) (retry_count : ℕ)
      → mem id s.tasks ≡ true
      → Step w templates s
          (record s { runs = finish_run now id (run_attempts m executor retry_count) s.runs })
  refuse_disabled :
      (s : System) (id reason : String)
      → mem id s.tasks ≡ true
      → Step w templates s (record s { runs = refuse id reason s.runs })

-- What a sequence of steps can reach from a system with no tasks and no runs.
pub data Reachable (w : World) (templates : Dict Template) : System → Type 0 where
  initial : Reachable w templates (record { runs = []; tasks = [] })
  then_step :
      (s t : System) → Reachable w templates s → Step w templates s t → Reachable w templates t

unfoldable pub is_waiting : String → Runs → Bool
unfolding lookup
is_waiting id runs = elim (lookup id runs) [ none ↦ false | some run ↦ is_held run.status ]
