-- ===== src/Automation/Approval/Safety.antt =====
-- A run that waits for an approver is never in the runner's hands, whatever the order of steps.
use seyal_run.Prelude.{
  ℕ, String, ◌≡◌, refl, sym, subst, ap, ◌∙◌, inl, inr, true, false, Option, none, some, List, arith,
  ◌==◌, eq_iff, Bool-cases, Option-cases, mem, Dict, lookup, insert, Result, ok, err,
}
use seyal_run.Automation.{Template}
use seyal_run.Automation.Runs.{Run, Runs, is_held, is_finished, can_approve, cancel_run, reject_run}
use seyal_run.Automation.Dispatch.{World}
use seyal_run.Automation.Runner.{run_attempts, publish_line, refuse, start_run, Finish, finish_run}
use seyal_run.Automation.Runner.Attempts.{run_attempts-not_held}
use seyal_run.Automation.Approval.{
  System, Step, manual, webhook, schedule, again, approve, cancel, reject, start, publish, finish,
  refuse_disabled, Reachable, initial, then_step, is_waiting,
}
use seyal_run.Automation.Approval.Handlers.{
  IsSafe, waiting-insert, put-IsSafe, manual-IsSafe, webhook-IsSafe, schedule-IsSafe, again-IsSafe,
  approve-IsSafe,
}

abbrev IsSafeOk : List String → Result ℕ Runs → Type 0
IsSafeOk tasks (ok runs) = IsSafe tasks runs
IsSafeOk tasks (err e) = Unit

abbrev IsSafeSome : List String → Option Runs → Type 0
IsSafeSome tasks (some runs) = IsSafe tasks runs
IsSafeSome tasks none = Unit

module _ (tasks : List String) (runs : Runs) (s : IsSafe tasks runs) where
  cancel-IsSafe : (now : ℕ) (id : String) → IsSafeOk tasks (cancel_run now id runs)
  unfolding cancel_run
  cancel-IsSafe now id = elim (Option-cases (lookup id runs)) [
    | inl e ↦ rw (cancel_run, e) tt
    | inr (run, e) ↦ elim (Bool-cases (is_finished run.status)) [
      | inl f ↦ rw (cancel_run, e, f) tt
      | inr f ↦ rw (cancel_run, e, f) (put-IsSafe tasks runs id _ refl s)
    ]
  ]

  reject-IsSafe :
      (now : ℕ) (templates : Dict Template) (role reason id : String)
      → IsSafeOk tasks (reject_run now templates role reason id runs)
  unfolding reject_run
  reject-IsSafe now templates role reason id = elim (Option-cases (lookup id runs)) [
    | inl e ↦ rw (reject_run, e) tt
    | inr (run, e) ↦ elim (Bool-cases (is_held run.status)) [
      | inr g ↦ rw (reject_run, e, g) tt
      | inl g ↦
          let approver : Option String = elim (lookup run.job_template_id templates) [
            | none ↦ none
            | some tmpl ↦ tmpl.approver_role
          ] in
          elim (Bool-cases (can_approve role approver)) [
            | inl c ↦ rw (reject_run, e, g, c) (put-IsSafe tasks runs id _ refl s)
            | inr c ↦ rw (reject_run, e, g, c) tt
          ]
    ]
  ]

  start-IsSafe : (id : String) → IsSafeSome tasks (start_run id runs)
  unfolding start_run
  start-IsSafe id = elim (Option-cases (lookup id runs)) [
    | inl e ↦ rw (start_run, e) tt
    | inr (run, e) ↦ rw (start_run, e) (put-IsSafe tasks runs id _ refl s)
  ]

  same_status-IsSafe :
      (id : String) (run run' : Run)
      → lookup id runs ≡ some run
      → run'.status ≡ run.status
      → IsSafe tasks (insert id run' runs)
  unfolding is_waiting
  same_status-IsSafe id run run' e h j m = elim (Bool-cases (id == j)) [
    | inl g ↦
        let same : id ≡ j = ground (arith, eq_iff id j) in
        let old : is_waiting id runs ≡ is_held run.status = rw (is_waiting, e) refl in
        rw (waiting-insert id j run' runs, g)
          (ap is_held h ∙ (sym old ∙ s id (subst (λ i. mem i tasks ≡ true) (sym same) m)))
    | inr g ↦ rw (waiting-insert id j run' runs, g) (s j m)
  ]

  publish-IsSafe :
      (max_lines : ℕ) (mask : String → String) (id line : String)
      → IsSafe tasks (publish_line max_lines mask id line runs)
  unfolding publish_line
  publish-IsSafe max_lines mask id line = elim (Option-cases (lookup id runs)) [
    | inl e ↦ rw (publish_line, e) s
    | inr (run, e) ↦ rw (publish_line, e) (same_status-IsSafe id run _ e refl)
  ]

  finish-IsSafe :
      (now : ℕ) (id : String) (f : Finish)
      → is_held f.final_status ≡ false
      → IsSafe tasks (finish_run now id f runs)
  unfolding finish_run
  finish-IsSafe now id f g = elim (Option-cases (lookup id runs)) [
    | inl e ↦ rw (finish_run, e) s
    | inr (run, e) ↦ rw (finish_run, e) (put-IsSafe tasks runs id _ g s)
  ]

  refuse-IsSafe : (id reason : String) → IsSafe tasks (refuse id reason runs)
  unfolding refuse
  refuse-IsSafe id reason = elim (Option-cases (lookup id runs)) [
    | inl e ↦ rw (refuse, e) s
    | inr (run, e) ↦ rw (refuse, e) (put-IsSafe tasks runs id _ refl s)
  ]

module _ (w : World) (templates : Dict Template) where
  Step-IsSafe :
      (s t : System) → Step w templates s t → IsSafe s.tasks s.runs → IsSafe t.tasks t.runs
  Step-IsSafe _ _ (manual s template_id payload run_id trigger n) h =
      manual-IsSafe w templates s.tasks s.runs template_id payload run_id trigger n h
  Step-IsSafe _ _ (webhook s template_id supplied hosts run_id trigger n) h =
      webhook-IsSafe w templates s.tasks s.runs template_id supplied hosts run_id trigger n h
  Step-IsSafe _ _ (schedule s template_id override run_id trigger n) h =
      schedule-IsSafe w templates s.tasks s.runs template_id override run_id trigger n h
  Step-IsSafe _ _ (again s now trigger new_id id n) h =
      again-IsSafe w templates s.tasks s.runs now trigger new_id id h
  Step-IsSafe _ _ (approve s role id) h = approve-IsSafe w templates s.tasks s.runs role id h
  Step-IsSafe _ _ (cancel s now id runs e) h =
      subst (IsSafeOk s.tasks) e (cancel-IsSafe s.tasks s.runs h now id)
  Step-IsSafe _ _ (reject s now role reason id runs e) h =
      subst (IsSafeOk s.tasks) e (reject-IsSafe s.tasks s.runs h now templates role reason id)
  Step-IsSafe _ _ (start s id runs m e) h =
      subst (IsSafeSome s.tasks) e (start-IsSafe s.tasks s.runs h id)
  Step-IsSafe _ _ (publish s max_lines mask id line m) h =
      publish-IsSafe s.tasks s.runs h max_lines mask id line
  Step-IsSafe _ _ (finish s now id m executor retry_count k) h =
      finish-IsSafe s.tasks s.runs h now id (run_attempts m executor retry_count)
        (run_attempts-not_held m executor retry_count)
  Step-IsSafe _ _ (refuse_disabled s id reason m) h = refuse-IsSafe s.tasks s.runs h id reason

  Reachable-IsSafe : (s : System) → Reachable w templates s → IsSafe s.tasks s.runs
  unfolding is_waiting mem
  Reachable-IsSafe _ initial = λ id m. refl
  Reachable-IsSafe _ (then_step s t r step) = Step-IsSafe s t step (Reachable-IsSafe s r)

  -- In every state that the handlers and the runner reach, in any order of steps, a run whose status
  -- is pending_approval has no task of the runner.
  pub waiting_run_has_no_task :
      (s : System) (id : String)
      → Reachable w templates s
      → is_waiting id s.runs ≡ true
      → mem id s.tasks ≡ false
  waiting_run_has_no_task s id r h = elim (Bool-cases (mem id s.tasks)) [
    | inl e ↦ let free = Reachable-IsSafe s r id e in cc
    | inr e ↦ e
  ]
