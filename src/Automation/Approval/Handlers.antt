-- ===== src/Automation/Approval/Handlers.antt =====
-- That each handler keeps the runs that wait for an approver apart from the runner's tasks.
use seyal_run.Prelude.{
  ℕ, String, ◌≡◌, refl, sym, subst, inl, inr, Bool, true, false, not, List, arith, ◌==◌, eq_iff,
  if◌then◌else◌, Bool-cases, Option-cases, is_some, mem, Dict, lookup, insert, lookup-insert,
  Result-cases,
}
use seyal_run.Automation.{Param, Template, filter_caller_params}
use seyal_run.Automation.Runs.{
  pending, pending_approval, Run, Runs, Request, is_held, Outcome, refused, hand_over, new_run,
  can_approve, approve_run, rerun, live_run_id, any_production_hosts,
}
use seyal_run.Automation.Dispatch.{
  World, Payload, create, first_status, run_params, run_template, create_run_internal, idle,
  skipped, fired, tick_schedule,
}
use seyal_run.Automation.Approval.{with_task, after_tick, is_waiting}

-- No task is for a run that waits.
abbrev pub IsSafe : List String → Runs → Type 0
IsSafe tasks runs = (id : String) → mem id tasks ≡ true → is_waiting id runs ≡ false

pub waiting-insert :
    (id j : String) (run : Run) (runs : Runs)
    → is_waiting j (insert id run runs)
      ≡ (if id == j then is_held run.status else is_waiting j runs)
unfolding is_waiting
waiting-insert id j run runs = elim (Bool-cases (id == j)) [
  | inl e ↦ rw (is_waiting, lookup-insert id j run runs, e) refl
  | inr e ↦ rw (is_waiting, lookup-insert id j run runs, e) refl
]

pub put-IsSafe :
    (tasks : List String) (runs : Runs) (id : String) (run : Run)
    → is_held run.status ≡ false
    → IsSafe tasks runs
    → IsSafe tasks (insert id run runs)
put-IsSafe tasks runs id run h s j m = elim (Bool-cases (id == j)) [
  | inl e ↦ rw (waiting-insert id j run runs, e) h
  | inr e ↦ rw (waiting-insert id j run runs, e) (s j m)
]

hold-IsSafe :
    (tasks : List String) (runs : Runs) (id : String) (run : Run)
    → mem id tasks ≡ false
    → IsSafe tasks runs
    → IsSafe tasks (insert id run runs)
hold-IsSafe tasks runs id run n s j m = elim (Bool-cases (id == j)) [
  | inl e ↦
      let same : id ≡ j = ground (arith, eq_iff id j) in
      let m' : mem id tasks ≡ true = subst (λ i. mem i tasks ≡ true) (sym same) m in cc
  | inr e ↦ rw (waiting-insert id j run runs, e) (s j m)
]

hand-IsSafe :
    (executors tasks : List String) (runs : Runs) (id : String) (run : Run) (request : Request)
    → is_held run.status ≡ false
    → IsSafe tasks runs
    → IsSafe (with_task (hand_over executors id request) tasks) (insert id run runs)
unfolding mem
hand-IsSafe executors tasks runs id run request h s =
    elim (Bool-cases (mem request.action_type executors)) [
      | inl e ↦ rw (e) (λ j m. elim (Bool-cases (id == j)) [
        | inl g ↦ rw (waiting-insert id j run runs, g) h
        | inr g ↦
            rw (waiting-insert id j run runs, g)
              (s j (ground (arith, eq_iff id j, eq_iff j id, g, m)))
      ])
      | inr e ↦ rw (e) (put-IsSafe tasks runs id run h s)
    ]

-- What a handler's outcome and rows leave.
abbrev pub IsSafeAfter : List String → Outcome × Runs → Type 0
IsSafeAfter tasks done = IsSafe (with_task done.0 tasks) done.1

create-IsSafe :
    (w : World) (hold : Bool) (tasks : List String) (runs : Runs) (id template_id trigger : String)
    (params : Dict Param) (request : Request)
    → mem id tasks ≡ false
    → IsSafe tasks runs
    → IsSafeAfter tasks (
        create w hold id
          (new_run w.now template_id trigger (first_status w hold) params)
          request
          runs)
create-IsSafe w true tasks runs id template_id trigger params request n s =
    hold-IsSafe tasks runs id (new_run w.now template_id trigger pending_approval params) n s
create-IsSafe w false tasks runs id template_id trigger params request n s =
    hand-IsSafe w.executors tasks runs id (new_run w.now template_id trigger pending params) request
      refl s

gated-IsSafe :
    (enabled busy : Bool) (tasks : List String) (runs : Runs) (done : Outcome × Runs)
    → IsSafe tasks runs
    → IsSafeAfter tasks done
    → IsSafeAfter tasks
        (if not enabled then (refused 400, runs) else if busy then (refused 409, runs) else done)
gated-IsSafe false busy tasks runs done s d = s
gated-IsSafe true true tasks runs done s d = s
gated-IsSafe true false tasks runs done s d = d

refused-IsSafe :
    (enabled : Bool) (bad : ℕ) (tasks : List String) (runs : Runs)
    → IsSafe tasks runs
    → IsSafeAfter tasks (if not enabled then (refused 400, runs) else (refused bad, runs))
refused-IsSafe false bad tasks runs s = s
refused-IsSafe true bad tasks runs s = s

module _ (w : World) (templates : Dict Template) where
  pub manual-IsSafe :
      (tasks : List String) (runs : Runs) (template_id : String) (payload : Payload)
      (run_id trigger : String)
      → mem run_id tasks ≡ false
      → IsSafe tasks runs
      → IsSafeAfter tasks (run_template w templates template_id payload run_id trigger runs)
  unfolding run_template
  manual-IsSafe tasks runs template_id payload run_id trigger n s =
      elim (Option-cases (lookup template_id templates)) [
        | inl e ↦ rw (run_template, e) s
        | inr (tmpl, e) ↦ elim (Result-cases (run_params w tmpl payload)) [
          | inl (params, p) ↦
              rw (run_template, e, p)
                (gated-IsSafe tmpl.enabled (is_some (live_run_id template_id runs)) tasks runs _ s
                  (create-IsSafe w _ tasks runs run_id template_id trigger _ _ n s))
          | inr (bad, p) ↦ rw (run_template, e, p) (refused-IsSafe tmpl.enabled bad tasks runs s)
        ]
      ]

  pub webhook-IsSafe :
      (tasks : List String) (runs : Runs) (template_id : String) (supplied : Dict Param)
      (hosts : List String) (run_id trigger : String)
      → mem run_id tasks ≡ false
      → IsSafe tasks runs
      → IsSafeAfter tasks
          (create_run_internal w templates template_id supplied hosts run_id trigger runs)
  unfolding create_run_internal
  webhook-IsSafe tasks runs template_id supplied hosts run_id trigger n s =
      elim (Option-cases (lookup template_id templates)) [
        | inl e ↦ rw (create_run_internal, e) s
        | inr (tmpl, e) ↦ elim (Result-cases (filter_caller_params tmpl supplied)) [
          | inl (params, p) ↦
              rw (create_run_internal, e, p)
                (create-IsSafe w _ tasks runs run_id template_id trigger _ _ n s)
          | inr (bad, p) ↦ rw (create_run_internal, e, p) s
        ]
      ]

  tick_gated-IsSafe :
      (enabled busy : Bool) (tasks : List String) (runs : Runs) (done : Outcome × Runs)
      → IsSafe tasks runs
      → IsSafeAfter tasks done
      → let t = after_tick tasks (
          if not enabled
          then (idle, runs)
          else if busy
          then (skipped, runs)
          else (fired done.0, done.1)) in
        IsSafe t.tasks t.runs
  tick_gated-IsSafe false busy tasks runs done s d = s
  tick_gated-IsSafe true true tasks runs done s d = s
  tick_gated-IsSafe true false tasks runs done s d = d

  pub schedule-IsSafe :
      (tasks : List String) (runs : Runs) (template_id : String) (override : Dict Param)
      (run_id trigger : String)
      → mem run_id tasks ≡ false
      → IsSafe tasks runs
      → let t =
          after_tick tasks (tick_schedule w templates template_id override run_id trigger runs) in
        IsSafe t.tasks t.runs
  unfolding tick_schedule
  schedule-IsSafe tasks runs template_id override run_id trigger n s =
      elim (Option-cases (lookup template_id templates)) [
        | inl e ↦ rw (tick_schedule, e) s
        | inr (tmpl, e) ↦
            rw (tick_schedule, e)
              (tick_gated-IsSafe tmpl.enabled (is_some (live_run_id template_id runs)) tasks runs _
                s
                (create-IsSafe w (any_production_hosts w.check_production tmpl.target_host_ids)
                  tasks runs run_id template_id trigger _ _ n s))
      ]

  pub again-IsSafe :
      (tasks : List String) (runs : Runs) (now : ℕ) (trigger new_id id : String)
      → IsSafe tasks runs
      → IsSafeAfter tasks (rerun now w.executors templates trigger new_id id runs)
  unfolding rerun
  again-IsSafe tasks runs now trigger new_id id s = elim (Option-cases (lookup id runs)) [
    | inl e ↦ rw (rerun, e) s
    | inr (orig, e) ↦ elim (Option-cases (lookup orig.job_template_id templates)) [
      | inl f ↦ rw (rerun, e, f) s
      | inr (tmpl, f) ↦ elim (Bool-cases tmpl.enabled) [
        | inl g ↦ rw (rerun, e, f, g) (hand-IsSafe w.executors tasks runs new_id _ _ refl s)
        | inr g ↦ rw (rerun, e, f, g) s
      ]
    ]
  ]

  pub approve-IsSafe :
      (tasks : List String) (runs : Runs) (role id : String)
      → IsSafe tasks runs
      → IsSafeAfter tasks (approve_run w.executors templates role id runs)
  unfolding approve_run
  approve-IsSafe tasks runs role id s = elim (Option-cases (lookup id runs)) [
    | inl e ↦ rw (approve_run, e) s
    | inr (run, e) ↦ elim (Bool-cases (is_held run.status)) [
      | inr g ↦ rw (approve_run, e, g) s
      | inl g ↦ elim (Option-cases (lookup run.job_template_id templates)) [
        | inl f ↦ rw (approve_run, e, g, f) s
        | inr (tmpl, f) ↦ elim (Bool-cases (can_approve role tmpl.approver_role)) [
          | inl c ↦ rw (approve_run, e, g, f, c) (hand-IsSafe w.executors tasks runs id _ _ refl s)
          | inr c ↦ rw (approve_run, e, g, f, c) s
        ]
      ]
    ]
  ]
