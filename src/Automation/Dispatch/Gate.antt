-- ===== src/Automation/Dispatch/Gate.antt =====
-- The gates before a run is handed to the runner.
use seyal_run.Prelude.{
  ℕ, String, ◌≡◌, refl, inl, inr, Bool, true, false, not, ◌&&◌, ◌||◌, some, List, arith,
  if◌then◌else◌, is_some, mem, Dict, lookup, Result, ok, err, Result-cases,
}
use seyal_run.Automation.{Param, Template, filter_caller_params}
use seyal_run.Automation.Runs.{
  Run, Request, Runs, live_run_id, any_production_hosts, Outcome, refused, held, started, hand_over,
}
use seyal_run.Automation.Dispatch.{
  World, Payload, run_targets, create, run_params, run_template, create_run_internal, Tick, idle,
  skipped, fired, tick_schedule,
}

abbrev pub has_started : Outcome → Bool
has_started (started id request) = true
has_started _ = false

abbrev pub is_ok {ℓ κ} : {E : Type ℓ} {A : Type κ} → Result E A → Bool
is_ok (ok a) = true
is_ok (err e) = false

hand_over-started :
    (executors : List String) (id : String) (request : Request)
    → has_started (hand_over executors id request) ≡ mem request.action_type executors
unfolding mem
hand_over-started executors id request = ground arith

held-gated :
    (w : World) (hold : Bool) (run_id : String) (request : Request)
    → has_started (if hold then held run_id else hand_over w.executors run_id request)
      ≡ (not hold && mem request.action_type w.executors)
held-gated w true run_id request = refl
held-gated w false run_id request = hand_over-started w.executors run_id request

create-gated :
    (w : World) (enabled busy hold : Bool) (run_id : String) (run : Run) (request : Request)
    (runs : Runs)
    → has_started
        (if not enabled
          then (refused 400, runs)
          else if busy
          then (refused 409, runs)
          else create w hold run_id run request runs).0
      ≡ (enabled && (not busy && (not hold && mem request.action_type w.executors)))
create-gated w false busy hold run_id run request runs = refl
create-gated w true true hold run_id run request runs = refl
create-gated w true false true run_id run request runs = refl
create-gated w true false false run_id run request runs =
    hand_over-started w.executors run_id request

refused-gated :
    (enabled : Bool) (bad : ℕ) (runs : Runs)
    → has_started
        (if◌then◌else◌ {A = Outcome × Runs} (not enabled) (refused 400, runs) (refused bad, runs)).0
      ≡ (enabled && false)
refused-gated true bad runs = refl
refused-gated false bad runs = refl

abbrev pub tick_started : Tick → Bool
tick_started (fired outcome) = has_started outcome
tick_started _ = false

tick-gated :
    (w : World) (enabled busy hold : Bool) (run_id : String) (request : Request) (runs runs' : Runs)
    → tick_started
        (if◌then◌else◌ {A = Tick × Runs}
          (not enabled)
          (idle, runs)
          (if busy then (skipped, runs) else (
            fired (if hold then held run_id else hand_over w.executors run_id request),
            runs',
          ))).0
      ≡ (enabled && (not busy && (not hold && mem request.action_type w.executors)))
tick-gated w false busy hold run_id request runs runs' = refl
tick-gated w true true hold run_id request runs runs' = refl
tick-gated w true false hold run_id request runs runs' = held-gated w hold run_id request

module _ (w : World) (templates : Dict Template) (tmpl : Template) where
  -- run_template hands a run of a template that exists to the runner exactly when the template is
  -- enabled, the parameters are accepted, no run of it is live, it needs no approval, no target is
  -- a production host, and its executor exists.
  pub manual_run_started :
      (template_id : String) (payload : Payload) (run_id trigger : String) (runs : Runs)
      → lookup template_id templates ≡ some tmpl
      → has_started (run_template w templates template_id payload run_id trigger runs).0 ≡ (
          tmpl.enabled
          && (is_ok (run_params w tmpl payload)
              && (not (is_some (live_run_id template_id runs))
                  && (not (
                        tmpl.requires_approval
                        || any_production_hosts w.check_production
                            (run_targets w payload.target_host_ids tmpl))
                      && mem tmpl.action_type w.executors))))
  unfolding run_template
  manual_run_started template_id payload run_id trigger runs e =
      elim (Result-cases (run_params w tmpl payload)) [
        | inl (params, p) ↦
            rw (run_template, e, p)
              (create-gated w tmpl.enabled (is_some (live_run_id template_id runs))
                (tmpl.requires_approval
                  || any_production_hosts w.check_production
                      (run_targets w payload.target_host_ids tmpl))
                run_id _ _ runs)
        | inr (bad, p) ↦ rw (run_template, e, p) (refused-gated tmpl.enabled bad runs)
      ]

  -- The webhook path starts a run exactly when its parameters are accepted, no target is a
  -- production host and its executor exists: a disabled template, one that requires approval and
  -- one with a live run are started too. A schedule starts a run exactly when its template is
  -- enabled with no live run, no target is a production host and its executor exists: one that
  -- requires approval is started too.
  pub unattended_run_started :
      (template_id : String) (supplied : Dict Param) (hosts : List String) (run_id trigger : String)
      (runs : Runs)
      → lookup template_id templates ≡ some tmpl
      → (has_started
            (create_run_internal w templates template_id supplied hosts run_id trigger runs).0
          ≡ (is_ok (filter_caller_params tmpl supplied)
              && (not (any_production_hosts w.check_production (run_targets w hosts tmpl))
                  && mem tmpl.action_type w.executors)))
        × (tick_started (tick_schedule w templates template_id supplied run_id trigger runs).0 ≡ (
            tmpl.enabled
            && (not (is_some (live_run_id template_id runs))
                && (not (any_production_hosts w.check_production tmpl.target_host_ids)
                    && mem tmpl.action_type w.executors))))
  unfolding create_run_internal tick_schedule
  unattended_run_started template_id supplied hosts run_id trigger runs e = (
    elim (Result-cases (filter_caller_params tmpl supplied)) [
      | inl (caller, p) ↦
          rw (create_run_internal, e, p)
            (held-gated w (any_production_hosts w.check_production (run_targets w hosts tmpl))
              run_id _)
      | inr (bad, p) ↦ rw (create_run_internal, e, p) refl
    ],
    rw (tick_schedule, e)
        (tick-gated w tmpl.enabled (is_some (live_run_id template_id runs))
          (any_production_hosts w.check_production tmpl.target_host_ids) run_id _ runs _),
  )
