-- ===== src/Automation/Dispatch.antt =====
-- The three ways to start a run: run_template of api/job_templates.py, create_run_internal of
-- api/internal.py (the webhook path), and one schedule of scheduler.py's _tick.
pub mod Gate
pub mod Code
use seyal_run.Prelude.{
  [], ℕ, String, Bool, true, false, not, ◌&&◌, ◌||◌, Option, none, some, List, ◌∷◌, map, ◌==◌,
  if◌then◌else◌, is_some, or_else, all, null, mem, strip, Dict, lookup, insert, Result, ok, err,
  ◌>>=◌, ◌>>◌, guard,
}
use seyal_run.Automation.{
  Param, falsy, nothing, flag, number, text, texts, by_host, steps, merge, Field, Template,
  filter_caller_params, template_code_params,
}
use seyal_run.Automation.Runs.{
  Status, pending, pending_approval, Run, Request, Runs, live_run_id, any_production_hosts, Outcome,
  refused, held, hand_over, new_run,
}

-- What the handlers read besides the tables: the clock, the registered executors, the inventory
-- service's reply to the production check, and the libraries' `str`, `re.fullmatch` (nothing for a
-- malformed pattern) and `" ".join(shlex.quote(...))`.
pub record World : Type 0 where
  pub now : ℕ
  pub executors : List String
  pub check_production : List String → Option (List String)
  pub str : Param → String
  pub fullmatch : String → String → Option Bool
  pub quote_all : List String → String

pub record Payload : Type 0 where
  pub params : Dict Param
  pub target_host_ids : List String
  pub target_host_group_id : Param
  pub credential_mode : String
  pub credential_id : Param
  pub host_credentials : Dict String
  pub dry_run : Bool

-- One due schedule: nothing when its template is gone or disabled, a skip when a run is live.
pub data Tick : Type 0 where
  idle : Tick
  skipped : Tick
  fired : Outcome → Tick

module _ (w : World) where
  abbrev pub field_value : Field → Dict Param → String
  field_value f params = w.str (or_else (lookup f.name params) (or_else f.default (text "")))

  unfoldable pub field_passes : Field → String → Bool
  unfolding strip mem
  field_passes f val =
      if strip val == ""
      then false
      else if f.is_dropdown
      then null f.options || mem val f.options
      else elim f.validation [
        | none ↦ true
        | some pattern ↦ if pattern == "" then true else or_else (w.fullmatch pattern val) true
      ]

  -- Each declared field is checked, and its text is stored under its name.
  unfoldable pub check_fields : List Field → Dict Param → Result ℕ (Dict Param)
  unfolding field_passes lookup insert
  check_fields [] params = ok params
  check_fields (f ∷ fs) params =
      let rest = check_fields fs (insert f.name (text (field_value f params)) params) in
      guard (field_passes f (field_value f params)) 400 >> rest

  abbrev arguments : List Field → Dict Param → List String
  arguments fs params = map (λ f. w.str (or_else (lookup f.name params) (text ""))) fs

  abbrev pub with_arguments : Template → Dict Param → Dict Param
  with_arguments tmpl params =
      if not (null tmpl.survey_schema.fields) && tmpl.action_type == "bash_script"
      then insert "script_args" (text (w.quote_all (arguments tmpl.survey_schema.fields params)))
          params
      else params

  -- An account operation acts on the template's subject when the run names none.
  unfoldable pub with_subject : Template → Dict Param → Dict Param
  unfolding lookup insert mem
  with_subject tmpl params =
      let given = not (falsy (lookup "subject_credential_id" params)) in
      if mem tmpl.action_type
          ("account_push" ∷ "rotate_secret" ∷ "disable_account" ∷ "remove_account" ∷ [])
        && not given
      then elim tmpl.subject_credential_id [
        | none ↦ params
        | some c ↦ if c == "" then params else insert "subject_credential_id" (text c) params
      ]
      else params

  abbrev pub id_param : Option String → Param
  id_param none = nothing
  id_param (some c) = text c

  abbrev pub mode_of : Payload → String
  mode_of payload = if payload.credential_mode == "" then "default" else payload.credential_mode

  unfoldable pub effective_credential : Template → Payload → Param
  unfolding mem
  effective_credential tmpl payload =
      if mode_of payload == "all"
      then payload.credential_id
      else if mode_of payload == "per_host"
      then nothing
      else if mem tmpl.action_type ("ansible_playbook" ∷ "bash_script" ∷ [])
      then id_param tmpl.credential_id
      else nothing

  abbrev pub run_targets : List String → Template → List String
  run_targets hosts tmpl = if null hosts then tmpl.target_host_ids else hosts

  -- The keys under which a run keeps what the form asked for.
  unfoldable pub control_params : Template → Payload → String → Dict Param
  unfolding effective_credential
  control_params tmpl payload run_id =
      ("_target_host_ids", texts (run_targets payload.target_host_ids tmpl))
      ∷ ("_target_host_group_id", payload.target_host_group_id)
      ∷ ("_credential_mode", text (mode_of payload))
      ∷ ("_credential_id", effective_credential tmpl payload)
      ∷ (
        "_host_credentials",
        by_host (if mode_of payload == "per_host" then payload.host_credentials else []),
      )
      ∷ ("_dry_run", flag payload.dry_run)
      ∷ ("_max_parallel", number tmpl.max_parallel)
      ∷ ("_forks", number tmpl.forks)
      ∷ ("_chain_steps", if tmpl.action_type == "chain" then steps tmpl.chain_steps else nothing)
      ∷ ("_run_id", text run_id)
      ∷ []

  unfoldable pub stored_params : Template → Payload → String → Dict Param → Dict Param
  unfolding merge control_params
  stored_params tmpl payload run_id params = merge params (control_params tmpl payload run_id)

  -- The parameters of a run, or the error of a bad one.
  unfoldable pub run_params : Template → Payload → Result ℕ (Dict Param)
  unfolding filter_caller_params merge check_fields with_subject
  run_params tmpl payload = elim (filter_caller_params tmpl payload.params) [
    | err _ ↦ err 400
    | ok caller ↦
        check_fields tmpl.survey_schema.fields (merge tmpl.default_params caller) >>= λ params.
        ok (with_subject tmpl (with_arguments tmpl params))
  ]

  abbrev pub create : Bool → String → Run → Request → Runs → Outcome × Runs
  create hold run_id run request runs =
      (if hold then held run_id else hand_over w.executors run_id request, insert run_id run runs)

  abbrev pub first_status : Bool → Status
  first_status hold = if hold then pending_approval else pending

  -- `trigger` is `user:<the caller's id>`.
  unfoldable pub run_template :
      Dict Template → String → Payload → String → String → Runs → Outcome × Runs
  unfolding lookup run_params stored_params live_run_id any_production_hosts template_code_params
      merge insert
  run_template templates template_id payload run_id trigger runs =
      elim (lookup template_id templates) [
        | none ↦ (refused 404, runs)
        | some tmpl ↦
            if not tmpl.enabled then (refused 400, runs) else elim (run_params tmpl payload) [
              | err e ↦ (refused e, runs)
              | ok params ↦
                  let targets = run_targets payload.target_host_ids tmpl in
                  let stored = stored_params tmpl payload run_id params in
                  let hold =
                    tmpl.requires_approval || any_production_hosts w.check_production targets in
                  if is_some (live_run_id template_id runs)
                  then (refused 409, runs)
                  else create hold run_id
                      (new_run w.now template_id trigger (first_status hold) stored)
                      (record {
                        action_type = tmpl.action_type;
                        target_host_ids = targets;
                        credential_id = some (effective_credential tmpl payload);
                        params = merge stored (template_code_params tmpl);
                        triggered_by = trigger;
                      })
                      runs
            ]
      ]

  -- The credential and parameters of the paths that have no payload of their own.
  abbrev pub plain_request : Template → List String → Dict Param → String → Request
  plain_request tmpl targets params trigger = record {
    action_type = tmpl.action_type;
    target_host_ids = targets;
    credential_id = some (id_param tmpl.credential_id);
    params = params;
    triggered_by = trigger;
  }

  unfoldable pub create_run_internal :
      Dict Template → String → Dict Param → List String → String → String → Runs → Outcome × Runs
  unfolding lookup filter_caller_params any_production_hosts template_code_params merge insert
  create_run_internal templates template_id supplied hosts run_id trigger runs =
      elim (lookup template_id templates) [
        | none ↦ (refused 404, runs)
        | some tmpl ↦ elim (filter_caller_params tmpl supplied) [
          | err _ ↦ (refused 400, runs)
          | ok caller ↦
              let params = merge (merge tmpl.default_params caller) (template_code_params tmpl) in
              let targets = run_targets hosts tmpl in
              let hold = any_production_hosts w.check_production targets in
              create hold run_id (new_run w.now template_id trigger (first_status hold) params)
                (plain_request tmpl targets params trigger) runs
        ]
      ]

  unfoldable pub tick_schedule :
      Dict Template → String → Dict Param → String → String → Runs → Tick × Runs
  unfolding lookup live_run_id any_production_hosts template_code_params merge insert
  tick_schedule templates template_id override run_id trigger runs =
      elim (lookup template_id templates) [
        | none ↦ (idle, runs)
        | some tmpl ↦
            if not tmpl.enabled
            then (idle, runs)
            else if is_some (live_run_id template_id runs)
            then (skipped, runs)
            else let params =
                merge (merge tmpl.default_params override) (template_code_params tmpl) in
              let hold = any_production_hosts w.check_production tmpl.target_host_ids in
              let done =
                create hold run_id (new_run w.now template_id trigger (first_status hold) params)
                  (plain_request tmpl tmpl.target_host_ids params trigger) runs in
              (fired done.0, done.1)
      ]
