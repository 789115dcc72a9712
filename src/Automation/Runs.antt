-- ===== src/Automation/Runs.antt =====
-- core/services/automation-service/app/api/job_runs.py, _concurrency.py and _production_gate.py: the
-- rows of za_job_runs as a dict from a run's id, and the handlers that release or end a run.
use seyal_run.Prelude.{
  [], ℕ, String, Bool, true, false, not, ◌&&◌, Option, none, some, List, ◌∷◌, ◌==◌, if◌then◌else◌,
  null, mem, Dict, lookup, insert, Result, ok, err,
}
use seyal_run.Automation.{Param, text, texts, merge, Template, template_code_params}

pub data Status : Type 0 where
  pending : Status
  running : Status
  pending_approval : Status
  success : Status
  failed : Status
  error : Status
  cancelled : Status
  rejected : Status

pub record Run : Type 0 where
  pub job_template_id : String
  pub triggered_by : String
  pub status : Status
  pub params : Dict Param
  pub output_lines : List String
  pub exit_code : Option ℕ
  pub diff_summary : Option String
  pub started_at : ℕ
  pub ended_at : Option ℕ

pub record Request : Type 0 where
  pub action_type : String
  pub target_host_ids : List String
  pub credential_id : Option Param
  pub params : Dict Param
  pub triggered_by : String

abbrev pub Runs : Type 0
Runs = Dict Run

abbrev pub is_terminal : Status → Bool
is_terminal pending = false
is_terminal running = false
is_terminal pending_approval = false
is_terminal success = true
is_terminal failed = true
is_terminal error = true
is_terminal cancelled = true
is_terminal rejected = true

-- LIVE_STATUSES.
abbrev pub is_live : Status → Bool
is_live pending = true
is_live running = true
is_live pending_approval = true
is_live _ = false

-- cancel_run's own tuple of finished states, which leaves "rejected" out.
abbrev pub is_finished : Status → Bool
is_finished success = true
is_finished failed = true
is_finished error = true
is_finished cancelled = true
is_finished _ = false

abbrev pub is_held : Status → Bool
is_held pending_approval = true
is_held _ = false

-- The id of a run of the template that is live.
unfoldable pub live_run_id : String → Runs → Option String
live_run_id template_id [] = none
live_run_id template_id ((id, run) ∷ runs) =
    if run.job_template_id == template_id && is_live run.status
    then some id
    else live_run_id template_id runs

-- The reply of the inventory service: the production hosts, or no usable reply.
unfoldable pub any_production_hosts : (List String → Option (List String)) → List String → Bool
any_production_hosts check hosts =
    if null hosts then false else elim (check hosts) [ none ↦ true | some found ↦ not (null found) ]

-- The outcome of a handler that creates or releases a run: an HTTP error, a run that waits for an
-- approver, a run handed to the runner, or one with no executor.
pub data Outcome : Type 0 where
  refused : ℕ → Outcome
  held : String → Outcome
  started : String → Request → Outcome
  no_executor : String → Outcome

unfoldable pub can_approve : String → Option String → Bool
unfolding mem
can_approve role approver_role =
    let needed : String = elim approver_role [
      | none ↦ "admin"
      | some r ↦ if r == "" then "admin" else r
    ] in
    if needed == "superadmin" then role == "superadmin" else mem role ("admin" ∷ "superadmin" ∷ [])

unfoldable pub cancel_run : ℕ → String → Runs → Result ℕ Runs
unfolding lookup insert
cancel_run now id runs = elim (lookup id runs) [
  | none ↦ err 404
  | some run ↦
      if is_finished run.status
      then err 400
      else ok (insert id (record run { status = cancelled; ended_at = some now }) runs)
]

-- `params.get("_target_host_ids") or list(tmpl.target_host_ids or [])`
abbrev pub targets_of : Dict Param → Template → List String
targets_of params tmpl = elim (lookup "_target_host_ids" params) [
  | some (texts (h ∷ hs)) ↦ h ∷ hs
  | _ ↦ tmpl.target_host_ids
]

-- `params.get("_credential_id", tmpl.credential_id)`
abbrev pub credential_of : Dict Param → Template → Option Param
credential_of params tmpl = elim (lookup "_credential_id" params) [
  | some c ↦ some c
  | none ↦ elim tmpl.credential_id [ none ↦ none | some c ↦ some (text c) ]
]

abbrev pub stored_request : Dict Param → Template → String → Request
stored_request params tmpl triggered_by = record {
  action_type = tmpl.action_type;
  target_host_ids = targets_of params tmpl;
  credential_id = credential_of params tmpl;
  params = merge params (template_code_params tmpl);
  triggered_by = triggered_by;
}

abbrev pub hand_over : List String → String → Request → Outcome
hand_over executors id request =
    if mem request.action_type executors then started id request else no_executor id

unfoldable pub approve_run : List String → Dict Template → String → String → Runs → Outcome × Runs
unfolding lookup insert can_approve template_code_params merge mem
approve_run executors templates role id runs = elim (lookup id runs) [
  | none ↦ (refused 404, runs)
  | some run ↦
      if not (is_held run.status)
      then (refused 400, runs)
      else elim (lookup run.job_template_id templates) [
        | none ↦ (refused 400, runs)
        | some tmpl ↦ if not (can_approve role tmpl.approver_role) then (refused 403, runs) else (
          hand_over executors id (stored_request run.params tmpl run.triggered_by),
          insert id (record run { status = pending }) runs,
        )
      ]
]

unfoldable pub reject_run : ℕ → Dict Template → String → String → String → Runs → Result ℕ Runs
unfolding lookup insert can_approve
reject_run now templates role reason id runs = elim (lookup id runs) [
  | none ↦ err 404
  | some run ↦
      if not (is_held run.status)
      then err 400
      else let approver : Option String = elim (lookup run.job_template_id templates) [
        | none ↦ none
        | some tmpl ↦ tmpl.approver_role
      ] in
        if not (can_approve role approver)
        then err 403
        else ok (
            insert id
              (record run {
                params =
                    if reason == ""
                    then run.params
                    else insert "_rejection_reason" (text reason) run.params;
                status = rejected;
                ended_at = some now;
              })
              runs)
]

abbrev pub new_run : ℕ → String → String → Status → Dict Param → Run
new_run now template_id triggered_by status params = record {
  job_template_id = template_id;
  triggered_by = triggered_by;
  status = status;
  params = params;
  output_lines = [];
  exit_code = none;
  diff_summary = none;
  started_at = now;
  ended_at = none;
}

-- `params["_run_id"] = new_id`, when the original has one.
abbrev renewed : String → Dict Param → Dict Param
renewed new_id params = elim (lookup "_run_id" params) [
  | some (text s) ↦ if s == "" then params else insert "_run_id" (text new_id) params
  | _ ↦ params
]

-- `trigger` is `user:<the caller's id>`.
unfoldable pub rerun :
    ℕ → List String → Dict Template → String → String → String → Runs → Outcome × Runs
unfolding lookup insert template_code_params merge mem
rerun now executors templates trigger new_id id runs = elim (lookup id runs) [
  | none ↦ (refused 404, runs)
  | some orig ↦ elim (lookup orig.job_template_id templates) [
    | none ↦ (refused 400, runs)
    | some tmpl ↦
        if not tmpl.enabled
        then (refused 400, runs)
        else let params = renewed new_id orig.params in
          (
            hand_over executors new_id (record (stored_request params tmpl trigger) {
              target_host_ids = targets_of orig.params tmpl;
            }),
            insert new_id (new_run now tmpl.id trigger pending params) runs,
          )
  ]
]
