-- ===== src/Automation/Chain.antt =====
-- core/services/automation-service/app/plugins/executors/chain.py: a run of other templates, one
-- after the other. `step_status` is the status that the run of a step's template ends in, by the
-- number of the step; the rows of these runs are those of the runner.
pub mod Order
use seyal_run.Prelude.{
  ℕ, ◌+◌, String, Bool, true, false, not, ◌&&◌, ◌||◌, Option, none, some, List, [], ◌∷◌, ◌++◌, ◌==◌,
  if◌then◌else◌, null, mem, Dict, lookup, ok, ◌>>=◌, ◌>>◌,
}
use seyal_run.Automation.{ChainStep, Template}
use seyal_run.Automation.Runs.{Status, any_production_hosts}
use seyal_run.Automation.Runner.{is_success}

pub data StepOutcome : Type 0 where
  not_found : StepOutcome
  disabled : StepOutcome
  nested_chain : StepOutcome
  no_executor : StepOutcome
  ran : Status → StepOutcome

-- The result of the chain, and the outcomes of the steps that it reached, in order.
pub record ChainResult : Type 0 where
  pub ok : Bool
  pub reached : List StepOutcome

abbrev pub step_ok : StepOutcome → Bool
step_ok (ran status) = is_success status
step_ok _ = false

-- The target hosts of the templates of the steps that exist.
unfoldable pub chain_hosts : Dict Template → List ChainStep → List String
unfolding lookup
chain_hosts templates [] = []
chain_hosts templates (step ∷ steps) =
    elim (lookup step.template_id templates) [ none ↦ [] | some tmpl ↦ tmpl.target_host_ids ]
    ++ chain_hosts templates steps

module _ (check_production : List String → Option (List String)) (executors : List String)
    (step_status : ℕ → Template → Status) where
  unfoldable pub run_step : Dict Template → ℕ → ChainStep → StepOutcome
  unfolding lookup mem
  run_step templates i step = elim (lookup step.template_id templates) [
    | none ↦ not_found
    | some tmpl ↦
        if not tmpl.enabled
        then disabled
        else if tmpl.action_type == "chain"
        then nested_chain
        else if mem tmpl.action_type executors
        then ran (step_status i tmpl)
        else no_executor
  ]

  -- The loop over the steps from number `i`, and from the value of overall_ok.
  unfoldable pub run_steps : Dict Template → ℕ → Bool → List ChainStep → ChainResult
  unfolding run_step
  run_steps templates i overall_ok [] = record { ok = overall_ok; reached = [] }
  run_steps templates i overall_ok (step ∷ steps) =
      let outcome = run_step templates i step in
      let rest = run_steps templates (i + 1) (overall_ok && step_ok outcome) steps in
      if step_ok outcome || step.continue_on_failure
      then record { ok = rest.ok; reached = outcome ∷ rest.reached }
      else record { ok = false; reached = outcome ∷ [] }

  unfoldable pub execute_chain : Dict Template → List ChainStep → ChainResult
  unfolding run_steps chain_hosts any_production_hosts
  execute_chain templates steps =
      if null steps
      then record { ok = false; reached = [] }
      else if any_production_hosts check_production (chain_hosts templates steps)
      then record { ok = false; reached = [] }
      else run_steps templates 1 true steps
