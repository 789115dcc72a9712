-- ===== src/Automation/Chain/Order.antt =====
-- What a chain's result says of its steps, and which steps it reaches.
use seyal_run.Prelude.{
  ℕ, ◌+◌, String, Bool, true, ◌&&◌, ◌||◌, Option, List, [], ◌∷◌, if◌then◌else◌, Dict,
}
use seyal_run.Automation.{ChainStep, Template}
use seyal_run.Automation.Runs.{Status}
use seyal_run.Automation.Chain.{StepOutcome, step_ok, run_step}

module _ (check_production : List String → Option (List String)) (executors : List String)
    (step_status : ℕ → Template → Status) (templates : Dict Template) where
  abbrev pub outcome_of : ℕ → ChainStep → StepOutcome
  outcome_of i step = run_step check_production executors step_status templates i step

  -- The outcomes up to the first failure without continue_on_failure, that one included.
  abbrev pub outcomes_until_stop : ℕ → List ChainStep → List StepOutcome
  outcomes_until_stop i [] = []
  outcomes_until_stop i (step ∷ steps) =
      let rest = outcomes_until_stop (i + 1) steps in
      outcome_of i step
      ∷ (if step_ok (outcome_of i step) || step.continue_on_failure then rest else [])

  abbrev pub all_succeed : ℕ → List ChainStep → Bool
  all_succeed i [] = true
  all_succeed i (step ∷ steps) = step_ok (outcome_of i step) && all_succeed (i + 1) steps
