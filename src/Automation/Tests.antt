-- ===== src/Automation/Tests.antt =====
-- Runs of the job handlers on one template.
use seyal_run.Prelude.{
  ℕ, ◌+◌, String, ◌≡◌, refl, inl, true, false, not, ◌&&◌, ◌||◌, Option, none, some, List, [], ◌∷◌,
  ◌==◌, ltb, if◌then◌else◌, is_some, keep, mem, Dict, lookup, ok,
}
use seyal_run.Automation.{ChainStep, nothing, text, Template, filter_caller_params}
use seyal_run.Automation.Chain.{not_found, ran, execute_chain}
use seyal_run.Automation.Dispatch.Code.{
  RunsTemplate, Call, by_webhook, outcome_of, code_from_template,
}
use seyal_run.Automation.Runs.{
  Request, success, pending, pending_approval, cancelled, Run, Runs, live_run_id,
  any_production_hosts, started, cancel_run, new_run,
}
use seyal_run.Automation.Dispatch.{
  World, Payload, run_targets, run_params, run_template, create_run_internal, tick_schedule,
}
use seyal_run.Automation.Dispatch.Gate.{
  has_started, tick_started, is_ok, manual_run_started, unattended_run_started,
}
use seyal_run.Automation.Runner.{
  returned, timed_out, Attempt, get_state, executor_disabled, Messages, run_attempts, newer,
  finish_run,
}
use seyal_run.Automation.Runner.Attempts.{IsFirstSuccess, run_attempts-IsFirstSuccess}
use seyal_run.Automation.Runner.Execute.{disabled_survives_outage}
use seyal_run.Automation.Approval.{
  System, after, webhook, Reachable, initial, then_step, is_waiting,
}
use seyal_run.Automation.Approval.Safety.{waiting_run_has_no_task}
use seyal_run.Automation.Approval.Roles.{cancelled_status_lost}

abbrev restart : Template
restart = record {
  id = "t1";
  enabled = true;
  action_type = "bash_script";
  script_content = "systemctl restart app";
  playbook_path = "";
  default_params = ("service", text "app") ∷ [];
  allowed_param_keys = "reason" ∷ [];
  survey_schema = record { lists = []; fields = [] };
  target_host_ids = "web1" ∷ [];
  credential_id = some "c1";
  subject_credential_id = none;
  requires_approval = false;
  approver_role = none;
  timeout_seconds = none;
  retry_count = 2;
  max_parallel = 1;
  forks = 5;
  chain_steps = [];
}

abbrev templates : Dict Template
templates = ("t1", restart) ∷ []

-- `web1` is a production host.
abbrev production : List String → Option (List String)
production hosts = some (keep (λ h. h == "web1") hosts)

abbrev world : World
world = record {
  now = 100;
  executors = "bash_script" ∷ [];
  check_production = production;
  str = λ p. "value";
  fullmatch = λ pattern val. none;
  quote_all = λ xs. "";
}

abbrev payload : Payload
payload = record {
  params = ("reason", text "hung") ∷ [];
  target_host_ids = "web2" ∷ [];
  target_host_group_id = nothing;
  credential_mode = "";
  credential_id = nothing;
  host_credentials = [];
  dry_run = false;
}

abbrev caller_script : Call
caller_script = by_webhook (("reason", text "hung") ∷ []) []

code_from_template_example : RunsTemplate "script_content" restart (
    outcome_of
      (record world { check_production = λ hosts. some [] })
      templates
      "t1"
      "r1"
      "zabbix"
      []
      caller_script)
unfolding lookup mem
code_from_template_example =
    code_from_template (record world { check_production = λ hosts. some [] }) templates restart "t1"
      "r1" "zabbix" "script_content" [] caller_script refl refl tt

-- A caller that is let through, and what the runner then gets.
webhook_code :
    (request : Request) × ((create_run_internal
        (record world { check_production = λ hosts. some [] })
        templates
        "t1"
        (("reason", text "hung") ∷ [])
        []
        "r1"
        "zabbix"
        []).0
      ≡ started "r1" request)
    × (lookup "script_content" request.params ≡ some (text restart.script_content))
unfolding create_run_internal filter_caller_params mem
webhook_code = (_, refl, refl)

manual_run_started_example :
    has_started (run_template world templates "t1" payload "r1" "user:u1" []).0 ≡ (
      restart.enabled
      && (is_ok (run_params world restart payload)
          && (not (is_some (live_run_id "t1" []))
              && (not (
                    restart.requires_approval
                    || any_production_hosts world.check_production
                        (run_targets world payload.target_host_ids restart))
                  && mem restart.action_type world.executors))))
unfolding lookup
manual_run_started_example =
    manual_run_started world templates restart "t1" payload "r1" "user:u1" [] refl

manual_run_starts :
    has_started (run_template world templates "t1" payload "r1" "user:u1" []).0 ≡ true
unfolding run_template
manual_run_starts = refl

unattended_run_started_example :
    (has_started (create_run_internal world templates "t1" [] [] "r1" "zabbix_event:7" []).0 ≡ (
      is_ok (filter_caller_params restart [])
      && (not (any_production_hosts world.check_production (run_targets world [] restart))
          && mem restart.action_type world.executors)))
    × (tick_started (tick_schedule world templates "t1" [] "r1" "zabbix_event:7" []).0 ≡ (
        restart.enabled
        && (not (is_some (live_run_id "t1" []))
            && (not (any_production_hosts world.check_production restart.target_host_ids)
                && mem restart.action_type world.executors))))
unfolding lookup
unattended_run_started_example =
    unattended_run_started world templates restart "t1" [] [] "r1" "zabbix_event:7" [] refl

-- Two attempts that time out, then one that succeeds.
abbrev flaky : ℕ → Attempt
flaky n =
    if ltb n 3
    then record { lines = "starting" ∷ []; ended = timed_out }
    else record { lines = "starting" ∷ []; ended = returned true none "done" none }

abbrev messages : Messages
messages = record {
  banner = λ n total. "=== attempt ===";
  retrying = λ n total s. "[retry]";
  timeout_line = "[error] job timed out";
  error_line = λ e. e;
}

run_attempts-IsFirstSuccess_example :
    IsFirstSuccess messages flaky 1 (1 + 5) (run_attempts messages flaky 5)
run_attempts-IsFirstSuccess_example = run_attempts-IsFirstSuccess messages flaky 5

three_attempts : (run_attempts messages flaky 5).attempts ≡ 3
unfolding run_attempts
three_attempts = refl

abbrev one_run : Run
one_run = new_run 90 "t1" "user:u1" pending []

abbrev held_run : Run
held_run = new_run 90 "t1" "user:u1" pending_approval []

disabled_survives_outage_example :
    executor_disabled
      (get_state 9000 none
        (get_state 100 (some ("salt" ∷ [])) (record { at = 0; disabled = none })).1).0
      "salt"
    ≡ true
unfolding executor_disabled
disabled_survives_outage_example =
    disabled_survives_outage 100 9000 ("salt" ∷ []) (record { at = 0; disabled = none }) "salt"
      (inl refl) refl

abbrev held_system : System
held_system = after [] (create_run_internal world templates "t1" [] [] "r1" "zabbix_event:7" [])

held-Reachable : Reachable world templates held_system
unfolding mem
held-Reachable =
    then_step (record { runs = []; tasks = [] }) held_system initial
      (webhook (record { runs = []; tasks = [] }) "t1" [] [] "r1" "zabbix_event:7" refl)

waiting_run_has_no_task_example : mem "r1" held_system.tasks ≡ false
unfolding is_waiting create_run_internal
waiting_run_has_no_task_example =
    waiting_run_has_no_task world templates held_system "r1" held-Reachable refl

cancelled_status_lost_example :
    (runs' : Runs) × (cancel_run 95 "r1" (("r1", one_run) ∷ []) ≡ ok runs')
    × (lookup "r1" runs' ≡ some (record one_run { status = cancelled; ended_at = some 95 }))
    × (lookup "r1" (finish_run 120 "r1" (run_attempts messages flaky 5) runs')
        ≡ some (record one_run {
          status = (run_attempts messages flaky 5).final_status;
          exit_code = (run_attempts messages flaky 5).exit_code;
          diff_summary = newer (run_attempts messages flaky 5).diff_summary none;
          ended_at = some 120;
        }))
unfolding lookup
cancelled_status_lost_example =
    cancelled_status_lost 95 120 messages flaky 5 "r1" (("r1", one_run) ∷ []) one_run refl refl

-- A step whose template is missing and that lets the chain continue, then one that succeeds.
abbrev two_steps : List ChainStep
two_steps =
    record { template_id = "gone"; continue_on_failure = true }
    ∷ record { template_id = "t1"; continue_on_failure = false }
    ∷ []

abbrev no_production : List String → Option (List String)
no_production hosts = some []

continued :
    (execute_chain no_production ("bash_script" ∷ []) (λ i t. success) templates two_steps).reached
    ≡ not_found ∷ ran success ∷ []
unfolding execute_chain
continued = refl
