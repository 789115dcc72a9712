-- ===== src/Scopes/Tests.antt =====
-- Runs of libs/apiscopes on tokens.
use seyal_run.Prelude.{◌≡◌, refl, true, false, [], ◌∷◌, mem}
use seyal_run.Scopes.{scope_allows, validate_agent_scopes}
use seyal_run.Scopes.Confinement.{agent_confined}

agent_confined_example :
    scope_allows
      ("inventory:read" ∷ "automation:run" ∷ [])
      "credentials"
      "GET"
      "credentials/7/reveal"
    ≡ false
unfolding validate_agent_scopes mem
agent_confined_example =
    agent_confined ("inventory:read" ∷ "automation:run" ∷ []) "credentials" "GET"
      "credentials/7/reveal" refl refl refl refl

run_scope_runs :
    scope_allows ("automation:run" ∷ []) "job-templates" "POST" "job-templates/7/run/" ≡ true
unfolding scope_allows
run_scope_runs = refl
