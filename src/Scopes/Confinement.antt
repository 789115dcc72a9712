-- ===== src/Scopes/Confinement.antt =====
-- What a token whose scopes were validated can reach.
use seyal_run.Prelude.{
  [], String, ◌≡◌, refl, sym, ◌∙◌, inl, inr, Bool, true, false, not, ◌&&◌, false≢true, Option, none,
  some, List, ◌∷◌, arith, ◌==◌, eq_iff, Bool-cases, all, mem, keep_nil, all_of_mem, lookup,
}
use seyal_run.Scopes.{
  segment_scopes, agent_grantable, is_run_pseudo_segment, scope_of_pair, required_scope, holds,
  scope_allows, validate_agent_scopes,
}

-- The source's two hard lines: secrets, and the administration of identity and access.
abbrev pub closed_segments : List String
closed_segments =
    "credentials" ∷ "trigger-bindings" ∷ "users" ∷ "roles" ∷ "authorizations" ∷ "access-reviews"
    ∷ "command-groups" ∷ "command-filters" ∷ "login-acls" ∷ "api-tokens" ∷ "settings"
    ∷ "integrations" ∷ "log-backend" ∷ []

refused : String → Bool
refused s = not (mem s agent_grantable) && not (mem s ("read" ∷ "write" ∷ []))

not_grantable : Option String → Bool
not_grantable none = true
not_grantable (some s) = refused s

closed_to_agents : String → Bool
closed_to_agents seg =
    not (seg == "job-templates")
    && (not_grantable (scope_of_pair true (lookup seg segment_scopes))
        && not_grantable (scope_of_pair false (lookup seg segment_scopes)))

closed_table : all closed_to_agents closed_segments ≡ true
unfolding closed_to_agents not_grantable refused lookup mem
closed_table = refl

not_held :
    (need : Option String) (scopes : List String)
    → validate_agent_scopes scopes ≡ []
    → not_grantable need ≡ true
    → holds need scopes ≡ false
unfolding not_grantable refused validate_agent_scopes
not_held none scopes v n = refl
not_held (some s) scopes v n = elim (Bool-cases (mem s scopes)) [
  | inl h ↦ absurd (false≢true (sym (keep_nil refused s scopes v h) ∙ n))
  | inr h ↦ h
]

-- A token with validated scopes and neither coarse scope reaches no closed segment, by any method
-- and any path.
pub agent_confined :
    (scopes : List String) (seg method path : String)
    → validate_agent_scopes scopes ≡ []
    → mem "read" scopes ≡ false
    → mem "write" scopes ≡ false
    → mem seg closed_segments ≡ true
    → scope_allows scopes seg method path ≡ false
unfolding scope_allows required_scope is_run_pseudo_segment closed_to_agents
agent_confined scopes seg method path v r w c = ground (
  arith,
  all_of_mem closed_to_agents seg closed_segments closed_table c,
  not_held (scope_of_pair true (lookup seg segment_scopes)) scopes v,
  not_held (scope_of_pair false (lookup seg segment_scopes)) scopes v,
)

-- The coarse scopes pass validation, and with them a token reads or writes every segment, the
-- closed ones included.
pub coarse_scopes_open_all :
    (validate_agent_scopes ("read" ∷ "write" ∷ []) ≡ [])
    × ((seg method path : String) → scope_allows ("read" ∷ "write" ∷ []) seg method path ≡ true)
unfolding validate_agent_scopes scope_allows
coarse_scopes_open_all = (refl, λ seg method path. ground arith)

-- A segment that is not classified is closed to every token without a coarse scope.
pub unmapped_denied :
    (scopes : List String) (seg method path : String)
    → lookup seg segment_scopes ≡ none
    → mem "read" scopes ≡ false
    → mem "write" scopes ≡ false
    → scope_allows scopes seg method path ≡ false
unfolding scope_allows required_scope is_run_pseudo_segment
unmapped_denied scopes seg method path n r w = ground (arith, eq_iff seg "job-templates")
