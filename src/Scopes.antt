-- ===== src/Scopes.antt =====
-- core/libs/apiscopes/__init__.py: the scopes of a Personal Access Token.
-- HTTP methods are compared as `method.upper()` does on ASCII; no other character has an upper
-- case that is a letter of GET or HEAD.
pub mod Confinement
pub mod Tests
use seyal_run.Prelude.{
  [], String, Bool, true, false, not, ◌&&◌, ◌||◌, Option, none, some, List, ◌∷◌, ◌==◌, eqb,
  if◌then◌else◌, keep, mem, ends_with, strip_slashes, upper_code, Dict, lookup,
}
use Prim.Native.Char.{code}
use Prim.Native.String

-- `a.upper() == b`
unfoldable pub upper_is : String → String → Bool
unfolding upper_code
upper_is String.[] String.[] = true
upper_is (String.◌∷◌ c s) (String.◌∷◌ d t) = eqb (upper_code (code c)) (code d) && upper_is s t
upper_is _ _ = false

-- `method.upper() in READ_METHODS`
unfoldable pub is_read : String → Bool
unfolding upper_is
is_read method = upper_is method "GET" || upper_is method "HEAD"

-- `_SEGMENT_SCOPES`: the read scope and the write scope of a segment.
abbrev pub segment_scopes : Dict (String × String)
segment_scopes =
    ("hosts", ("inventory:read", "inventory:write"))
    ∷ ("host-groups", ("inventory:read", "inventory:write"))
    ∷ ("zones", ("inventory:read", "inventory:write"))
    ∷ ("credential-templates", ("inventory:read", "inventory:write"))
    ∷ ("credentials", ("credentials:read", "credentials:write"))
    ∷ ("projects", ("automation:read", "automation:write"))
    ∷ ("job-templates", ("automation:read", "automation:write"))
    ∷ ("schedules", ("automation:read", "automation:write"))
    ∷ ("job-runs", ("automation:read", "automation:write"))
    ∷ ("secret-management-jobs", ("automation:read", "automation:write"))
    ∷ ("housekeeping", ("automation:read", "automation:write"))
    ∷ ("test-connection", ("automation:read", "automation:write"))
    ∷ ("ssh", ("sessions:open", "sessions:open"))
    ∷ ("sftp", ("sessions:open", "sessions:open"))
    ∷ ("recordings", ("sessions:read", "admin:write"))
    ∷ ("audit", ("audit:read", "admin:write"))
    ∷ ("metrics", ("metrics:read", "admin:write"))
    ∷ ("notifications", ("notifications:read", "notifications:ack"))
    ∷ ("triggers", ("automation:read", "admin:write"))
    ∷ ("trigger-bindings", ("admin:read", "admin:write"))
    ∷ ("users", ("admin:read", "admin:write"))
    ∷ ("roles", ("admin:read", "admin:write"))
    ∷ ("authorizations", ("admin:read", "admin:write"))
    ∷ ("access-reviews", ("admin:read", "admin:write"))
    ∷ ("command-groups", ("admin:read", "admin:write"))
    ∷ ("command-filters", ("admin:read", "admin:write"))
    ∷ ("login-acls", ("admin:read", "admin:write"))
    ∷ ("api-tokens", ("admin:read", "admin:write"))
    ∷ ("settings", ("admin:read", "admin:write"))
    ∷ ("integrations", ("admin:read", "admin:write"))
    ∷ ("log-backend", ("admin:read", "admin:write"))
    ∷ []

abbrev pub agent_grantable : List String
agent_grantable =
    "inventory:read" ∷ "automation:read" ∷ "sessions:read" ∷ "audit:read" ∷ "metrics:read"
    ∷ "notifications:read" ∷ "automation:run" ∷ "inventory:write" ∷ "sessions:open"
    ∷ "notifications:ack" ∷ []

-- `_is_run_pseudo_segment`
unfoldable pub is_run_pseudo_segment : String → String → String → Bool
unfolding ends_with strip_slashes
is_run_pseudo_segment segment method path =
    segment == "job-templates" && (method == "POST" && ends_with (strip_slashes path) "/run")

abbrev pub scope_of_pair : Bool → Option (String × String) → Option String
scope_of_pair read none = none
scope_of_pair read (some (r, w)) = some (if read then r else w)

unfoldable pub required_scope : String → String → String → Option String
unfolding is_run_pseudo_segment is_read lookup
required_scope segment method path =
    if is_run_pseudo_segment segment method path
    then some "automation:run"
    else scope_of_pair (is_read method) (lookup segment segment_scopes)

abbrev pub holds : Option String → List String → Bool
holds none scopes = false
holds (some need) scopes = mem need scopes

unfoldable pub scope_allows : List String → String → String → String → Bool
unfolding required_scope is_read mem
scope_allows scopes segment method path =
    if is_read method && mem "read" scopes
    then true
    else if not (is_read method) && mem "write" scopes
    then true
    else holds (required_scope segment method path) scopes

-- The scopes of the list that an agent token may not hold.
unfoldable pub validate_agent_scopes : List String → List String
unfolding mem
validate_agent_scopes scopes =
    keep (λ s. not (mem s agent_grantable) && not (mem s ("read" ∷ "write" ∷ []))) scopes
