-- ===== src/Gateway/Resolve/Laws.antt =====
-- Where the roles of a resolved caller come from.
use seyal_run.Prelude.{ℕ, String, ◌≡◌, none, List, lookup}
use seyal_run.Gateway.Resolve.{unreachable, RoleCache, live_roles}

-- While identity-service does not answer, nothing is cached and the session's own roles stand.
pub outage_keeps_roles :
    (cache : RoleCache) (now : ℕ) (stale : List String) (user : String)
    → lookup user cache ≡ none
    → live_roles cache now unreachable user stale ≡ (stale, cache)
unfolding live_roles
outage_keeps_roles cache now stale user cold = rw (cold, live_roles)
