-- ===== src/Gateway/Access.antt =====
-- core/services/api-gateway/app/rbac.py. The module's cache `_ROLE_PERMS` is the argument `cache`.
pub mod Roles
pub mod Paths
use seyal_run.Prelude.{
  [], String, Bool, true, false, not, ◌&&◌, ◌||◌, Option, none, some, List, ◌∷◌, ◌==◌,
  if◌then◌else◌, or_else, any, mem, first_segment, ends_with, Dict, lookup, insert,
}
use seyal_run.Rbac
use seyal_run.Rbac.{
  RoleDoc, builtin_role_perms, role_allows, doc_can_reveal, doc_can_mfa, primary_role,
}

-- `_ALWAYS`
abbrev pub always : List String
always = "auth" ∷ "notifications" ∷ []

-- The new value of `_ROLE_PERMS`.
unfoldable pub set_role_perms : Dict RoleDoc → Dict RoleDoc → Dict RoleDoc
set_role_perms cache [] = cache
set_role_perms cache (p ∷ perms) = p ∷ perms

abbrev pub first_some {ℓ} : {A : Type ℓ} → Option A → Option A → Option A
first_some none o = o
first_some (some a) o = some a

unfoldable pub doc_for : Dict RoleDoc → String → Option RoleDoc
unfolding lookup
doc_for cache role = first_some (lookup role cache) (lookup role builtin_role_perms)

-- `_role_allows`
unfoldable pub named_role_allows : Dict RoleDoc → String → String → String → Bool
unfolding doc_for role_allows
named_role_allows cache method seg role = role_allows (doc_for cache role) method seg

unfoldable pub can_reveal : Dict RoleDoc → List String → Bool
unfolding doc_for doc_can_reveal
can_reveal cache roles = any (λ r. doc_can_reveal (doc_for cache r)) roles

unfoldable pub can_use_mfa : Dict RoleDoc → List String → Bool
unfolding doc_for doc_can_mfa
can_use_mfa cache roles = any (λ r. doc_can_mfa (doc_for cache r)) roles

unfoldable pub is_authorized : Dict RoleDoc → List String → String → String → Bool
unfolding can_use_mfa can_reveal named_role_allows first_segment ends_with mem
is_authorized cache roles method path =
    let seg = first_segment path in
    if method == "POST" && mem path ("auth/mfa/setup" ∷ "auth/mfa/setup-email" ∷ [])
    then can_use_mfa cache roles
    else if mem seg always
    then true
    else if method == "GET" && (seg == "credentials" && ends_with path "/reveal")
    then can_reveal cache roles
    else if method == "POST" && (seg == "job-templates" && ends_with path "/run")
    then any (named_role_allows cache "POST" "job-templates") roles
      || any (named_role_allows cache "POST" "playbook-run") roles
    else any (named_role_allows cache method seg) roles

-- `_NAV_SEGMENTS`
abbrev pub nav_segments : Dict (String × String)
nav_segments =
    ("dashboard", ("GET", "metrics"))
    ∷ ("hosts", ("GET", "hosts"))
    ∷ ("assets", ("GET", "assets"))
    ∷ ("zones", ("GET", "zones"))
    ∷ ("sessions", ("GET", "ssh"))
    ∷ ("terminal", ("GET", "ssh"))
    ∷ ("recordings", ("GET", "recordings"))
    ∷ ("jobs", ("GET", "job-runs"))
    ∷ ("admin.users", ("GET", "users"))
    ∷ ("admin.roles", ("GET", "roles"))
    ∷ ("admin.authorizations", ("GET", "authorizations"))
    ∷ ("admin.credentials", ("GET", "credentials"))
    ∷ ("admin.zones", ("GET", "zones"))
    ∷ ("admin.security", ("GET", "command-filters"))
    ∷ ("admin.automation", ("POST", "job-templates"))
    ∷ ("admin.zabbix-integration", ("GET", "trigger-bindings"))
    ∷ ("admin.integration", ("GET", "settings"))
    ∷ ("admin.platform", ("GET", "settings"))
    ∷ ("admin.health", ("GET", "metrics"))
    ∷ ("admin.housekeeping", ("GET", "housekeeping"))
    ∷ ("admin.log-backend", ("GET", "log-backend"))
    ∷ ("admin.mail-settings", ("GET", "settings"))
    ∷ ("security.mfa", ("POST", "auth/mfa/setup"))
    ∷ ("admin.audit", ("GET", "audit"))
    ∷ ("automation", ("GET", "job-templates"))
    ∷ []

-- The comprehension of `nav_permissions`.
unfoldable pub nav_table : Dict RoleDoc → List String → Dict (String × String) → Dict Bool
unfolding is_authorized
nav_table cache roles [] = []
nav_table cache roles ((area, (method, seg)) ∷ rest) =
    (area, is_authorized cache roles method seg) ∷ nav_table cache roles rest

-- `perms[area]`; the areas that the source reads are always there.
abbrev pub flag_at : String → Dict Bool → Bool
flag_at area perms = or_else (lookup area perms) false

unfoldable pub nav_permissions : Dict RoleDoc → List String → Dict Bool
unfolding nav_table is_authorized lookup insert
nav_permissions cache roles =
    let perms = nav_table cache roles nav_segments in
    insert "assets"
      (flag_at "hosts" perms
        && (flag_at "assets" perms || is_authorized cache roles "POST" "hosts"))
      perms

-- `_SEE_ALL_HOSTS`
abbrev pub see_all_hosts : List String
see_all_hosts = "superadmin" ∷ "admin" ∷ "support" ∷ []

unfoldable pub sees_all_hosts : List String → Bool
unfolding mem
sees_all_hosts roles = any (λ r. mem r see_all_hosts) roles

unfoldable pub downstream_role : List String → String → String → String
downstream_role roles method seg =
    if mem "superadmin" roles
    then "superadmin"
    else if mem "admin" roles
    then "admin"
    else if seg == "ssh"
    then primary_role roles
    else if not (method == "GET")
    then "admin"
    else primary_role roles
