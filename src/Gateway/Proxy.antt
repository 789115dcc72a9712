-- ===== src/Gateway/Proxy.antt =====
-- core/services/api-gateway/app/proxy.py: the headers that go upstream, and the host filters.
-- The service token that `mint` signs is a parameter. The value of a header is a text, a list that
-- is joined by commas, or a number in decimal.
pub mod Headers
use seyal_run.Prelude.{
  [], ℕ, String, Bool, not, ◌&&◌, ◌||◌, Option, none, some, List, ◌∷◌, ◌==◌, eqb, if◌then◌else◌,
  or_else, any, keep, null, mem, lower_is, first_segment, Dict, lookup, insert,
}
use seyal_run.Gateway.Admission.{Forwarded}

abbrev pub hop_by_hop : List String
hop_by_hop =
    "connection" ∷ "keep-alive" ∷ "proxy-authenticate" ∷ "proxy-authorization" ∷ "te" ∷ "trailers"
    ∷ "transfer-encoding" ∷ "upgrade" ∷ "host" ∷ "content-length" ∷ []

abbrev pub identity_headers : List String
identity_headers =
    "x-service-token" ∷ "x-user-id" ∷ "x-user-role" ∷ "x-user-real-role" ∷ "x-user-name"
    ∷ "x-kiosk-host-id" ∷ "x-user-scopes" ∷ "x-elevated-until" ∷ []

-- The upstream, as the setting that holds its base URL, and the audience of its tokens.
abbrev pub service_routes : Dict (String × String)
service_routes =
    ("auth", ("identity_service_url", "identity-service"))
    ∷ ("users", ("identity_service_url", "identity-service"))
    ∷ ("roles", ("identity_service_url", "identity-service"))
    ∷ ("authorizations", ("identity_service_url", "identity-service"))
    ∷ ("access-reviews", ("identity_service_url", "identity-service"))
    ∷ ("command-groups", ("identity_service_url", "identity-service"))
    ∷ ("command-filters", ("identity_service_url", "identity-service"))
    ∷ ("login-acls", ("identity_service_url", "identity-service"))
    ∷ ("api-tokens", ("identity_service_url", "identity-service"))
    ∷ ("audit", ("identity_service_url", "identity-service"))
    ∷ ("settings", ("identity_service_url", "identity-service"))
    ∷ ("integrations", ("identity_service_url", "identity-service"))
    ∷ ("hosts", ("inventory_service_url", "inventory-service"))
    ∷ ("host-groups", ("inventory_service_url", "inventory-service"))
    ∷ ("credentials", ("inventory_service_url", "inventory-service"))
    ∷ ("credential-templates", ("inventory_service_url", "inventory-service"))
    ∷ ("log-backend", ("inventory_service_url", "inventory-service"))
    ∷ ("zones", ("inventory_service_url", "inventory-service"))
    ∷ ("ssh", ("terminal_service_url", "terminal-service"))
    ∷ ("sftp", ("terminal_service_url", "terminal-service"))
    ∷ ("recordings", ("recording_service_url", "recording-service"))
    ∷ ("projects", ("automation_service_url", "automation-service"))
    ∷ ("job-templates", ("automation_service_url", "automation-service"))
    ∷ ("schedules", ("automation_service_url", "automation-service"))
    ∷ ("job-runs", ("automation_service_url", "automation-service"))
    ∷ ("secret-management-jobs", ("automation_service_url", "automation-service"))
    ∷ ("housekeeping", ("automation_service_url", "automation-service"))
    ∷ ("test-connection", ("automation_service_url", "automation-service"))
    ∷ ("notifications", ("automation_service_url", "automation-service"))
    ∷ ("trigger-bindings", ("zabbix_integration_service_url", "zabbix-integration-service"))
    ∷ ("triggers", ("zabbix_integration_service_url", "zabbix-integration-service"))
    ∷ ("metrics", ("metrics_service_url", "metrics-service"))
    ∷ []

pub data HeaderValue : Type 0 where
  text : String → HeaderValue
  joined : List String → HeaderValue
  decimal : ℕ → HeaderValue

abbrev pub Headers : Type 0
Headers = Dict HeaderValue

-- `key.lower() in names`
unfoldable pub lower_in : String → List String → Bool
unfolding lower_is
lower_in key names = any (λ n. lower_is key n) names

-- `_filtered_headers`
unfoldable pub filtered_headers : Headers → Headers
unfolding lower_in
filtered_headers headers =
    keep (λ h. not (lower_in h.0 hop_by_hop) && not (lower_in h.0 identity_headers)) headers

-- `if test: headers[key] = value`
abbrev pub set_if : Bool → String → HeaderValue → Headers → Headers
set_if test key value headers = if test then insert key value headers else headers

-- What `proxy` reads from the identity; a public path has the empty one.
pub record Caller : Type 0 where
  pub user_id : String
  pub role : String
  pub real_role : String
  pub username : String
  pub kiosk_host_id : String
  pub scopes : List String
  pub elevated_until : ℕ

abbrev pub caller : Option Forwarded → Caller
caller none = record {
  user_id = "";
  role = "";
  real_role = "";
  username = "";
  kiosk_host_id = "";
  scopes = [];
  elevated_until = 0;
}
caller (some f) = record {
  user_id = f.identity.user_id;
  role = f.role;
  real_role = f.real_role;
  username = f.identity.username;
  kiosk_host_id = or_else f.identity.kiosk_host_id "";
  scopes = f.identity.scopes;
  elevated_until = f.identity.elevated_until;
}

-- The headers that `proxy` sets for every caller.
unfoldable pub base_headers : Headers → String → Caller → Headers
unfolding filtered_headers insert
base_headers client token who = insert "X-User-Name" (text who.username) (
    insert "X-User-Real-Role" (text who.real_role) (
      insert "X-User-Role" (text who.role) (
        insert "X-User-Id" (text who.user_id)
          (insert "X-Service-Token" (text token) (filtered_headers client)))))

unfoldable pub forward_headers : Headers → String → Caller → Headers
forward_headers client token who =
    set_if (not (eqb who.elevated_until 0)) "X-Elevated-Until" (decimal who.elevated_until) (
      set_if (not (null who.scopes)) "X-User-Scopes" (joined who.scopes) (
        set_if (not (who.kiosk_host_id == "")) "X-Kiosk-Host-Id" (text who.kiosk_host_id)
          (base_headers client token who)))

-- `proxy` up to the call: the setting of the base URL and the headers, or 404.
unfoldable pub proxy :
    (String → String) → Headers → String → Option Forwarded → Option (String × Headers)
unfolding forward_headers base_headers first_segment lookup
proxy mint client path forwarded = elim (lookup (first_segment path) service_routes) [
  | none ↦ none
  | some (base, audience) ↦ some (base, forward_headers client (mint audience) (caller forwarded))
]

pub record Host : Type 0 where
  pub id : String
  pub group_ids : List String

-- `filtered_hosts`, on the answers of identity-service and inventory-service.
pub record HostGrants : Type 0 where
  pub is_admin : Bool
  pub host_ids : List String
  pub host_group_ids : List String

unfoldable pub filtered_hosts : HostGrants → List Host → List Host
unfolding mem
filtered_hosts authz all_hosts =
    if authz.is_admin
    then all_hosts
    else keep (λ h. mem h.id authz.host_ids || any (λ g. mem g authz.host_group_ids) h.group_ids)
        all_hosts

unfoldable pub kiosk_filtered_hosts : String → List Host → List Host
kiosk_filtered_hosts kiosk_host_id all_hosts = keep (λ h. h.id == kiosk_host_id) all_hosts
