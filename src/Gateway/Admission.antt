-- ===== src/Gateway/Admission.antt =====
-- core/services/api-gateway/app/main.py: the catch-all route `gateway`, up to the reply.
-- The answer of the rate limiter is a parameter, `allowed`.
pub mod Laws
use seyal_run.Prelude.{
  ◌>>=◌, ◌>>◌, [], String, Bool, not, ◌&&◌, ◌||◌, Option, none, some, List, ◌∷◌, ◌==◌,
  if◌then◌else◌, is_some, or_else, mem, after_prefix, first_segment, Dict, Result, ok, err, guard,
}
use seyal_run.Rbac.{RoleDoc, primary_role}
use seyal_run.Scopes.{scope_allows}
use seyal_run.Sessions.{Identity, AuthError, roles_or}
use seyal_run.Gateway.Access.{is_authorized, sees_all_hosts, downstream_role}

-- `_PUBLIC_PATHS`
abbrev pub public_paths : List String
public_paths =
    "auth/login" ∷ "auth/sso-exchange" ∷ "auth/zbx-sso-init" ∷ "auth/jumpserver-login"
    ∷ "authorizations/email-action" ∷ []

abbrev pub password_paths : List String
password_paths = "auth/change-password" ∷ "auth/nav" ∷ []

abbrev pub verify_paths : List String
verify_paths = "auth/mfa/verify-login" ∷ "auth/mfa/resend" ∷ "auth/nav" ∷ []

-- The paths of `_mfa_enforced_bypass`, and with `auth/nav` those of `_mfa_enroll_paths`.
abbrev pub bypass_paths : List String
bypass_paths = "auth/mfa/setup" ∷ "auth/mfa/setup-email" ∷ "auth/mfa/enable" ∷ []

abbrev pub enroll_paths : List String
enroll_paths = "auth/mfa/setup" ∷ "auth/mfa/setup-email" ∷ "auth/mfa/enable" ∷ "auth/nav" ∷ []

pub data Denial : Type 0 where
  not_found : Denial
  unauthenticated : AuthError → Denial
  password_change_required mfa_required mfa_setup_required : Denial
  role_forbidden scope_forbidden rate_limited : Denial

-- The identity with the roles that are forwarded.
pub record Forwarded : Type 0 where
  pub identity : Identity
  pub real_role : String
  pub role : String

-- `identity.get("roles") or [identity.get("role", "user")]`
abbrev pub caller_roles : Identity → List String
caller_roles identity = roles_or identity.roles identity.role

-- `path == "internal" or path.startswith("internal/")`
unfoldable pub is_internal : String → Bool
unfolding after_prefix
is_internal path = path == "internal" || is_some (after_prefix path "internal/")

abbrev pub enforced_bypass : Identity → String → Bool
enforced_bypass identity path = identity.mfa_setup_required && mem path bypass_paths

-- The checks on a caller who has been authenticated, in the source's order.
unfoldable pub check : Dict RoleDoc → String → String → Identity → Result Denial Forwarded
check cache method path identity = do
  guard (not (identity.pwc && not (mem path password_paths))) password_change_required
  guard (not (identity.mfa_pending && not (mem path verify_paths))) mfa_required
  guard (not (identity.mfa_setup_required && not (mem path enroll_paths))) mfa_setup_required
  guard (enforced_bypass identity path || is_authorized cache (caller_roles identity) method path)
      role_forbidden
  guard
      (not (identity.is_pat && not (scope_allows identity.scopes (first_segment path) method path)))
      scope_forbidden
  ok (record {
    identity = identity;
    real_role = primary_role (caller_roles identity);
    role = downstream_role (caller_roles identity) method (first_segment path);
  })

unfoldable pub authenticated :
    Dict RoleDoc → String → String → Result AuthError Identity → Result Denial (Option Forwarded)
authenticated cache method path (err e) = err (unauthenticated e)
authenticated cache method path (ok identity) = do
  forwarded ← check cache method path identity
  ok (some forwarded)

-- Up to the identity: `none` for a public path.
unfoldable pub identify :
    Dict RoleDoc → String → String → Result AuthError Identity → Result Denial (Option Forwarded)
unfolding is_internal authenticated
identify cache method path resolved =
    if is_internal path
    then err not_found
    else if mem path public_paths
    then ok none
    else authenticated cache method path resolved

-- Which of the three replies the gateway asks for.
pub data Target : Type 0 where
  kiosk_hosts : String → Target
  own_hosts : Identity → Target
  upstream : Option Forwarded → Target

abbrev pub kiosk_of : Identity → String
kiosk_of identity = or_else identity.kiosk_host_id ""

unfoldable pub route : String → String → Option Forwarded → Target
route method path none = upstream none
route method path (some f) =
    if path == "hosts" && (method == "GET" && not (kiosk_of f.identity == ""))
    then kiosk_hosts (kiosk_of f.identity)
    else if path == "hosts" && (method == "GET" && not (sees_all_hosts f.identity.roles))
    then own_hosts f.identity
    else upstream (some f)

unfoldable pub gateway :
    Dict RoleDoc → Bool → String → String → Result AuthError Identity → Result Denial Target
unfolding identify route
gateway cache allowed method path resolved = do
  forwarded ← identify cache method path resolved
  guard allowed rate_limited
  ok (route method path forwarded)
