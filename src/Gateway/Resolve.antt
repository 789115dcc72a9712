-- ===== src/Gateway/Resolve.antt =====
-- core/services/api-gateway/app/security.py: from the Authorization header to the caller's identity.
-- The answers of identity-service are parameters.
pub mod Laws
use seyal_run.Prelude.{
  [], ℕ, ◌+◌, String, Bool, true, false, Option, none, some, List, ◌∷◌, ltb, if◌then◌else◌, is_some,
  after_prefix, strip, Dict, lookup, insert, Result, ok, err,
}
use Prim.Native.String
use seyal_run.Sessions.{
  Redis, Identity, AuthError, missing_bearer, identity_unreachable, verification_failed,
  invalid_token, Limits, roles_or, lookup_session, elevated_until,
}

-- The answer to `GET internal/users/{id}/roles`: no answer, a status other than 200, or a body.
pub data RolesReply : Type 0 where
  unreachable refused : RolesReply
  body : Bool → List String → RolesReply

-- `_role_cache`: roles, and the time at which they expire.
abbrev pub RoleCache : Type 0
RoleCache = Dict (List String × ℕ)

-- `_ROLE_TTL`, in seconds.
abbrev pub role_ttl : ℕ
role_ttl = 30

-- `a or b` on lists
abbrev pub list_or : List String → List String → List String
list_or [] d = d
list_or (r ∷ rs) d = r ∷ rs

unfoldable pub fetch_roles :
    RoleCache → ℕ → RolesReply → String → List String → List String × RoleCache
unfolding insert
fetch_roles cache now unreachable user_id fallback = (fallback, cache)
fetch_roles cache now refused user_id fallback = (fallback, cache)
fetch_roles cache now (body known roles) user_id fallback =
    let current = if known then roles else list_or roles fallback in
    (current, insert user_id (current, now + role_ttl) cache)

-- `_live_roles`
unfoldable pub live_roles :
    RoleCache → ℕ → RolesReply → String → List String → List String × RoleCache
unfolding fetch_roles lookup
live_roles cache now reply user_id fallback =
    let fetched = fetch_roles cache now reply user_id fallback in
    elim (lookup user_id cache) [
      | some (roles, expiry) ↦ if ltb now expiry then (roles, cache) else fetched
      | none ↦ fetched
    ]

abbrev pub first_or : List String → String → String
first_or [] d = d
first_or (r ∷ rs) d = r

-- `_with_live_roles`, for the roles and the end of the elevation that were read.
unfoldable pub with_live_roles : Identity → List String → ℕ → Identity
with_live_roles identity roles until = record identity {
  roles = roles;
  role = first_or roles identity.role;
  elevated_until = until;
}

-- The answer to `POST internal/tokens/verify`.
pub data PatReply : Type 0 where
  unreachable refused invalid : PatReply
  valid : (user_id username role : String) (roles scopes : List String) → PatReply

unfoldable pub verify_pat : PatReply → Result AuthError Identity
verify_pat unreachable = err identity_unreachable
verify_pat refused = err verification_failed
verify_pat invalid = err invalid_token
verify_pat (valid user_id username role roles scopes) = ok (record {
  user_id = user_id;
  username = username;
  role = role;
  roles = roles_or roles role;
  scopes = scopes;
  is_pat = true;
  pwc = false;
  mfa_pending = false;
  mfa_setup_required = false;
  kiosk_host_id = none;
  elevated_until = 0;
})

-- What the gateway reads besides Redis during one request.
pub record World : Type 0 where
  pub now : ℕ
  pub limits : Limits
  pub reachable : Bool
  pub window_reachable : Bool
  pub roles_reply : RolesReply
  pub pat_reply : PatReply

abbrev pub bearer : String
bearer = "Bearer "

-- The token of `authorization.removeprefix("Bearer ").strip()`, if there is one.
unfoldable pub bearer_token : Option String → Option String
unfolding after_prefix strip
bearer_token none = none
bearer_token (some header) = elim (after_prefix header bearer) [
  | none ↦ none
  | some token ↦ some (strip token)
]

module _ (redis : Redis) where
  open redis use {State}

  -- `_with_live_roles(await lookup_session(token))`: the answer, Redis and the role cache.
  unfoldable pub resolve_session :
      State → RoleCache → World → String → Result AuthError Identity × State × RoleCache
  unfolding live_roles with_live_roles
  resolve_session s cache w token =
      let (found, s') = lookup_session redis s w.now w.limits w.reachable token in
      elim found [
        | err e ↦ (err e, s', cache)
        | ok identity ↦
            let (roles, cache') =
              live_roles cache w.now w.roles_reply identity.user_id identity.roles in
            (
              ok (
                  with_live_roles identity roles
                    (elevated_until redis s' w.now w.window_reachable identity.user_id)),
              s',
              cache',
            )
      ]

  -- `resolve_identity`
  unfoldable pub resolve_identity :
      State → RoleCache → World → Option String → Result AuthError Identity × State × RoleCache
  unfolding bearer_token resolve_session verify_pat
  resolve_identity s cache w authorization = elim (bearer_token authorization) [
    | none ↦ (err missing_bearer, s, cache)
    | some token ↦
        let session_answer = resolve_session s cache w token in
        if is_some (after_prefix token "sr_")
        then (verify_pat w.pat_reply, s, cache)
        else session_answer
  ]
