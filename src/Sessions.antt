-- ===== src/Sessions.antt =====
-- Sessions in Redis: core/services/identity-service/app/sessions.py writes them,
-- core/services/api-gateway/app/security.py and main.py read, slide and delete them.
-- Redis is not part of the repository: its state and its four operations are a parameter, with the
-- documented laws of GET, SET … EX and DEL. The JSON blobs are typed values, and the prefixes
-- `session:`, `user_session:` and `elevated:` are the constructors of `Key`.
pub mod Lifetime
pub mod Single
pub mod Tests
use seyal_run.Prelude.{
  [], ℕ, ◌+◌, ◌-◌, ◌*◌, min, max, String, ◌≡◌, Bool, false, not, Option, none, some, List, ◌∷◌,
  ◌==◌, ltb, leb, if◌then◌else◌, or_else, Result, ok, err,
}

pub data Key : Type 0 where
  session user_session elevated : String → Key

abbrev pub same_key : Key → Key → Bool
same_key (session a) (session b) = a == b
same_key (user_session a) (user_session b) = a == b
same_key (elevated a) (elevated b) = a == b
same_key _ _ = false

-- The blob of `create_session`.
pub record Blob : Type 0 where
  pub user_id : String
  pub username : String
  pub role : String
  pub roles : List String
  pub kiosk : Bool
  pub kiosk_host_id : Option String
  pub pwc : Bool
  pub mfa_pending : Bool
  pub mfa_setup_required : Bool
  pub created_at : Option ℕ
  pub last_seen_at : ℕ

-- What a key holds; `corrupt` is a text that is not the JSON that is expected.
pub data Value : Type 0 where
  blob : Blob → Value
  pointer : String → Value
  window : ℕ → Value
  corrupt : Value

-- `get s t k` is GET at the time `t`, in seconds; `set s t k v ttl` is SET k v EX ttl at `t`.
pub record Redis : Type 1 where
  pub State : Type 0
  pub get : State → ℕ → Key → Option Value
  pub set : State → ℕ → Key → Value → ℕ → State
  pub del : State → Key → State
  pub get-set :
      (s : State) (now t ttl : ℕ) (k j : Key) (v : Value)
      → get (set s now k v ttl) t j
        ≡ (if same_key k j then (if ltb t (now + ttl) then some v else none) else get s t j)
  pub get-del :
      (s : State) (t : ℕ) (k j : Key)
      → get (del s k) t j ≡ (if same_key k j then none else get s t j)

-- What `resolve_identity` returns about the caller.
pub record Identity : Type 0 where
  pub user_id : String
  pub username : String
  pub role : String
  pub roles : List String
  pub scopes : List String
  pub is_pat : Bool
  pub pwc : Bool
  pub mfa_pending : Bool
  pub mfa_setup_required : Bool
  pub kiosk_host_id : Option String
  pub elevated_until : ℕ

-- `AuthError`, by its messages.
pub data AuthError : Type 0 where
  store_unreachable invalid_session corrupt_session session_expired : AuthError
  missing_bearer identity_unreachable verification_failed invalid_token : AuthError

-- `platform_settings.session_idle_minutes()` and `session_absolute_hours()`
pub record Limits : Type 0 where
  pub idle_minutes : ℕ
  pub absolute_hours : ℕ

-- The arguments of `create_session`; the new id, `secrets.token_urlsafe(32)`, is one of them.
pub record Request : Type 0 where
  pub session_id : String
  pub user_id : String
  pub username : String
  pub role : String
  pub roles : List String
  pub idle_minutes : ℕ
  pub kiosk_host_id : Option String
  pub pwc : Bool
  pub mfa_pending : Bool
  pub mfa_setup_required : Bool
  pub single_session_enabled : Bool

-- A text that Python counts as true.
abbrev pub truthy : Option String → Bool
truthy none = false
truthy (some s) = not (s == "")

abbrev pub new_blob : Request → ℕ → Blob
new_blob r now = record {
  user_id = r.user_id;
  username = r.username;
  role = r.role;
  roles = r.roles;
  kiosk = truthy r.kiosk_host_id;
  kiosk_host_id = r.kiosk_host_id;
  pwc = r.pwc;
  mfa_pending = r.mfa_pending;
  mfa_setup_required = r.mfa_setup_required;
  created_at = some now;
  last_seen_at = now;
}

abbrev pub roles_or : List String → String → List String
roles_or [] role = role ∷ []
roles_or (r ∷ rs) role = r ∷ rs

abbrev pub identity_of : Blob → Identity
identity_of b = record {
  user_id = b.user_id;
  username = b.username;
  role = b.role;
  roles = roles_or b.roles b.role;
  scopes = [];
  is_pat = false;
  pwc = b.pwc;
  mfa_pending = b.mfa_pending;
  mfa_setup_required = b.mfa_setup_required;
  kiosk_host_id = if b.kiosk then b.kiosk_host_id else none;
  elevated_until = 0;
}

module _ (redis : Redis) where
  open redis use {State, get, set, del}

  -- `elevate`: the new state and the unix expiry.
  unfoldable pub elevate : State → ℕ → String → ℕ → State × ℕ
  elevate s now user_id minutes = (
    set s now (elevated user_id) (window (now + minutes * 60)) (minutes * 60),
    now + minutes * 60,
  )

  -- `api-gateway/app/security.py::_elevated_until`
  unfoldable pub elevated_until : State → ℕ → Bool → String → ℕ
  elevated_until s now reachable user_id =
      if reachable
      then elim (get s now (elevated user_id)) [ some (window until) ↦ until | _ ↦ 0 ]
      else 0

  unfoldable pub drop_prior : State → Option Value → State
  drop_prior s (some (pointer prior)) = if prior == "" then s else del s (session prior)
  drop_prior s _ = s

  unfoldable pub create_session : State → ℕ → Request → State
  unfolding drop_prior
  create_session s now r =
      let ttl = r.idle_minutes * 60 in
      let s' : State =
        if r.single_session_enabled
        then set (drop_prior s (get s now (user_session r.user_id))) now (user_session r.user_id)
            (pointer r.session_id) ttl
        else s in
      set s' now (session r.session_id) (blob (new_blob r now)) ttl

  -- `lookup_session` on the blob that was found.
  unfoldable pub slide : State → ℕ → Limits → String → Blob → Result AuthError Identity × State
  slide s now limits token b =
      let deadline = or_else b.created_at now + limits.absolute_hours * 3600 in
      if leb deadline now then (err session_expired, del s (session token)) else (
        ok (identity_of b),
        set s now (session token) (blob (record b { last_seen_at = now }))
            (max (min (now + limits.idle_minutes * 60) deadline - now) 1),
      )

  unfoldable pub lookup_found :
      State → ℕ → Limits → String → Option Value → Result AuthError Identity × State
  unfolding slide
  lookup_found s now limits token none = (err invalid_session, s)
  lookup_found s now limits token (some (blob b)) = slide s now limits token b
  lookup_found s now limits token (some _) = (err corrupt_session, s)

  -- `reachable` is false when GET raises `RedisError`.
  unfoldable pub lookup_session :
      State → ℕ → Limits → Bool → String → Result AuthError Identity × State
  unfolding lookup_found
  lookup_session s now limits reachable token =
      if reachable
      then lookup_found s now limits token (get s now (session token))
      else (err store_unreachable, s)

  -- The pointer is cleared only while it still names the session that logs out.
  unfoldable pub clear_pointer : State → ℕ → String → Option Value → State
  clear_pointer s now token (some (blob b)) =
      if b.user_id == "" then s else elim (get s now (user_session b.user_id)) [
        | some (pointer current) ↦ if current == token then del s (user_session b.user_id) else s
        | _ ↦ s
      ]
  clear_pointer s now token _ = s

  -- `auth_logout` of main.py, for the bearer token of a session.
  unfoldable pub logout : State → ℕ → String → State
  unfolding clear_pointer
  logout s now token = del (clear_pointer s now token (get s now (session token))) (session token)
