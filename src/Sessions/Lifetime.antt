-- ===== src/Sessions/Lifetime.antt =====
-- How long a session can be used.
use seyal_run.Prelude.{
  ℕ, ◌+◌, ◌-◌, ◌*◌, ◌≤◌, ◌<◌, min, max, String, ◌≡◌, true, none, some, arith, eq_refl, ltb,
  if◌then◌else◌, ok, err,
}
use seyal_run.Sessions.{
  session, elevated, Blob, blob, window, Redis, invalid_session, Limits, identity_of, elevate,
  elevated_until, lookup_session, logout, clear_pointer,
}

module _ (redis : Redis) where
  open redis use {State, get, set, del, get-set, get-del}

  -- After a lookup of a session that Redis holds with the time of its creation, whatever the lookup
  -- answered, the key is gone from the moment on at which the absolute limit ends.
  pub lookup_session_capped :
      (s : State) (now t : ℕ) (limits : Limits) (token : String) (b : Blob) (created : ℕ)
      → get s now (session token) ≡ some (blob b)
      → b.created_at ≡ some created
      → created + limits.absolute_hours * 3600 ≤ t
      → now ≤ t
      → get (lookup_session redis s now limits true token).1 t (session token) ≡ none
  unfolding lookup_session
  lookup_session_capped s now t limits token b created found made late ordered = ground (
    arith,
    found,
    made,
    eq_refl token,
    get-del s t (session token) (session token),
    get-set s now t
        (max (min (now + limits.idle_minutes * 60) (created + limits.absolute_hours * 3600) - now)
          1)
        (session token) (session token) (blob (record b { last_seen_at = now })),
  )

  -- A lookup, before the absolute limit, of a session that Redis holds with the time of its
  -- creation succeeds, and the session is kept with its new last_seen_at for another idle window,
  -- as far as the absolute limit allows.
  pub lookup_session_slides :
      (s : State) (now t : ℕ) (limits : Limits) (token : String) (b : Blob) (created : ℕ)
      → get s now (session token) ≡ some (blob b)
      → b.created_at ≡ some created
      → now < created + limits.absolute_hours * 3600
      → t < now + limits.idle_minutes * 60
      → t < created + limits.absolute_hours * 3600
      → ((lookup_session redis s now limits true token).0 ≡ ok (identity_of b))
        × (get (lookup_session redis s now limits true token).1 t (session token)
            ≡ some (blob (record b { last_seen_at = now })))
  unfolding lookup_session
  lookup_session_slides s now t limits token b created found made early idle absolute = ground (
    arith,
    found,
    made,
    eq_refl token,
    get-set s now t
        (max (min (now + limits.idle_minutes * 60) (created + limits.absolute_hours * 3600) - now)
          1)
        (session token) (session token) (blob (record b { last_seen_at = now })),
  )

  -- A session that was logged out is refused from then on.
  pub logout_revokes :
      (s : State) (now t : ℕ) (limits : Limits) (token : String)
      → (lookup_session redis (logout redis s now token) t limits true token).0
        ≡ err invalid_session
  unfolding lookup_session logout
  logout_revokes s now t limits token = rw (
    get-del (clear_pointer redis s now token (get s now (session token))) t (session token)
        (session token),
    eq_refl token,
  )

  -- An elevation is reported with its end until it ends, and not at all afterwards.
  pub elevated_until-elevate :
      (s : State) (now t minutes : ℕ) (user_id : String)
      → elevated_until redis (elevate redis s now user_id minutes).0 t true user_id
        ≡ (if ltb t (now + minutes * 60) then now + minutes * 60 else 0)
  unfolding elevated_until elevate
  elevated_until-elevate s now t minutes user_id = ground (
    arith,
    eq_refl user_id,
    get-set s now t (minutes * 60) (elevated user_id) (elevated user_id)
        (window (now + minutes * 60)),
  )
