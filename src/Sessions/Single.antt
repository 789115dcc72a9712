-- ===== src/Sessions/Single.antt =====
-- One session per user: what a new login does to the previous one.
use seyal_run.Prelude.{
  ℕ, ◌+◌, ◌-◌, ◌*◌, ◌≤◌, ◌<◌, min, max, String, ◌≡◌, refl, true, false, not, ◌&&◌, Option, none,
  some, arith, ◌==◌, eq_iff, eq_refl, ltb, if◌then◌else◌, or_else, ok, err,
}
use seyal_run.Sessions.{
  Key, same_key, session, user_session, Value, blob, pointer, window, corrupt, Redis,
  invalid_session, Limits, Request, new_blob, identity_of, drop_prior, create_session, lookup_found,
  lookup_session,
}
use seyal_run.Sessions.Lifetime.{lookup_session_slides}

module _ (redis : Redis) where
  open redis use {State, get, set, del, get-set, get-del}

  get-drop_prior :
      (s : State) (t : ℕ) (v : Option Value) (j : Key)
      → get (drop_prior redis s v) t j ≡ elim v [
        | some (pointer prior) ↦
            if not (prior == "") && same_key (session prior) j then none else get s t j
        | _ ↦ get s t j
      ]
  unfolding drop_prior
  get-drop_prior s t none j = refl
  get-drop_prior s t (some (blob b)) j = refl
  get-drop_prior s t (some (pointer prior)) j = ground (arith, get-del s t (session prior) j)
  get-drop_prior s t (some (window w)) j = refl
  get-drop_prior s t (some corrupt) j = refl

  -- Every key after a login.
  get-create_session :
      (s : State) (now t : ℕ) (r : Request) (j : Key)
      → get (create_session redis s now r) t j ≡ (
          if same_key (session r.session_id) j
          then (if ltb t (now + r.idle_minutes * 60) then some (blob (new_blob r now)) else none)
          else if r.single_session_enabled && same_key (user_session r.user_id) j
          then (if ltb t (now + r.idle_minutes * 60) then some (pointer r.session_id) else none)
          else if r.single_session_enabled
          then get (drop_prior redis s (get s now (user_session r.user_id))) t j
          else get s t j)
  unfolding create_session
  get-create_session s now t r j =
      let ttl = r.idle_minutes * 60 in
      let kept = drop_prior redis s (get s now (user_session r.user_id)) in
      let own = user_session r.user_id in
      ground (
        arith,
        get-set s now t ttl (session r.session_id) j (blob (new_blob r now)),
        get-set (set kept now own (pointer r.session_id) ttl) now t ttl (session r.session_id) j
            (blob (new_blob r now)),
        get-set kept now t ttl own j (pointer r.session_id),
      )

  -- With enforcement on, a login ends the session that the user's pointer names, when that is not
  -- the new session itself: no later lookup finds it.
  pub login_kicks_prior :
      (s : State) (now t : ℕ) (r : Request) (limits : Limits) (prior : String)
      → r.single_session_enabled ≡ true
      → get s now (user_session r.user_id) ≡ some (pointer prior)
      → (prior == "") ≡ false
      → (prior == r.session_id) ≡ false
      → (lookup_session redis (create_session redis s now r) t limits true prior).0
        ≡ err invalid_session
  unfolding lookup_session
  login_kicks_prior s now t r limits prior on here named other = ground (
    arith,
    on,
    here,
    eq_iff r.session_id prior,
    eq_iff prior r.session_id,
    eq_refl prior,
    get-create_session s now t r (session prior),
    get-drop_prior s t (some (pointer prior)) (session prior),
  )

  pointer_after_found :
      (s : State) (now t : ℕ) (limits : Limits) (token user : String) (v : Option Value)
      → get (lookup_found redis s now limits token v).1 t (user_session user)
        ≡ get s t (user_session user)
  unfolding lookup_found
  pointer_after_found s now t limits token user none = refl
  pointer_after_found s now t limits token user (some (blob b)) =
      let deadline = or_else b.created_at now + limits.absolute_hours * 3600 in
      ground (
        arith,
        get-del s t (session token) (user_session user),
        get-set s now t (max (min (now + limits.idle_minutes * 60) deadline - now) 1)
            (session token) (user_session user) (blob (record b { last_seen_at = now })),
      )
  pointer_after_found s now t limits token user (some (pointer p)) = refl
  pointer_after_found s now t limits token user (some (window w)) = refl
  pointer_after_found s now t limits token user (some corrupt) = refl

  -- A lookup does not touch the pointer of any user, nor its time to live.
  pointer_after_lookup :
      (s : State) (now t : ℕ) (limits : Limits) (token user : String)
      → get (lookup_session redis s now limits true token).1 t (user_session user)
        ≡ get s t (user_session user)
  unfolding lookup_session
  pointer_after_lookup s now t limits token user =
      pointer_after_found s now t limits token user (get s now (session token))

  module _ (s : State) (limits : Limits) (r q : Request) (n t m : ℕ)
      (r_on : r.single_session_enabled ≡ true) (q_on : q.single_session_enabled ≡ true)
      (same_user : q.user_id ≡ r.user_id) (fresh : (q.session_id == r.session_id) ≡ false)
      (r_idle : r.idle_minutes ≡ limits.idle_minutes)
      (q_idle : q.idle_minutes ≡ limits.idle_minutes) (used : t < n + limits.idle_minutes * 60)
      (later : n + limits.idle_minutes * 60 ≤ m) (alive : m < t + limits.idle_minutes * 60)
      (in_limit : m < n + limits.absolute_hours * 3600) where
    abbrev first_login : State
    first_login = create_session redis s n r

    abbrev used_once : State
    used_once = (lookup_session redis first_login t limits true r.session_id).1

    abbrev second_login : State
    second_login = create_session redis used_once m q

    first_blob : get first_login t (session r.session_id) ≡ some (blob (new_blob r n))
    first_blob =
        ground (arith, eq_refl r.session_id, get-create_session s n t r (session r.session_id))

    kept_blob :
        get used_once m (session r.session_id)
        ≡ some (blob (record (new_blob r n) { last_seen_at = t }))
    kept_blob =
        (lookup_session_slides redis first_login t m limits r.session_id (new_blob r n) n first_blob
          refl (omega arith) alive in_limit).1

    pointer_gone : get used_once m (user_session q.user_id) ≡ none
    pointer_gone = rw same_user (
        ground (
          arith,
          eq_refl r.user_id,
          pointer_after_lookup first_login t m limits r.session_id r.user_id,
          get-create_session s n m r (user_session r.user_id),
        ))

    both_blobs :
        (get second_login m (session r.session_id)
          ≡ some (blob (record (new_blob r n) { last_seen_at = t })))
        × (get second_login m (session q.session_id) ≡ some (blob (new_blob q m)))
    both_blobs = ground (
      arith,
      kept_blob,
      pointer_gone,
      eq_refl q.session_id,
      get-create_session used_once m m q (session r.session_id),
      get-create_session used_once m m q (session q.session_id),
      get-drop_prior used_once m none (session r.session_id),
    )

    -- The pointer is not slid with the session. So, with enforcement on, a user who logs in at `n`,
    -- works at `t`, and logs in elsewhere at `m`, when an idle window since `n` has passed but none
    -- since `t`, holds two valid sessions.
    pub two_sessions :
        ((lookup_session redis second_login m limits true r.session_id).0
          ≡ ok (identity_of (new_blob r n)))
        × ((lookup_session redis second_login m limits true q.session_id).0
            ≡ ok (identity_of (new_blob q m)))
    two_sessions = (
      (lookup_session_slides redis second_login m m limits r.session_id _ n both_blobs.0 refl
          in_limit (omega arith) in_limit).0,
      (lookup_session_slides redis second_login m m limits q.session_id _ m both_blobs.1 refl
          (omega arith) (omega arith) (omega arith)).0,
    )
