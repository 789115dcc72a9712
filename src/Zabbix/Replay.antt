-- ===== src/Zabbix/Replay.antt =====
-- The marks of requests and events in Redis, between the steps of other requests: webhook.py.
use seyal_run.Prelude.{
  ℕ, ◌+◌, ◌<◌, ◌≤◌, Option, [], ◌∷◌, All, String, ◌≡◌, refl, sym, false≢true, subst, ap, ◌∙◌, inl,
  inr, Bool, true, false, List, arith, ◌==◌, eq_iff, eqb, if◌then◌else◌, Bool-cases, Result, ok,
  err,
}
use seyal_run.Zabbix.{
  Binding, Event, Key, replay, dedup, same_key, Redis, Request, Settings, match_bindings, duplicate,
  accepted, bump, minute_key, authenticate, receive, execution, mark_event, mark_execution,
  zabbix_webhook, zabbix_execute,
}

module _ (redis : Redis) where
  open redis use {State, count, incr, expire, holds, claim}

  -- The counter of the minute leaves the other keys as they are.
  holds-bump :
      (s : State) (now t : ℕ) (k j : Key)
      → same_key k j ≡ false
      → holds (bump redis s now k) t j ≡ holds s t j
  unfolding bump
  holds-bump s now t k j h = elim (Bool-cases (eqb (count (incr s now k) now k) 1)) [
    | inl e ↦
        rw (bump, e)
          (redis.holds-expire (incr s now k) now t 60 k j h ∙ redis.holds-incr s now t k j h)
    | inr e ↦ rw (bump, e) (redis.holds-incr s now t k j h)
  ]

  abbrev tests :
      Bool → Bool → Bool → Bool → Bool → State → State → State → Result ℕ (Unit {0}) × State
  tests a b c d e s s' t =
      if a
      then (err 503, s)
      else if b
      then (err 401, s)
      else if c
      then (err 403, s)
      else if d
      then (err 429, s')
      else if e
      then (err 401, s')
      else (ok tt, t)

  refused :
      {u v t : State} (bad : ℕ)
      → ◌≡◌ {A = Result ℕ (Unit {0}) × State} (err bad, v) (ok tt, u)
      → t ≡ u
  refused bad h = let e : ◌≡◌ {A = Result ℕ (Unit {0})} (err bad) (ok tt) = ap (λ p. p.0) h in cc

  -- An admitted request passed the tests, and claimed its signature.
  admitted :
      (a b c d e : Bool) (s s' t : State) {u : State} → tests a b c d e s s' t ≡ (ok tt, u) → t ≡ u
  admitted true b c d e s s' t h = refused 503 h
  admitted false true c d e s s' t h = refused 401 h
  admitted false false true d e s s' t h = refused 403 h
  admitted false false false true e s s' t h = refused 429 h
  admitted false false false false true s s' t h = refused 401 h
  admitted false false false false false s s' t h = ap (λ p. p.1) h

  same_key-replay : (a b : String) → a ≡ b → same_key (replay a) (replay b) ≡ true
  same_key-replay a b h = ground (arith, eq_iff a b, h)

  -- What the requests do to Redis, one step at a time, in any order: the authentication of a
  -- request, the mark of an event, and the mark of an execution.
  pub data Access : Type 0 where
    admit : Settings → Request → Access
    note_event : ℕ → String → Access
    note_execution : ℕ → Event → Access

  abbrev pub access : Access → State → State
  access (admit cfg q) s = (authenticate redis cfg q s).1
  access (note_event now eventid) s = mark_event redis now eventid s
  access (note_execution now e) s = mark_execution redis now e s

  abbrev pub time_of : Access → ℕ
  time_of (admit cfg q) = q.now
  time_of (note_event now eventid) = now
  time_of (note_execution now e) = now

  abbrev pub accesses : List Access → State → State
  accesses [] s = s
  accesses (a ∷ steps) s = accesses steps (access a s)

  -- The key is there until the time.
  abbrev IsHeld : ℕ → Key → State → Type 0
  IsHeld until j s = (x : ℕ) → x < until → holds s x j ≡ true

  bump-IsHeld :
      (until now : ℕ) (k j : Key) (s : State)
      → same_key k j ≡ false
      → IsHeld until j s
      → IsHeld until j (bump redis s now k)
  bump-IsHeld until now k j s d h x e = holds-bump s now x k j d ∙ h x e

  other-IsHeld :
      (until now ttl : ℕ) (k j : Key) (s : State)
      → same_key k j ≡ false
      → IsHeld until j s
      → IsHeld until j (claim s now k ttl)
  other-IsHeld until now ttl k j s d h x e = rw (redis.holds-claim, d) (h x e)

  claim-IsHeld :
      (until now ttl : ℕ) (k j : Key) (s : State)
      → same_key k j ≡ true
      → until ≤ now + ttl
      → IsHeld until j (claim s now k ttl)
  claim-IsHeld until now ttl k j s d h x e = rw (redis.holds-claim, d) (ground (arith, h, e))

  tests-state :
      (P : State → Type 0) (a b c d e : Bool) (s s' t : State)
      → P s
      → P s'
      → (e ≡ false → P t)
      → P (tests a b c d e s s' t).1
  tests-state P true b c d e s s' t h h' k = h
  tests-state P false true c d e s s' t h h' k = h
  tests-state P false false true d e s s' t h h' k = h
  tests-state P false false false true e s s' t h h' k = h'
  tests-state P false false false false true s s' t h h' k = h'
  tests-state P false false false false false s s' t h h' k = k refl

  -- An authentication keeps a key that it does not count with, unless it claims that very key.
  admit-IsHeld :
      (until : ℕ) (j : Key) (cfg : Settings) (q : Request) (s : State)
      → same_key (minute_key redis q) j ≡ false
      → (holds (bump redis s q.now (minute_key redis q)) q.now (replay q.signature) ≡ false
          → same_key (replay q.signature) j ≡ false)
      → IsHeld until j s
      → IsHeld until j (authenticate redis cfg q s).1
  unfolding authenticate
  admit-IsHeld until j cfg q s d f h =
      let s' = bump redis s q.now (minute_key redis q) in
      let h' = bump-IsHeld until q.now (minute_key redis q) j s d h in
      tests-state (IsHeld until j) _ _ _ _ (holds s' q.now (replay q.signature)) s s' _ h h'
        λ e. other-IsHeld until q.now cfg.replay_window (replay q.signature) j s' (f e) h'

  replay-kept :
      (until : ℕ) (sig : String) (a : Access) (s : State)
      → time_of a < until
      → IsHeld until (replay sig) s
      → IsHeld until (replay sig) (access a s)
  replay-kept until sig (admit cfg q) s e h =
      admit-IsHeld until (replay sig) cfg q s refl
        (λ free. elim (Bool-cases (q.signature == sig)) [
          | inl same ↦
              let w : q.signature ≡ sig = (eq_iff q.signature sig).0 same in
              let there =
                bump-IsHeld until q.now (minute_key redis q) (replay sig) s refl h q.now e in
              let free' =
                subst
                  (λ x. holds (bump redis s q.now (minute_key redis q)) q.now (replay x) ≡ false) w
                  free in
              elim (false≢true (sym free' ∙ there)) [ ]
          | inr d ↦ d
        ])
        h
  replay-kept until sig (note_event now eventid) s e h =
      other-IsHeld until now 300 (dedup eventid) (replay sig) s refl h
  replay-kept until sig (note_execution now ev) s e h =
      other-IsHeld until now 10 (execution ev.eventid ev.triggerid ev.selector) (replay sig) s refl
        h

  replay-stays :
      (until : ℕ) (sig : String) (steps : List Access) (s : State)
      → All (λ a. time_of a < until) steps
      → IsHeld until (replay sig) s
      → IsHeld until (replay sig) (accesses steps s)
  replay-stays until sig [] s k h = h
  replay-stays until sig (a ∷ steps) s (e, k) h =
      replay-stays until sig steps (access a s) k (replay-kept until sig a s e h)

  abbrev Refuses : Result ℕ (Unit {0}) × State → Type 0
  Refuses r = (bad : ℕ) × (t : State) × (r ≡ (err bad, t))

  held-Refuses : (a b c d : Bool) (s s' t : State) → Refuses (tests a b c d true s s' t)
  held-Refuses true b c d s s' t = (503, s, refl)
  held-Refuses false true c d s s' t = (401, s, refl)
  held-Refuses false false true d s s' t = (403, s, refl)
  held-Refuses false false false true s s' t = (429, s', refl)
  held-Refuses false false false false s s' t = (401, s', refl)

  authenticate-Refuses :
      (until : ℕ) (cfg : Settings) (r : Request) (s : State)
      → r.now < until
      → IsHeld until (replay r.signature) s
      → Refuses (authenticate redis cfg r s)
  unfolding authenticate
  authenticate-Refuses until cfg r s e h =
      let s' = bump redis s r.now (minute_key redis r) in
      rw (bump-IsHeld until r.now (minute_key redis r) (replay r.signature) s refl h r.now e)
        (held-Refuses _ _ _ _ s s' (claim s' r.now (replay r.signature) cfg.replay_window))

  -- Once a request was authenticated, both receivers refuse every request with its signature as
  -- long as its replay window lasts, whatever requests do to Redis between the two, in whatever
  -- order their steps come, and whatever its address and the settings are then.
  pub replayed_refused :
      (cfg cfg' : Settings) (r r' : Request) (s t : State) (steps : List Access)
      (bindings : List Binding) (between : State → State) (dispatch : Binding → Option String)
      → authenticate redis cfg r s ≡ (ok tt, t)
      → All (λ a. time_of a < r.now + cfg.replay_window) steps
      → r.signature ≡ r'.signature
      → r'.now < r.now + cfg.replay_window
      → (bad : ℕ) × ((zabbix_webhook redis cfg' bindings between r' (accesses steps t)).0 ≡ err bad)
        × ((zabbix_execute redis cfg' bindings dispatch r' (accesses steps t)).0 ≡ err bad)
  unfolding authenticate zabbix_webhook zabbix_execute
  replayed_refused cfg cfg' r r' s t steps bindings between dispatch h k same soon =
      let until = r.now + cfg.replay_window in
      let left = admitted _ _ _ _ _ s (bump redis s r.now (minute_key redis r)) _ h in
      let key = same_key-replay r.signature r'.signature same in
      let here : IsHeld until (replay r'.signature) t =
        subst (IsHeld until (replay r'.signature)) left (
          claim-IsHeld until r.now cfg.replay_window (replay r.signature) (replay r'.signature) _
            key (omega arith)) in
      let (bad, u, e) =
        authenticate-Refuses until cfg' r' (accesses steps t) soon
          (replay-stays until r'.signature steps t k here) in
      (bad, rw (zabbix_webhook, e) refl, rw (zabbix_execute, e) refl)

  -- A step that is no older than the mark.
  event-kept :
      (now : ℕ) (id : String) (a : Access) (s : State)
      → now ≤ time_of a
      → IsHeld (now + 300) (dedup id) s
      → IsHeld (now + 300) (dedup id) (access a s)
  event-kept now id (admit cfg q) s e h =
      admit-IsHeld (now + 300) (dedup id) cfg q s refl (λ _. refl) h
  event-kept now id (note_event later other) s e h = elim (Bool-cases (other == id)) [
    | inl d ↦ claim-IsHeld (now + 300) later 300 (dedup other) (dedup id) s d (omega (arith, e))
    | inr d ↦ other-IsHeld (now + 300) later 300 (dedup other) (dedup id) s d h
  ]
  event-kept now id (note_execution later ev) s e h =
      other-IsHeld (now + 300) later 10 (execution ev.eventid ev.triggerid ev.selector) (dedup id) s
        refl h

  event-stays :
      (now : ℕ) (id : String) (steps : List Access) (s : State)
      → All (λ a. now ≤ time_of a) steps
      → IsHeld (now + 300) (dedup id) s
      → IsHeld (now + 300) (dedup id) (accesses steps s)
  event-stays now id [] s k h = h
  event-stays now id (a ∷ steps) s (e, k) h =
      event-stays now id steps (access a s) k (event-kept now id a s e h)

  -- Once a request has dispatched an event with an id and marked it, every request with that id
  -- that looks less than 300 seconds after the mark answers `duplicate` and starts no binding,
  -- whatever requests do to Redis between the two, in whatever order their steps come.
  pub marked_event_duplicate :
      (bindings bindings' : List Binding) (between between' : State → State) (now later : ℕ)
      (e e' : Event) (s : State) (steps : List Access)
      → e.eventid == "" ≡ false
      → e.eventid ≡ e'.eventid
      → holds s now (dedup e.eventid) ≡ false
      → All (λ a. now ≤ time_of a) steps
      → later < now + 300
      → (receive redis bindings between now e s).0 ≡ accepted (match_bindings bindings e)
        × ((receive redis bindings' between' later e'
              (accesses steps (receive redis bindings between now e s).1)).0
            ≡ duplicate)
  unfolding receive
  marked_event_duplicate bindings bindings' between between' now later e e' s steps n same free k
        soon =
      let n' : e'.eventid == "" ≡ false = subst (λ x. x == "" ≡ false) same n in
      let key : same_key (dedup e.eventid) (dedup e'.eventid) ≡ true =
        ground (arith, eq_iff e.eventid e'.eventid, same) in
      let here =
        claim-IsHeld (now + 300) now 300 (dedup e.eventid) (dedup e'.eventid) (between s) key
          (omega arith) in
      (
        rw (receive, n, free) refl,
        rw (receive, n, free, n', event-stays now e'.eventid steps _ k here later soon) refl,
      )
