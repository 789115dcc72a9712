-- ===== src/Zabbix.antt =====
-- core/services/zabbix-integration-service/app/api/webhook.py: the two receivers of Zabbix events.
-- Redis is a parameter, as are HMAC-SHA256 and the other services; times are in seconds.
pub mod Replay
pub mod Chunks
mod Tests
use seyal_run.Prelude.{
  ℕ, zero, suc, ◌+◌, ◌-◌, ◌*◌, ◌/◌, ◌≤◌, ◌<◌, min, max, String, ◌≡◌, refl, sym, subst, ap, fun_ext,
  ◌∙◌, ◌≢◌, ◌↔◌, ◌⊎◌, inl, inr, Bool, true, false, not, ◌&&◌, ◌||◌, false≢true, Option, none, some,
  List, [], ◌∷◌, ◌++◌, map, arith, ◌==◌, eq_iff, eq_refl, ltb, leb, eqb, if◌then◌else◌, ltb→lt,
  leb→le, Bool-cases, Option-cases, is_some, or_else, and_true, or_true, length, drop, any, all,
  keep, null, length-append, length-drop, any-append, All, All-keep, any_mono, mem, after_prefix,
  strip, lower_is, first_segment, ends_with, strip_slashes, codes, upper_code, mem-append,
  mem-cons_self, keep_nil, all_of_mem, mem-keep, any_of_mem, text_length, append, cut, cut_off,
  text_length-append, text_length-cut, text_length-cut_off, Dict, lookup, insert, erase, keys,
  lookup-insert, lookup-erase, dict_laws, All-insert, Result, ok, err, ◌>>=◌, ◌>>◌, guard,
  some_injective, not-true, guard-eq-ok, ok-injective, bind-eq-ok, Result-cases,
}

pub record Binding : Type 0 where
  pub id : String
  pub name : String
  pub job_template_id : String
  pub severity_min : ℕ
  pub zabbix_triggerid : Option String
  pub zabbix_host_group : Option String

-- The fields of a payload that the receivers read; `selector` is the stripped field `binding`.
pub record Event : Type 0 where
  pub eventid : String
  pub severity : ℕ
  pub triggerid : String
  pub hostname : String
  pub host_groups : List String
  pub selector : String

-- The keys in Redis: zbx:rl, zbx:replay, zbx:dedup and zbx:exec.
pub data Key : Type 0 where
  rate : String → ℕ → Key
  replay dedup : String → Key
  execution : String → String → String → Key

abbrev pub same_key : Key → Key → Bool
same_key (rate a m) (rate b n) = a == b && eqb m n
same_key (replay a) (replay b) = a == b
same_key (dedup a) (dedup b) = a == b
same_key (execution a b c) (execution d e f) = a == d && (b == e && c == f)
same_key _ _ = false

-- The Redis commands of the receivers: `count s t k` is what INCR returned last, `incr` is INCR,
-- `expire` is EXPIRE, `holds` is EXISTS, and `claim s t k ttl` is SET k 1 EX ttl.
pub record Redis : Type 1 where
  pub State : Type 0
  pub count : State → ℕ → Key → ℕ
  pub incr : State → ℕ → Key → State
  pub expire : State → ℕ → Key → ℕ → State
  pub holds : State → ℕ → Key → Bool
  pub claim : State → ℕ → Key → ℕ → State
  pub holds-incr :
      (s : State) (now t : ℕ) (k j : Key)
      → same_key k j ≡ false
      → holds (incr s now k) t j ≡ holds s t j
  pub holds-expire :
      (s : State) (now t ttl : ℕ) (k j : Key)
      → same_key k j ≡ false
      → holds (expire s now k ttl) t j ≡ holds s t j
  pub holds-claim :
      (s : State) (now t ttl : ℕ) (k j : Key)
      → holds (claim s now k ttl) t j ≡ (if same_key k j then ltb t (now + ttl) else holds s t j)

-- What a request brings: the signature, the one that its body should have, the address, and the
-- event that the body says, nothing where it is not JSON.
pub record Request : Type 0 where
  pub now : ℕ
  pub signature : String
  pub expected : String
  pub client_ip : String
  pub event : Option Event

-- `allowlist` holds the addresses of the setting, stripped and without empty ones.
pub record Settings : Type 0 where
  pub secret : String
  pub allowlist : List String
  pub rate_limit_per_minute : ℕ
  pub replay_window : ℕ

abbrev pub wants : Option String → String → Bool
wants none x = true
wants (some t) x = t == "" || t == x

abbrev pub wants_group : Option String → List String → Bool
wants_group none groups = true
wants_group (some g) groups = g == "" || mem g groups

unfoldable pub is_bound : Event → Binding → Bool
unfolding mem
is_bound e b =
    leb b.severity_min e.severity
    && (wants b.zabbix_triggerid e.triggerid && wants_group b.zabbix_host_group e.host_groups)

-- `_match_bindings`
unfoldable pub match_bindings : List Binding → Event → List Binding
unfolding is_bound
match_bindings bindings e = keep (is_bound e) bindings

pub data Reply : Type 0 where
  duplicate in_progress : Reply
  accepted : List Binding → Reply
  runs_started : List String → Reply

abbrev pub parsed : Option Event → Result ℕ Event
parsed none = err 400
parsed (some e) = ok e

module _ (redis : Redis) where
  open redis use {State, count, incr, expire, holds, claim}

  -- The counter of the minute, with its time to live set by the first request.
  unfoldable pub bump : State → ℕ → Key → State
  bump s now k = let s' = incr s now k in if eqb (count s' now k) 1 then expire s' now k 60 else s'

  abbrev pub minute_key : Request → Key
  minute_key r = rate r.client_ip (r.now / 60)

  -- `_authenticate`
  unfoldable pub authenticate : Settings → Request → State → Result ℕ (Unit {0}) × State
  unfolding mem bump
  authenticate cfg r s =
      let s' = bump s r.now (minute_key r) in
      if cfg.secret == ""
      then (err 503, s)
      else if not (r.signature == r.expected)
      then (err 401, s)
      else if not (null cfg.allowlist) && not (mem r.client_ip cfg.allowlist)
      then (err 403, s)
      else if ltb cfg.rate_limit_per_minute (count s' r.now (minute_key r))
      then (err 429, s')
      else if holds s' r.now (replay r.signature)
      then (err 401, s')
      else (ok tt, claim s' r.now (replay r.signature) cfg.replay_window)

  -- The marks in Redis of an event that is dispatched, and of an execution that starts.
  abbrev pub mark_event : ℕ → String → State → State
  mark_event now eventid s = claim s now (dedup eventid) 300

  abbrev pub mark_execution : ℕ → Event → State → State
  mark_execution now e s = claim s now (execution e.eventid e.triggerid e.selector) 10

  -- What `zabbix_webhook` does with an event: the bindings for which it starts a task. `between` is
  -- what other requests do to Redis after EXISTS and before SETEX, which are two awaits.
  unfoldable pub receive : List Binding → (State → State) → ℕ → Event → State → Reply × State
  unfolding match_bindings
  receive bindings between now e s =
      if e.eventid == ""
      then (accepted (match_bindings bindings e), s)
      else if holds s now (dedup e.eventid)
      then (duplicate, s)
      else (accepted (match_bindings bindings e), mark_event now e.eventid (between s))

  abbrev pub after_auth :
      Result ℕ (Unit {0}) × State
      → Option Event
      → (Event → State → Result ℕ Reply × State)
      → Result ℕ Reply × State
  after_auth (err bad, s) event k = (err bad, s)
  after_auth (ok _, s) none k = (err 400, s)
  after_auth (ok _, s) (some e) k = k e s

  -- `zabbix_webhook`
  unfoldable pub zabbix_webhook :
      Settings → List Binding → (State → State) → Request → State → Result ℕ Reply × State
  unfolding authenticate receive
  zabbix_webhook cfg bindings between r s =
      after_auth (authenticate cfg r s) r.event
        λ e s'. let (reply, t) = receive bindings between r.now e s' in (ok reply, t)

  abbrev pub chosen : List Binding → Event → List Binding
  chosen enabled e =
      if e.selector == ""
      then match_bindings enabled e
      else keep (λ b. b.id == e.selector || b.name == e.selector) enabled

  -- The runs that the automation service accepted, in the order of the bindings.
  abbrev pub dispatched : (Binding → Option String) → List Binding → List String
  dispatched dispatch [] = []
  dispatched dispatch (b ∷ bs) =
      let rest = dispatched dispatch bs in
      elim (dispatch b) [ none ↦ rest | some run_id ↦ if run_id == "" then rest else run_id ∷ rest ]

  -- What `zabbix_execute` does with an event; `dispatch` is the answer of the automation service.
  unfoldable pub execute :
      List Binding → (Binding → Option String) → ℕ → Event → State → Result ℕ Reply × State
  unfolding match_bindings
  execute enabled dispatch now e s =
      let key = execution e.eventid e.triggerid e.selector in
      let s' = mark_execution now e s in
      let runs = dispatched dispatch (chosen enabled e) in
      if e.eventid == ""
      then (err 400, s)
      else if holds s now key
      then (ok in_progress, s)
      else if null (chosen enabled e)
      then (err 404, s')
      else if null runs
      then (err 502, s')
      else (ok (runs_started runs), s')

  -- `zabbix_execute`
  unfoldable pub zabbix_execute :
      Settings → List Binding → (Binding → Option String) → Request → State → Result ℕ Reply × State
  unfolding authenticate execute
  zabbix_execute cfg enabled dispatch r s =
      after_auth (authenticate cfg r s) r.event (execute enabled dispatch r.now)
