-- ===== src/Zabbix/Tests.antt =====
-- A Redis that is a function from keys to the end of their life, with a counter beside it.
use seyal_run.Prelude.{
  ℕ, ◌+◌, ◌≤◌, ◌≡◌, refl, inl, inr, Bool, false, some, [], ◌∷◌, arith, ltb, if◌then◌else◌,
  Bool-cases, All, text_length, err, List,
}
use seyal_run.Zabbix.{
  Binding, Event, Key, same_key, Redis, Request, Settings, match_bindings, accepted, duplicate,
  authenticate, receive, Reply, zabbix_webhook, zabbix_execute,
}
use seyal_run.Zabbix.Replay.{
  Access, admit, note_event, note_execution, accesses, replayed_refused, marked_event_duplicate,
}
use seyal_run.Zabbix.Chunks.{chunk_output-fits, chunk_output, msg_limit}

abbrev Table : Type 0
Table = (Key → ℕ) × (Key → ℕ)

abbrev table_holds : Table → ℕ → Key → Bool
table_holds s t j = ltb t (s.0 j)

abbrev table_claim : Table → ℕ → Key → ℕ → Table
table_claim s now k ttl = (λ j. if same_key k j then now + ttl else s.0 j, s.1)

abbrev table_incr : Table → ℕ → Key → Table
table_incr s now k =
    (λ j. if same_key k j then now + 60 else s.0 j, λ j. if same_key k j then s.1 j + 1 else s.1 j)

table_holds-claim :
    (s : Table) (now t ttl : ℕ) (k j : Key)
    → table_holds (table_claim s now k ttl) t j
      ≡ (if same_key k j then ltb t (now + ttl) else table_holds s t j)
table_holds-claim s now t ttl k j = elim (Bool-cases (same_key k j)) [
  | inl e ↦ rw (e) refl
  | inr e ↦ rw (e) refl
]

table_holds-incr :
    (s : Table) (now t : ℕ) (k j : Key)
    → same_key k j ≡ false
    → table_holds (table_incr s now k) t j ≡ table_holds s t j
table_holds-incr s now t k j e = rw (e) refl

table_holds-expire :
    (s : Table) (now t ttl : ℕ) (k j : Key)
    → same_key k j ≡ false
    → table_holds (table_claim s now k ttl) t j ≡ table_holds s t j
table_holds-expire s now t ttl k j e = rw (e) refl

abbrev store : Redis
store = record {
  State = Table;
  count = λ s t k. s.1 k;
  incr = table_incr;
  expire = table_claim;
  holds = table_holds;
  claim = table_claim;
  holds-incr = table_holds-incr;
  holds-expire = table_holds-expire;
  holds-claim = table_holds-claim;
}

abbrev settings : Settings
settings = record { secret = "k"; allowlist = []; rate_limit_per_minute = 60; replay_window = 300 }

abbrev problem : Event
problem = record {
  eventid = "77";
  severity = 4;
  triggerid = "5";
  hostname = "web1";
  host_groups = "linux" ∷ [];
  selector = "";
}

abbrev request : ℕ → Request
request now = record {
  now = now;
  signature = "sig";
  expected = "sig";
  client_ip = "10.0.0.1";
  event = some problem;
}

abbrev fresh : Table
fresh = (λ k. 0, λ k. 0)

abbrev after_first : Table
after_first = (authenticate store settings (request 1000) fresh).1

abbrev restart : Binding
restart = record {
  id = "b1";
  name = "restart";
  job_template_id = "t1";
  severity_min = 3;
  zabbix_triggerid = some "5";
  zabbix_host_group = some "linux";
}

-- The marks that the admitted request makes itself, and the request of another sender.
abbrev in_between : List (Access store)
in_between =
    note_event 1000 "77"
    ∷ note_execution 1001 problem
    ∷ admit settings (record (request 1050) { signature = "other"; expected = "other" })
    ∷ []

replayed_refused_example :
    (bad : ℕ) × ((zabbix_webhook store settings
        (restart ∷ [])
        (λ s. s)
        (request 1100)
        (accesses store in_between after_first)).0
      ≡ err bad)
    × ((zabbix_execute store settings
          (restart ∷ [])
          (λ b. some "r1")
          (request 1100)
          (accesses store in_between after_first)).0
        ≡ err bad)
unfolding authenticate
replayed_refused_example =
    replayed_refused store settings settings (request 1000) (request 1100) fresh after_first
      in_between (restart ∷ []) (λ s. s) (λ b. some "r1") refl
      (omega arith, (omega arith, (omega arith, tt))) refl (omega arith)

abbrev after_event : Table
after_event = (receive store (restart ∷ []) (λ s. s) 1000 problem fresh).1

marked_event_duplicate_example :
    ((receive store (restart ∷ []) (λ s. s) 1000 problem fresh).0
      ≡ accepted (match_bindings (restart ∷ []) problem))
    × ((receive store
          (restart ∷ [])
          (λ s. s)
          1200
          problem
          (accesses store in_between after_event)).0
        ≡ duplicate)
marked_event_duplicate_example =
    marked_event_duplicate store (restart ∷ []) (restart ∷ []) (λ s. s) (λ s. s) 1000 1200 problem
      problem fresh in_between refl refl refl (omega arith, (omega arith, (omega arith, tt)))
      (omega arith)

-- Two sends that both look before either has marked the event: the whole handling of the other
-- comes between EXISTS and SETEX of this one, and both start the bindings.
abbrev other_send : Table → Reply × Table
other_send = receive store (restart ∷ []) (λ s. s) 1000 problem

both_dispatched :
    ((receive store (restart ∷ []) (λ s. (other_send s).1) 1000 problem fresh).0
      ≡ accepted (restart ∷ []))
    × ((other_send fresh).0 ≡ accepted (restart ∷ []))
unfolding receive
both_dispatched = (refl, refl)

restart_is_bound : match_bindings (restart ∷ []) problem ≡ restart ∷ []
unfolding match_bindings
restart_is_bound = refl

chunk_output-fits_example : All (λ c. text_length c ≤ msg_limit) (chunk_output ("ok" ∷ "done" ∷ []))
chunk_output-fits_example = chunk_output-fits ("ok" ∷ "done" ∷ [])

two_lines_in_one : chunk_output ("ok" ∷ "done" ∷ []) ≡ "ok\ndone" ∷ []
unfolding chunk_output
two_lines_in_one = refl
