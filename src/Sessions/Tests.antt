-- ===== src/Sessions/Tests.antt =====
-- A Redis as a function from keys to values with their expiry, and runs of the session handlers on it.
use seyal_run.Prelude.{
  ℕ, ◌+◌, String, ◌≡◌, refl, inl, inr, true, false, Option, none, some, [], ◌∷◌, arith, ◌==◌, ltb,
  if◌then◌else◌, Bool-cases,
}
use seyal_run.Sessions.{
  Key, same_key, session, user_session, elevated, Value, blob, pointer, Redis, Limits, Request,
  new_blob, lookup_session,
}
use seyal_run.Sessions.Lifetime.{lookup_session_capped}

abbrev Table : Type 0
Table = Key → Option (Value × ℕ)

abbrev alive : ℕ → Option (Value × ℕ) → Option Value
alive t none = none
alive t (some (v, expiry)) = if ltb t expiry then some v else none

abbrev table_get : Table → ℕ → Key → Option Value
table_get s t j = alive t (s j)

abbrev table_set : Table → ℕ → Key → Value → ℕ → Table
table_set s now k v ttl = λ j. if same_key k j then some (v, now + ttl) else s j

abbrev table_del : Table → Key → Table
table_del s k = λ j. if same_key k j then none else s j

table_get-set :
    (s : Table) (now t ttl : ℕ) (k j : Key) (v : Value)
    → table_get (table_set s now k v ttl) t j
      ≡ (if same_key k j then (if ltb t (now + ttl) then some v else none) else table_get s t j)
table_get-set s now t ttl k j v = elim (Bool-cases (same_key k j)) [
  | inl e ↦ rw (e) refl
  | inr e ↦ rw (e) refl
]

table_get-del :
    (s : Table) (t : ℕ) (k j : Key)
    → table_get (table_del s k) t j ≡ (if same_key k j then none else table_get s t j)
table_get-del s t k j = elim (Bool-cases (same_key k j)) [
  | inl e ↦ rw (e) refl
  | inr e ↦ rw (e) refl
]

abbrev store : Redis
store = record {
  State = Table;
  get = table_get;
  set = table_set;
  del = table_del;
  get-set = table_get-set;
  get-del = table_get-del;
}

abbrev limits : Limits
limits = record { idle_minutes = 30; absolute_hours = 12 }

abbrev login : String → Request
login id = record {
  session_id = id;
  user_id = "u1";
  username = "kumar";
  role = "user";
  roles = "user" ∷ [];
  idle_minutes = 30;
  kiosk_host_id = none;
  pwc = false;
  mfa_pending = false;
  mfa_setup_required = false;
  single_session_enabled = true;
}

abbrev empty : Table
empty = λ j. none

-- One session of the user, `one`, that was opened at 1000.
abbrev one_session : Table
one_session = λ j. elim j [
  | session id ↦ if id == "one" then some (blob (new_blob (login "one") 1000), 2800) else none
  | user_session id ↦ if id == "u1" then some (pointer "one", 2800) else none
  | elevated id ↦ none
]

lookup_session_capped_example :
    table_get (lookup_session store one_session 2000 limits true "one").1 44200 (session "one")
    ≡ none
lookup_session_capped_example =
    lookup_session_capped store one_session 2000 44200 limits "one" (new_blob (login "one") 1000)
      1000 refl refl (omega arith) (omega arith)
