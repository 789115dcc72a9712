-- ===== src/Audit.antt =====
-- core/libs/audithash/__init__.py, and `audit_payload`, `log_action` and the endpoint /audit/verify
-- of core/services/identity-service/app/audit.py and api/audit.py there. Appends run under a
-- database lock, one at a time. SHA-256 of the sequence number, the previous hash and the canonical
-- JSON of the payload is the parameter `hash`; hashes are texts.
pub mod Chain
pub mod Tests
use seyal_run.Prelude.{
  [], ℕ, ◌+◌, ◌*◌, ◌/◌, String, Bool, true, false, not, Option, none, some, List, ◌∷◌, ◌++◌, map,
  ◌==◌, ltb, if◌then◌else◌, length, ok, or_else,
}

-- A row as `verify_chain` takes it.
pub record Row (P : Type 0) : Type 0 where
  pub seq : ℕ
  pub prev_hash : String
  pub entry_hash : String
  pub payload : P

pub data Reason : Type 0 where
  prev_mismatch entry_mismatch intact : Reason

pub record Verdict : Type 0 where
  pub ok : Bool
  pub checked : ℕ
  pub broken_seq : Option ℕ
  pub reason : Reason

abbrev pub genesis : String
genesis = "0000000000000000000000000000000000000000000000000000000000000000"

abbrev pub broken : ℕ → Reason → Verdict
broken seq reason = record { ok = false; checked = seq; broken_seq = some seq; reason = reason }

module _ {P : Type 0} where
  -- The row with the greatest sequence number: `ORDER BY seq DESC LIMIT 1`.
  unfoldable pub last_of : Option (Row P) → List (Row P) → Option (Row P)
  last_of best [] = best
  last_of none (row ∷ rows) = last_of (some row) rows
  last_of (some best) (row ∷ rows) =
      last_of (some (if ltb best.seq row.seq then row else best)) rows

  abbrev pub seq_of : Option (Row P) → ℕ
  seq_of none = 0
  seq_of (some row) = row.seq

  abbrev pub hash_of : Option (Row P) → String
  hash_of none = genesis
  hash_of (some row) = if row.entry_hash == "" then genesis else row.entry_hash

module _ {P : Type 0} (hash : ℕ → String → P → String) where
  -- The loop of `verify_chain`; `total` is `len(rows)`.
  unfoldable pub verify_from : ℕ → String → List (Row P) → Verdict
  verify_from total prev [] = record {
    ok = true;
    checked = total;
    broken_seq = none;
    reason = intact;
  }
  verify_from total prev (row ∷ rows) =
      let rest = verify_from total row.entry_hash rows in
      if not (row.prev_hash == prev)
      then broken row.seq prev_mismatch
      else if not (row.entry_hash == hash row.seq prev row.payload)
      then broken row.seq entry_mismatch
      else rest

  unfoldable pub verify_chain : List (Row P) → Verdict
  unfolding verify_from
  verify_chain rows = verify_from (length rows) genesis rows

-- What a call of `log_action` says, and the columns that keep it: a time in microseconds, and the
-- details as JSON.
pub record Entry : Type 0 where
  pub user_id : Option String
  pub username : String
  pub action : String
  pub resource_type : String
  pub resource_id : String
  pub details : Option String
  pub ip_address : String
  pub created_at : ℕ
  pub session_id : Option String
  pub result : Option String

-- What is hashed; the last two keys are there when they are given.
pub record Payload : Type 0 where
  pub user_id : String
  pub username : String
  pub action : String
  pub resource_type : String
  pub resource_id : String
  pub details : String
  pub ip_address : String
  pub created_at : ℕ
  pub session_id : Option String
  pub result : Option String

abbrev pub second : ℕ
second = 1000000

-- `details or {}`
abbrev pub details_of : Option String → String
details_of details = or_else details "{}"

-- The time is cut to its second.
unfoldable pub audit_payload : Entry → Payload
audit_payload e = record {
  user_id = or_else e.user_id "";
  username = e.username;
  action = e.action;
  resource_type = e.resource_type;
  resource_id = e.resource_id;
  details = details_of e.details;
  ip_address = e.ip_address;
  created_at = e.created_at / second;
  session_id = e.session_id;
  result = e.result;
}

-- A row of the table that has a sequence number.
pub record AuditLog : Type 0 where
  pub columns : Entry
  pub seq : ℕ
  pub prev_hash : String
  pub entry_hash : String

-- What /audit/verify makes of a row: the payload is computed anew from the columns.
unfoldable pub chain_entry : AuditLog → Row Payload
unfolding audit_payload
chain_entry r = record {
  seq = r.seq;
  prev_hash = r.prev_hash;
  entry_hash = r.entry_hash;
  payload = audit_payload r.columns;
}

-- `verify_audit_chain`, on the rows in the order of their sequence numbers.
unfoldable pub verify_audit_chain : (ℕ → String → Payload → String) → List AuditLog → Verdict
unfolding chain_entry verify_chain
verify_audit_chain hash rows = verify_chain hash (map chain_entry rows)

-- `stored_time` is what the column `created_at` of the database keeps of a time.
module _ (hash : ℕ → String → Payload → String) (stored_time : ℕ → ℕ) where
  abbrev pub stored_columns : Entry → Entry
  stored_columns e = record e {
    details = some (details_of e.details);
    created_at = stored_time e.created_at;
  }

  unfoldable pub next_row : Option (Row Payload) → Entry → AuditLog
  unfolding audit_payload
  next_row last e = record {
    columns = stored_columns e;
    seq = seq_of last + 1;
    prev_hash = hash_of last;
    entry_hash = hash (seq_of last + 1) (hash_of last) (audit_payload e);
  }

  -- `log_action`, as far as the table goes; of the last row only its number and hash are read.
  unfoldable pub log_action : List AuditLog → Entry → List AuditLog
  unfolding next_row last_of chain_entry
  log_action rows e = rows ++ next_row (last_of none (map chain_entry rows)) e ∷ []
