-- ===== src/Audit/Chain.antt =====
-- The chain that `log_action` writes verifies, and a row that was altered does not.
use seyal_run.Prelude.{
  [], ℕ, ◌+◌, String, ◌≡◌, refl, sym, subst, true, false, Option, none, some, List, ◌∷◌, ◌++◌,
  arith, ◌==◌, eq_iff, length, map, ◌∙◌, ◌/◌,
}
use seyal_run.Audit.{
  Row, entry_mismatch, genesis, broken, verify_from, verify_chain, last_of, seq_of, hash_of,
  next_row, log_action, Payload, Entry, AuditLog, second, audit_payload, chain_entry,
  stored_columns, verify_audit_chain,
}

module _ {P : Type 0} (hash : ℕ → String → P → String) where
  -- The row that is linked to the last one.
  abbrev pub linked_row : Option (Row P) → P → Row P
  linked_row last p = record {
    seq = seq_of last + 1;
    prev_hash = hash_of last;
    entry_hash = hash (seq_of last + 1) (hash_of last) p;
    payload = p;
  }

  -- A chain whose links fit, from the hash `prev` and the sequence number `seq` on; hashes are
  -- not empty.
  abbrev pub IsLinked : ℕ → String → List (Row P) → Type 0
  IsLinked seq prev [] = Unit
  IsLinked seq prev (row ∷ rows) =
      (row.seq ≡ seq + 1)
      × (row.prev_hash ≡ prev)
      × (row.entry_hash ≡ hash row.seq prev row.payload)
      × ((row.entry_hash == "") ≡ false)
      × IsLinked row.seq row.entry_hash rows

  verify-IsLinked :
      (total seq : ℕ) (prev : String) (rows : List (Row P))
      → IsLinked seq prev rows
      → (verify_from hash total prev rows).ok ≡ true
  unfolding verify_from
  verify-IsLinked total seq prev [] h = refl
  verify-IsLinked total seq prev (row ∷ rows) h = ground (
    arith,
    eq_iff row.prev_hash prev,
    eq_iff row.entry_hash (hash row.seq prev row.payload),
    verify-IsLinked total row.seq row.entry_hash rows,
  )

  last_of_later :
      (b row : Row P) (rows : List (Row P))
      → row.seq ≡ b.seq + 1
      → last_of (some b) (row ∷ rows) ≡ last_of (some row) rows
  unfolding last_of
  last_of_later b row rows e = ground arith

  abbrev appended : Option (Row P) → List (Row P) → P → List (Row P)
  appended best rows p = rows ++ linked_row (last_of best rows) p ∷ []

  -- A non-empty hash of a row is what the next row is linked to.
  IsLinked-after :
      (row : Row P) (rows : List (Row P)) (p : P)
      → (IsLinked row.seq (hash_of (some row)) rows
          → IsLinked row.seq (hash_of (some row)) (appended (some row) rows p))
      → (row.entry_hash == "") ≡ false
      → IsLinked row.seq row.entry_hash rows
      → IsLinked row.seq row.entry_hash (appended (some row) rows p)
  IsLinked-after row rows p ih n h =
      let e : hash_of (some row) ≡ row.entry_hash = rw n in
      subst (λ z. IsLinked row.seq z (appended (some row) rows p)) e
        (ih (subst (λ z. IsLinked row.seq z rows) (sym e) h))

  module _ (non_empty : (n : ℕ) (prev : String) (p : P) → (hash n prev p == "") ≡ false) where
    -- One append keeps the links, whatever was the greatest sequence number before `rows`.
    append-IsLinked :
        (best : Option (Row P)) (rows : List (Row P)) (p : P)
        → IsLinked (seq_of best) (hash_of best) rows
        → IsLinked (seq_of best) (hash_of best) (appended best rows p)
    unfolding last_of
    append-IsLinked none [] p h = (refl, refl, refl, non_empty 1 genesis p, tt)
    append-IsLinked (some b) [] p h =
        (refl, refl, refl, non_empty (b.seq + 1) (hash_of (some b)) p, tt)
    append-IsLinked none (row ∷ rows) p (s, q, e, n, h) =
        (s, q, e, n, IsLinked-after row rows p (append-IsLinked (some row) rows p) n h)
    append-IsLinked (some b) (row ∷ rows) p (s, q, e, n, h) = (
      s,
      q,
      e,
      n,
      subst (λ r. IsLinked row.seq row.entry_hash (rows ++ linked_row r p ∷ []))
          (sym (last_of_later b row rows s))
          (IsLinked-after row rows p (append-IsLinked (some row) rows p) n h),
    )

  altered_from :
      (total seq : ℕ) (prev : String) (p : P) (before after : List (Row P)) (row : Row P)
      → IsLinked seq prev (before ++ row ∷ after)
      → (row.entry_hash == hash row.seq row.prev_hash p) ≡ false
      → verify_from hash total prev (before ++ record row { payload = p } ∷ after)
        ≡ broken row.seq entry_mismatch
  unfolding verify_from
  altered_from total seq prev p [] after row h d = ground (arith, eq_iff row.prev_hash prev)
  altered_from total seq prev p (b ∷ before) after row h d = ground (
    arith,
    eq_iff b.prev_hash prev,
    eq_iff b.entry_hash (hash b.seq prev b.payload),
    altered_from total b.seq b.entry_hash p before after row,
  )

  -- A row of a linked table whose payload was changed to one with another hash is reported by its
  -- sequence number.
  pub altered_row_found :
      (p : P) (before after : List (Row P)) (row : Row P)
      → IsLinked 0 genesis (before ++ row ∷ after)
      → (row.entry_hash == hash row.seq row.prev_hash p) ≡ false
      → verify_chain hash (before ++ record row { payload = p } ∷ after)
        ≡ broken row.seq entry_mismatch
  unfolding verify_chain
  altered_row_found p before after row h d = altered_from _ 0 genesis p before after row h d

  IsLinked-prefix :
      (seq : ℕ) (prev : String) (before after : List (Row P))
      → IsLinked seq prev (before ++ after)
      → IsLinked seq prev before
  IsLinked-prefix seq prev [] after h = tt
  IsLinked-prefix seq prev (b ∷ before) after (s, q, e, n, h) =
      (s, q, e, n, IsLinked-prefix b.seq b.entry_hash before after h)

  -- A linked table that was cut short, at any row, still verifies.
  pub truncation_passes :
      (before after : List (Row P))
      → IsLinked 0 genesis (before ++ after)
      → (verify_chain hash before).ok ≡ true
  unfolding verify_chain
  truncation_passes before after h =
      verify-IsLinked (length before) 0 genesis before (IsLinked-prefix 0 genesis before after h)

module _ (hash : ℕ → String → Payload → String) (stored_time : ℕ → ℕ) where
  -- The table after a list of calls.
  abbrev pub written : List AuditLog → List Entry → List AuditLog
  written rows [] = rows
  written rows (e ∷ es) = written (log_action hash stored_time rows e) es

-- The table of log_action, as /audit/verify reads it. The column for the time keeps its second at
-- least.
module _ (hash : ℕ → String → Payload → String) (stored_time : ℕ → ℕ)
    (non_empty : (n : ℕ) (prev : String) (p : Payload) → (hash n prev p == "") ≡ false)
    (keeps_second : (t : ℕ) → stored_time t / second ≡ t / second) where
  -- The payload that is computed anew from the columns is the one that was hashed.
  payload-stored : (e : Entry) → audit_payload (stored_columns hash stored_time e) ≡ audit_payload e
  unfolding audit_payload
  payload-stored e = rw (audit_payload, keeps_second e.created_at) refl

  map-append :
      (rows : List AuditLog) (row : AuditLog)
      → map chain_entry (rows ++ row ∷ []) ≡ map chain_entry rows ++ chain_entry row ∷ []
  map-append [] row = refl
  map-append (r ∷ rows) row = rw (map-append rows row) refl

  log_action-links :
      (rows : List AuditLog) (e : Entry)
      → map chain_entry (log_action hash stored_time rows e)
        ≡ map chain_entry rows
          ++ linked_row hash (last_of none (map chain_entry rows)) (audit_payload e) ∷ []
  unfolding log_action next_row chain_entry
  log_action-links rows e =
      map-append rows (next_row hash stored_time (last_of none (map chain_entry rows)) e)
      ∙ rw (next_row, chain_entry, payload-stored e) refl

  written-IsLinked :
      (rows : List AuditLog) (es : List Entry)
      → IsLinked hash 0 genesis (map chain_entry rows)
      → IsLinked hash 0 genesis (map chain_entry (written hash stored_time rows es))
  written-IsLinked rows [] h = h
  written-IsLinked rows (e ∷ es) h = written-IsLinked (log_action hash stored_time rows e) es (
      subst (IsLinked hash 0 genesis) (sym (log_action-links rows e))
        (append-IsLinked hash non_empty none (map chain_entry rows) (audit_payload e) h))

  -- Whatever is logged, the table that log_action writes from empty verifies at /audit/verify,
  -- which computes the payloads anew from the columns, provided that hashes are not empty and that
  -- the database keeps the second of a time.
  pub verify_chain-written :
      (es : List Entry) → (verify_audit_chain hash (written hash stored_time [] es)).ok ≡ true
  unfolding verify_audit_chain verify_chain
  verify_chain-written es =
      let rows = map chain_entry (written hash stored_time [] es) in
      verify-IsLinked hash (length rows) 0 genesis rows (written-IsLinked [] es tt)
