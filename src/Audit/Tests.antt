-- ===== src/Audit/Tests.antt =====
-- Runs of the audit chain with a hash that tells three payloads apart.
use seyal_run.Prelude.{
  ℕ, String, ◌≡◌, refl, inl, inr, true, false, [], ◌∷◌, ◌==◌, if◌then◌else◌, Bool-cases, ◌*◌, ◌/◌,
  List, some, none, arith,
}
use seyal_run.Audit.{
  Row, entry_mismatch, genesis, broken, verify_chain, Entry, Payload, second, verify_audit_chain,
}
use seyal_run.Audit.Chain.{written, verify_chain-written, altered_row_found}

abbrev marked : ℕ → String → String → String
marked n prev p = if p == "login" then "hlogin" else if p == "grant" then "hgrant" else "hlogout"

marked-non_empty : (n : ℕ) (prev p : String) → (marked n prev p == "") ≡ false
marked-non_empty n prev p = elim (Bool-cases (p == "login")) [
  | inl e ↦ rw (e) refl
  | inr e ↦ elim (Bool-cases (p == "grant")) [ inl f ↦ rw (e, f) refl | inr f ↦ rw (e, f) refl ]
]

abbrev row1 : Row String
row1 = record { seq = 1; prev_hash = genesis; entry_hash = "hlogin"; payload = "login" }

abbrev row2 : Row String
row2 = record { seq = 2; prev_hash = "hlogin"; entry_hash = "hgrant"; payload = "grant" }

abbrev row3 : Row String
row3 = record { seq = 3; prev_hash = "hgrant"; entry_hash = "hlogout"; payload = "logout" }

abbrev entry : String → ℕ → Entry
entry action at = record {
  user_id = some "u1";
  username = "ann";
  action = action;
  resource_type = "";
  resource_id = "";
  details = none;
  ip_address = "10.0.0.1";
  created_at = at;
  session_id = none;
  result = some "success";
}

abbrev entries : List Entry
entries = entry "login" 1000250 ∷ entry "grant" 2700000 ∷ entry "logout" 9000000 ∷ []

abbrev by_action : ℕ → String → Payload → String
by_action n prev p = marked n prev p.action

-- A column that keeps milliseconds only.
abbrev milliseconds : ℕ → ℕ
milliseconds t = t / 1000 * 1000

milliseconds-second : (t : ℕ) → milliseconds t / second ≡ t / second
milliseconds-second t = omega arith

verify_chain-written_example :
    (verify_audit_chain by_action (written by_action milliseconds [] entries)).ok ≡ true
verify_chain-written_example =
    verify_chain-written by_action milliseconds (λ n prev p. marked-non_empty n prev p.action)
      milliseconds-second entries

altered_row_found_example :
    verify_chain marked (row1 ∷ record row2 { payload = "nothing" } ∷ row3 ∷ [])
    ≡ broken 2 entry_mismatch
altered_row_found_example =
    altered_row_found marked "nothing" (row1 ∷ []) (row3 ∷ []) row2
      (refl, refl, refl, refl, (refl, refl, refl, refl, (refl, refl, refl, refl, tt))) refl
