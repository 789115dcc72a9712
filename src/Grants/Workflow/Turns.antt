-- ===== src/Grants/Workflow/Turns.antt =====
-- What a handler writes, read as a turn of the abstract workflow.
use seyal_run.Prelude.{
  ℕ, String, ◌≡◌, refl, inl, inr, Bool, true, false, Option, none, some, arith, ◌==◌, if◌then◌else◌,
  Bool-cases, Dict, insert, erase, lookup-insert, lookup-erase, ok, guard-eq-ok, ok-injective,
}
use seyal_run.Grants.{
  Authorization, System, World, Payload, apply, actor_of, found, decided, is_exempt, is_pending,
  commit, rule_of, submitted, has_subject, has_object,
}
use seyal_run.Grants.Mail.{submit, send_approval_request_emails}
use seyal_run.Grants.Workflow.{waiting, granted, phase_of, phase_at, Turn}

-- The row that a handler writes, and nothing else.
abbrev pub IsPut : System → System → String → Authorization → Type 0
IsPut s t id a = t.rows ≡ insert id a s.rows

pub phase_at-insert :
    (id j : String) (a : Authorization) (rows : Dict Authorization)
    → phase_at j (insert id a rows) ≡ (if id == j then some (phase_of a) else phase_at j rows)
unfolding phase_at
phase_at-insert id j a rows = elim (Bool-cases (id == j)) [
  | inl e ↦ rw (phase_at, lookup-insert id j a rows, e) refl
  | inr e ↦ rw (phase_at, lookup-insert id j a rows, e) refl
]

pub phase_at-erase :
    (id j : String) (rows : Dict Authorization)
    → phase_at j (erase id rows) ≡ (if id == j then none else phase_at j rows)
unfolding phase_at
phase_at-erase id j rows = elim (Bool-cases (id == j)) [
  | inl e ↦ rw (phase_at, lookup-erase id j rows, e) refl
  | inr e ↦ rw (phase_at, lookup-erase id j rows, e) refl
]

pub rows-submit :
    (w : World) (action actor id : String) (a : Authorization) (s : System)
    → IsPut s (submit w action actor id a s) id a
unfolding submit commit send_approval_request_emails
rows-submit w action actor id a s = ground arith

-- What an accepted payload leaves in a row.
pub apply-ok :
    (w : World) (p : Payload) (actor : String) (role : Option String) (a : Authorization)
    → apply w p actor role ≡ ok a
    → submitted w p actor (is_exempt w role) ≡ a
unfolding apply
apply-ok w p actor role a h =
    let (_, h1) = guard-eq-ok (has_subject p) 400 _ h in
    let (_, h2) = guard-eq-ok (has_object p) 400 _ h1 in ok-injective h2

pub submitted-phase :
    (w : World) (p : Payload) (actor : String) (exempt : Bool)
    → phase_of (submitted w p actor exempt)
      ≡ (if exempt then granted (some actor) (some actor) else waiting (some actor))
unfolding rule_of
submitted-phase w p actor true = refl
submitted-phase w p actor false = refl

pub actor-ok :
    (actor_id : Option String) (a : String) → actor_of actor_id ≡ ok a → actor_id ≡ some a
actor-ok none a h = cc
actor-ok (some b) a h = ground arith

pub found-ok : (o : Option Authorization) (a : Authorization) → found o ≡ ok a → o ≡ some a
found-ok none a h = cc
found-ok (some b) a h = cc

-- No row is enabled while it waits.
abbrev pub IsTidy : Authorization → Type 0
IsTidy a = a.rule.enabled ≡ true → is_pending a ≡ false

pub submitted-IsTidy :
    (w : World) (p : Payload) (actor : String) (exempt : Bool) → IsTidy (submitted w p actor exempt)
unfolding rule_of
submitted-IsTidy w p actor true h = refl
submitted-IsTidy w p actor false h = cc

pub decided-IsTidy :
    (now : ℕ) (approve : Bool) (b : String) (a : Authorization) → IsTidy (decided now approve b a)
decided-IsTidy now true b a h = refl
decided-IsTidy now false b a h = cc

-- A handler writes one row, by one turn.
abbrev pub IsTurn : (String → Bool) → System → System → String → Type 0
IsTurn may_skip s t id =
    (a : Authorization) × IsPut s t id a
    × IsTidy a
    × Turn may_skip (phase_at id s.rows) (some (phase_of a))
