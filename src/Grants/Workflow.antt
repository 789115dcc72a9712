-- ===== src/Grants/Workflow.antt =====
-- The handlers of authorizations.py and the sweep of housekeeping as steps of one system, and what
-- they promise: the phases of an authorization and the turns that they may take.
pub mod Turns
pub mod Refine
use seyal_run.Prelude.{
  ℕ, zero, suc, ◌+◌, ◌-◌, ◌*◌, ◌/◌, ◌≤◌, ◌<◌, min, max, String, ◌≡◌, refl, sym, subst, ap, fun_ext,
  ◌∙◌, ◌≢◌, ◌↔◌, ◌⊎◌, inl, inr, Bool, true, false, not, ◌&&◌, ◌||◌, false≢true, Option, none, some,
  List, [], ◌∷◌, ◌++◌, map, arith, ◌==◌, eq_iff, eq_refl, ltb, leb, eqb, if◌then◌else◌, ltb→lt,
  leb→le, Bool-cases, Option-cases, is_some, or_else, and_true, or_true, length, drop, any, all,
  keep, null, length-append, length-drop, any-append, All, All-keep, any_mono, mem, after_prefix,
  strip, lower_is, first_segment, ends_with, strip_slashes, codes, upper_code, mem-append,
  mem-cons_self, keep_nil, all_of_mem, mem-keep, any_of_mem, Dict, lookup, insert, erase, keys,
  lookup-insert, lookup-erase, dict_laws, All-insert, Result, ok, err, ◌>>=◌, ◌>>◌, guard,
  guard-eq-ok, bind-eq-ok, Result-cases,
}
use seyal_run.Identity.Authz.Sweep.{swept_rule}
use seyal_run.Grants.{
  Authorization, System, World, Payload, decide, delete_authorization, is_exempt, is_pending,
}
use seyal_run.Grants.Mail.{LinkError, create_authorization, update_authorization, confirm}

-- The sweep of internal.py on the rows of the table.
unfoldable pub sweep_rows : ℕ → Dict Authorization → Dict Authorization
sweep_rows now [] = []
sweep_rows now ((id, a) ∷ rows) =
    (id, record a { rule = swept_rule now a.rule }) ∷ sweep_rows now rows

-- `may_skip` names the users whose own request may go without a second person: a step that finds
-- the actor's role among the exempt roles is one of theirs.
pub data Step (may_skip : String → Bool) : System → System → Type 0 where
  created :
      (w : World) (role : String) (actor_id actor_role : Option String) (id : String) (p : Payload)
      (s t : System)
      → lookup id s.rows ≡ none
      → ((a : String) → actor_id ≡ some a → is_exempt w actor_role ≡ true → may_skip a ≡ true)
      → create_authorization w role actor_id actor_role id p s ≡ ok t
      → Step may_skip s t
  updated :
      (w : World) (role : String) (actor_id actor_role : Option String) (id : String) (p : Payload)
      (s t : System)
      → ((a : String) → actor_id ≡ some a → is_exempt w actor_role ≡ true → may_skip a ≡ true)
      → update_authorization w role actor_id actor_role id p s ≡ ok t
      → Step may_skip s t
  decided_by :
      (approve : Bool) (w : World) (role : String) (actor_id : Option String) (id : String)
      (s t : System)
      → decide approve w role actor_id id s ≡ ok t
      → Step may_skip s t
  deleted :
      (role : String) (actor_id : Option String) (id : String) (s t : System)
      → delete_authorization role actor_id id s ≡ ok t
      → Step may_skip s t
  confirmed : (w : World) (raw : String) (s t : System) → confirm w raw s ≡ ok t → Step may_skip s t
  swept : (now : ℕ) (s : System) → Step may_skip s (record s { rows = sweep_rows now s.rows })

-- What a sequence of steps can reach from empty tables.
pub data Reachable (may_skip : String → Bool) : System → Type 0 where
  initial : Reachable may_skip (record { rows = []; tokens = []; log = [] })
  then_step : (s t : System) → Reachable may_skip s → Step may_skip s t → Reachable may_skip t

-- The abstract view of an authorization: who asked for it, and who let it pass.
pub data Phase : Type 0 where
  waiting : Option String → Phase
  granted : Option String → Option String → Phase
  closed : Phase

abbrev pub phase_of : Authorization → Phase
phase_of a =
    if is_pending a
    then waiting a.requested_by
    else if a.rule.enabled
    then granted a.requested_by a.approved_by
    else closed

unfoldable pub phase_at : String → Dict Authorization → Option Phase
unfolding lookup
phase_at id rows = elim (lookup id rows) [ none ↦ none | some a ↦ some (phase_of a) ]

-- The turns that the workflow promises.
pub data Turn (may_skip : String → Bool) : Option Phase → Option Phase → Type 0 where
  ask : (before : Option Phase) (a : String) → Turn may_skip before (some (waiting (some a)))
  skip :
      (before : Option Phase) (a : String)
      → may_skip a ≡ true
      → Turn may_skip before (some (granted (some a) (some a)))
  give :
      (r : Option String) (b : String)
      → r ≢ some b
      → Turn may_skip (some (waiting r)) (some (granted r (some b)))
  refuse :
      (r : Option String) (b : String) → r ≢ some b → Turn may_skip (some (waiting r)) (some closed)
  lapse : (before : Phase) → Turn may_skip (some before) (some closed)
  remove : (before : Option Phase) → Turn may_skip before none
