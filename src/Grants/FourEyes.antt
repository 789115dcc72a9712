-- ===== src/Grants/FourEyes.antt =====
-- That an authorization which grants something was let pass by somebody else than its requester.
use seyal_run.Prelude.{
  ℕ, String, ◌≡◌, refl, sym, subst, ap, ◌∙◌, ◌≢◌, ◌⊎◌, inl, inr, Bool, true, false, Option, none,
  some, List, ◌==◌, Bool-cases, Option-cases, and_true, Dict, lookup, erase, lookup-insert,
  lookup-erase,
}
use seyal_run.Identity.Authz.{is_overdue, in_window, qualifies}
use seyal_run.Identity.Authz.Sweep.{swept_rule}
use seyal_run.Grants.{Authorization, System, is_pending}
use seyal_run.Grants.Workflow.{
  Step, created, updated, decided_by, deleted, confirmed, swept, Reachable, initial, then_step,
  Phase, waiting, granted, phase_at, Turn, ask, skip, give, refuse, lapse, remove, sweep_rows,
}
use seyal_run.Grants.Workflow.Turns.{IsTidy, IsTurn}
use seyal_run.Grants.Workflow.Refine.{
  create-IsTurn, update-IsTurn, decide-IsTurn, confirm-IsTurn, rows-delete, lookup-sweep_rows,
  step_refines_turn,
}

-- Two people, or a requester who may skip the second.
abbrev pub IsSeenByTwo : (String → Bool) → Option String → Option String → Type 0
IsSeenByTwo may_skip requested approved =
    (r : String) × (b : String) × (requested ≡ some r)
    × (approved ≡ some b)
    × ((r ≢ b) ⊎ (may_skip r ≡ true))

module _ (may_skip : String → Bool) where
  abbrev IsSound : Option Phase → Type 0
  IsSound (some (waiting requested)) = (r : String) × (requested ≡ some r)
  IsSound (some (granted requested approved)) = IsSeenByTwo may_skip requested approved
  IsSound _ = Unit

  turn-IsSound : (x y : Option Phase) → Turn may_skip x y → IsSound x → IsSound y
  turn-IsSound _ _ (ask before a) h = (a, refl)
  turn-IsSound _ _ (skip before a m) h = (a, a, refl, refl, inr m)
  turn-IsSound _ _ (give requested b n) (r, e) = (r, b, e, refl, inl λ same. n (e ∙ ap some same))
  turn-IsSound _ _ (refuse requested b n) h = tt
  turn-IsSound _ _ (lapse before) h = tt
  turn-IsSound _ _ (remove before) h = tt

  Reachable-IsSound :
      (s : System) (id : String) → Reachable may_skip s → IsSound (phase_at id s.rows)
  unfolding phase_at lookup
  Reachable-IsSound _ id initial = tt
  Reachable-IsSound _ id (then_step s t r step) = elim (step_refines_turn may_skip s t id step) [
    | inl e ↦ subst IsSound (sym e) (Reachable-IsSound s id r)
    | inr turn ↦
        turn-IsSound (phase_at id s.rows) (phase_at id t.rows) turn (Reachable-IsSound s id r)
  ]

  abbrev IsTidyAt : Option Authorization → Type 0
  IsTidyAt none = Unit
  IsTidyAt (some a) = IsTidy a

  abbrev AreTidy : Dict Authorization → Type 0
  AreTidy rows = (id : String) → IsTidyAt (lookup id rows)

  turn-AreTidy :
      (s t : System) (id : String) → IsTurn may_skip s t id → AreTidy s.rows → AreTidy t.rows
  turn-AreTidy s t id (a, e, tidy, _) h j = elim (Bool-cases (id == j)) [
    | inl g ↦ rw (e, lookup-insert id j a s.rows, g) tidy
    | inr g ↦ rw (e, lookup-insert id j a s.rows, g) (h j)
  ]

  delete-AreTidy :
      (id : String) (s t : System) → t.rows ≡ erase id s.rows → AreTidy s.rows → AreTidy t.rows
  delete-AreTidy id s t e h j = elim (Bool-cases (id == j)) [
    | inl g ↦ rw (e, lookup-erase id j s.rows, g) tt
    | inr g ↦ rw (e, lookup-erase id j s.rows, g) (h j)
  ]

  swept-IsTidy :
      (now : ℕ) (a : Authorization) → IsTidy a → IsTidy (record a { rule = swept_rule now a.rule })
  swept-IsTidy now a h = elim (Bool-cases (is_overdue now a.rule)) [
    | inl o ↦ rw o (λ x. refl)
    | inr o ↦ rw o h
  ]

  sweep-AreTidy :
      (now : ℕ) (rows : Dict Authorization) → AreTidy rows → AreTidy (sweep_rows now rows)
  sweep-AreTidy now rows h j = elim (Option-cases (lookup j rows)) [
    | inl e ↦ rw (lookup-sweep_rows may_skip now j rows, e) tt
    | inr (a, e) ↦
        rw (lookup-sweep_rows may_skip now j rows, e) (swept-IsTidy now a (subst IsTidyAt e (h j)))
  ]

  step-AreTidy : (s t : System) → Step may_skip s t → AreTidy s.rows → AreTidy t.rows
  step-AreTidy _ _ (created w role actor_id actor_role id p s t fresh may h) =
      turn-AreTidy s t id (create-IsTurn may_skip w role actor_id actor_role id p s t may h)
  step-AreTidy _ _ (updated w role actor_id actor_role id p s t may h) =
      turn-AreTidy s t id (update-IsTurn may_skip w role actor_id actor_role id p s t may h)
  step-AreTidy _ _ (decided_by approve w role actor_id id s t h) =
      turn-AreTidy s t id (decide-IsTurn may_skip approve w role actor_id id s t h)
  step-AreTidy _ _ (deleted role actor_id id s t h) =
      delete-AreTidy id s t (rows-delete may_skip role actor_id id s t h)
  step-AreTidy _ _ (confirmed w raw s t h) =
      let (id, turn) = confirm-IsTurn may_skip w raw s t h in turn-AreTidy s t id turn
  step-AreTidy _ _ (swept now s) = sweep-AreTidy now s.rows

  Reachable-AreTidy : (s : System) → Reachable may_skip s → AreTidy s.rows
  unfolding lookup
  Reachable-AreTidy _ initial = λ j. tt
  Reachable-AreTidy _ (then_step s t r step) = step-AreTidy s t step (Reachable-AreTidy s r)

  -- In every state that the handlers and the sweep reach, in any order of steps, an enabled
  -- authorization names its requester and its approver, and the two differ unless the requester may
  -- skip the approval.
  pub enabled-IsSeenByTwo :
      (s : System) (id : String) (a : Authorization)
      → Reachable may_skip s
      → lookup id s.rows ≡ some a
      → a.rule.enabled ≡ true
      → IsSeenByTwo may_skip a.requested_by a.approved_by
  unfolding phase_at
  enabled-IsSeenByTwo s id a r e on =
      let held : is_pending a ≡ false = subst IsTidyAt e (Reachable-AreTidy s r id) on in
      let view : phase_at id s.rows ≡ some (granted a.requested_by a.approved_by) =
        rw (phase_at, e, held, on) refl in
      subst IsSound view (Reachable-IsSound s id r)

  qualifies-enabled :
      (hosts_in_groups : List String → List String) (now : ℕ) (user : String) (groups : List String)
      (host : String) (a : Authorization)
      → qualifies hosts_in_groups now user groups host a.rule ≡ true
      → a.rule.enabled ≡ true
  unfolding qualifies in_window
  qualifies-enabled hosts_in_groups now user groups host a h = (and_true _ _ (and_true _ _ h).0).0

  -- In every state that the handlers and the sweep reach, an authorization that gives a user
  -- anything on a host in authz_resolve was let pass by somebody else than its requester, unless the
  -- requester may skip the approval.
  pub access-IsSeenByTwo :
      (s : System) (id : String) (a : Authorization) (hosts_in_groups : List String → List String)
      (now : ℕ) (user : String) (groups : List String) (host : String)
      → Reachable may_skip s
      → lookup id s.rows ≡ some a
      → qualifies hosts_in_groups now user groups host a.rule ≡ true
      → IsSeenByTwo may_skip a.requested_by a.approved_by
  access-IsSeenByTwo s id a hosts_in_groups now user groups host r e q =
      enabled-IsSeenByTwo s id a r e (qualifies-enabled hosts_in_groups now user groups host a q)
