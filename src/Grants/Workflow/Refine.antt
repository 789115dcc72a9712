-- ===== src/Grants/Workflow/Refine.antt =====
-- That each handler takes a turn of the abstract workflow.
use seyal_run.Prelude.{
  not-true, ℕ, String, ◌≡◌, refl, sym, subst, ap, ◌≢◌, ◌⊎◌, inl, inr, Bool, true, false, not,
  Option, none, some, [], ◌∷◌, arith, ◌==◌, eq_iff, eq_refl, Bool-cases, Option-cases, Dict, lookup,
  erase, ok, guard-eq-ok, bind-eq-ok, ok-injective,
}
use seyal_run.Identity.Authz.{is_overdue}
use seyal_run.Identity.Authz.Sweep.{swept_rule}
use seyal_run.Grants.{
  Authorization, System, World, Payload, apply, is_admin, actor_of, found, decide, decided,
  delete_authorization, is_exempt, is_pending, is_requester, commit, rule_of, submitted,
}
use seyal_run.Grants.Mail.{
  create_authorization, update_authorization, confirm, submit, approves, validate_email_token,
}
use seyal_run.Grants.Links.{validated}
use seyal_run.Grants.Workflow.{
  Step, created, updated, decided_by, deleted, confirmed, swept, Phase, phase_of, phase_at, Turn,
  ask, skip, give, refuse, lapse, remove, sweep_rows,
}
use seyal_run.Grants.Workflow.Turns.{
  IsPut, phase_at-insert, phase_at-erase, rows-submit, apply-ok, actor-ok, found-ok, IsTidy,
  submitted-IsTidy, decided-IsTidy, IsTurn,
}

module _ (may_skip : String → Bool) where
  submitted-turn :
      (w : World) (p : Payload) (actor : String) (exempt : Bool) (before : Option Phase)
      → (exempt ≡ true → may_skip actor ≡ true)
      → Turn may_skip before (some (phase_of (submitted w p actor exempt)))
  unfolding rule_of
  submitted-turn w p actor true before h = skip before actor (h refl)
  submitted-turn w p actor false before h = ask before actor

  applied-IsTurn :
      (w : World) (p : Payload) (action actor id : String) (actor_role : Option String)
      (a : Authorization) (s t : System)
      → (is_exempt w actor_role ≡ true → may_skip actor ≡ true)
      → apply w p actor actor_role ≡ ok a
      → submit w action actor id a s ≡ t
      → IsTurn may_skip s t id
  applied-IsTurn w p action actor id actor_role a s t h ea et = (
    a,
    subst (λ t. IsPut s t id a) et (rows-submit w action actor id a s),
    subst IsTidy (apply-ok w p actor actor_role a ea)
        (submitted-IsTidy w p actor (is_exempt w actor_role)),
    subst (λ a. Turn may_skip (phase_at id s.rows) (some (phase_of a)))
        (apply-ok w p actor actor_role a ea)
        (submitted-turn w p actor (is_exempt w actor_role) (phase_at id s.rows) h),
  )

  pub create-IsTurn :
      (w : World) (role : String) (actor_id actor_role : Option String) (id : String) (p : Payload)
      (s t : System)
      → ((a : String) → actor_id ≡ some a → is_exempt w actor_role ≡ true → may_skip a ≡ true)
      → create_authorization w role actor_id actor_role id p s ≡ ok t
      → IsTurn may_skip s t id
  unfolding create_authorization
  create-IsTurn w role actor_id actor_role id p s t may h =
      let (_, h1) = guard-eq-ok (is_admin role) 403 _ h in
      let (actor, ea, h2) = bind-eq-ok (actor_of actor_id) _ h1 in
      let (a, eb, h3) = bind-eq-ok (apply w p actor actor_role) _ h2 in
      applied-IsTurn w p "authorization.create" actor id actor_role a s t
        (may actor (actor-ok actor_id actor ea)) eb (ok-injective h3)

  pub update-IsTurn :
      (w : World) (role : String) (actor_id actor_role : Option String) (id : String) (p : Payload)
      (s t : System)
      → ((a : String) → actor_id ≡ some a → is_exempt w actor_role ≡ true → may_skip a ≡ true)
      → update_authorization w role actor_id actor_role id p s ≡ ok t
      → IsTurn may_skip s t id
  unfolding update_authorization
  update-IsTurn w role actor_id actor_role id p s t may h =
      let (_, h1) = guard-eq-ok (is_admin role) 403 _ h in
      let (actor, ea, h2) = bind-eq-ok (actor_of actor_id) _ h1 in
      let (old, eo, h3) = bind-eq-ok (found (lookup id s.rows)) _ h2 in
      let (a, eb, h4) = bind-eq-ok (apply w p actor actor_role) _ h3 in
      applied-IsTurn w p "authorization.update" actor id actor_role a s t
        (may actor (actor-ok actor_id actor ea)) eb (ok-injective h4)

  not_requester :
      (b : String) (a : Authorization) → is_requester b a ≡ false → a.requested_by ≢ some b
  not_requester b a h e = ground (arith, eq_refl b)

  decided-turn :
      (now : ℕ) (approve : Bool) (b id : String) (a : Authorization) (rows : Dict Authorization)
      → lookup id rows ≡ some a
      → is_pending a ≡ true
      → is_requester b a ≡ false
      → Turn may_skip (phase_at id rows) (some (phase_of (decided now approve b a)))
  unfolding phase_at
  decided-turn now true b id a rows e p n =
      rw (phase_at, e, p) (give a.requested_by b (not_requester b a n))
  decided-turn now false b id a rows e p n =
      rw (phase_at, e, p) (refuse a.requested_by b (not_requester b a n))

  pub decide-IsTurn :
      (approve : Bool) (w : World) (role : String) (actor_id : Option String) (id : String)
      (s t : System)
      → decide approve w role actor_id id s ≡ ok t
      → IsTurn may_skip s t id
  unfolding decide commit
  decide-IsTurn approve w role actor_id id s t h =
      let (_, h1) = guard-eq-ok (is_admin role) 403 _ h in
      let (b, _, h2) = bind-eq-ok (actor_of actor_id) _ h1 in
      let (a, ea, h3) = bind-eq-ok (found (lookup id s.rows)) _ h2 in
      let (p, h4) = guard-eq-ok (is_pending a) 400 _ h3 in
      let (n, h5) = guard-eq-ok (not (is_requester b a)) 403 _ h4 in
      (
        decided w.now approve b a,
        ap (λ t. t.rows) (sym (ok-injective h5)),
        decided-IsTidy w.now approve b a,
        decided-turn w.now approve b id a s.rows (found-ok _ a ea) p (not-true _ n),
      )

  pub confirm-IsTurn :
      (w : World) (raw : String) (s t : System)
      → confirm w raw s ≡ ok t
      → (id : String) × IsTurn may_skip s t id
  unfolding confirm
  confirm-IsTurn w raw s t h =
      let ((tok, a, u), v, h1) = bind-eq-ok (validate_email_token w raw s) _ h in
      let live = validated w raw s (tok, a, u) v in
      (
        tok.authorization_id,
        (
          decided w.now (approves tok) u.id a,
          ap (λ t. t.rows) (sym (ok-injective h1)),
          decided-IsTidy w.now (approves tok) u.id a,
          decided-turn w.now (approves tok) u.id tok.authorization_id a s.rows live.is_row
              live.waits live.is_other,
        ),
      )

  -- The view of one authorization after a step: as before, or one turn later.
  abbrev IsOneTurn : System → System → String → Type 0
  IsOneTurn s t j =
      (phase_at j t.rows ≡ phase_at j s.rows)
      ⊎ Turn may_skip (phase_at j s.rows) (phase_at j t.rows)

  turn-simulates : (s t : System) (id j : String) → IsTurn may_skip s t id → IsOneTurn s t j
  turn-simulates s t id j (a, e, _, turn) = elim (Bool-cases (id == j)) [
    | inl g ↦
        let same : id ≡ j = ground (arith, eq_iff id j) in
        rw (e, phase_at-insert id j a s.rows, g)
          (inr (subst (λ k. Turn may_skip (phase_at k s.rows) (some (phase_of a))) same turn))
    | inr g ↦ rw (e, phase_at-insert id j a s.rows, g) (inl refl)
  ]

  pub rows-delete :
      (role : String) (actor_id : Option String) (id : String) (s t : System)
      → delete_authorization role actor_id id s ≡ ok t
      → t.rows ≡ erase id s.rows
  unfolding delete_authorization
  rows-delete role actor_id id s t h =
      let (_, h1) = guard-eq-ok (is_admin role) 403 _ h in
      let (_, _, h2) = bind-eq-ok (found (lookup id s.rows)) _ h1 in
      ap (λ t. t.rows) (sym (ok-injective h2))

  delete-simulates :
      (role : String) (actor_id : Option String) (id j : String) (s t : System)
      → delete_authorization role actor_id id s ≡ ok t
      → IsOneTurn s t j
  delete-simulates role actor_id id j s t h =
      let e = rows-delete role actor_id id s t h in
      elim (Bool-cases (id == j)) [
        | inl g ↦ rw (e, phase_at-erase id j s.rows, g) (inr (remove (phase_at j s.rows)))
        | inr g ↦ rw (e, phase_at-erase id j s.rows, g) (inl refl)
      ]

  pub lookup-sweep_rows :
      (now : ℕ) (j : String) (rows : Dict Authorization)
      → lookup j (sweep_rows now rows) ≡ elim (lookup j rows) [
        | none ↦ none
        | some a ↦ some (record a { rule = swept_rule now a.rule })
      ]
  unfolding sweep_rows lookup
  lookup-sweep_rows now j [] = refl
  lookup-sweep_rows now j ((i, a) ∷ rows) = elim (Bool-cases (i == j)) [
    | inl e ↦ rw e refl
    | inr e ↦ rw e (lookup-sweep_rows now j rows)
  ]

  sweep-simulates :
      (now : ℕ) (s : System) (j : String)
      → IsOneTurn s (record s { rows = sweep_rows now s.rows }) j
  unfolding phase_at
  sweep-simulates now s j = elim (Option-cases (lookup j s.rows)) [
    | inl e ↦ rw (phase_at, lookup-sweep_rows now j s.rows, e) (inl refl)
    | inr (a, e) ↦ elim (Bool-cases (is_overdue now a.rule)) [
      | inl o ↦ rw (phase_at, lookup-sweep_rows now j s.rows, e, o) (inr (lapse (phase_of a)))
      | inr o ↦ rw (phase_at, lookup-sweep_rows now j s.rows, e, o) (inl refl)
    ]
  ]

  pub step_refines_turn :
      (s t : System) (j : String)
      → Step may_skip s t
      → (phase_at j t.rows ≡ phase_at j s.rows)
        ⊎ Turn may_skip (phase_at j s.rows) (phase_at j t.rows)
  step_refines_turn _ _ j (created w role actor_id actor_role id p s t fresh may h) =
      turn-simulates s t id j (create-IsTurn w role actor_id actor_role id p s t may h)
  step_refines_turn _ _ j (updated w role actor_id actor_role id p s t may h) =
      turn-simulates s t id j (update-IsTurn w role actor_id actor_role id p s t may h)
  step_refines_turn _ _ j (decided_by approve w role actor_id id s t h) =
      turn-simulates s t id j (decide-IsTurn approve w role actor_id id s t h)
  step_refines_turn _ _ j (deleted role actor_id id s t h) =
      delete-simulates role actor_id id j s t h
  step_refines_turn _ _ j (confirmed w raw s t h) =
      let (id, turn) = confirm-IsTurn w raw s t h in turn-simulates s t id j turn
  step_refines_turn _ _ j (swept now s) = sweep-simulates now s j
