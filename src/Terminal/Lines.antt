-- ===== src/Terminal/Lines.antt =====
-- The lines that the shell enters, against what the filters of the session say of them.
use Prim.Native.Char.{Char, code}
use seyal_run.Prelude.{
  String, ◌≡◌, refl, sym, subst, inl, inr, Bool, true, false, List, [], ◌∷◌, ◌==◌, Bool-cases, All,
  mem, append, eq_iff, mem-append,
}
use seyal_run.Terminal.Tty.{
  Shell, feed, body, is_newline, has_newline, is_typed, feed_plain, feed_entered, feed_kill,
  append_assoc, entered_split,
}
use seyal_run.Terminal.{Host, Policy, command_of, judge, typed_line, handle_input}

-- A message, the policy at its time and the answer to its confirmation.
pub record Turn : Type 0 where
  pub policy : Policy
  pub answer : Bool
  pub text : String

-- The policy and the answer stop the line, whichever newline enters it.
abbrev pub Denies : Host → String → Turn → Type 0
Denies h ln t =
    (c : Char)
    → is_newline (code c) ≡ true
    → (judge h t.policy t.answer (command_of h (append ln (String.◌∷◌ c "")))).0 ≡ false

abbrev pub Quiet : Host → String → Turn → Type 0
Quiet h ln t = (is_typed t.text ≡ true) × Denies h ln t

-- A line that is let on is not the one that is denied.
other_line :
    (h : Host) (ln : String) (t : Turn) (buf : String)
    → Quiet h ln t
    → has_newline t.text ≡ true
    → (judge h t.policy t.answer (command_of h (append buf t.text))).0 ≡ true
    → (ln == append buf (body t.text)) ≡ false
other_line h ln t buf q k j = elim (Bool-cases (ln == append buf (body t.text))) [
  | inl e ↦
      let s = entered_split t.text q.0 k in
      let w : append ln (String.◌∷◌ s.0 "") ≡ append buf t.text =
        rw
          (
            (eq_iff ln (append buf (body t.text))).0 e,
            append_assoc buf (body t.text) (String.◌∷◌ s.0 ""),
            s.2,
          )
          refl in
      let d = q.1 s.0 s.1 in
      let d2 : (judge h t.policy t.answer (command_of h (append buf t.text))).0 ≡ false =
        subst (λ x. (judge h t.policy t.answer (command_of h x)).0 ≡ false) w d in
      cc
  | inr e ↦ e
]

module _ (shell : Shell) (h : Host) where
  open shell use {State, line, entered}

  -- The buffer of the service and the state of the shell.
  abbrev pub View : Type 0
  View = String × State

  unfoldable pub turn : Turn → View → View
  turn t (buf, st) =
      let r = handle_input h t.policy t.answer buf t.text in (r.cmd_buf, feed shell r.written st)

  unfoldable pub session : List Turn → View → View
  session [] v = v
  session (t ∷ ts) v = session ts (turn t v)

  -- Both sides hold the same line, and the shell did not enter `ln`.
  abbrev pub Agrees : String → View → Type 0
  Agrees ln v = (v.0 ≡ line v.1) × (mem ln (entered v.1) ≡ false)

  abbrev Handles : String → Turn → String → State → Type 0
  Handles ln t buf st =
      let r = typed_line h t.policy t.answer (append buf t.text) t.text in
      Agrees ln (r.cmd_buf, feed shell r.written st)

  entered-Agrees :
      (ln : String) (t : Turn) (buf : String) (st : State)
      → Quiet h ln t
      → Agrees ln (buf, st)
      → has_newline t.text ≡ true
      → Handles ln t buf st
  unfolding typed_line mem
  entered-Agrees ln t buf st q (same, m) k =
      elim (Bool-cases (judge h t.policy t.answer (command_of h (append buf t.text))).0) [
        | inl e ↦
            let (a, b) = feed_entered shell t.text st q.0 k in
            rw
              (
                k,
                e,
                a,
                b,
                sym same,
                mem-append ln (entered st) (append buf (body t.text) ∷ []),
                m,
                other_line h ln t buf q k e,
              )
              (refl, refl)
        | inr e ↦ let (a, b) = feed_kill shell st in rw (k, e, a, b) (refl, m)
      ]

  plain-Agrees :
      (ln : String) (t : Turn) (buf : String) (st : State)
      → Quiet h ln t
      → Agrees ln (buf, st)
      → has_newline t.text ≡ false
      → Handles ln t buf st
  unfolding typed_line
  plain-Agrees ln t buf st q (same, m) k =
      let (a, b) = feed_plain shell t.text st q.0 k in rw (k, a, b, same) (refl, m)

  turn-Agrees :
      (ln : String) (t : Turn) (v : View) → Quiet h ln t → Agrees ln v → Agrees ln (turn t v)
  unfolding turn handle_input
  turn-Agrees ln t (buf, st) q a = elim (Bool-cases (t.text == "")) [
    | inl e ↦ rw e a
    | inr e ↦ elim (Bool-cases (has_newline t.text)) [
      | inl k ↦ rw e (entered-Agrees ln t buf st q a k)
      | inr k ↦ rw e (plain-Agrees ln t buf st q a k)
    ]
  ]

  -- In a session whose input is printed characters and a newline at the end of a message, a line
  -- that the policy denies at each message is never entered in the shell, and the buffer of the
  -- service is the line that the shell edits, provided that it was at the start and that the shell
  -- had not entered the line before. Input with other control characters, such as backspace, tab
  -- and escapes, is not covered.
  pub denied_line_never_entered :
      (ln : String) (ts : List Turn) (v : View)
      → Agrees ln v
      → All (Quiet h ln) ts
      → Agrees ln (session ts v)
  unfolding session
  denied_line_never_entered ln [] v a q = a
  denied_line_never_entered ln (t ∷ ts) v a q =
      denied_line_never_entered ln ts (turn t v) (turn-Agrees ln t v q.0 a) q.1
