-- ===== src/Terminal/Tty.antt =====
-- The texts that the terminal writes, as the line discipline of the shell's side reads them.
use Prim.Native.Nat.{ℕ}
use Prim.Native.Char.{Char, code}
use Prim.Native.String.{String, [], ◌∷◌}
use mathlib.Core.Path.{◌≡◌, refl}
use mathlib.Core.Bool.{Bool, true, false, ◌&&◌, ◌||◌}
use mathlib.Core.List.{List, ◌++◌}
use native.Mathlib.Omega.{arith}
use text.Mathlib.Text.{◌==◌}
use seyal_run.Prelude.{
  inl, inr, leb, ltb, sym, ap, ◌∙◌, eqb, if◌then◌else◌, append, Bool-cases, eq_iff,
}

abbrev pub is_newline : ℕ → Bool
is_newline c = eqb c 13 || eqb c 10

-- `"\r" in data or "\n" in data`
unfoldable pub has_newline : String → Bool
has_newline [] = false
has_newline (c ∷ s) = is_newline (code c) || has_newline s

-- `"".join(c for c in text if …)`
unfoldable pub keep_chars : (ℕ → Bool) → String → String
keep_chars p [] = ""
keep_chars p (c ∷ s) = let rest = keep_chars p s in if p (code c) then c ∷ rest else rest

-- A printed character: no control character of ASCII or of Latin-1.
abbrev pub is_printed : ℕ → Bool
is_printed c = leb 32 c && (ltb c 127 || ltb 159 c)

-- The line editing of the shell's side, which is not part of the repository: `line` is the line
-- being edited and `entered` are the lines that were entered, the newest last. Of its documented
-- behaviour only this is used: a printed character goes to the end of a line that nothing else has
-- edited, a newline enters the line, and Ctrl-U empties it. What backspace, escapes, tab and the
-- other controls do is left open.
pub record Shell : Type 1 where
  pub State : Type 0
  pub press : Char → State → State
  pub line : State → String
  pub entered : State → List String
  pub press-printed :
      (c : Char) (t : State)
      → is_printed (code c) ≡ true
      → (line (press c t) ≡ append (line t) (c ∷ "")) × (entered (press c t) ≡ entered t)
  pub press-newline :
      (c : Char) (t : State)
      → is_newline (code c) ≡ true
      → (line (press c t) ≡ "") × (entered (press c t) ≡ entered t ++ List.◌∷◌ (line t) List.[])
  pub press-kill :
      (c : Char) (t : State)
      → eqb (code c) 21 ≡ true
      → (line (press c t) ≡ "") × (entered (press c t) ≡ entered t)

-- Typed input: printed characters, and a newline only at the end.
unfoldable pub is_typed : String → Bool
is_typed [] = true
is_typed (c ∷ s) =
    let rest = is_typed s in if is_newline (code c) then s == "" else is_printed (code c) && rest

-- The typed input without its newline.
abbrev pub body : String → String
body [] = ""
body (c ∷ s) = let rest = body s in if is_newline (code c) then "" else c ∷ rest

pub append_snoc : (ln s : String) (c : Char) → append (append ln (c ∷ "")) s ≡ append ln (c ∷ s)
append_snoc [] s c = refl
append_snoc (d ∷ ln) s c = rw (append_snoc ln s c) refl

append-nil : (s : String) → append s "" ≡ s
append-nil [] = refl
append-nil (c ∷ s) = rw (append-nil s) refl

-- What the two tests say of a first character that is no newline.
char_typed :
    (c : Char) (s : String)
    → is_typed (c ∷ s) ≡ true
    → is_newline (code c) ≡ false
    → (is_printed (code c) ≡ true) × (is_typed s ≡ true)
unfolding is_typed
char_typed c s h e = (ground arith, ground arith)

newline_last :
    (c : Char) (s : String) → is_typed (c ∷ s) ≡ true → is_newline (code c) ≡ true → s ≡ ""
unfolding is_typed
newline_last c s h e = (eq_iff s "").0 (ground arith)

pub append_assoc : (r s t : String) → append (append r s) t ≡ append r (append s t)
append_assoc [] s t = refl
append_assoc (c ∷ r) s t = rw (append_assoc r s t) refl

-- Typed input that enters a line is its body and one newline.
pub entered_split :
    (s : String)
    → is_typed s ≡ true
    → has_newline s ≡ true
    → (c : Char) × (is_newline (code c) ≡ true) × (append (body s) (c ∷ "") ≡ s)
unfolding is_typed has_newline
entered_split [] h k = cc
entered_split (c ∷ s) h k = elim (Bool-cases (is_newline (code c))) [
  | inl e ↦ (c, e, rw (e, newline_last c s h e) refl)
  | inr e ↦
      let r = entered_split s (char_typed c s h e).1 (ground arith) in (r.0, r.1, rw (e, r.2) refl)
]

module _ (shell : Shell) where
  open shell use {State, press, line, entered, press-printed, press-newline, press-kill}

  abbrev pub feed : String → State → State
  feed [] t = t
  feed (c ∷ s) t = feed s (press c t)

  -- Characters alone extend the line.
  pub feed_plain :
      (s : String) (t : State)
      → is_typed s ≡ true
      → has_newline s ≡ false
      → (line (feed s t) ≡ append (line t) s) × (entered (feed s t) ≡ entered t)
  unfolding has_newline
  feed_plain [] t h k = (sym (append-nil (line t)), refl)
  feed_plain (c ∷ s) t h k =
      let e : is_newline (code c) ≡ false = ground arith in
      let (p, r) = char_typed c s h e in
      let (a, b) = press-printed c t p in
      let (x, y) = feed_plain s (press c t) r (ground arith) in
      (x ∙ ap (λ l. append l s) a ∙ append_snoc (line t) s c, y ∙ b)

  -- A newline at the end enters the line.
  pub feed_entered :
      (s : String) (t : State)
      → is_typed s ≡ true
      → has_newline s ≡ true
      → (line (feed s t) ≡ "")
        × (entered (feed s t) ≡ entered t ++ List.◌∷◌ (append (line t) (body s)) List.[])
  unfolding has_newline
  feed_entered [] t h k = cc
  feed_entered (c ∷ s) t h k = elim (Bool-cases (is_newline (code c))) [
    | inl e ↦ rw (newline_last c s h e, e, append-nil (line t)) (press-newline c t e)
    | inr e ↦
        let (p, r) = char_typed c s h e in
        let (a, b) = press-printed c t p in
        let (x, y) = feed_entered s (press c t) r (ground arith) in
        rw e (x, y ∙ rw (a, b, append_snoc (line t) (body s) c) refl)
  ]

  -- Ctrl-U empties it.
  pub feed_kill :
      (t : State) → (line (feed "\u{15}" t) ≡ "") × (entered (feed "\u{15}" t) ≡ entered t)
  feed_kill t = press-kill _ t refl
