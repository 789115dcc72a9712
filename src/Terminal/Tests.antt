-- ===== src/Terminal/Tests.antt =====
-- A session with the filter "deny rm" of a matcher that compares the whole command.
use seyal_run.Prelude.{
  ℕ, ◌≡◌, refl, true, false, List, none, some, [], ◌∷◌, mem, arith, String, ◌++◌, ◌==◌,
  if◌then◌else◌, append, ◌||◌, eqb, strip,
}
use Prim.Native.Char.{Char, code}
use seyal_run.Terminal.Tty.{is_newline, is_printed, is_typed, Shell}
use seyal_run.Terminal.{Host, Policy, judge, matched_filter, strip_control, handle_input}
use seyal_run.Terminal.Lines.{Turn, turn, session, Agrees, Denies, denied_line_never_entered}

abbrev plain_host : Host
plain_host = record {
  matcher = λ _. some (λ command patterns. mem command patterns);
  strip_ansi = λ s. s;
  is_printable = λ c. is_printed c;
}

abbrev no_rm : Policy
no_rm = record {
  filters = record { match_type = "regex"; patterns = "rm" ∷ []; action = none } ∷ [];
  default_deny = false;
}

abbrev typing : String → Turn
typing s = record { policy = no_rm; answer = false; text = s }

abbrev typed_rm : List Turn
typed_rm = typing "l" ∷ typing "s\r" ∷ typing "rm" ∷ typing "\r" ∷ []

-- A tty that knows a printed character, a newline, Ctrl-U and DEL.
abbrev Tty : Type 0
Tty = String × List String

abbrev without_last : String → String
without_last String.[] = ""
without_last (String.◌∷◌ c s) =
    let rest = without_last s in if s == "" then "" else String.◌∷◌ c rest

abbrev tty_press : Char → Tty → Tty
tty_press c (ln, ran) =
    if is_printed (code c)
    then (append ln (String.◌∷◌ c ""), ran)
    else if is_newline (code c)
    then ("", ran ++ ln ∷ [])
    else if eqb (code c) 21
    then ("", ran)
    else if eqb (code c) 127
    then (without_last ln, ran)
    else (ln, ran)

tty_printed :
    (c : Char) (t : Tty)
    → is_printed (code c) ≡ true
    → ((tty_press c t).0 ≡ append t.0 (String.◌∷◌ c "")) × ((tty_press c t).1 ≡ t.1)
tty_printed c t e = rw e (refl, refl)

tty_newline :
    (c : Char) (t : Tty)
    → is_newline (code c) ≡ true
    → ((tty_press c t).0 ≡ "") × ((tty_press c t).1 ≡ t.1 ++ t.0 ∷ [])
tty_newline c t e =
    let p : is_printed (code c) ≡ false = ground (arith, e) in rw (p, e) (refl, refl)

tty_kill :
    (c : Char) (t : Tty)
    → eqb (code c) 21 ≡ true
    → ((tty_press c t).0 ≡ "") × ((tty_press c t).1 ≡ t.1)
tty_kill c t e =
    let p : is_printed (code c) ≡ false = ground (arith, e) in
    let n : is_newline (code c) ≡ false = ground (arith, e) in rw (p, n, e) (refl, refl)

abbrev tty : Shell
tty = record {
  State = Tty;
  press = tty_press;
  line = λ t. t.0;
  entered = λ t. t.1;
  press-printed = tty_printed;
  press-newline = tty_newline;
  press-kill = tty_kill;
}

abbrev start : String × Tty
start = ("", ("", []))

rm_refused : session tty plain_host typed_rm start ≡ ("", ("", "ls" ∷ []))
unfolding session turn handle_input mem strip strip_control
rm_refused = refl

-- A paste of two lines is judged as one command, and the rest of it stays in the shell's line.
pasted_rm :
    session tty plain_host (typing "ls\rrm" ∷ typing "\r" ∷ []) start ≡ ("", ("", "ls" ∷ "rm" ∷ []))
unfolding session turn handle_input mem strip strip_control
pasted_rm = refl

-- A character that was erased is still in the buffer: `rx`, DEL, `m` is judged as `rxm`.
erased_rm : (session tty plain_host (typing "rx\u{7f}m\r" ∷ []) start).1.1 ≡ "rm" ∷ []
unfolding session turn handle_input mem strip strip_control
erased_rm = refl

newline_dropped : (c : ℕ) → is_newline c ≡ true → (is_printed c || eqb c 9) ≡ false
newline_dropped c e = ground arith

rm_denied : (s : String) → Denies plain_host "rm" (typing s)
unfolding judge strip_control matched_filter mem strip
rm_denied s c e = rw (newline_dropped (code c) e) refl

denied_line_never_entered_example :
    Agrees tty plain_host "rm" (session tty plain_host typed_rm start)
unfolding mem is_typed
denied_line_never_entered_example =
    denied_line_never_entered tty plain_host "rm" typed_rm start (refl, refl)
      (
        (refl, rm_denied "l"),
        ((refl, rm_denied "s\r"), ((refl, rm_denied "rm"), ((refl, rm_denied "\r"), tt))),
      )
