-- ===== src/Terminal.antt =====
-- The keystrokes of a session in core/services/terminal-service/app/ws/terminal.py: the buffer of
-- the line, the command filters, and what goes to the shell. A write that fails ends the session.
mod Tty
mod Lines
mod Tests
use seyal_run.Prelude.{
  append, ℕ, String, true, false, ◌||◌, Bool, List, Option, none, some, [], ◌∷◌, ◌==◌, eqb,
  if◌then◌else◌, strip, any, mem,
}
use seyal_run.Terminal.Tty.{has_newline, keep_chars}

-- The matcher of each `match_type`, the removal of the escapes of `_ANSI_RE` and
-- `str.isprintable` of one character.
pub record Host : Type 0 where
  matcher : String → Option (String → List String → Bool)
  strip_ansi : String → String
  is_printable : ℕ → Bool

-- A filter; an action that is missing is `none`.
pub record Filter : Type 0 where
  match_type : String
  patterns : List String
  action : Option String

-- What `check_filters` answers.
pub record Policy : Type 0 where
  filters : List Filter
  default_deny : Bool

unfoldable pub strip_control : Host → String → String
unfolding keep_chars
strip_control h text = keep_chars (λ c. h.is_printable c || eqb c 9) (h.strip_ansi text)

abbrev pub command_of : Host → String → String
command_of h buf = strip (strip_control h buf)

abbrev matches : Host → String → Filter → Bool
matches h command f = applies (h.matcher f.match_type)
  where
    applies : Option (String → List String → Bool) → Bool
    applies (some m) = m command f.patterns
    applies none = false

-- The first filter that matches.
unfoldable pub matched_filter : Host → String → List Filter → Option Filter
matched_filter h command [] = none
matched_filter h command (f ∷ fs) =
    let rest = matched_filter h command fs in if matches h command f then some f else rest

abbrev pub action_of : Option String → String
action_of (some a) = a
action_of none = "deny"

-- A command and the action that the audit has of it.
abbrev pub Audits : Type 0
Audits = List (String × String)

-- Whether the line goes on, and its audit rows. `answer` is what the confirmation gives in its
-- 30 seconds.
abbrev pub judged : Policy → Bool → String → Option Filter → Bool × Audits
judged p answer command (some f) =
    let action = action_of f.action in
    (
      if action == "deny" then false else (if action == "confirm" then answer else true),
      (command, action) ∷ [],
    )
judged p answer command none =
    if command == ""
    then (true, [])
    else (if p.default_deny
        then (false, (command, "denied_by_default") ∷ [])
        else (true, (command, "logged") ∷ []))

unfoldable pub judge : Host → Policy → Bool → String → Bool × Audits
unfolding matched_filter
judge h p answer command = judged p answer command (matched_filter h command p.filters)

abbrev pub kill_line : String
kill_line = "\u{15}"

-- What one message leaves: the buffer, the text written to the shell and the audit rows.
pub record Handled : Type 0 where
  cmd_buf : String
  written : String
  audits : Audits

unfoldable pub typed_line : Host → Policy → Bool → String → String → Handled
unfolding judge has_newline
typed_line h p answer buf text =
    if has_newline text
    then (let j = judge h p answer (command_of h buf) in
        record { cmd_buf = ""; written = if j.0 then text else kill_line; audits = j.1 })
    else record { cmd_buf = buf; written = text; audits = [] }

-- One message of type "input".
unfoldable pub handle_input : Host → Policy → Bool → String → String → Handled
unfolding typed_line
handle_input h p answer cmd_buf text =
    if text == ""
    then record { cmd_buf = cmd_buf; written = ""; audits = [] }
    else typed_line h p answer (append cmd_buf text) text
