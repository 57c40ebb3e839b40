-- ===== src/Intents/Format.antt =====
-- Python's `str.format`, as intent_orchestrator.py fills its prompts with it.
use Prim.Native.Char.{Char, code}
use Prim.Native.String.{String}
use auto_assist.Prelude.{Bool, ◌||◌, Option, none, some, ◌==◌, eqb, if◌then◌else◌}

-- Where the template stands, with the text so far, reversed: in plain text, behind a brace, in the
-- name of a field, or where `format` has raised.
pub data Scan : Type 0 where
  plain : String → Scan
  opened : String → Scan
  closed : String → Scan
  field : String → String → Scan
  raised : Scan

is_char : Char → Char → Bool
is_char c d = eqb (code c) (code d)

-- the characters of the first text before the second, in reverse
onto : String → String → String
onto String.[] out = out
onto (String.◌∷◌ c s) out = onto s (String.◌∷◌ c out)

-- The one field that is given is `text`. Another raises, whatever format follows its name; no
-- template has a format behind `text`.
fill : String → String → String → Scan
unfolding onto
fill value name out = if onto name "" == "text" then plain (onto value out) else raised

next : String → Scan → Char → Scan
unfolding is_char fill
next value (plain out) c =
    if is_char c "{"
    then opened out
    else if is_char c "}"
    then closed out
    else plain (String.◌∷◌ c out)
next value (opened out) c =
    if is_char c "{"
    then plain (String.◌∷◌ c out)
    else if is_char c "}" || is_char c ":" || is_char c "!"
    then raised
    else field (String.◌∷◌ c String.[]) out
next value (closed out) c = if is_char c "}" then plain (String.◌∷◌ c out) else raised
next value (field name out) c =
    if is_char c "}"
    then fill value name out
    else if is_char c ":" || is_char c "!" || is_char c "{"
    then raised
    else field (String.◌∷◌ c name) out
next value raised c = raised

scan : String → Scan → String → Scan
unfolding next
scan value st String.[] = st
scan value st (String.◌∷◌ c s) = scan value (next value st c) s

finish : Scan → Option String
unfolding onto
finish (plain out) = some (onto out "")
finish st = none

-- template.format(text=value), or `none` where it raises
unfoldable pub format : String → String → Option String
unfolding scan finish
format template value = finish (scan value (plain "") template)
