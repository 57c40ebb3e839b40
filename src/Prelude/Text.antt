-- ===== src/Prelude/Text.antt =====
-- Python's `str.lower`, `str.upper` and `str.strip` (cases of the ASCII letters; every whitespace
-- character of `str.isspace`), and the truth value of a text.
use Prim.Native.Nat.{ℕ, zero, suc}
use Prim.Native.Char.{Char, code}
use Prim.Native.String.{String, ◌++◌}
use mathlib.Core.Bool.{Bool, ◌&&◌, ◌||◌, not}
use mathlib.Core.Option.{Option, none, some}
use mathlib.Core.List.{List, [], ◌∷◌}
use text.Mathlib.Text.{◌==◌}
use auto_assist.Prelude.Tests.{eqb, leb, if◌then◌else◌}

abbrev Cases : Type 0
Cases = List (Char × Char)

-- from an upper case letter to its lower case letter
lower_cases : Cases
lower_cases =
    ("A", "a")
    ∷ ("B", "b")
    ∷ ("C", "c")
    ∷ ("D", "d")
    ∷ ("E", "e")
    ∷ ("F", "f")
    ∷ ("G", "g")
    ∷ ("H", "h")
    ∷ ("I", "i")
    ∷ ("J", "j")
    ∷ ("K", "k")
    ∷ ("L", "l")
    ∷ ("M", "m")
    ∷ ("N", "n")
    ∷ ("O", "o")
    ∷ ("P", "p")
    ∷ ("Q", "q")
    ∷ ("R", "r")
    ∷ ("S", "s")
    ∷ ("T", "t")
    ∷ ("U", "u")
    ∷ ("V", "v")
    ∷ ("W", "w")
    ∷ ("X", "x")
    ∷ ("Y", "y")
    ∷ ("Z", "z")
    ∷ []

upper_cases : Cases
upper_cases =
    ("a", "A")
    ∷ ("b", "B")
    ∷ ("c", "C")
    ∷ ("d", "D")
    ∷ ("e", "E")
    ∷ ("f", "F")
    ∷ ("g", "G")
    ∷ ("h", "H")
    ∷ ("i", "I")
    ∷ ("j", "J")
    ∷ ("k", "K")
    ∷ ("l", "L")
    ∷ ("m", "M")
    ∷ ("n", "N")
    ∷ ("o", "O")
    ∷ ("p", "P")
    ∷ ("q", "Q")
    ∷ ("r", "R")
    ∷ ("s", "S")
    ∷ ("t", "T")
    ∷ ("u", "U")
    ∷ ("v", "V")
    ∷ ("w", "W")
    ∷ ("x", "X")
    ∷ ("y", "Y")
    ∷ ("z", "Z")
    ∷ []

recase : Cases → Char → Char
recase [] c = c
recase ((from, to) ∷ rest) c = if eqb (code c) (code from) then to else recase rest c

map_chars : (Char → Char) → String → String
map_chars f String.[] = String.[]
map_chars f (String.◌∷◌ c s) = String.◌∷◌ (f c) (map_chars f s)

unfoldable pub lower : String → String
unfolding map_chars recase lower_cases
lower = map_chars (recase lower_cases)

unfoldable pub upper : String → String
unfolding map_chars recase upper_cases
upper = map_chars (recase upper_cases)

between : ℕ → ℕ → ℕ → Bool
between lo n hi = leb lo n && leb n hi

is_space : Char → Bool
unfolding between
is_space c =
    between 9 n 13
    || between 28 n 32
    || eqb n 0x85
    || eqb n 0xa0
    || eqb n 0x1680
    || between 0x2000 n 0x200a
    || eqb n 0x2028
    || eqb n 0x2029
    || eqb n 0x202f
    || eqb n 0x205f
    || eqb n 0x3000
  where
    n : ℕ
    n = code c

abbrev pub is_nonempty : String → Bool
is_nonempty s = not (s == "")

lstrip : String → String
lstrip String.[] = String.[]
lstrip (String.◌∷◌ c s) = let rest = lstrip s in if is_space c then rest else String.◌∷◌ c s

rstrip : String → String
rstrip String.[] = String.[]
rstrip (String.◌∷◌ c s) =
    let rest = rstrip s in if is_space c && rest == "" then String.[] else String.◌∷◌ c rest

unfoldable pub strip : String → String
unfolding lstrip rstrip is_space
strip s = rstrip (lstrip s)

-- `x or d` for a text that may be `None`: an empty text is false too
abbrev pub or_default : Option String → String → String
or_default none d = d
or_default (some s) d = if s == "" then d else s

-- `s[:n]`
abbrev pub trim_to : ℕ → String → String
trim_to zero s = String.[]
trim_to (suc n) String.[] = String.[]
trim_to (suc n) (String.◌∷◌ c s) = String.◌∷◌ c (trim_to n s)

-- an f-string, of which the list holds the parts
abbrev pub fstring : List String → String
fstring [] = ""
fstring (s ∷ parts) = s ++ fstring parts
