-- ===== src/Fleet/Names.antt =====
-- fleet.py: ids of models, `lmstudio-<node>.<model>`.
use Prim.Native.Char.{Char, code}
use Prim.Native.String.{String}
use auto_assist.Prelude.{Bool, false, ◌||◌, Option, none, some, eqb, if◌then◌else◌}

same : Char → Char → Bool
same c d = eqb (code c) (code d)

-- s[len(p):] where s.startswith(p)
unfoldable pub strip_prefix : String → String → Option String
unfolding same
strip_prefix String.[] s = some s
strip_prefix (String.◌∷◌ c p) String.[] = none
strip_prefix (String.◌∷◌ c p) (String.◌∷◌ d s) =
    let rest = strip_prefix p s in if same c d then rest else none

-- s.partition(".")[0] and s.partition(".")[2]
unfoldable pub before_dot : String → String
unfolding same
before_dot String.[] = String.[]
before_dot (String.◌∷◌ c s) =
    let rest = before_dot s in if same c "." then String.[] else String.◌∷◌ c rest

unfoldable pub after_dot : String → String
unfolding same
after_dot String.[] = String.[]
after_dot (String.◌∷◌ c s) = let rest = after_dot s in if same c "." then s else rest

unfoldable pub has_dot : String → Bool
unfolding same
has_dot String.[] = false
has_dot (String.◌∷◌ c s) = let rest = has_dot s in same c "." || rest

abbrev pub prefix : String
prefix = "lmstudio-"

unfoldable pub node_of : String → String
unfolding strip_prefix before_dot
node_of full_id = elim (strip_prefix prefix full_id) [ none ↦ "" | some rest ↦ before_dot rest ]
