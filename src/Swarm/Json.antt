-- ===== src/Swarm/Json.antt =====
-- The values of the events that src/assistx/swarm_core.py reads: what `json.loads` returns.
use auto_assist.Prelude.{
  String, Bool, true, false, not, ◌||◌, Option, none, some, ◌==◌, if◌then◌else◌,
}

-- A number is kept as the text of its `str`. A dict keeps its keys in insertion order.
mutual
  pub data Json : Type 0 where
    null : Json
    boolean : Bool → Json
    number : String → Json
    text : String → Json
    array : Items → Json
    object : Fields → Json

  pub data Items : Type 0 where
    nil : Items
    item : Json → Items → Items

  pub data Fields : Type 0 where
    empty : Fields
    field : String → Json → Fields → Fields

-- d.get(k)
unfoldable pub lookup : String → Fields → Option Json
lookup k empty = none
lookup k (field j v d) = if j == k then some v else lookup k d

-- d.get(k) in a dict of which None is a value: a missing key reads as None
unfoldable pub read : String → Fields → Json
unfolding lookup
read k d = elim (lookup k d) [ none ↦ null | some v ↦ v ]

abbrev pub has_key : String → Fields → Bool
has_key k d = elim (lookup k d) [ none ↦ false | some v ↦ true ]

-- bool(v)
abbrev pub is_truthy : Json → Bool
is_truthy null = false
is_truthy (boolean b) = b
is_truthy (number s) = not (s == "0" || s == "0.0" || s == "-0.0")
is_truthy (text s) = not (s == "")
is_truthy (array nil) = false
is_truthy (array (item v vs)) = true
is_truthy (object empty) = false
is_truthy (object (field k v d)) = true

-- v in (None, "")
abbrev pub is_missing : Json → Bool
is_missing null = true
is_missing (text s) = s == ""
is_missing v = false

-- str(v); the text of a list or a dict is left out, since the code only compares it with words
abbrev pub str : Json → String
str null = "None"
str (boolean true) = "True"
str (boolean false) = "False"
str (number s) = s
str (text s) = s
str (array vs) = "[]"
str (object d) = "{}"

-- v or w
abbrev pub or_else : Json → Json → Json
or_else v w = if is_truthy v then v else w

-- str(v or "")
abbrev pub str_or_empty : Json → String
str_or_empty v = if is_truthy v then str v else ""
