-- ===== src/Fleet/Params.antt =====
-- fleet.py: what the name of a model tells, `_params_of`, `_is_moe`, `_is_toolish`,
-- `quality_score`.
use Prim.Native.Char.{Char, code}
use Prim.Native.String.{String}
use auto_assist.Prelude.{
  ℕ, zero, suc, ◌+◌, ◌*◌, ◌-◌, ◌^◌, Bool, true, false, ◌&&◌, ◌||◌, Option, none, some, List, [],
  ◌∷◌, ◌==◌, any, is_some, eqb, leb, lower, if◌then◌else◌,
}
use auto_assist.Fleet.Names.{strip_prefix}
use auto_assist.Fleet.State.{Float}

is_digit : Char → Bool
is_digit c = leb 48 (code c) && leb (code c) 57

is_char : Char → Char → Bool
is_char c d = eqb (code c) (code d)

-- \s of ASCII, and (b|m) without its case
is_blank : Char → Bool
unfolding is_char
is_blank c = (leb 9 (code c) && leb (code c) 13) || (leb 28 (code c) && leb (code c) 32)

is_mega : Char → Bool
unfolding is_char
is_mega c = is_char c "m" || is_char c "M"

is_unit : Char → Bool
unfolding is_char is_mega
is_unit c = is_char c "b" || is_char c "B" || is_mega c

-- A number so far: its digits, how many stand behind the point, and how long the match is.
pub record Digits : Type 0 where
  pub value : ℕ
  pub places : ℕ
  pub size : ℕ

push : Bool → Char → Digits → Digits
push behind c d = record {
  value = d.value * 10 + (code c - 48);
  places = if behind then suc d.places else d.places;
  size = suc d.size;
}

-- a character of the match that is no digit
longer : Digits → Digits
longer d = record d { size = suc d.size }

-- where a match stands: before the point, right behind it, behind it, or at the spaces
pub data Mode : Type 0 where
  whole point fraction blank : Mode

-- The rest of `(\d+(?:\.\d+)?)\s*(b|m)` behind its first digit: the number, and whether the unit is
-- m.
match_from : Mode → Digits → String → Option (Digits × Bool)
unfolding is_digit is_blank is_unit is_mega is_char push longer
match_from mode d String.[] = none
match_from whole d (String.◌∷◌ c s) =
    let more = match_from whole (push false c d) s in
    let dotted = match_from point (longer d) s in
    let spaced = match_from blank (longer d) s in
    if is_digit c
    then more
    else if is_char c "."
    then dotted
    else if is_unit c
    then some (longer d, is_mega c)
    else if is_blank c
    then spaced
    else none
match_from point d (String.◌∷◌ c s) =
    let more = match_from fraction (push true c d) s in if is_digit c then more else none
match_from fraction d (String.◌∷◌ c s) =
    let more = match_from fraction (push true c d) s in
    let spaced = match_from blank (longer d) s in
    if is_digit c
    then more
    else if is_unit c
    then some (longer d, is_mega c)
    else if is_blank c
    then spaced
    else none
match_from blank d (String.◌∷◌ c s) =
    let spaced = match_from blank (longer d) s in
    if is_unit c then some (longer d, is_mega c) else if is_blank c then spaced else none

-- `findall`: the matches from left to right, each behind the one before it
find_all : ℕ → String → List (Digits × Bool)
unfolding is_digit match_from push
find_all skip String.[] = []
find_all (suc skip) (String.◌∷◌ c s) = find_all skip s
find_all zero (String.◌∷◌ c s) =
    let start : Digits = record { value = 0; places = 0; size = 0 } in
    let hit = if is_digit c then match_from whole (push false c start) s else none in
    let next = λ (m : Digits × Bool). m ∷ find_all (m.0.size - 1) s in
    let past = find_all zero s in elim hit [ none ↦ past | some m ↦ next m ]

unfoldable pub contains : String → String → Bool
unfolding strip_prefix
contains k String.[] = k == ""
contains k (String.◌∷◌ c s) =
    let rest = contains k s in is_some (strip_prefix k (String.◌∷◌ c s)) || rest

unfoldable pub is_moe : String → Bool
unfolding contains lower
is_moe model = let m = lower model in contains "moe" m || contains "mixture" m

unfoldable pub is_toolish : String → Bool
unfolding contains lower
is_toolish model =
    let m = lower model in
    any (λ (k : String). contains k m)
      ("tool" ∷ "vibethinker" ∷ "hermes" ∷ "instruct" ∷ "chat" ∷ "qwen" ∷ [])

module _ {W : Type 0} (fl : Float W) where
  open fl use {ratio, add, mul, div, lt}

  -- min(a, b) and max(a, b)
  abbrev pub least : W → W → W
  least a b = if lt b a then b else a

  abbrev pub greatest : W → W → W
  greatest a b = if lt a b then b else a

  value_of : Digits × Bool → W
  value_of (d, mega) =
      mul (ratio d.value (10 ^ d.places)) (if mega then ratio 1 1000 else ratio 1 1)

  largest : W → List (Digits × Bool) → W
  largest best [] = best
  largest best (m ∷ ms) = largest (if lt best (value_of m) then value_of m else best) ms

  -- `best or 3.0`, where `best` is not below 0
  unfoldable pub params_of : String → W
  unfolding find_all largest value_of
  params_of model =
      let best = largest (ratio 0 1) (find_all 0 model) in
      if lt (ratio 0 1) best then best else ratio 3 1

  unfoldable pub quality_score : String → W
  unfolding params_of is_moe
  quality_score model =
      let q = least (div (params_of model) (ratio 35 1)) (ratio 1 1) in
      if is_moe model then least (add q (ratio 2 10)) (ratio 1 1) else q
