-- ===== src/Fleet/Value.antt =====
-- fleet.py: the value that benchmarks give a model for a family of tasks.
use auto_assist.Prelude.{
  String, Bool, not, ◌&&◌, ◌||◌, Option, none, some, List, [], ◌∷◌, ◌==◌, lower, strip, fstring,
  get_or, if◌then◌else◌,
}
use auto_assist.Dict.{Dict, get}
use auto_assist.Fleet.Names.{strip_prefix, before_dot, after_dot, prefix, has_dot, node_of}
use auto_assist.Fleet.Params.{contains, least, greatest}
use auto_assist.Fleet.State.{Float}

-- a task, as far as the routing reads it
pub record Need (W : Type 0) : Type 0 where
  pub min_params : Option W
  pub latency_tolerance : Option W
  pub quality_need : Option W
  pub toolish : Bool
  pub task_family : Option String

-- _norm_node and _norm_model
unfoldable pub norm_node : String → String
unfolding strip_prefix before_dot lower
norm_node name = let n = lower name in before_dot (get_or (strip_prefix prefix n) n)

unfoldable pub norm_model : String → String
unfolding strip_prefix after_dot has_dot lower
norm_model model =
    let m = lower model in
    elim (strip_prefix prefix m) [ none ↦ m | some rest ↦ if has_dot m then after_dot m else m ]

-- a row of the capability matrix
pub record Capability (W : Type 0) : Type 0 where
  pub grade : String
  pub route_score : Option W
  pub avoid_use : String

-- `_value_index` and `_fit_index`; a key is the text of its parts, which hold no line feed
pub record Values (W : Type 0) : Type 0 where
  pub value_index : Dict (Capability W)
  pub fit_index : Dict String

abbrev pub key : List String → String
key [] = ""
key (s ∷ parts) = fstring (s ∷ "\n" ∷ key parts ∷ [])

module _ {W : Type 0} (fl : Float W) where
  open fl use {ratio, add, mul, lt}

  -- not (x < y), as `>=` of two numbers
  abbrev pub ge : W → W → Bool
  ge x y = not (lt x y)

  abbrev is_zero : W → Bool
  is_zero x = not (lt x (ratio 0 1)) && not (lt (ratio 0 1) x)

  -- float(v or d)
  abbrev or_ratio : Option W → W → W
  or_ratio none d = d
  or_ratio (some v) d = if is_zero v then d else v

  unfoldable pub task_family_of : Need W → String
  task_family_of t =
      let family = get_or t.task_family "" in
      if not (family == "")
      then family
      else if ge (or_ratio t.min_params (ratio 0 1)) (ratio 9 1)
      then "agent_planning"
      else if ge (or_ratio t.quality_need (ratio 5 10)) (ratio 7 10)
      then "coding"
      else "structured_output"

  fit_mult : String → W
  fit_mult fit =
      if fit == "borderline"
      then ratio 9 10
      else if fit == "risky"
      then ratio 6 10
      else if fit == "poor"
      then ratio 3 10
      else ratio 1 1

  -- the last lines of `_value_factor`, which see a score, give the clamped product
  capped : W → W → W
  capped fit rs =
      let rs_mult =
        add (ratio 5 10) (mul (greatest fl (ratio 0 1) (least fl (ratio 1 1) rs)) (ratio 75 100)) in
      greatest fl (ratio 5 100) (least fl (ratio 13 10) (mul fit rs_mult))

  factor : String → W → Option (Capability W) → W
  unfolding capped contains
  factor family fit none = fit
  factor family fit (some row) =
      let avoid = lower (strip row.avoid_use) in
      elim row.route_score [
        | none ↦ fit
        | some rs ↦
            if not (lt (ratio 0 1) rs)
            then fit
            else if row.grade == "f" || contains "avoid" avoid || contains family avoid
            then greatest fl (ratio 5 100) (mul (ratio 15 100) fit)
            else capped fit rs
      ]

  unfoldable pub value_factor : Values W → String → String → String → W
  unfolding fit_mult factor norm_node norm_model
  value_factor v full_id model family =
      let node = norm_node (node_of full_id) in
      let mk = norm_model model in
      let fit = get_or (get (key (node ∷ mk ∷ [])) v.fit_index) "unknown" in
      factor family (fit_mult fit) (get (key (node ∷ mk ∷ family ∷ [])) v.value_index)
