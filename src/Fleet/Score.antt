-- ===== src/Fleet/Score.antt =====
-- fleet.py: `_score`, which rates a model on a node for a task.
use auto_assist.Prelude.{
  ℕ, String, Bool, false, not, ◌&&◌, ◌||◌, Option, none, some, ltb, eqb, get_or, if◌then◌else◌,
}
use auto_assist.Dict.{get}
use auto_assist.Fleet.Names.{node_of}
use auto_assist.Fleet.Params.{params_of, is_toolish, least, greatest}
use auto_assist.Fleet.State.{Float, Perf, Fleet, at}
use auto_assist.Fleet.Value.{Need, Values, value_factor, task_family_of}

-- what `_score` tells the pressure
pub record Score (W : Type 0) : Type 0 where
  pub base : W
  pub affinity : W
  pub inflight : ℕ
  pub ninflight : ℕ

module _ {W : Type 0} (fl : Float W) where
  open fl use {ratio, add, sub, mul, div, lt, exp, pow}

  abbrev one : W
  one = ratio 1 1

  -- perf.get("tok_s") or 0.0, with the credit of a model that was never called
  tok_s_of : Option (Perf W) → W
  tok_s_of none = ratio 12 1
  tok_s_of (some p) =
      if lt (ratio 0 1) p.tok_s then p.tok_s else if eqb p.n 0 then ratio 12 1 else ratio 0 1

  success_of : Option (Perf W) → W
  success_of none = one
  success_of (some p) = p.success

  streak_of : Option (Perf W) → ℕ
  streak_of none = 0
  streak_of (some p) = p.fail_streak

  health_factor : ℕ → W
  health_factor streak =
      if eqb streak 0
      then one
      else greatest fl (ratio 25 100) (sub one (mul (ratio 25 100) (ratio streak 1)))

  abbrev pub is_waiting : ℕ → Option (Perf W) → Bool
  is_waiting now none = false
  is_waiting now (some p) = not (eqb p.down_until 0) && ltb now p.down_until

  abbrev pub is_capable : Need W → String → Bool
  is_capable t model =
      not (lt (params_of fl model) (get_or t.min_params (ratio 0 1)))
      && (not t.toolish || is_toolish model)

  preferred_of : Need W → W
  preferred_of t =
      least fl (ratio 35 1)
        (mul (ratio 8 10) (pow (ratio 50 1) (get_or t.quality_need (ratio 5 10))))

  base_of : Need W → String → Option (Perf W) → W
  unfolding preferred_of tok_s_of success_of streak_of health_factor
  base_of t model p =
      let preferred = preferred_of t in
      let scale = greatest fl (mul preferred (ratio 8 10)) (ratio 2 1) in
      let off = div (sub (params_of fl model) preferred) scale in
      let size_fit = exp (sub (ratio 0 1) (mul off off)) in
      let speed = least fl (div (tok_s_of p) (ratio 25 1)) one in
      let lat_tol = get_or t.latency_tolerance (ratio 5 10) in
      let latency_fit = add lat_tol (mul (sub one lat_tol) speed) in
      mul (add (mul size_fit latency_fit) (mul (ratio 15 100) (success_of p)))
        (health_factor (streak_of p))

  affinity_of : Need W → String → W
  unfolding preferred_of
  affinity_of t model =
      let preferred = preferred_of t in
      let oversize = greatest fl (ratio 0 1) (div (sub (params_of fl model) preferred) preferred) in
      div one (add one oversize)

  -- a model in its down window is the last resort
  unfoldable pub score_of : Values W → ℕ → Need W → String → String → Fleet W → Score W
  unfolding base_of affinity_of value_factor task_family_of params_of
  score_of v now t full_id model f =
      let p = get full_id f.perf in
      let told : W → W → Score W = λ base affinity. record {
        base = base;
        affinity = affinity;
        inflight = at full_id f.inflight;
        ninflight = at (node_of full_id) f.node_inflight;
      } in
      if is_waiting now p
      then told (sub (ratio 0 1) (ratio 10 1)) one
      else told (mul (base_of t model p) (value_factor fl v full_id model (task_family_of fl t)))
          (affinity_of t model)

  unfoldable pub score : Values W → ℕ → Need W → String → String → Fleet W → Option (Score W)
  unfolding score_of is_toolish params_of
  score v now t full_id model f =
      if is_capable t model then some (score_of v now t full_id model f) else none
