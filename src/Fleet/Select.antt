-- ===== src/Fleet/Select.antt =====
-- fleet.py: `select` and `select_any`, which choose a model and a node for a task.
pub mod Open
pub mod Pressure
pub mod Choice
pub mod Down
use auto_assist.Prelude.{
  ℕ, zero, suc, ◌+◌, ◌*◌, ◌-◌, max, String, Bool, true, false, not, ◌&&◌, ◌||◌, Option, none, some,
  List, [], ◌∷◌, ◌++◌, ◌==◌, map, keep, any, length, leb, ltb, eqb, get_or, if◌then◌else◌,
}
use auto_assist.Prelude.Sorting.{sort_by}
use auto_assist.Dict.{Dict, get}
use auto_assist.Fleet.Names.{node_of}
use auto_assist.Fleet.Params.{params_of, is_toolish, least, greatest}
use auto_assist.Fleet.State.{Float, Config, Perf, Candidate, Fleet, at}
use auto_assist.Fleet.Value.{Need, Values, value_factor, task_family_of}
use auto_assist.Fleet.Outcome.{mark_dispatched}
use auto_assist.Fleet.Health.{node_cap}
use auto_assist.Fleet.Score.{Score, score}

-- a scored candidate: the bare model under which it was asked for, and its id
pub record Scored (W : Type 0) : Type 0 where
  pub score : Score W
  pub asked : String
  pub full : String

-- those that are kept, or all where none is
abbrev pub or_all : {A : Type 0} → List A → List A → List A
or_all [] xs = xs
or_all (k ∷ kept) xs = k ∷ kept

module _ {W : Type 0} (fl : Float W) where
  open fl use {ratio, add, sub, mul, div, lt}

  -- the idle time of a model or node, of which one that was never used is the most idle
  idle_of : ℕ → ℕ → W
  idle_of now last = if eqb last 0 then ratio 1000000 1 else ratio (now - last) 1000

  sum : List W → W
  sum [] = ratio 0 1
  sum (w ∷ ws) = add w (sum ws)

  average : List W → W
  unfolding sum
  average ws = div (sum ws) (ratio (length ws) 1)

  -- max(-1, min(1, x / UTIL_TAU))
  pull : W → W
  pull x = greatest fl (sub (ratio 0 1) (ratio 1 1)) (least fl (ratio 1 1) (div x (ratio 120 1)))

  model_idle : ℕ → Fleet W → Scored W → W
  unfolding idle_of
  model_idle now f c = idle_of now (at c.full f.lru)

  node_idle : ℕ → Fleet W → Scored W → W
  unfolding idle_of
  node_idle now f c = idle_of now (at (node_of c.full) f.node_last_used)

  unfoldable pub best_base : W → List (Scored W) → W
  best_base best [] = best
  best_base best (c ∷ cs) = best_base (greatest fl best c.score.base) cs

  unfoldable pub gate_of : List (Scored W) → W
  unfolding best_base
  gate_of [] = ratio 5 100
  gate_of (c ∷ cs) = greatest fl (mul (best_base c.score.base cs) (ratio 5 10)) (ratio 5 100)

  -- the candidates that pass the gate, or all where none does
  unfoldable pub gated : List (Scored W) → List (Scored W)
  unfolding gate_of
  gated cs = or_all (keep (λ (d : Scored W). not (lt d.score.base (gate_of cs))) cs) cs

  final_score : ℕ → Fleet W → W → W → Scored W → W
  unfolding pull model_idle node_idle
  final_score now f avg_idle avg_node_idle c =
      let rel =
        mul (mul (pull (sub (model_idle now f c) avg_idle)) (ratio 9 10)) c.score.affinity in
      let nrel = mul (pull (sub (node_idle now f c) avg_node_idle)) (ratio 6 10) in
      let load =
        add (mul (ratio 25 100) (ratio c.score.inflight 1))
          (mul (mul (ratio 5 10) (ratio 25 100)) (ratio c.score.ninflight 1)) in
      sub (add (add (mul (ratio 15 100) c.score.base) rel) nrel) load

  unfoldable pub apply_pressure : ℕ → Fleet W → List (Scored W) → List (W × Scored W)
  unfolding gated final_score average model_idle node_idle
  apply_pressure now f scored =
      let pool = gated scored in
      let avg_idle = average (map (model_idle now f) pool) in
      let avg_node_idle = average (map (node_idle now f) pool) in
      map (λ (c : Scored W). (final_score now f avg_idle avg_node_idle c, c)) pool

  unfoldable pub best_of : W → List (W × Scored W) → W
  best_of best [] = best
  best_of best (x ∷ xs) = best_of (greatest fl best x.0) xs

  abbrev pub used_before : Fleet W → W × Scored W → W × Scored W → Bool
  used_before f x y = leb (at x.1.full f.lru) (at y.1.full f.lru)

  abbrev pub first_of : List (W × Scored W) → Option (W × Scored W)
  first_of [] = none
  first_of (x ∷ xs) = some x

  -- within SPREAD_EPS of the best
  abbrev pub is_near : W → W → Bool
  is_near best w = not (lt w (sub best (ratio 4 10)))

  unfoldable pub near_best : List (W × Scored W) → List (W × Scored W)
  unfolding best_of
  near_best [] = []
  near_best (x ∷ xs) = keep (λ (y : W × Scored W). is_near (best_of x.0 xs) y.0) (x ∷ xs)

  -- the least recently used of these
  unfoldable pub pick : Fleet W → List (W × Scored W) → Option (W × Scored W)
  unfolding near_best sort_by
  pick f xs = first_of (sort_by (used_before f) (near_best xs))

  abbrev pub is_preferred : List String → String → Bool
  is_preferred [] node = true
  is_preferred (p ∷ ps) node = any (λ (x : String). x == node) (p ∷ ps)

  abbrev pub is_eligible : Config → List String → Bool → Fleet W → Candidate → Bool
  is_eligible c prefer selftask f x =
      is_preferred prefer x.node
      && not (selftask && leb (node_cap fl c x.node f) (at x.node f.selftask_inflight))

  abbrev pub score_one : Values W → ℕ → Need W → String → Candidate → Fleet W → List (Scored W)
  score_one v now t asked x f = elim (score fl v now t x.full x.model f) [
    | none ↦ []
    | some s ↦ record { score = s; asked = asked; full = x.full } ∷ []
  ]

  unfoldable pub score_all :
      Config
      → Values W
      → ℕ
      → Need W
      → List String
      → Bool
      → Fleet W
      → String
      → List Candidate
      → List (Scored W)
  unfolding score node_cap
  score_all c v now t prefer selftask f asked [] = []
  score_all c v now t prefer selftask f asked (x ∷ xs) =
      let rest = score_all c v now t prefer selftask f asked xs in
      if is_eligible c prefer selftask f x then score_one v now t asked x f ++ rest else rest

  unfoldable pub score_models :
      Config → Values W → ℕ → Need W → List String → Bool → Fleet W → List String → List (Scored W)
  unfolding score_all
  score_models c v now t prefer selftask f [] = []
  score_models c v now t prefer selftask f (m ∷ ms) =
      score_all c v now t prefer selftask f m (get_or (get m f.model_map) [])
      ++ score_models c v now t prefer selftask f ms

  abbrev pub dispatch : ℕ → Fleet W → Option (W × Scored W) → Fleet W × Option (String × String)
  dispatch now f none = (f, none)
  dispatch now f (some (w, c)) = (mark_dispatched now c.full f, some (c.asked, c.full))

  -- `select_any` with a task, after its discovery; the ring buffer of decisions is left out
  unfoldable pub select_any :
      Config
      → Values W
      → ℕ
      → Need W
      → List String
      → Bool
      → List String
      → Fleet W
      → Fleet W × Option (String × String)
  unfolding score_models apply_pressure pick mark_dispatched
  select_any c v now t prefer selftask models f =
      dispatch now f
        (pick f (apply_pressure now f (score_models c v now t prefer selftask f models)))

  -- the candidates of a model: those on preferred nodes, or all where there is none
  unfoldable pub candidates_of : List String → List Candidate → List Candidate
  candidates_of prefer xs = or_all (keep (λ (x : Candidate). is_preferred prefer x.node) xs) xs

  abbrev first_used : ℕ → Fleet W → List Candidate → Fleet W × Option String
  first_used now f [] = (f, none)
  first_used now f (x ∷ xs) = (mark_dispatched now x.full f, some x.full)

  abbrev as_scored : Values W → ℕ → Need W → Fleet W → List Candidate → List (Scored W)
  as_scored v now t f [] = []
  as_scored v now t f (x ∷ xs) = score_one v now t "" x f ++ as_scored v now t f xs

  abbrev told_full : Fleet W × Option (String × String) → Fleet W × Option String
  told_full (f, none) = (f, none)
  told_full (f, some (asked, full)) = (f, some full)

  -- `select`, after its discovery
  unfoldable pub select :
      Values W → ℕ → String → Option (Need W) → List String → Fleet W → Fleet W × Option String
  unfolding candidates_of score apply_pressure pick mark_dispatched sort_by
  select v now model none prefer f = first_used now f (
      sort_by (λ (x : Candidate) (y : Candidate). leb (at x.full f.lru) (at y.full f.lru))
        (candidates_of prefer (get_or (get model f.model_map) [])))
  select v now model (some t) prefer f = told_full (
      dispatch now f (
        pick f (
          apply_pressure now f
            (as_scored v now t f (candidates_of prefer (get_or (get model f.model_map) []))))))
