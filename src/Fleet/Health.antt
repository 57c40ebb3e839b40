-- ===== src/Fleet/Health.antt =====
-- fleet.py: which nodes are down, the watchdog that wakes them, and the cap on their self-tasks.
pub mod Cooldown
use auto_assist.Prelude.{
  ℕ, suc, ◌+◌, ◌-◌, max, String, Bool, true, false, not, ◌&&◌, ◌||◌, Option, none, some, List, [],
  ◌∷◌, ◌==◌, count, keep, map, leb, ltb, eqb, get_or, if◌then◌else◌,
}
use auto_assist.Dict.{Dict, get, put}
use auto_assist.Fleet.Params.{params_of, greatest}
use auto_assist.Fleet.State.{Float, Config, Perf, Fleet, at}

pub record Health : Type 0 where
  pub models : ℕ
  pub down : ℕ
  pub down_until : ℕ

abbrev pub is_down : Health → Bool
is_down h = not (eqb h.down 0)

-- What a wake meets: the time, whether the command runs, and whether the packet is sent.
pub record Wake : Type 0 where
  pub now : ℕ
  pub cmd_ok : Bool
  pub wol_ok : Bool

abbrev is_issued : Config → String → Wake → Bool
is_issued c node w =
    let mac = get_or (get node c.wake_map) "" in
    (c.wake_cmd && w.cmd_ok) || (not (mac == "") && w.wol_ok)

module _ {W : Type 0} where
  abbrev pub is_demoted : Config → ℕ → Perf W → Bool
  is_demoted c now p =
      (not (eqb p.down_until 0) && ltb now p.down_until) || leb c.fail_demote p.fail_streak

  abbrev add_perf : Config → ℕ → Option (Perf W) → Health → Health
  add_perf c now none h = h
  add_perf c now (some p) h =
      if is_demoted c now p
      then record {
        models = suc h.models;
        down = suc h.down;
        down_until = max h.down_until p.down_until;
      }
      else record h { models = suc h.models }

  unfoldable pub health_of : Config → ℕ → Dict (Perf W) → Dict String → Health
  health_of c now perf [] = record { models = 0; down = 0; down_until = 0 }
  health_of c now perf ((model, full) ∷ models) =
      add_perf c now (get full perf) (health_of c now perf models)

  -- a node without a model that was ever called is left out
  unfoldable pub health_list : Config → ℕ → Dict (Perf W) → Dict (Dict String) → Dict Health
  unfolding health_of
  health_list c now perf [] = []
  health_list c now perf ((node, models) ∷ nodes) =
      let h = health_of c now perf models in
      let rest = health_list c now perf nodes in if eqb h.models 0 then rest else (node, h) ∷ rest

  unfoldable pub node_health : Config → ℕ → Fleet W → Dict Health
  unfolding health_list
  node_health c now f = health_list c now f.perf f.nodes

  unfoldable pub healthy_node_count : Config → ℕ → Fleet W → ℕ
  unfolding node_health
  healthy_node_count c now f =
      count (λ (e : String × Health). not (is_down e.1)) (node_health c now f)

  -- now - last < WAKE_COOLDOWN, without a difference that may be below 0
  unfoldable pub wake_node : Config → String → Wake → Fleet W → Fleet W × Bool
  wake_node c node w f =
      if ltb w.now (at node f.last_wake + c.wake_cooldown)
      then (f, false)
      else (record f { last_wake = put node w.now f.last_wake }, is_issued c node w)

  unfoldable pub wake_all : Config → (String → Wake) → List String → Fleet W → Fleet W
  unfolding wake_node
  wake_all c wakes [] f = f
  wake_all c wakes (node ∷ nodes) f = wake_all c wakes nodes (wake_node c node (wakes node) f).0

  unfoldable pub watchdog_sweep : Config → ℕ → (String → Wake) → Fleet W → Fleet W
  unfolding node_health wake_all
  watchdog_sweep c now wakes f =
      wake_all c wakes
        (map (λ (e : String × Health). e.0)
          (keep (λ (e : String × Health). is_down e.1) (node_health c now f)))
        f

module _ {W : Type 0} (fl : Float W) where
  open fl use {ratio, lt}

  biggest : W → Dict String → W
  unfolding params_of
  biggest size [] = size
  biggest size ((model, full) ∷ models) = biggest (greatest fl size (params_of fl full)) models

  unfoldable pub node_cap : Config → String → Fleet W → ℕ
  unfolding biggest
  node_cap c node f = elim (get node c.selftask_cap_map) [
    | some cap ↦ cap
    | none ↦
        (let size = biggest (ratio 0 1) (get_or (get node f.nodes) []) in
          if not (lt size (ratio 20 1))
          then 3
          else if not (lt size (ratio 8 1))
          then 2
          else c.selftask_cap)
  ]
