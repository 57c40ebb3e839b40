-- ===== src/Examples/Fleets.antt =====
-- src/assistx/fleet.py and src/assistx/agents/hermes_agent_adapter.py at concrete states, with
-- thousandths for floats.
use auto_assist.Prelude.{
  All, ◌≤◌, ◌<◌, ◌⊎◌, ℕ, zero, suc, ◌+◌, ◌-◌, ◌*◌, ◌/◌, String, ◌≡◌, refl, inl, inr, true, false,
  some, none, List, [], ◌∷◌, ltb, lower, arith, IsIn,
}
use auto_assist.Prelude.Sorting.{sort_by}
use auto_assist.Dict.{get, put}
use auto_assist.Fleet.Names.{strip_prefix, before_dot, after_dot, node_of}
use auto_assist.Fleet.Params.{params_of, contains, is_toolish}
use auto_assist.Fleet.State.{Float, Config, Perf, Candidate, Fleet, at}
use auto_assist.Fleet.Discover.{discover, add_entries, add_entry, add_model}
use auto_assist.Fleet.Value.{Need, task_family_of, value_factor}
use auto_assist.Fleet.Outcome.{Call, mark_dispatched, mark_done, update_perf, record_outcome}
use auto_assist.Fleet.Outcome.Inflight.{
  Reach, start, dispatch, done, of_model, on_node, Reach-counts,
}
use auto_assist.Fleet.Outcome.Streak.{after, calls_of, Learned, record_outcome-Learned}
use auto_assist.Fleet.Health.{Wake, wake_node, node_cap}
use auto_assist.Fleet.Health.Cooldown.{IsSpaced, expected, issued, issued-expected}
use auto_assist.Fleet.Score.{score, score_of, is_waiting}
use auto_assist.Fleet.Select.{
  score_all, score_models, apply_pressure, gated, best_base, best_of, near_best, pick, select_any,
}
use auto_assist.Fleet.Select.Open.{Query, IsOpen}
use auto_assist.Fleet.Select.Pressure.{IsSane}
use auto_assist.Fleet.Select.Choice.{
  listed, scored_models, selected, select_any-IsOpen, select_any-some,
}
use auto_assist.Fleet.Select.Down.{IsGated, IsBelow, select_any-up}
use auto_assist.Fleet.Report.{
  Module, Router, blocked, discover_locked, metrics_snapshot, metrics_snapshot-blocked,
}
use auto_assist.Fleet.Selftasks.{launch_selftasks, is_routed, take_slot}
use auto_assist.Fleet.Selftasks.Overload.{repeat, selections, AllTold, take_slot-overload}

-- n / d, for thousandths of numbers that are not below 0
over : ℕ → ℕ → ℕ
over n zero = 0
over n (suc d) = n / suc d

unfoldable milli : Float ℕ
unfolding over
milli = record {
  ratio = λ a b. over (a * 1000) b;
  add = λ a b. a + b;
  sub = λ a b. a - b;
  mul = λ a b. a * b / 1000;
  div = λ a b. over (a * 1000) b;
  lt = ltb;
  exp = λ a. 1000 + a;
  pow = λ a b. a;
}

abbrev config : Config
config = record {
  registry_ttl = 60000;
  fail_demote = 3;
  down_penalty = 120000;
  wake_cooldown = 300000;
  selftask_cap = 1;
  selftask_cap_map = [];
  wake_cmd = true;
  wake_map = [];
}

abbrev unknown : Fleet ℕ
unknown = record {
  nodes = [];
  model_map = [];
  last_refresh = 0;
  lru = [];
  node_last_used = [];
  inflight = [];
  node_inflight = [];
  perf = [];
  last_wake = [];
  selftask_inflight = [];
}

abbrev big : String
big = "lmstudio-alpha.qwen-14b"

abbrev small : String
small = "lmstudio-beta.qwen-500m"

abbrev alpha : Candidate
alpha = record { node = "alpha"; full = big; model = "qwen-14b" }

abbrev beta : Candidate
beta = record { node = "beta"; full = small; model = "qwen-500m" }

abbrev known : Fleet ℕ
known = record unknown {
  nodes = ("alpha", ("qwen-14b", big) ∷ []) ∷ ("beta", ("qwen-500m", small) ∷ []) ∷ [];
  model_map = ("qwen-14b", alpha ∷ []) ∷ ("qwen-500m", beta ∷ []) ∷ [];
  last_refresh = 1200;
}

-- an id that names no node is left out
discovered : discover config 1000 false (some (big ∷ small ∷ "gpt" ∷ [])) 1200 unknown ≡ known
unfolding discover add_entries add_entry add_model strip_prefix before_dot after_dot put get
discovered = refl

size_of_small : params_of milli "qwen-500m" ≡ 500
unfolding params_of milli
size_of_small = refl

abbrev need : Need ℕ
need = record {
  min_params = some 8000;
  latency_tolerance = none;
  quality_need = none;
  toolish = true;
  task_family = none;
}

abbrev query : Query milli
query = record {
  config = config;
  values = record { value_index = []; fit_index = [] };
  now = 5000;
  need = need;
  prefer = [];
  selftask = false;
}

abbrev models : List String
models = "qwen-500m" ∷ "qwen-14b" ∷ []

alpha-IsOpen : IsOpen milli query known alpha
unfolding params_of is_toolish contains lower strip_prefix milli
alpha-IsOpen = (inl refl, λ self. cc, refl, λ tools. refl)

-- the small model is below the least size
chosen : (selected milli query models known).1 ≡ some ("qwen-14b", big)
unfolding select_any score_models score_all score score_of apply_pressure gated best_base best_of
    near_best pick mark_dispatched params_of is_toolish contains lower strip_prefix milli sort_by
    get put node_of before_dot value_factor task_family_of
chosen = refl

select_any-IsOpen_example :
    IsIn "qwen-14b" models
    × ((x : Candidate) × IsIn x (listed milli known "qwen-14b")
        × (x.full ≡ big)
        × IsOpen milli query known x)
    × ((selected milli query models known).0 ≡ mark_dispatched 5000 big known)
select_any-IsOpen_example = select_any-IsOpen milli query models known "qwen-14b" big chosen

sane : IsSane milli
unfolding milli
sane w = ground arith

select_any-some_example : (r : String × String) × ((selected milli query models known).1 ≡ some r)
unfolding get
select_any-some_example =
    select_any-some milli sane query models known "qwen-14b" alpha (inr (inl refl)) (inl refl)
      alpha-IsOpen

lowest_below : IsGated milli
unfolding milli
lowest_below w = ground arith

select_any-up_example :
    let cs = scored_models milli query known models in
    (is_waiting milli 5000 (get big known.perf) ≡ false) ⊎ All (IsBelow milli cs) cs
select_any-up_example = select_any-up milli lowest_below query models known "qwen-14b" big chosen

-- two calls of one model, of which the first to be sent ends first
abbrev busy : Reach (mark_done big (mark_dispatched 2 big (mark_dispatched 1 big known))) (big ∷ [])
busy = done (dispatch (dispatch (start known refl refl) 1 big) 2 big) (big ∷ []) big [] refl

Reach-counts_example :
    let f = mark_done big (mark_dispatched 2 big (mark_dispatched 1 big known)) in
    (at big f.inflight ≡ of_model big (big ∷ []))
    × (at "alpha" f.node_inflight ≡ on_node "alpha" (big ∷ []))
Reach-counts_example = Reach-counts busy big "alpha"

abbrev lost : ℕ → Call milli
lost now = record {
  now = now;
  full_id = big;
  elapsed = 1500;
  n_tokens = none;
  success = false;
  tier = some "fast";
}

abbrev history : List (Call milli)
history = lost 4000 ∷ lost 3000 ∷ lost 2000 ∷ record (lost 1000) { success = true } ∷ []

down :
    (p : Perf ℕ) × (get big (after milli config history known).perf ≡ some p)
    × (p.down_until ≡ 124000)
unfolding record_outcome update_perf mark_done get put milli
down = (_, refl, refl)

record_outcome-Learned_example :
    Learned milli config
      (calls_of milli config big history)
      (get big (after milli config history known).perf)
unfolding get
record_outcome-Learned_example =
    record_outcome-Learned milli config (omega arith) big history known refl refl

abbrev wake_at : ℕ → Wake
wake_at now = record { now = now; cmd_ok = true; wol_ok = false }

abbrev wakes : List (String × Wake)
wakes =
    ("alpha", wake_at 400000)
    ∷ ("alpha", wake_at 500000)
    ∷ ("beta", wake_at 600000)
    ∷ ("alpha", wake_at 700000)
    ∷ []

log : issued config "alpha" wakes known ≡ 400000 ∷ 700000 ∷ []
unfolding issued wake_node get put
log = refl

issued-expected_example :
    (issued config "alpha" wakes known ≡ expected config "alpha" 0 wakes)
    × IsSpaced config 0 (issued config "alpha" wakes known)
unfolding get
issued-expected_example = issued-expected config "alpha" wakes known

abbrev router : Router
router = record { reply = none; later = 70000 }

metrics_snapshot-blocked_example :
    let m : Module ℕ = record { fleet = known; locked = false } in
    let (m', told) = metrics_snapshot config 70000 router m in
    (told ≡ blocked)
    × ((metrics_snapshot config 71000 router m').1 ≡ blocked)
    × ((discover_locked config 71000 true router m').1 ≡ blocked)
metrics_snapshot-blocked_example =
    metrics_snapshot-blocked config 70000 router (record { fleet = known; locked = false }) refl
      refl 71000 router

started :
    launch_selftasks 6 8 7 ("triage" ∷ [])
    ≡ "bulk_summarize" ∷ "session_compress" ∷ "corpus_extract" ∷ "ideation" ∷ "bulk_summarize" ∷ []
unfolding launch_selftasks
started = refl

abbrev idle_query : Query milli
idle_query = record query {
  need = record need { min_params = none; toolish = false };
  selftask = true;
}

beta-IsOpen : IsOpen milli idle_query known beta
unfolding params_of is_toolish contains lower strip_prefix milli node_cap get
beta-IsOpen = (inl refl, λ self. omega arith, refl, λ tools. cc)

-- three workers on a node whose cap is 1, and a fourth once they run
take_slot-overload_example :
    let f' =
      repeat 3
        (take_slot small)
        (selections milli idle_query ("qwen-500m" ∷ []) (9000 ∷ 9001 ∷ 9002 ∷ []) known) in
    AllTold milli idle_query ("qwen-500m" ∷ []) ("qwen-500m", small) (9000 ∷ 9001 ∷ 9002 ∷ []) known
    × (at "beta" f'.selftask_inflight ≡ 3)
    × (((at "beta" f'.selftask_inflight < node_cap milli config "beta" f')
          × ((selected milli (record idle_query { now = 9003 }) ("qwen-500m" ∷ []) f').1
              ≡ some ("qwen-500m", small)))
        ⊎ ((node_cap milli config "beta" f' ≤ at "beta" f'.selftask_inflight)
            × ((selected milli (record idle_query { now = 9003 }) ("qwen-500m" ∷ []) f').1 ≡ none)))
unfolding get is_routed strip_prefix node_of before_dot
take_slot-overload_example =
    take_slot-overload milli sane idle_query "qwen-500m" beta (9000 ∷ 9001 ∷ 9002 ∷ []) 9003 known
      refl refl refl refl beta-IsOpen
