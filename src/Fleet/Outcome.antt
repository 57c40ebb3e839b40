-- ===== src/Fleet/Outcome.antt =====
-- fleet.py: `record_outcome` and the counters of work in flight.
pub mod Inflight
pub mod Streak
use auto_assist.Prelude.{
  ℕ, ◌+◌, ◌-◌, String, Bool, true, false, not, Option, none, some, List, [], ◌∷◌, ◌==◌, leb, eqb,
  ltb, get_or, if◌then◌else◌,
}
use auto_assist.Dict.{Dict, get, put}
use auto_assist.Fleet.Names.{node_of}
use auto_assist.Fleet.State.{Float, Config, Perf, Fleet, at}

module _ {W : Type 0} (fl : Float W) where
  open fl use {ratio, add, sub, mul, div, lt}

  abbrev pub new_perf : ℕ → Perf W
  new_perf now = record {
    tok_s = ratio 0 1;
    latency = ratio 0 1;
    success = ratio 1 1;
    n = 0;
    first_seen = now;
    last_used = now;
    calls_by_tier = [];
    last_probe = 0;
    fail_streak = 0;
    down_until = 0;
  }

  -- v * (1 - a) + x * a, where a is 0.3
  abbrev smoothed : W → W → W
  smoothed v x = add (mul v (sub (ratio 1 1) (ratio 3 10))) (mul x (ratio 3 10))

  abbrev count_tier : Option String → Dict ℕ → Dict ℕ
  count_tier none tiers = tiers
  count_tier (some tier) tiers = if tier == "" then tiers else put tier (at tier tiers + 1) tiers

  -- a call's time and tokens; no tokens are as an unknown number
  abbrev rate_of : W → Option ℕ → W → W
  rate_of elapsed none tok_s = tok_s
  rate_of elapsed (some n_tokens) tok_s =
      if eqb n_tokens 0
      then tok_s
      else smoothed tok_s
          (if lt (ratio 0 1) elapsed then div (ratio n_tokens 1) elapsed else ratio 0 1)

  abbrev pub streak_after : Bool → ℕ → ℕ
  streak_after success streak = if success then 0 else streak + 1

  abbrev pub down_after : Config → ℕ → Bool → ℕ → ℕ → ℕ
  down_after c now success streak down =
      if success then 0 else if leb c.fail_demote (streak + 1) then now + c.down_penalty else down

  unfoldable pub update_perf : Config → ℕ → W → Option ℕ → Bool → Option String → Perf W → Perf W
  update_perf c now elapsed n_tokens success tier p = record {
    tok_s = rate_of elapsed n_tokens p.tok_s;
    latency = smoothed p.latency elapsed;
    success = smoothed p.success (if success then ratio 1 1 else ratio 0 1);
    n = p.n + 1;
    first_seen = p.first_seen;
    last_used = now;
    calls_by_tier = count_tier tier p.calls_by_tier;
    last_probe = p.last_probe;
    fail_streak = streak_after success p.fail_streak;
    down_until = down_after c now success p.fail_streak p.down_until;
  }

  -- a call's result: `elapsed` in seconds
  pub record Call : Type 0 where
    pub now : ℕ
    pub full_id : String
    pub elapsed : W
    pub n_tokens : Option ℕ
    pub success : Bool
    pub tier : Option String

module _ {W : Type 0} where
  unfoldable pub mark_dispatched : ℕ → String → Fleet W → Fleet W
  mark_dispatched now full_id f = record f {
    lru = put full_id now f.lru;
    node_last_used = put (node_of full_id) now f.node_last_used;
    inflight = put full_id (at full_id f.inflight + 1) f.inflight;
    node_inflight =
        put (node_of full_id) (at (node_of full_id) f.node_inflight + 1) f.node_inflight;
  }

  unfoldable pub mark_done : String → Fleet W → Fleet W
  mark_done full_id f = record f {
    inflight = put full_id (at full_id f.inflight - 1) f.inflight;
    node_inflight =
        put (node_of full_id) (at (node_of full_id) f.node_inflight - 1) f.node_inflight;
  }

  unfoldable pub mark_selftask_dispatched : String → Fleet W → Fleet W
  mark_selftask_dispatched node f = record f {
    selftask_inflight = put node (at node f.selftask_inflight + 1) f.selftask_inflight;
  }

  unfoldable pub mark_selftask_done : String → Fleet W → Fleet W
  mark_selftask_done node f = record f {
    selftask_inflight = put node (at node f.selftask_inflight - 1) f.selftask_inflight;
  }

  -- the file of metrics, which is saved now and then, is left out
  unfoldable pub record_outcome : (fl : Float W) → Config → Call fl → Fleet W → Fleet W
  unfolding update_perf mark_done
  record_outcome fl c q f =
      let p = get_or (get q.full_id f.perf) (new_perf fl q.now) in
      let p' = update_perf fl c q.now q.elapsed q.n_tokens q.success q.tier p in
      if q.full_id == ""
      then f
      else mark_done q.full_id (record f { perf = put q.full_id p' f.perf })
