-- ===== src/Fleet/State.antt =====
-- fleet.py: the module's state, over a type of floats. Times are in milliseconds.
use auto_assist.Prelude.{ℕ, String, Bool, List, get_or}
use auto_assist.Dict.{Dict, get}

-- What the code does with a `float`: literals as fractions, arithmetic, and comparisons.
pub record Float (W : Type 0) : Type 0 where
  pub ratio : ℕ → ℕ → W
  pub add : W → W → W
  pub sub : W → W → W
  pub mul : W → W → W
  pub div : W → W → W
  pub lt : W → W → Bool
  pub exp : W → W
  pub pow : W → W → W

-- the settings that the environment gives
pub record Config : Type 0 where
  pub registry_ttl : ℕ
  pub fail_demote : ℕ
  pub down_penalty : ℕ
  pub wake_cooldown : ℕ
  pub selftask_cap : ℕ
  pub selftask_cap_map : Dict ℕ
  pub wake_cmd : Bool
  pub wake_map : Dict String

-- an entry of `_perf`; `down_until` is 0 where the model is up
pub record Perf (W : Type 0) : Type 0 where
  pub tok_s : W
  pub latency : W
  pub success : W
  pub n : ℕ
  pub first_seen : ℕ
  pub last_used : ℕ
  pub calls_by_tier : Dict ℕ
  pub last_probe : ℕ
  pub fail_streak : ℕ
  pub down_until : ℕ

-- (node, full_id, bare)
pub record Candidate : Type 0 where
  pub node : String
  pub full : String
  pub model : String

pub record Fleet (W : Type 0) : Type 0 where
  pub nodes : Dict (Dict String)
  pub model_map : Dict (List Candidate)
  pub last_refresh : ℕ
  pub lru : Dict ℕ
  pub node_last_used : Dict ℕ
  pub inflight : Dict ℕ
  pub node_inflight : Dict ℕ
  pub perf : Dict (Perf W)
  pub last_wake : Dict ℕ
  pub selftask_inflight : Dict ℕ

-- d.get(k, 0)
abbrev pub at : String → Dict ℕ → ℕ
at k d = get_or (get k d) 0
