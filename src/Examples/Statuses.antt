-- ===== src/Examples/Statuses.antt =====
-- src/assistx/passive_status.py at concrete boards.
use auto_assist.Prelude.{
  ℕ, ◌≡◌, refl, ◌≤◌, true, false, some, none, List, [], ◌∷◌, arith, count, any, length, upper,
  lower, strip, inl,
}
use auto_assist.Examples.Agents.{ready}
use auto_assist.Examples.Claiming.{held, late}
use auto_assist.Passive.Graph.{new_agent}
use auto_assist.Dict
use auto_assist.Passive.Candidate.{
  suggest_idle_work, suggest_from, normalize_idle_candidate, is_passive_safe, is_idle_status,
  capabilities_match, rank_candidate, sort_ranked,
}
use auto_assist.Passive.Control.{
  Board, get_passive_control_state, build_control_state, normalize_mode,
}
use auto_assist.Passive.Claims.Base.{granted}
use auto_assist.Passive.Claims.Expire.{
  has_expired, ExpiredRow, list_passive_claims, passive_claim_summary,
}
use auto_assist.Passive.Status.{
  Reads, Status, heartbeat_idle_agents, build_passive_status, passive_maintenance,
  passive_system_recommendations, read_agent_heartbeats, by_last_seen, heartbeat_counts,
}
use auto_assist.Passive.Status.Advice.{Tells}
use auto_assist.Passive.Status.Maintenance.{passive_maintenance-clears}

abbrev reads : Reads
reads = record {
  control_ok = true;
  heartbeats_ok = true;
  claims_ok = true;
  work_ok = true;
  now_ms = 7000;
}

abbrev idle_board : Board
idle_board = record {
  control = none;
  graph = record {
    tasks = ready ∷ [];
    agents = record (new_agent "ann") { status = some "idle" } ∷ [];
    events = [];
  };
}

abbrev idle_status : Status
idle_status = build_passive_status reads none true 25 idle_board

advised : Tells heartbeat_idle_agents idle_status.recommendations
unfolding build_passive_status passive_system_recommendations get_passive_control_state
    build_control_state normalize_mode strip lower upper suggest_idle_work suggest_from
    normalize_idle_candidate is_passive_safe is_idle_status capabilities_match rank_candidate
    sort_ranked read_agent_heartbeats by_last_seen heartbeat_counts Dict.get Dict.put
    list_passive_claims passive_claim_summary
advised = inl refl

abbrev held_board : Board
held_board = record {
  control = none;
  graph = record { tasks = held ∷ []; agents = []; events = [] };
}

few_late : count (has_expired 7000) (held ∷ []) ≤ 50
unfolding upper
few_late = omega arith

passive_maintenance-clears_example :
    let (b', m) = passive_maintenance late (λ (i : ℕ). none) reads 50 held_board in
    (found : List ExpiredRow) × (m.expired ≡ granted found)
    × (length found ≡ count (has_expired 7000) (held ∷ []))
    × (any (has_expired 7000) b'.graph.tasks ≡ false)
    × (m.status.claim_summary.expired ≡ 0)
unfolding upper
passive_maintenance-clears_example =
    passive_maintenance-clears late (λ (i : ℕ). none) reads 50 held_board refl refl
      ((refl, λ e. refl), tt) few_late
