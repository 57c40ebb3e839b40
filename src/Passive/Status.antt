-- ===== src/Passive/Status.antt =====
-- src/assistx/passive_status.py: the combined status of the passive agents and its recommendations,
-- with the heartbeats' list and counts of src/assistx/passive_agents.py.
pub mod Advice
pub mod Maintenance
use auto_assist.Prelude.{
  ℕ, suc, ◌+◌, min, String, Bool, true, false, not, ◌&&◌, ◌||◌, Option, none, some, List, [], ◌∷◌,
  ◌++◌, ◌==◌, ltb, leb, eqb, get_or, or_default, keep, take, length, is_nonempty, if◌then◌else◌,
}
use auto_assist.Dict
use auto_assist.Dict.{Dict}
use auto_assist.Passive.Graph.{Agent, Graph}
use auto_assist.Passive.Candidate.{Suggestion, suggest_idle_work}
use auto_assist.Passive.Control.{Board, ControlState, get_passive_control_state}
use auto_assist.Passive.Claims.Base.{Env, Logger, Reply}
use auto_assist.Passive.Claims.Expire.{
  ClaimItem, ClaimSummary, ExpiredRow, list_passive_claims, passive_claim_summary,
  expire_passive_claims,
}

abbrev seen : Agent → ℕ
seen a = get_or a.last_seen_at_ts 0

unfoldable pub insert_seen : Agent → List Agent → List Agent
insert_seen a [] = a ∷ []
insert_seen a (b ∷ agents) =
    if leb (seen b) (seen a) then a ∷ b ∷ agents else b ∷ insert_seen a agents

-- ORDER BY coalesce(a.last_seen_at_ts, 0) DESC
unfoldable pub by_last_seen : List Agent → List Agent
unfolding insert_seen
by_last_seen [] = []
by_last_seen (a ∷ agents) = insert_seen a (by_last_seen agents)

unfoldable pub read_agent_heartbeats : Bool → ℕ → Graph → List Agent
unfolding by_last_seen
read_agent_heartbeats read_ok limit g = if read_ok then take limit (by_last_seen g.agents) else []

abbrev add_heartbeat : Agent → Dict ℕ → Dict ℕ
add_heartbeat a counts =
    let status = or_default a.status "unknown" in
    Dict.put status (get_or (Dict.get status counts) 0 + 1) counts

abbrev count_heartbeats : List Agent → Dict ℕ → Dict ℕ
count_heartbeats [] counts = counts
count_heartbeats (a ∷ agents) counts = count_heartbeats agents (add_heartbeat a counts)

unfoldable pub heartbeat_counts : List Agent → Dict ℕ
heartbeat_counts items = count_heartbeats items (Dict.put "total" (length items) [])

-- the actions that the status recommends
pub data Advised : Type 0 where
  keep_agents_paused drain_current_work expire_stale_claims : Advised
  heartbeat_idle_agents monitor_claim_renewals idle_wait : Advised

abbrev pub when : Bool → Advised → List Advised → List Advised
when true a rest = a ∷ rest
when false a rest = rest

abbrev pub has_work : List Suggestion → Bool
has_work [] = false
has_work (s ∷ rest) = true

abbrev pub counted : String → Dict ℕ → ℕ
counted status summary = get_or (Dict.get status summary) 0

unfoldable pub passive_system_recommendations :
    Dict ℕ → ClaimSummary → List Suggestion → ControlState → List Advised
passive_system_recommendations heartbeat_summary claim_summary idle_work control =
    let mode = or_default (some control.mode) "enabled" in
    when (mode == "paused" || mode == "maintenance") keep_agents_paused (
      when (mode == "draining") drain_current_work (
        when (ltb 0 claim_summary.expired) expire_stale_claims (
          when
            (control.new_claims_allowed
              && ltb 0 (counted "idle" heartbeat_summary)
              && has_work idle_work)
            heartbeat_idle_agents
            (when (control.renewals_allowed && ltb 0 (counted "busy" heartbeat_summary))
              monitor_claim_renewals
              (when (not (has_work idle_work) && eqb claim_summary.active 0 && mode == "enabled")
                idle_wait [])))))

-- what the reads of one status meet: whether each succeeds, and the clock
pub record Reads : Type 0 where
  pub control_ok : Bool
  pub heartbeats_ok : Bool
  pub claims_ok : Bool
  pub work_ok : Bool
  pub now_ms : ℕ

pub record Status : Type 0 where
  pub control : ControlState
  pub heartbeats : List Agent
  pub heartbeat_summary : Dict ℕ
  pub claims : List ClaimItem
  pub claim_summary : ClaimSummary
  pub idle_work : List Suggestion
  pub recommendations : List Advised

-- `if agent_id`
abbrev of_agent : Option String → List Agent → List Agent
of_agent none items = items
of_agent (some id) items =
    if is_nonempty id then keep (λ (a : Agent). a.agent_id == id) items else items

unfoldable pub build_passive_status : Reads → Option String → Bool → ℕ → Board → Status
build_passive_status reads agent_id include_idle_work limit b =
    let control = get_passive_control_state reads.control_ok b in
    let claims = list_passive_claims reads.claims_ok agent_id true limit reads.now_ms b.graph in
    let allowed = include_idle_work && control.passive_allowed && control.new_claims_allowed in
    let idle_work =
      if allowed && reads.work_ok
      then suggest_idle_work b.graph.tasks [] (min limit 10) none reads.now_ms
      else [] in
    let heartbeats = of_agent agent_id (read_agent_heartbeats reads.heartbeats_ok limit b.graph) in
    let summary = heartbeat_counts heartbeats in
    record {
      control = control;
      heartbeats = heartbeats;
      heartbeat_summary = summary;
      claims = claims;
      claim_summary = passive_claim_summary claims;
      idle_work = idle_work;
      recommendations =
          passive_system_recommendations summary (passive_claim_summary claims) idle_work control;
    }

pub record Maintained : Type 0 where
  pub expired : Reply (List ExpiredRow)
  pub status : Status

unfoldable pub passive_maintenance : Env → (ℕ → Logger) → Reads → ℕ → Board → Board × Maintained
passive_maintenance env loggers reads limit b =
    let (graph, expired) = expire_passive_claims env loggers limit b.graph in
    let b' : Board = record b { graph = graph } in
    (
      b',
      record {
        expired = expired;
        status = build_passive_status reads none false (min limit 100) b';
      },
    )
