-- ===== src/Passive/Claims/Create.antt =====
-- passive_claims.py: `claim_passive_task`, its transaction and its rollback.
use auto_assist.Prelude.{
  ℕ, ◌+◌, ◌*◌, String, Bool, true, false, not, ◌&&◌, ◌||◌, Option, none, some, List, ◌==◌, get_or,
  upper, if◌then◌else◌,
}
use auto_assist.Passive.Graph.{no_claim, Task, Agent, Graph, key, equals, update_tasks, first_task}
use auto_assist.Passive.Candidate.{
  Candidate, normalize_idle_candidate, is_passive_safe, capabilities_match,
}
use auto_assist.Passive.Claims.Base.{
  Env, invalid_mode, approval_required, neo4j_error, not_claimed, safety_rejected,
  capability_mismatch, Reply, granted, blocked, event, record_passive_event, claimed_passive,
  merge_if,
}

pub record PassiveClaimIn : Type 0 where
  pub agent_id : String
  pub task_id : String
  pub lease_id : Option String
  pub capabilities : List String
  pub mode : String
  pub ttl_seconds : ℕ
  pub operator_approved : Bool
  pub metadata : String

pub record ClaimGrant : Type 0 where
  pub claim_id : String
  pub event_id : Option String
  pub task_id : String
  pub agent_id : String
  pub mode : String
  pub lease_id : Option String
  pub issued_at_ts : ℕ
  pub expires_at_ts : ℕ
  pub ttl_seconds : ℕ
  pub review_only : Bool
  pub execution_allowed : Bool
  pub write_allowed : Bool
  pub candidate : Candidate

-- toUpper(coalesce(t.status, 'READY')) IN ['READY','REVIEW']
abbrev pub is_claimable : String → Task → Bool
is_claimable task_id t =
    let status = upper (get_or t.status "READY") in
    equals (key t) task_id && (status == "READY" || status == "REVIEW")

unfoldable pub set_claim : Env → PassiveClaimIn → ℕ → Task → Task
set_claim env body expires_at_ts t = record t {
  previous_status = t.status;
  status = some claimed_passive;
  claim = record t.claim {
    claim_id = some env.claim_id;
    agent_id = some body.agent_id;
    lease_id = body.lease_id;
    mode = some body.mode;
    claimed_at = some env.datetime;
    claimed_at_ts = some env.now_ms;
    expires_at_ts = some expires_at_ts;
    metadata = some body.metadata;
  };
}

abbrev pub busy_with : Env → PassiveClaimIn → Agent → Agent
busy_with env body a = record a {
  status = some "busy";
  current_task_id = some body.task_id;
  mode = some body.mode;
  last_seen_at = some env.datetime;
  last_seen_at_ts = some env.now_ms;
  action = some "passive_claimed";
  recommended_task_id = some body.task_id;
}

-- The first task that was matched comes back as it is after the SET.
unfoldable pub tx_claim_passive_task : Env → PassiveClaimIn → ℕ → Graph → Graph × Option Task
unfolding set_claim
tx_claim_passive_task env body expires_at_ts g =
    let f = set_claim env body expires_at_ts in
    let row = first_task (is_claimable body.task_id) f g.tasks in
    (
      record g {
        tasks = update_tasks (is_claimable body.task_id) f g.tasks;
        agents = merge_if row body.agent_id (busy_with env body) g.agents;
      },
      row,
    )

abbrev pub holds_claim : String → String → Task → Bool
holds_claim task_id claim_id t = equals (key t) task_id && equals t.claim.claim_id claim_id

unfoldable pub undo_claim : Env → String → Task → Task
undo_claim env reason t = record t {
  status = some (get_or t.previous_status "REVIEW");
  claim = no_claim;
  last = record t.last { result = some reason; released_at = some env.datetime };
}

-- A session that raises leaves the claim in place, and no event is written.
unfoldable pub rollback_claim : Env → String → String → String → Graph → Graph
unfolding undo_claim record_passive_event
rollback_claim env task_id claim_id reason g =
    if env.rollback_ok
    then (record_passive_event env.logger
        (record (event "passive_claim.rollback") {
          task_id = some task_id;
          claim_id = some claim_id;
          result = some reason;
          action = some "passive_claim_rollback";
        })
        (record g {
          tasks = update_tasks (holds_claim task_id claim_id) (undo_claim env reason) g.tasks;
        })).0
    else g

abbrev pub is_mode : String → Bool
is_mode mode = mode == "review_only" || mode == "claim_ready" || mode == "passive"

-- after the transaction: the checks of the task that was claimed
unfoldable pub check_claim :
    Env → PassiveClaimIn → ℕ → Graph → Option Task → Graph × Reply ClaimGrant
unfolding rollback_claim record_passive_event
check_claim env body expires_at_ts g none = (g, blocked not_claimed)
check_claim env body expires_at_ts g (some task) =
    let candidate = normalize_idle_candidate task env.now_ms in
    if not (is_passive_safe candidate)
    then (rollback_claim env body.task_id env.claim_id "safety_rejected" g, blocked safety_rejected)
    else if not (capabilities_match candidate body.capabilities)
    then (
      rollback_claim env body.task_id env.claim_id "capability_mismatch" g,
      blocked capability_mismatch,
    )
    else let (g', event_id) =
        record_passive_event env.logger
          (record (event "passive_claim.created") {
            agent_id = some body.agent_id;
            task_id = some body.task_id;
            claim_id = some env.claim_id;
            lease_id = body.lease_id;
            status = some claimed_passive;
            action = some "passive_claimed";
          })
          g in
      (
        g',
        granted (record {
          claim_id = env.claim_id;
          event_id = event_id;
          task_id = body.task_id;
          agent_id = body.agent_id;
          mode = body.mode;
          lease_id = body.lease_id;
          issued_at_ts = env.now_ms;
          expires_at_ts = expires_at_ts;
          ttl_seconds = body.ttl_seconds;
          review_only = true;
          execution_allowed = false;
          write_allowed = false;
          candidate = candidate;
        }),
      )

unfoldable pub claim_passive_task : Env → PassiveClaimIn → Graph → Graph × Reply ClaimGrant
unfolding check_claim tx_claim_passive_task
claim_passive_task env body g =
    if not (is_mode body.mode)
    then (g, blocked invalid_mode)
    else if body.mode == "claim_ready" && not body.operator_approved
    then (g, blocked approval_required)
    else if not env.tx_ok
    then (g, blocked neo4j_error)
    else let expires_at_ts = env.now_ms + body.ttl_seconds * 1000 in
      let (g', row) = tx_claim_passive_task env body expires_at_ts g in
      check_claim env body expires_at_ts g' row
