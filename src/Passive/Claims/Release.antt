-- ===== src/Passive/Claims/Release.antt =====
-- passive_claims.py: `release_passive_claim`.
use auto_assist.Prelude.{
  ℕ, String, Bool, not, ◌&&◌, ◌||◌, Option, none, some, ◌==◌, lower, if◌then◌else◌,
}
use auto_assist.Passive.Graph.{no_claim, Task, Agent, Graph, key, equals, update_tasks, first_task}
use auto_assist.Passive.Plan.{cut_summary}
use auto_assist.Passive.Claims.Base.{
  Env, neo4j_error, not_released, Reply, granted, blocked, event, record_passive_event, merge_if,
}

pub record PassiveClaimReleaseIn : Type 0 where
  pub agent_id : String
  pub claim_id : String
  pub task_id : String
  pub result : String
  pub summary : Option String
  pub metadata : String

pub record ReleaseGrant : Type 0 where
  pub event_id : Option String
  pub result : String
  pub released_at_ts : ℕ
  pub next_status : String

abbrev pub is_result : String → Bool
is_result r = r == "interrupted" || r == "abandoned" || r == "released" || r == "expired"

unfoldable pub next_status_for_release : String → String
next_status_for_release result =
    let normalized = lower (if result == "" then "released" else result) in
    if normalized == "completed_review"
    then "REVIEW"
    else if is_result normalized
    then "READY"
    else "READY"

abbrev pub is_releasable : PassiveClaimReleaseIn → Task → Bool
is_releasable body t =
    equals (key t) body.task_id
    && equals t.claim.claim_id body.claim_id
    && equals t.claim.agent_id body.agent_id

unfoldable pub set_release : Env → PassiveClaimReleaseIn → Task → Task
unfolding next_status_for_release
set_release env body t = record t {
  status = some (next_status_for_release body.result);
  claim = no_claim;
  last = record {
    claim_id = t.claim.claim_id;
    agent_id = t.claim.agent_id;
    result = some body.result;
    summary = cut_summary body.summary;
    released_at = some env.datetime;
    released_at_ts = some env.now_ms;
    metadata = some body.metadata;
  };
}

abbrev pub idle_after_release : Env → PassiveClaimReleaseIn → Agent → Agent
idle_after_release env body a = record a {
  status = some "idle";
  current_task_id = none;
  last_completed_task_id =
      if body.result == "completed_review" then some body.task_id else a.last_completed_task_id;
  last_result_summary = cut_summary body.summary;
  last_seen_at = some env.datetime;
  last_seen_at_ts = some env.now_ms;
  action = some "passive_claim_released";
  recommended_task_id = none;
}

unfoldable pub tx_release_passive_claim : Env → PassiveClaimReleaseIn → Graph → Graph × Option Task
unfolding set_release
tx_release_passive_claim env body g =
    let f = set_release env body in
    let row = first_task (is_releasable body) f g.tasks in
    (
      record g {
        tasks = update_tasks (is_releasable body) f g.tasks;
        agents = merge_if row body.agent_id (idle_after_release env body) g.agents;
      },
      row,
    )

unfoldable pub answer_release :
    Env → PassiveClaimReleaseIn → Graph → Option Task → Graph × Reply ReleaseGrant
unfolding record_passive_event next_status_for_release
answer_release env body g none = (g, blocked not_released)
answer_release env body g (some row) =
    let (g', event_id) =
      record_passive_event env.logger
        (record (event "passive_claim.released") {
          agent_id = some body.agent_id;
          task_id = some body.task_id;
          claim_id = some body.claim_id;
          action = some "passive_claim_released";
          result = some body.result;
          summary = cut_summary body.summary;
        })
        g in
    (
      g',
      granted (record {
        event_id = event_id;
        result = body.result;
        released_at_ts = env.now_ms;
        next_status = next_status_for_release body.result;
      }),
    )

unfoldable pub release_passive_claim :
    Env → PassiveClaimReleaseIn → Graph → Graph × Reply ReleaseGrant
unfolding answer_release tx_release_passive_claim
release_passive_claim env body g =
    if not env.tx_ok
    then (g, blocked neo4j_error)
    else let (g', row) = tx_release_passive_claim env body g in answer_release env body g' row
