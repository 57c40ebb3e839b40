-- ===== src/Passive/Claims/Renew.antt =====
-- passive_claims.py: `renew_passive_claim`.
use auto_assist.Prelude.{
  ℕ, ◌+◌, ◌-◌, ◌*◌, ◌/◌, min, max, String, Bool, true, false, not, ◌&&◌, Option, none, some, leb,
  if◌then◌else◌,
}
use auto_assist.Passive.Graph.{Task, Agent, Graph, key, equals, update_tasks, first_task}
use auto_assist.Passive.Plan.{cut_summary}
use auto_assist.Passive.Claims.Base.{
  Env, neo4j_error, not_renewed, Reply, granted, blocked, event, record_passive_event, merge_if,
  is_claimed, expiry,
}

pub record PassiveClaimRenewIn : Type 0 where
  pub agent_id : String
  pub claim_id : String
  pub task_id : String
  pub ttl_seconds : ℕ
  pub progress_note : Option String
  pub metadata : String

pub record RenewGrant : Type 0 where
  pub event_id : Option String
  pub renewed_at_ts : ℕ
  pub expires_at_ts : ℕ
  pub ttl_seconds : ℕ
  pub seconds_remaining : ℕ
  pub review_only : Bool
  pub execution_allowed : Bool
  pub write_allowed : Bool
  pub next_heartbeat_seconds : ℕ

abbrev pub is_renewable : Env → PassiveClaimRenewIn → Task → Bool
is_renewable env body t =
    equals (key t) body.task_id
    && is_claimed t
    && equals t.claim.claim_id body.claim_id
    && equals t.claim.agent_id body.agent_id
    && leb env.now_ms (expiry t)

unfoldable pub set_renewal : Env → PassiveClaimRenewIn → ℕ → Task → Task
set_renewal env body expires_at_ts t = record t {
  claim = record t.claim {
    expires_at_ts = some expires_at_ts;
    renewed_at = some env.datetime;
    renewed_at_ts = some env.now_ms;
    progress_note = cut_summary body.progress_note;
    renew_metadata = some body.metadata;
  };
}

abbrev pub busy_renewing : Env → PassiveClaimRenewIn → Agent → Agent
busy_renewing env body a = record a {
  status = some "busy";
  current_task_id = some body.task_id;
  last_seen_at = some env.datetime;
  last_seen_at_ts = some env.now_ms;
  action = some "passive_claim_renewed";
  recommended_task_id = some body.task_id;
  last_result_summary = cut_summary body.progress_note;
}

unfoldable pub tx_renew_passive_claim : Env → PassiveClaimRenewIn → ℕ → Graph → Graph × Option Task
unfolding set_renewal
tx_renew_passive_claim env body expires_at_ts g =
    let f = set_renewal env body expires_at_ts in
    let row = first_task (is_renewable env body) f g.tasks in
    (
      record g {
        tasks = update_tasks (is_renewable env body) f g.tasks;
        agents = merge_if row body.agent_id (busy_renewing env body) g.agents;
      },
      row,
    )

unfoldable pub answer_renewal :
    Env → PassiveClaimRenewIn → ℕ → Graph → Option Task → Graph × Reply RenewGrant
unfolding record_passive_event
answer_renewal env body expires_at_ts g none = (g, blocked not_renewed)
answer_renewal env body expires_at_ts g (some row) =
    let (g', event_id) =
      record_passive_event env.logger
        (record (event "passive_claim.renewed") {
          agent_id = some body.agent_id;
          task_id = some body.task_id;
          claim_id = some body.claim_id;
          action = some "passive_claim_renewed";
          summary = cut_summary body.progress_note;
        })
        g in
    (
      g',
      granted (record {
        event_id = event_id;
        renewed_at_ts = env.now_ms;
        expires_at_ts = expires_at_ts;
        ttl_seconds = body.ttl_seconds;
        seconds_remaining = (expires_at_ts - env.now_ms) / 1000;
        review_only = true;
        execution_allowed = false;
        write_allowed = false;
        next_heartbeat_seconds = min (max (body.ttl_seconds / 3) 30) 300;
      }),
    )

unfoldable pub renew_passive_claim : Env → PassiveClaimRenewIn → Graph → Graph × Reply RenewGrant
unfolding answer_renewal tx_renew_passive_claim
renew_passive_claim env body g =
    if not env.tx_ok
    then (g, blocked neo4j_error)
    else let expires_at_ts = env.now_ms + body.ttl_seconds * 1000 in
      let (g', row) = tx_renew_passive_claim env body expires_at_ts g in
      answer_renewal env body expires_at_ts g' row
