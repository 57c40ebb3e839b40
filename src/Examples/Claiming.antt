-- ===== src/Examples/Claiming.antt =====
-- src/assistx/passive_claims.py at concrete graphs.
use auto_assist.Prelude.{
  All, ℕ, ◌≡◌, ◌≢◌, refl, ◌≤◌, ◌⊎◌, true, false, some, none, List, [], ◌∷◌, arith, any, count,
  upper, lower,
}
use auto_assist.Examples.Agents.{ready}
use auto_assist.Passive.Graph.{Task, Graph, no_claim, update_tasks, first_task}
use auto_assist.Passive.Candidate.{normalize_idle_candidate, is_passive_safe, is_idle_status}
use auto_assist.Passive.Claims.Base.{Env, Reason, granted, blocked, safety_rejected}
use auto_assist.Passive.Claims.Create.{
  PassiveClaimIn, ClaimGrant, claim_passive_task, is_claimable, check_claim, tx_claim_passive_task,
  set_claim,
}
use auto_assist.Passive.Claims.Renew.{PassiveClaimRenewIn, RenewGrant, renew_passive_claim}
use auto_assist.Passive.Claims.Release.{PassiveClaimReleaseIn, ReleaseGrant, release_passive_claim}
use auto_assist.Passive.Claims.Expire.{has_expired, ExpiredRow, expire_passive_claims}
use auto_assist.Passive.Claims.Grant.{claim_passive_task-never_granted}
use auto_assist.Passive.Claims.Rollback.{put_back, claim_passive_task-restored}
use auto_assist.Passive.Claims.Holder.{
  Some, None, Changes, IsRenewed, IsFreed, status_after, CanRenew, CanRelease,
  renew_passive_claim_iff, release_passive_claim_iff,
}
use auto_assist.Passive.Claims.Coherent.{IsSound}
use auto_assist.Passive.Claims.Reachable.{here, next, renews, Reach-IsSound, Reach-cleared}

abbrev pub env : Env
env = record {
  now_ms = 5000;
  claim_id = "claim-1";
  datetime = 5;
  tx_ok = true;
  rollback_ok = true;
  logger = some ("event-1", 5000);
}

abbrev with_ready : Graph
with_ready = record { tasks = ready ∷ []; agents = []; events = [] }

abbrev wish : PassiveClaimIn
wish = record {
  agent_id = "ann";
  task_id = "task-1";
  lease_id = none;
  capabilities = [];
  mode = "review_only";
  ttl_seconds = 900;
  operator_approved = false;
  metadata = "{}";
}

-- the claim of a ready task is rejected
wish_rejected : (claim_passive_task env wish with_ready).1 ≡ blocked safety_rejected
unfolding claim_passive_task check_claim tx_claim_passive_task first_task set_claim
    normalize_idle_candidate is_passive_safe is_idle_status upper lower
wish_rejected = refl

abbrev some_grant : ClaimGrant
some_grant = record {
  claim_id = "claim-1";
  event_id = none;
  task_id = "task-1";
  agent_id = "ann";
  mode = "review_only";
  lease_id = none;
  issued_at_ts = 5000;
  expires_at_ts = 905000;
  ttl_seconds = 900;
  review_only = true;
  execution_allowed = false;
  write_allowed = false;
  candidate = normalize_idle_candidate ready 5000;
}

claim_passive_task-never_granted_example :
    (claim_passive_task env wish with_ready).1 ≢ granted some_grant
claim_passive_task-never_granted_example =
    claim_passive_task-never_granted env wish with_ready some_grant

claim_passive_task-restored_example :
    (claim_passive_task env wish with_ready).0.tasks
    ≡ update_tasks (is_claimable "task-1") (put_back env) (ready ∷ [])
claim_passive_task-restored_example =
    claim_passive_task-restored env wish with_ready refl (refl, tt) wish_rejected

-- a task whose claim ends at 6000
abbrev pub held : Task
held = record ready {
  status = some "CLAIMED_PASSIVE";
  previous_status = some "READY";
  claim = record no_claim {
    claim_id = some "claim-0";
    agent_id = some "ann";
    mode = some "review_only";
    expires_at_ts = some 6000;
  };
}

abbrev with_held : Graph
with_held = record { tasks = held ∷ []; agents = []; events = [] }

abbrev renewal : PassiveClaimRenewIn
renewal = record {
  agent_id = "ann";
  claim_id = "claim-0";
  task_id = "task-1";
  ttl_seconds = 60;
  progress_note = none;
  metadata = "{}";
}

renew_passive_claim_iff_example :
    let (g', reply) = renew_passive_claim env renewal with_held in
    ((grant : RenewGrant) × (reply ≡ granted grant)
      × (env.tx_ok ≡ true)
      × Some (CanRenew env renewal) (held ∷ [])
      × (grant.expires_at_ts ≡ 65000)
      × (grant.seconds_remaining ≡ 60)
      × Changes (CanRenew env renewal) (IsRenewed 5000 65000) (held ∷ []) g'.tasks)
    ⊎ ((r : Reason) × (reply ≡ blocked r)
        × ((env.tx_ok ≡ false) ⊎ None (CanRenew env renewal) (held ∷ []))
        × (g'.tasks ≡ held ∷ []))
renew_passive_claim_iff_example = renew_passive_claim_iff env renewal with_held

abbrev release : PassiveClaimReleaseIn
release = record {
  agent_id = "ann";
  claim_id = "claim-0";
  task_id = "task-1";
  result = "completed_review";
  summary = none;
  metadata = "{}";
}

release_passive_claim_iff_example :
    let (g', reply) = release_passive_claim env release with_held in
    ((grant : ReleaseGrant) × (reply ≡ granted grant)
      × (env.tx_ok ≡ true)
      × Some (CanRelease release) (held ∷ [])
      × (grant.next_status ≡ status_after "completed_review")
      × Changes (CanRelease release) (IsFreed 5000 "completed_review") (held ∷ []) g'.tasks)
    ⊎ ((r : Reason) × (reply ≡ blocked r)
        × ((env.tx_ok ≡ false) ⊎ None (CanRelease release) (held ∷ []))
        × (g'.tasks ≡ held ∷ []))
release_passive_claim_iff_example = release_passive_claim_iff env release with_held

abbrev pub late : Env
late = record env { now_ms = 7000 }

few_expired : count (has_expired 7000) (held ∷ []) ≤ 50
unfolding upper
few_expired = omega arith

held-IsSound : IsSound held
unfolding upper
held-IsSound = record { resting = refl; owned = λ e. refl; named = λ e. refl; ending = λ e. refl }

abbrev renewed : Graph
renewed = (renew_passive_claim env renewal with_held).0

Reach-IsSound_example : All IsSound renewed.tasks
Reach-IsSound_example =
    Reach-IsSound with_held renewed (held-IsSound, tt) (next here (renews env renewal))

held_expired : count (has_expired 7000) with_held.tasks ≡ 1
unfolding upper
held_expired = refl

Reach-cleared_example :
    (found : List ExpiredRow) × ((expire_passive_claims late (λ (i : ℕ). none) 50 with_held).1
      ≡ granted found)
    × (any (has_expired 7000) (expire_passive_claims late (λ (i : ℕ). none) 50 with_held).0.tasks
        ≡ false)
unfolding upper
Reach-cleared_example =
    Reach-cleared with_held with_held late (λ (i : ℕ). none) 50 (held-IsSound, tt) here refl
      (omega arith)
