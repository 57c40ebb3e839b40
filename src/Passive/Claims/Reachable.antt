-- ===== src/Passive/Claims/Reachable.antt =====
-- passive_claims.py: every graph that a sequence of requests and sweeps can reach.
use auto_assist.Prelude.{
  ℕ, ◌≤◌, any, count, ◌≡◌, sym, subst, inl, inr, true, false, List, arith, All, All-imp,
}
use auto_assist.Passive.Graph.{Task, Graph}
use auto_assist.Passive.Claims.Base.{Env, Logger, Reply, granted}
use auto_assist.Passive.Claims.Create.{
  PassiveClaimIn, ClaimGrant, is_claimable, set_claim, holds_claim, undo_claim, rollback_claim,
  claim_passive_task,
}
use auto_assist.Passive.Claims.Renew.{PassiveClaimRenewIn, is_renewable, renew_passive_claim}
use auto_assist.Passive.Claims.Release.{PassiveClaimReleaseIn, is_releasable, release_passive_claim}
use auto_assist.Passive.Claims.Expire.{
  has_expired, overdue, is_among, ExpiredRow, set_expired, expire_passive_claims,
}
use auto_assist.Passive.Claims.Grant.{claim_passive_task_cases, expires, claimed_graph}
use auto_assist.Passive.Claims.Rollback.{tasks-tx, tasks-rollback_cases}
use auto_assist.Passive.Claims.Sweep.{expire_tasks_cases, expire_passive_claims-clears}
use auto_assist.Passive.Claims.Lease.{renew_passive_claim-exact, release_passive_claim-exact}
use auto_assist.Passive.Claims.Expiry.{IsRestorable}
use auto_assist.Passive.Claims.Coherent.{
  IsSound, All-update, set_claim-IsSound, undo_claim-IsSound, set_renewal-IsSound,
  set_release-IsSound, set_expired-IsSound,
}

module _ (env : Env) (g : Graph) (sound : All IsSound g.tasks) where
  claimed-tasks : (body : PassiveClaimIn) → All IsSound (claimed_graph env body g).tasks
  claimed-tasks body = subst (All IsSound) (sym (tasks-tx env body g)) (
      All-update IsSound (is_claimable body.task_id) (set_claim env body (expires env body g))
        (λ t hit h. set_claim-IsSound env body _ body.task_id t hit h) g.tasks sound)

  undone-tasks :
      (body : PassiveClaimIn)
      → All IsSound
          (rollback_claim env body.task_id env.claim_id "safety_rejected"
            (claimed_graph env body g)).tasks
  undone-tasks body = elim (tasks-rollback_cases env body g (claimed_graph env body g)) [
    | inl same ↦ subst (All IsSound) (sym same) (claimed-tasks body)
    | inr undone ↦ subst (All IsSound) (sym undone) (
        All-update IsSound (holds_claim body.task_id env.claim_id)
          (undo_claim env "safety_rejected") (λ t hit h. undo_claim-IsSound env _ t h)
          (claimed_graph env body g).tasks (claimed-tasks body))
  ]

  claim-tasks : (body : PassiveClaimIn) → All IsSound (claim_passive_task env body g).0.tasks
  claim-tasks body = elim (claim_passive_task_cases env body g) [
    | inl (r, e, other) ↦
        subst (λ (q : Graph × Reply ClaimGrant). All IsSound q.0.tasks) (sym e) sound
    | inr (inl (absent, e)) ↦
        subst (λ (q : Graph × Reply ClaimGrant). All IsSound q.0.tasks) (sym e) (claimed-tasks body)
    | inr (inr (t, found, e)) ↦
        subst (λ (q : Graph × Reply ClaimGrant). All IsSound q.0.tasks) (sym e) (undone-tasks body)
  ]

  renew-tasks : (body : PassiveClaimRenewIn) → All IsSound (renew_passive_claim env body g).0.tasks
  renew-tasks body = elim (renew_passive_claim-exact env body g) [
    | inl (grant, told, ok, hit, ends, left, same) ↦ subst (All IsSound) (sym same) (
        All-update IsSound (is_renewable env body) _ (λ t hit h. set_renewal-IsSound env body _ t h)
          g.tasks sound)
    | inr (r, told, missed, same) ↦ subst (All IsSound) (sym same) sound
  ]

  release-tasks :
      (body : PassiveClaimReleaseIn) → All IsSound (release_passive_claim env body g).0.tasks
  release-tasks body = elim (release_passive_claim-exact env body g) [
    | inl (grant, told, ok, hit, status, same) ↦ subst (All IsSound) (sym same) (
        All-update IsSound (is_releasable body) _ (λ t hit h. set_release-IsSound env body t h)
          g.tasks sound)
    | inr (r, told, missed, same) ↦ subst (All IsSound) (sym same) sound
  ]

  expire-tasks :
      (loggers : ℕ → Logger) (limit : ℕ)
      → All IsSound (expire_passive_claims env loggers limit g).0.tasks
  expire-tasks loggers limit = elim (expire_tasks_cases env loggers limit g) [
    | inl same ↦ subst (All IsSound) (sym same) sound
    | inr swept ↦ subst (All IsSound) (sym swept) (
        All-update IsSound (is_among (overdue env.now_ms limit g.tasks)) (set_expired env)
          (λ t hit h. set_expired-IsSound env t h) g.tasks sound)
  ]

-- One request or sweep, whatever its clock, UUIDs and failures.
pub data Step (g : Graph) : Graph → Type 0 where
  claims : (env : Env) (body : PassiveClaimIn) → Step g (claim_passive_task env body g).0
  renews : (env : Env) (body : PassiveClaimRenewIn) → Step g (renew_passive_claim env body g).0
  releases :
      (env : Env) (body : PassiveClaimReleaseIn) → Step g (release_passive_claim env body g).0
  sweeps :
      (env : Env) (loggers : ℕ → Logger) (limit : ℕ)
      → Step g (expire_passive_claims env loggers limit g).0

pub data Reach (start : Graph) : Graph → Type 0 where
  here : Reach start start
  next : {g g' : Graph} → Reach start g → Step g g' → Reach start g'

Step-IsSound : {g g' : Graph} → All IsSound g.tasks → Step g g' → All IsSound g'.tasks
Step-IsSound {g} sound (claims env body) = claim-tasks env g sound body
Step-IsSound {g} sound (renews env body) = renew-tasks env g sound body
Step-IsSound {g} sound (releases env body) = release-tasks env g sound body
Step-IsSound {g} sound (sweeps env loggers limit) = expire-tasks env g sound loggers limit

-- In every graph that claims, renewals, releases and sweeps can reach from one whose tasks are
-- sound, under any clock and any failures, the tasks are sound: a claimed task names its claim, its
-- agent and its end, and no task goes back to the status CLAIMED_PASSIVE.
pub Reach-IsSound :
    (start g : Graph) → All IsSound start.tasks → Reach start g → All IsSound g.tasks
Reach-IsSound start _ sound here = sound
Reach-IsSound start _ sound (next r s) = Step-IsSound (Reach-IsSound start _ sound r) s

IsSound-IsRestorable : (now_ms : ℕ) (t : Task) → IsSound t → IsRestorable now_ms t
IsSound-IsRestorable now_ms t h = (h.resting, λ e. h.owned (ground (arith, e)))

-- In a graph that claims, renewals, releases and sweeps can reach from one whose tasks are sound,
-- a sweep that does not raise and whose limit covers the expired claims succeeds and leaves no
-- expired claim.
pub Reach-cleared :
    (start g : Graph) (env : Env) (loggers : ℕ → Logger) (limit : ℕ)
    → All IsSound start.tasks
    → Reach start g
    → env.tx_ok ≡ true
    → count (has_expired env.now_ms) g.tasks ≤ limit
    → (found : List ExpiredRow) × ((expire_passive_claims env loggers limit g).1 ≡ granted found)
      × (any (has_expired env.now_ms) (expire_passive_claims env loggers limit g).0.tasks ≡ false)
Reach-cleared start g env loggers limit sound r ok few =
    let good =
      All-imp IsSound (IsRestorable env.now_ms) (IsSound-IsRestorable env.now_ms) g.tasks
        (Reach-IsSound start g sound r) in
    let (found, told, counted, none_left) =
      expire_passive_claims-clears env loggers limit g ok good few in
    (found, told, none_left)
