-- ===== src/Passive/Claims/Holder.antt =====
-- passive_claims.py: who can renew or release a claim, in terms of the task's properties.
use auto_assist.Prelude.{
  ℕ, ◌+◌, ◌*◌, ◌≤◌, ◌≡◌, ◌↔◌, ◌⊎◌, inl, inr, refl, sym, subst, ap, ◌∙◌, String, ◌==◌, if◌then◌else◌,
  if_true, if_false, false-ne-true, lower, Bool, true, false, ◌&&◌, eq_iff, Option, none, some,
  List, [], ◌∷◌, arith, any, All, leb→le, get_or, upper, Bool-cases,
}
use auto_assist.Passive.Graph.{Task, Graph, key, equals, update_tasks}
use auto_assist.Passive.Claims.Base.{Env, Reason, granted, blocked, expiry, claimed_passive}
use auto_assist.Passive.Claims.Renew.{
  PassiveClaimRenewIn, RenewGrant, is_renewable, set_renewal, renew_passive_claim,
}
use auto_assist.Passive.Claims.Release.{
  PassiveClaimReleaseIn, ReleaseGrant, next_status_for_release, is_releasable, set_release,
  release_passive_claim,
}
use auto_assist.Passive.Claims.Lease.{renew_passive_claim-exact, release_passive_claim-exact}

-- the task carries the claim of the agent
pub record IsHeld (agent_id claim_id task_id : String) (t : Task) : Type 0 where
  pub named : key t ≡ some task_id
  pub claimed : t.claim.claim_id ≡ some claim_id
  pub owned : t.claim.agent_id ≡ some agent_id

-- … and is claimed, at least until now
pub record IsCurrent (now_ms : ℕ) (t : Task) : Type 0 where
  pub status : upper (get_or t.status "") ≡ claimed_passive
  pub unexpired : now_ms ≤ expiry t

abbrev pub CanRenew : Env → PassiveClaimRenewIn → Task → Type 0
CanRenew env body t = IsHeld body.agent_id body.claim_id body.task_id t × IsCurrent env.now_ms t

abbrev pub CanRelease : PassiveClaimReleaseIn → Task → Type 0
CanRelease body t = IsHeld body.agent_id body.claim_id body.task_id t

-- the task is an element of the list with the property
abbrev pub Some : (Task → Type 0) → List Task → Type 0
Some P [] = ⊥
Some P (t ∷ tasks) = P t ⊎ Some P tasks

-- Task by task: one with the property becomes one that the relation allows, any other stays.
abbrev pub Changes : (Task → Type 0) → (Task → Task → Type 0) → List Task → List Task → Type 0
Changes P R [] [] = Unit
Changes P R [] (u ∷ us) = ⊥
Changes P R (t ∷ ts) [] = ⊥
Changes P R (t ∷ ts) (u ∷ us) = ((P t × R t u) ⊎ ((P t → ⊥) × (u ≡ t))) × Changes P R ts us

-- a task whose claim is extended to `ends`, and which is the same otherwise
pub record IsRenewed (now_ms ends : ℕ) (t u : Task) : Type 0 where
  pub ending : u.claim.expires_at_ts ≡ some ends
  pub renewed : u.claim.renewed_at_ts ≡ some now_ms
  pub claimed : u.claim.claim_id ≡ t.claim.claim_id
  pub owned : u.claim.agent_id ≡ t.claim.agent_id
  pub status : u.status ≡ t.status
  pub previous : u.previous_status ≡ t.previous_status
  pub details : u.details ≡ t.details

-- READY, or REVIEW after a completed review, in letters of either case
abbrev pub status_after : String → String
status_after result = if lower result == "completed_review" then "REVIEW" else "READY"

-- a task without a claim, which names the one that it had
pub record IsFreed (now_ms : ℕ) (result : String) (t u : Task) : Type 0 where
  pub claim_id : u.claim.claim_id ≡ none
  pub agent_id : u.claim.agent_id ≡ none
  pub lease_id : u.claim.lease_id ≡ none
  pub mode : u.claim.mode ≡ none
  pub ending : u.claim.expires_at_ts ≡ none
  pub status : u.status ≡ some (status_after result)
  pub last_claim : u.last.claim_id ≡ t.claim.claim_id
  pub last_agent : u.last.agent_id ≡ t.claim.agent_id
  pub last_result : u.last.result ≡ some result
  pub released : u.last.released_at_ts ≡ some now_ms
  pub details : u.details ≡ t.details

abbrev pub None : (Task → Type 0) → List Task → Type 0
None P tasks = All (λ (t : Task). P t → ⊥) tasks

some-inj : (j k : String) → some j ≡ some k → j ≡ k
some-inj j k e = ground arith

equals_iff : (o : Option String) (k : String) → (equals o k ≡ true) ↔ (o ≡ some k)
equals_iff none k = (λ h. ground arith, λ h. ground arith)
equals_iff (some j) k = (λ h. ap some ((eq_iff j k).0 h), λ h. (eq_iff j k).1 (some-inj j k h))

module _ (p : Task → Bool) (P : Task → Type 0) (agree : (t : Task) → (p t ≡ true) ↔ P t) where
  any-Some : (tasks : List Task) → any p tasks ≡ true → Some P tasks
  any-Some [] h = ground arith
  any-Some (t ∷ tasks) h = elim (Bool-cases (p t)) [
    | inl hit ↦ inl ((agree t).0 hit)
    | inr miss ↦ inr (any-Some tasks (ground arith))
  ]

  any-None : (tasks : List Task) → any p tasks ≡ false → None P tasks
  any-None [] h = tt
  any-None (t ∷ tasks) h = (
    (λ (x : P t). let hit = (agree t).1 x in ground (arith, h, hit)),
    any-None tasks (ground (arith, h)),
  )

  update_tasks-Changes :
      (R : Task → Task → Type 0) (f : Task → Task)
      → ((t : Task) → R t (f t))
      → (tasks : List Task) → Changes P R tasks (update_tasks p f tasks)
  update_tasks-Changes R f made [] = tt
  update_tasks-Changes R f made (t ∷ tasks) = (
    (elim (Bool-cases (p t)) [
      | inl hit ↦ inl ((agree t).0 hit, subst (R t) (sym (if_true _ _ _ hit)) (made t))
      | inr miss ↦ inr ((λ (x : P t). false-ne-true miss ((agree t).1 x)), if_false _ _ _ miss)
    ]),
    update_tasks-Changes R f made tasks,
  )

  failed_or_None :
      (ok : Bool) (tasks : List Task) → (ok && any p tasks) ≡ false → (ok ≡ false) ⊎ None P tasks
  failed_or_None true tasks h = inr (any-None tasks (ground (arith, h)))
  failed_or_None false tasks h = inl refl

is_renewable_iff :
    (env : Env) (body : PassiveClaimRenewIn) (t : Task)
    → (is_renewable env body t ≡ true) ↔ CanRenew env body t
is_renewable_iff env body t = (
  λ h. (
    record {
      named = (equals_iff (key t) body.task_id).0 (ground arith);
      claimed = (equals_iff t.claim.claim_id body.claim_id).0 (ground arith);
      owned = (equals_iff t.claim.agent_id body.agent_id).0 (ground arith);
    },
    record {
      status = (eq_iff (upper (get_or t.status "")) claimed_passive).0 (ground arith);
      unexpired = leb→le env.now_ms (expiry t) (ground arith);
    },
  ),
  λ (held, current). ground (
    arith,
    (equals_iff (key t) body.task_id).1 held.named,
    (equals_iff t.claim.claim_id body.claim_id).1 held.claimed,
    (equals_iff t.claim.agent_id body.agent_id).1 held.owned,
    (eq_iff (upper (get_or t.status "")) claimed_passive).1 current.status,
    current.unexpired,
  ),
)

is_releasable_iff :
    (body : PassiveClaimReleaseIn) (t : Task) → (is_releasable body t ≡ true) ↔ CanRelease body t
is_releasable_iff body t = (
  λ h. record {
    named = (equals_iff (key t) body.task_id).0 (ground arith);
    claimed = (equals_iff t.claim.claim_id body.claim_id).0 (ground arith);
    owned = (equals_iff t.claim.agent_id body.agent_id).0 (ground arith);
  },
  λ held. ground (
    arith,
    (equals_iff (key t) body.task_id).1 held.named,
    (equals_iff t.claim.claim_id body.claim_id).1 held.claimed,
    (equals_iff t.claim.agent_id body.agent_id).1 held.owned,
  ),
)

set_renewal-IsRenewed :
    (env : Env) (body : PassiveClaimRenewIn) (ends : ℕ) (t : Task)
    → IsRenewed env.now_ms ends t (set_renewal env body ends t)
unfolding set_renewal
set_renewal-IsRenewed env body ends t = record {
  ending = refl;
  renewed = refl;
  claimed = refl;
  owned = refl;
  status = refl;
  previous = refl;
  details = refl;
}

next_status-after : (result : String) → next_status_for_release result ≡ status_after result
unfolding next_status_for_release lower
next_status-after result = elim (Bool-cases (result == "")) [
  | inl empty ↦ rw ((eq_iff result "").0 empty) refl
  | inr full ↦ ground (arith, full)
]

set_release-IsFreed :
    (env : Env) (body : PassiveClaimReleaseIn) (t : Task)
    → IsFreed env.now_ms body.result t (set_release env body t)
unfolding set_release
set_release-IsFreed env body t = record {
  claim_id = refl;
  agent_id = refl;
  lease_id = refl;
  mode = refl;
  ending = refl;
  status = ap some (next_status-after body.result);
  last_claim = refl;
  last_agent = refl;
  last_result = refl;
  released = refl;
  details = refl;
}

-- A renewal is granted exactly when the graph answers and some task has the request's id, carries
-- its claim for its agent, is CLAIMED_PASSIVE and has not expired. It then ends ttl_seconds after
-- now, which the reply gives both as a time and as the seconds that remain, and on the tasks that meet
-- this the claim is set to end then and keeps its id, its agent, the statuses and the details. All
-- other tasks stay as they are, and a renewal that is not granted changes no task.
pub renew_passive_claim_iff :
    (env : Env) (body : PassiveClaimRenewIn) (g : Graph)
    → let (g', reply) = renew_passive_claim env body g in
      let ends = env.now_ms + body.ttl_seconds * 1000 in
      ((grant : RenewGrant) × (reply ≡ granted grant)
        × (env.tx_ok ≡ true)
        × Some (CanRenew env body) g.tasks
        × (grant.expires_at_ts ≡ ends)
        × (grant.seconds_remaining ≡ body.ttl_seconds)
        × Changes (CanRenew env body) (IsRenewed env.now_ms ends) g.tasks g'.tasks)
      ⊎ ((r : Reason) × (reply ≡ blocked r)
          × ((env.tx_ok ≡ false) ⊎ None (CanRenew env body) g.tasks)
          × (g'.tasks ≡ g.tasks))
renew_passive_claim_iff env body g =
    let P = CanRenew env body in
    let agree = is_renewable_iff env body in
    elim (renew_passive_claim-exact env body g) [
      | inl (grant, told, ok, hit, ends, left, same) ↦ inl (
        grant,
        told,
        ok,
        any-Some (is_renewable env body) P agree g.tasks hit,
        ends,
        left,
        subst (Changes P (IsRenewed env.now_ms (env.now_ms + body.ttl_seconds * 1000)) g.tasks)
            (sym same)
            (update_tasks-Changes (is_renewable env body) P agree _ _
              (set_renewal-IsRenewed env body _) g.tasks),
      )
      | inr (r, told, missed, same) ↦
          inr
            (r, told, failed_or_None (is_renewable env body) P agree env.tx_ok g.tasks missed, same)
    ]

-- A release is granted exactly when the graph answers and some task has the request's id and
-- carries its claim for its agent, expired or not. Those tasks then have no claim, agent, lease, mode
-- or end left, name that claim with its agent, result and time as their last, and are READY, or
-- REVIEW where the result is completed_review, as the reply says. All other tasks stay as they are,
-- and a release that is not granted changes no task.
pub release_passive_claim_iff :
    (env : Env) (body : PassiveClaimReleaseIn) (g : Graph)
    → let (g', reply) = release_passive_claim env body g in
      ((grant : ReleaseGrant) × (reply ≡ granted grant)
        × (env.tx_ok ≡ true)
        × Some (CanRelease body) g.tasks
        × (grant.next_status ≡ status_after body.result)
        × Changes (CanRelease body) (IsFreed env.now_ms body.result) g.tasks g'.tasks)
      ⊎ ((r : Reason) × (reply ≡ blocked r)
          × ((env.tx_ok ≡ false) ⊎ None (CanRelease body) g.tasks)
          × (g'.tasks ≡ g.tasks))
release_passive_claim_iff env body g =
    let P = CanRelease body in
    let agree = is_releasable_iff body in
    elim (release_passive_claim-exact env body g) [
      | inl (grant, told, ok, hit, status, same) ↦ inl (
        grant,
        told,
        ok,
        any-Some (is_releasable body) P agree g.tasks hit,
        status ∙ next_status-after body.result,
        subst (Changes P (IsFreed env.now_ms body.result) g.tasks) (sym same) (
            update_tasks-Changes (is_releasable body) P agree _ _ (set_release-IsFreed env body)
              g.tasks),
      )
      | inr (r, told, missed, same) ↦
          inr (r, told, failed_or_None (is_releasable body) P agree env.tx_ok g.tasks missed, same)
    ]
