-- ===== src/Passive/Claims/Lease.antt =====
-- passive_claims.py: what the holder of a claim can do to it, and when.
use auto_assist.Prelude.{
  ℕ, ◌+◌, ◌-◌, ◌*◌, ◌/◌, ◌≡◌, refl, ap, ◌∙◌, ◌⊎◌, inl, inr, Bool, true, false, ◌&&◌, Option, none,
  some, List, [], ◌∷◌, arith, any, Bool-cases,
}
use auto_assist.Passive.Graph.{Task, Graph, update_tasks, first_task}
use auto_assist.Passive.Claims.Base.{
  Env, Reason, Reply, granted, blocked, neo4j_error, not_renewed, not_released,
  tasks-record_passive_event, merge_if,
}
use auto_assist.Passive.Claims.Renew.{
  PassiveClaimRenewIn, RenewGrant, busy_renewing, is_renewable, set_renewal, tx_renew_passive_claim,
  answer_renewal, renew_passive_claim,
}
use auto_assist.Passive.Claims.Release.{
  PassiveClaimReleaseIn, ReleaseGrant, idle_after_release, next_status_for_release, is_releasable,
  set_release, tx_release_passive_claim, answer_release, release_passive_claim,
}

-- a row comes back exactly when a task is matched
first_task-any :
    (p : Task → Bool) (f : Task → Task) (tasks : List Task)
    → (any p tasks ≡ false × first_task p f tasks ≡ none)
      ⊎ ((t : Task) × (any p tasks ≡ true) × (first_task p f tasks ≡ some t))
unfolding first_task
first_task-any p f [] = inl (refl, refl)
first_task-any p f (t ∷ tasks) = elim (Bool-cases (p t)) [
  | inl hit ↦ inr (f t, ground arith, rw hit)
  | inr miss ↦ elim (first_task-any p f tasks) [
    | inl (h, e) ↦ inl (ground arith, ground arith)
    | inr (u, h, e) ↦ inr (u, ground arith, ground arith)
  ]
]

update_tasks-none :
    (p : Task → Bool) (f : Task → Task) (tasks : List Task)
    → any p tasks ≡ false
    → update_tasks p f tasks ≡ tasks
update_tasks-none p f [] h = refl
update_tasks-none p f (t ∷ tasks) h = ground (arith, update_tasks-none p f tasks)

seconds-left : (now ttl : ℕ) → (now + ttl * 1000 - now) / 1000 ≡ ttl
seconds-left now ttl = omega arith

module _ (env : Env) (body : PassiveClaimRenewIn) (g : Graph) where
  abbrev pub new_expiry : ℕ
  new_expiry = env.now_ms + body.ttl_seconds * 1000

  abbrev pub renewed_tasks : List Task
  renewed_tasks = update_tasks (is_renewable env body) (set_renewal env body new_expiry) g.tasks

  abbrev renewed_row : Option Task
  renewed_row = first_task (is_renewable env body) (set_renewal env body new_expiry) g.tasks

  abbrev renewed_graph : Option Task → Graph
  renewed_graph r = record g {
    tasks = renewed_tasks;
    agents = merge_if r body.agent_id (busy_renewing env body) g.agents;
  }

  renewal-raised : env.tx_ok ≡ false → renew_passive_claim env body g ≡ (g, blocked neo4j_error)
  unfolding renew_passive_claim
  renewal-raised h = rw h

  renewal-answered :
      env.tx_ok ≡ true
      → (r : Option Task) → renewed_row ≡ r
      → renew_passive_claim env body g ≡ answer_renewal env body new_expiry (renewed_graph r) r
  unfolding renew_passive_claim tx_renew_passive_claim
  renewal-answered ok r h = rw (ok, h)

  answer-granted :
      (h : Graph) (t : Task)
      → (grant : RenewGrant) × ((answer_renewal env body new_expiry h (some t)).1 ≡ granted grant)
        × (grant.expires_at_ts ≡ new_expiry)
        × (grant.seconds_remaining ≡ body.ttl_seconds)
        × ((answer_renewal env body new_expiry h (some t)).0.tasks ≡ h.tasks)
  unfolding answer_renewal
  answer-granted h t = (
    _,
    refl,
    refl,
    seconds-left env.now_ms body.ttl_seconds,
    tasks-record_passive_event env.logger _ h,
  )

  answer-blocked :
      (h : Graph) → answer_renewal env body new_expiry h none ≡ (h, blocked not_renewed)
  unfolding answer_renewal
  answer-blocked h = refl

  -- A renewal is granted exactly when the graph answers and some task with the id is
  -- CLAIMED_PASSIVE under the claim id and the agent of the request and has not expired. It then
  -- ends ttl_seconds after now, which the reply gives both as a time and as the seconds that
  -- remain, and exactly the matching tasks are updated. A renewal that is not granted changes no
  -- task.
  pub renew_passive_claim-exact :
      ((grant : RenewGrant) × ((renew_passive_claim env body g).1 ≡ granted grant)
        × (env.tx_ok ≡ true)
        × (any (is_renewable env body) g.tasks ≡ true)
        × (grant.expires_at_ts ≡ new_expiry)
        × (grant.seconds_remaining ≡ body.ttl_seconds)
        × ((renew_passive_claim env body g).0.tasks ≡ renewed_tasks))
      ⊎ ((r : Reason) × ((renew_passive_claim env body g).1 ≡ blocked r)
          × ((env.tx_ok && any (is_renewable env body) g.tasks) ≡ false)
          × ((renew_passive_claim env body g).0.tasks ≡ g.tasks))
  renew_passive_claim-exact = elim (Bool-cases env.tx_ok) [
    | inr raised ↦
        inr (neo4j_error, rw (renewal-raised raised), ground arith, rw (renewal-raised raised))
    | inl ok ↦
        elim (first_task-any (is_renewable env body) (set_renewal env body new_expiry) g.tasks) [
          | inl (h, e) ↦
              let q = renewal-answered ok none e ∙ answer-blocked (renewed_graph none) in
              inr (
                not_renewed,
                rw q,
                ground arith,
                rw (
                  q,
                  update_tasks-none (is_renewable env body) (set_renewal env body new_expiry)
                      g.tasks h,
                ),
              )
          | inr (t, h, e) ↦
              let (grant, given, ends, left, same) = answer-granted (renewed_graph (some t)) t in
              let q = renewal-answered ok (some t) e in
              inl (
                grant,
                ap (λ (r : Graph × Reply RenewGrant). r.1) q ∙ given,
                ok,
                h,
                ends,
                left,
                ap (λ (r : Graph × Reply RenewGrant). r.0.tasks) q ∙ same,
              )
        ]
  ]

module _ (env : Env) (body : PassiveClaimReleaseIn) (g : Graph) where
  abbrev pub released_tasks : List Task
  released_tasks = update_tasks (is_releasable body) (set_release env body) g.tasks

  abbrev released_row : Option Task
  released_row = first_task (is_releasable body) (set_release env body) g.tasks

  abbrev released_graph : Option Task → Graph
  released_graph r = record g {
    tasks = released_tasks;
    agents = merge_if r body.agent_id (idle_after_release env body) g.agents;
  }

  release-raised : env.tx_ok ≡ false → release_passive_claim env body g ≡ (g, blocked neo4j_error)
  unfolding release_passive_claim
  release-raised h = rw h

  release-answered :
      env.tx_ok ≡ true
      → (r : Option Task) → released_row ≡ r
      → release_passive_claim env body g ≡ answer_release env body (released_graph r) r
  unfolding release_passive_claim tx_release_passive_claim
  release-answered ok r h = rw (ok, h)

  release-granted :
      (h : Graph) (t : Task)
      → (grant : ReleaseGrant) × ((answer_release env body h (some t)).1 ≡ granted grant)
        × (grant.next_status ≡ next_status_for_release body.result)
        × ((answer_release env body h (some t)).0.tasks ≡ h.tasks)
  unfolding answer_release
  release-granted h t = (_, refl, refl, tasks-record_passive_event env.logger _ h)

  release-blocked : (h : Graph) → answer_release env body h none ≡ (h, blocked not_released)
  unfolding answer_release
  release-blocked h = refl

  -- A release is granted exactly when the graph answers and some task with the id carries the claim
  -- id and the agent of the request, expired or not. It then updates exactly the matching tasks. A
  -- release that is not granted changes no task.
  pub release_passive_claim-exact :
      ((grant : ReleaseGrant) × ((release_passive_claim env body g).1 ≡ granted grant)
        × (env.tx_ok ≡ true)
        × (any (is_releasable body) g.tasks ≡ true)
        × (grant.next_status ≡ next_status_for_release body.result)
        × ((release_passive_claim env body g).0.tasks ≡ released_tasks))
      ⊎ ((r : Reason) × ((release_passive_claim env body g).1 ≡ blocked r)
          × ((env.tx_ok && any (is_releasable body) g.tasks) ≡ false)
          × ((release_passive_claim env body g).0.tasks ≡ g.tasks))
  release_passive_claim-exact = elim (Bool-cases env.tx_ok) [
    | inr raised ↦
        inr (neo4j_error, rw (release-raised raised), ground arith, rw (release-raised raised))
    | inl ok ↦ elim (first_task-any (is_releasable body) (set_release env body) g.tasks) [
      | inl (h, e) ↦
          let q = release-answered ok none e ∙ release-blocked (released_graph none) in
          inr (
            not_released,
            rw q,
            ground arith,
            rw (q, update_tasks-none (is_releasable body) (set_release env body) g.tasks h),
          )
      | inr (t, h, e) ↦
          let (grant, given, status, same) = release-granted (released_graph (some t)) t in
          let q = release-answered ok (some t) e in
          inl (
            grant,
            ap (λ (r : Graph × Reply ReleaseGrant). r.1) q ∙ given,
            ok,
            h,
            status,
            ap (λ (r : Graph × Reply ReleaseGrant). r.0.tasks) q ∙ same,
          )
    ]
  ]
