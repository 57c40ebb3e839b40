-- ===== src/Passive/Claims/Sweep.antt =====
-- passive_claims.py: what one call of `expire_passive_claims` leaves.
use auto_assist.Prelude.{
  ℕ, suc, ◌≤◌, ◌≡◌, refl, ap, ◌∙◌, Bool, true, false, not, none, some, ◌⊎◌, inl, inr, Bool-cases,
  Option-cases, List, [], ◌∷◌, map, any, All, length, count, keep, if◌then◌else◌,
}
use auto_assist.Passive.Graph.{Task, Agent, Graph, update_tasks}
use auto_assist.Passive.Claims.Base.{
  Env, Reply, Logger, granted, blocked, neo4j_error, tasks-record_passive_event,
}
use auto_assist.Passive.Claims.Expire.{
  has_expired, overdue, is_among, set_expired, merge_idle, ExpiredRow, expired_row,
  tx_expire_passive_claims, log_expired, finish_expiry, expire_passive_claims,
}
use auto_assist.Passive.Claims.Expiry.{
  length-by_expiry, length-keep, length-map, overdue-all, IsRestorable, IsCovered-overdue,
  merge_idle-some, Owned-overdue, cleared,
}

tasks-log_expired :
    (loggers : ℕ → Logger) (i : ℕ) (rows : List ExpiredRow) (g : Graph)
    → (log_expired loggers i rows g).tasks ≡ g.tasks
unfolding log_expired
tasks-log_expired loggers i [] g = refl
tasks-log_expired loggers i (r ∷ rows) g =
    tasks-log_expired loggers (suc i) rows _ ∙ tasks-record_passive_event (loggers i) _ g

when_ok : {A : Type 0} (x y : A) (b : Bool) → b ≡ true → (if not b then x else y) ≡ y
when_ok x y b h = rw h

module _ (env : Env) (loggers : ℕ → Logger) (limit : ℕ) (g : Graph) where
  abbrev pub rows : List Task
  rows = overdue env.now_ms limit g.tasks

  length-rows :
      count (has_expired env.now_ms) g.tasks ≤ limit
      → length (map expired_row rows) ≡ count (has_expired env.now_ms) g.tasks
  length-rows few =
      length-map expired_row rows
      ∙ ap length (overdue-all env.now_ms limit g.tasks few)
      ∙ length-by_expiry (keep (has_expired env.now_ms) g.tasks)
      ∙ length-keep (has_expired env.now_ms) g.tasks

  abbrev expired_graph : List Agent → Graph
  expired_graph agents = record g {
    tasks = update_tasks (is_among rows) (set_expired env) g.tasks;
    agents = agents;
  }

  expired-tx :
      (agents : List Agent)
      → merge_idle env rows g.agents ≡ some agents
      → tx_expire_passive_claims env limit g ≡ some (expired_graph agents, map expired_row rows)
  unfolding tx_expire_passive_claims
  expired-tx agents h = rw (h, tx_expire_passive_claims)

  expired-ending :
      (agents : List Agent)
      → env.tx_ok ≡ true
      → merge_idle env rows g.agents ≡ some agents
      → expire_passive_claims env loggers limit g ≡ (
        log_expired loggers 0 (map expired_row rows) (expired_graph agents),
        granted (map expired_row rows),
      )
  unfolding expire_passive_claims
  expired-ending agents ok h =
      when_ok _ _ env.tx_ok ok ∙ ap (finish_expiry loggers g) (expired-tx agents h)

  failed-tx : merge_idle env rows g.agents ≡ none → tx_expire_passive_claims env limit g ≡ none
  unfolding tx_expire_passive_claims
  failed-tx h = rw (h, tx_expire_passive_claims)

  failed-ending :
      env.tx_ok ≡ true
      → merge_idle env rows g.agents ≡ none
      → expire_passive_claims env loggers limit g ≡ (g, blocked neo4j_error)
  unfolding expire_passive_claims
  failed-ending ok h = when_ok _ _ env.tx_ok ok ∙ ap (finish_expiry loggers g) (failed-tx h)

  raised-ending :
      env.tx_ok ≡ false → expire_passive_claims env loggers limit g ≡ (g, blocked neo4j_error)
  unfolding expire_passive_claims
  raised-ending h = rw h

  -- a sweep leaves the tasks alone, or sets the rows that it took
  pub expire_tasks_cases :
      ((expire_passive_claims env loggers limit g).0.tasks ≡ g.tasks)
      ⊎ ((expire_passive_claims env loggers limit g).0.tasks
          ≡ update_tasks (is_among rows) (set_expired env) g.tasks)
  expire_tasks_cases = elim (Bool-cases env.tx_ok) [
    | inr raised ↦
        inl (ap (λ (r : Graph × Reply (List ExpiredRow)). r.0.tasks) (raised-ending raised))
    | inl ok ↦ elim (Option-cases (merge_idle env rows g.agents)) [
      | inl absent ↦
          inl (ap (λ (r : Graph × Reply (List ExpiredRow)). r.0.tasks) (failed-ending ok absent))
      | inr (agents, merged) ↦ inr (
          ap (λ (r : Graph × Reply (List ExpiredRow)). r.0.tasks) (expired-ending agents ok merged)
          ∙ tasks-log_expired loggers 0 (map expired_row rows) (expired_graph agents))
    ]
  ]

  -- If the transaction does not raise, at most `limit` claims have expired, each of these names its
  -- agent, and no task has CLAIMED_PASSIVE as its previous status, then the sweep succeeds, reports
  -- one row for each expired claim, and leaves no expired claim.
  pub expire_passive_claims-clears :
      env.tx_ok ≡ true
      → All (IsRestorable env.now_ms) g.tasks
      → count (has_expired env.now_ms) g.tasks ≤ limit
      → (found : List ExpiredRow) × ((expire_passive_claims env loggers limit g).1 ≡ granted found)
        × (length found ≡ count (has_expired env.now_ms) g.tasks)
        × (any (has_expired env.now_ms) (expire_passive_claims env loggers limit g).0.tasks ≡ false)
  expire_passive_claims-clears ok good few =
      let (agents, merged) =
        merge_idle-some env.now_ms env rows g.agents
          (Owned-overdue env.now_ms limit g.tasks good) in
      let e = expired-ending agents ok merged in
      (
        map expired_row rows,
        ap (λ (r : Graph × Reply (List ExpiredRow)). r.1) e,
        length-rows few,
        ap (λ (r : Graph × Reply (List ExpiredRow)). any (has_expired env.now_ms) r.0.tasks) e
            ∙ ap (any (has_expired env.now_ms))
                (tasks-log_expired loggers 0 (map expired_row rows) _)
            ∙ cleared env.now_ms env rows g.tasks good
                (IsCovered-overdue env.now_ms limit g.tasks few),
      )
