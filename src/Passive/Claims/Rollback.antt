-- ===== src/Passive/Claims/Rollback.antt =====
-- passive_claims.py: what `claim_passive_task` leaves of a task that it claims and then rejects.
use auto_assist.Prelude.{
  ◌+◌, ◌*◌, String, ◌≡◌, refl, sym, ap, ◌∙◌, Bool, true, false, some, List, [], ◌∷◌, ◌++◌, map,
  arith, ◌==◌, eq_refl, get_or, any, All, ◌⊎◌, inl, inr, Bool-cases, if◌then◌else◌,
}
use mathlib.Core.Path.{ap₂}
use auto_assist.Passive.Graph.{
  no_claim, Task, Agent, Graph, equals, update_if, update_tasks, merge_agent, find_agent, is_agent,
  new_agent,
}
use auto_assist.Passive.Claims.Base.{
  Env, Reply, blocked, safety_rejected, tasks-record_passive_event, agents-record_passive_event,
}
use auto_assist.Passive.Claims.Create.{
  PassiveClaimIn, ClaimGrant, is_claimable, set_claim, busy_with, tx_claim_passive_task,
  holds_claim, undo_claim, rollback_claim, claim_passive_task,
}
use auto_assist.Passive.Claims.Grant.{
  reason_is, not_claimed_differs, row, claimed_graph, claim_passive_task_cases,
}

module _ (id : String) (f : Agent → Agent) (same : (a : Agent) → (f a).agent_id ≡ a.agent_id) where
  find_agent-map :
      (agents : List Agent)
      → any (is_agent id) agents ≡ true
      → (a : Agent) × (find_agent id (map (λ (b : Agent). if is_agent id b then f b else b) agents)
          ≡ some (f a))
  unfolding find_agent
  find_agent-map [] h = ground arith
  find_agent-map (b ∷ agents) h = elim (Bool-cases (is_agent id b)) [
    | inl hit ↦ (b, ground (arith, same b))
    | inr miss ↦ let (a, e) = find_agent-map agents (ground arith) in (a, ground arith)
  ]

  find_agent-append :
      (agents : List Agent) (b : Agent)
      → any (is_agent id) agents ≡ false
      → is_agent id b ≡ true
      → find_agent id (agents ++ b ∷ []) ≡ some b
  unfolding find_agent
  find_agent-append [] b h e = ground arith
  find_agent-append (a ∷ agents) b h e = ground (arith, find_agent-append agents b)

  -- the agent of an update by `merge_agent`
  pub find_agent-merge :
      (agents : List Agent) → (a : Agent) × (find_agent id (merge_agent id f agents) ≡ some (f a))
  unfolding merge_agent
  find_agent-merge agents = elim (Bool-cases (any (is_agent id) agents)) [
    | inl known ↦ let (a, e) = find_agent-map agents known in (a, ground arith)
    | inr fresh ↦ (
      new_agent id,
      ground (
        arith,
        find_agent-append agents (f (new_agent id)) fresh
            (ap (λ (j : String). j == id) (same (new_agent id)) ∙ eq_refl id),
      ),
    )
  ]

-- what remains of a task that was claimed and rolled back
abbrev pub put_back : Env → Task → Task
put_back env t = record t {
  status = some (get_or t.status "REVIEW");
  previous_status = t.status;
  claim = no_claim;
  last = record t.last { result = some "safety_rejected"; released_at = some env.datetime };
}

module _ (env : Env) (body : PassiveClaimIn) (g : Graph) where
  abbrev pub is_hit : Task → Bool
  is_hit = is_claimable body.task_id

  abbrev pub set_it : Task → Task
  set_it = set_claim env body (env.now_ms + body.ttl_seconds * 1000)

  abbrev IsFresh : Task → Type 0
  IsFresh t = equals t.claim.claim_id env.claim_id ≡ false

  undo-set :
      (t : Task)
      → IsFresh t
      → update_if
          (holds_claim body.task_id env.claim_id)
          (undo_claim env "safety_rejected")
          (update_if is_hit set_it t)
        ≡ update_if is_hit (put_back env) t
  unfolding undo_claim set_claim
  undo-set t fresh = elim (Bool-cases (is_hit t)) [
    | inl hit ↦ ground (arith, eq_refl env.claim_id)
    | inr miss ↦ ground arith
  ]

  agents-rollback :
      (task_id claim_id reason : String) (h : Graph)
      → (rollback_claim env task_id claim_id reason h).agents ≡ h.agents
  unfolding rollback_claim
  agents-rollback task_id claim_id reason h = elim (Bool-cases env.rollback_ok) [
    | inl ok ↦ rw (ok, agents-record_passive_event)
    | inr raised ↦ rw raised
  ]

  tasks-rollback :
      (h : Graph)
      → env.rollback_ok ≡ true
      → (rollback_claim env body.task_id env.claim_id "safety_rejected" h).tasks
        ≡ update_tasks
            (holds_claim body.task_id env.claim_id)
            (undo_claim env "safety_rejected")
            h.tasks
  unfolding rollback_claim
  tasks-rollback h ok = rw (ok, tasks-record_passive_event)

  pub tasks-rollback_cases :
      (h : Graph)
      → ((rollback_claim env body.task_id env.claim_id "safety_rejected" h).tasks ≡ h.tasks)
        ⊎ ((rollback_claim env body.task_id env.claim_id "safety_rejected" h).tasks
            ≡ update_tasks
                (holds_claim body.task_id env.claim_id)
                (undo_claim env "safety_rejected")
                h.tasks)
  unfolding rollback_claim
  tasks-rollback_cases h = elim (Bool-cases env.rollback_ok) [
    | inl ok ↦ inr (tasks-rollback h ok)
    | inr raised ↦ inl (rw raised)
  ]

  undo-all :
      (tasks : List Task)
      → All IsFresh tasks
      → update_tasks
          (holds_claim body.task_id env.claim_id)
          (undo_claim env "safety_rejected")
          (update_tasks is_hit set_it tasks)
        ≡ update_tasks is_hit (put_back env) tasks
  undo-all [] fresh = refl
  undo-all (t ∷ tasks) (h, fresh) =
      ap₂ (λ (u : Task) (us : List Task). u ∷ us) (undo-set t h) (undo-all tasks fresh)

  pub tasks-tx : (claimed_graph env body g).tasks ≡ update_tasks is_hit set_it g.tasks
  unfolding tx_claim_passive_task
  tasks-tx = refl

  agents-tx :
      (t : Task)
      → row env body g ≡ some t
      → (claimed_graph env body g).agents ≡ merge_agent body.agent_id (busy_with env body) g.agents
  unfolding tx_claim_passive_task
  agents-tx t found = rw found

  -- a request that ends in `safety_rejected` has claimed a task
  rejected_ending :
      (claim_passive_task env body g).1 ≡ blocked safety_rejected
      → ((t : Task) × (row env body g ≡ some t))
        × ((claim_passive_task env body g).0
            ≡ rollback_claim env body.task_id env.claim_id "safety_rejected"
                (claimed_graph env body g))
  rejected_ending h = elim (claim_passive_task_cases env body g) [
    | inl (r, e, other) ↦
        absurd (other (reason_is (sym (ap (λ (p : Graph × Reply ClaimGrant). p.1) e) ∙ h)))
    | inr (inl (absent, e)) ↦
        absurd
          (not_claimed_differs (reason_is (sym (ap (λ (p : Graph × Reply ClaimGrant). p.1) e) ∙ h)))
    | inr (inr (t, found, e)) ↦ ((t, found), ap (λ (p : Graph × Reply ClaimGrant). p.0) e)
  ]

  -- A request that ends in `safety_rejected`, when the rollback's session does not raise and the
  -- new claim id is in no task's claim, leaves each claimable task with the id as it was but for
  -- its claim, which is empty, its `last_passive_claim` result and time, its previous status,
  -- which is its status, and its status where that was absent: it is now REVIEW. All other tasks
  -- are unchanged.
  pub claim_passive_task-restored :
      env.rollback_ok ≡ true
      → All IsFresh g.tasks
      → (claim_passive_task env body g).1 ≡ blocked safety_rejected
      → (claim_passive_task env body g).0.tasks ≡ update_tasks is_hit (put_back env) g.tasks
  claim_passive_task-restored ok fresh h =
      ap (λ (r : Graph). r.tasks) (rejected_ending h).1
      ∙ tasks-rollback (claimed_graph env body g) ok
      ∙ ap (update_tasks (holds_claim body.task_id env.claim_id) (undo_claim env "safety_rejected"))
          tasks-tx
      ∙ undo-all g.tasks fresh

  -- A request that ends in `safety_rejected`, its rollback done or not, leaves the agent's
  -- heartbeat busy with the task of the request.
  claim_passive_task-left_busy :
      (claim_passive_task env body g).1 ≡ blocked safety_rejected
      → (a : Agent) × (find_agent body.agent_id (claim_passive_task env body g).0.agents ≡ some a)
        × (a.status ≡ some "busy")
        × (a.current_task_id ≡ some body.task_id)
  claim_passive_task-left_busy h =
      let ((t, found), e) = rejected_ending h in
      let (a, held) =
        find_agent-merge body.agent_id (busy_with env body) (λ (b : Agent). refl) g.agents in
      (
        busy_with env body a,
        ap (λ (r : Graph). find_agent body.agent_id r.agents) e
            ∙ ap (find_agent body.agent_id) (
                agents-rollback body.task_id env.claim_id "safety_rejected"
                  (claimed_graph env body g))
            ∙ ap (find_agent body.agent_id) (agents-tx t found)
            ∙ held,
        refl,
        refl,
      )
