-- ===== src/Passive/Claims/Grant.antt =====
-- passive_claims.py: what comes of `claim_passive_task`. The transaction returns the task as it is
-- after the SET, so that its status is CLAIMED_PASSIVE when `_is_passive_safe` looks at it.
use auto_assist.Prelude.{
  ℕ, ◌+◌, ◌*◌, ◌≡◌, ◌≢◌, refl, sym, ap, ◌∙◌, ◌⊎◌, Bool, true, false, not, ◌&&◌, ◌||◌, Option, none,
  some, List, [], ◌∷◌, arith, ◌==◌, upper, inl, inr, Bool-cases, Option-cases,
}
use auto_assist.Passive.Graph.{Task, Graph, first_task}
use auto_assist.Passive.Candidate.{
  Candidate, normalize_idle_candidate, is_idle_status, is_passive_safe,
}
use auto_assist.Passive.Claims.Base.{
  Env, Reason, Reply, granted, blocked, invalid_mode, approval_required, neo4j_error, not_claimed,
  safety_rejected, claimed_passive,
}
use auto_assist.Passive.Claims.Create.{
  PassiveClaimIn, ClaimGrant, is_claimable, set_claim, tx_claim_passive_task, rollback_claim,
  check_claim, claim_passive_task, is_mode,
}

granted_is_not_blocked : {A : Type 0} {a : A} {r : Reason} → granted a ≢ blocked r
granted_is_not_blocked e = ground arith

pub reason_is : {A : Type 0} {r q : Reason} → Path (Reply A) (blocked r) (blocked q) → r ≡ q
reason_is e = ground arith

pub not_claimed_differs : not_claimed ≢ safety_rejected
not_claimed_differs e = ground arith

claimed_not_idle : is_idle_status claimed_passive ≡ false
unfolding is_idle_status upper
claimed_not_idle = refl

-- a candidate that is made of a claimed task has the status CLAIMED_PASSIVE
status-claimed :
    (t : Task) (now_ms : ℕ)
    → t.status ≡ some claimed_passive
    → (normalize_idle_candidate t now_ms).status ≡ claimed_passive
unfolding normalize_idle_candidate
status-claimed t now_ms h = rw h

is_passive_safe-claimed : (c : Candidate) → c.status ≡ claimed_passive → is_passive_safe c ≡ false
unfolding is_passive_safe
is_passive_safe-claimed c h = ground (arith, ap is_idle_status h, claimed_not_idle)

status-first_task :
    (env : Env) (body : PassiveClaimIn) (e : ℕ) (p : Task → Bool) (tasks : List Task) (t : Task)
    → first_task p (set_claim env body e) tasks ≡ some t
    → t.status ≡ some claimed_passive
unfolding first_task set_claim
status-first_task env body e p [] t h = cc
status-first_task env body e p (u ∷ tasks) t h = elim (Bool-cases (p u)) [
  | inl hit ↦ ground arith
  | inr miss ↦ status-first_task env body e p tasks t (ground arith)
]

-- the check of a claimed task always refuses it, and rolls the claim back
check_claim-claimed :
    (env : Env) (body : PassiveClaimIn) (e : ℕ) (g : Graph) (t : Task)
    → t.status ≡ some claimed_passive
    → check_claim env body e g (some t)
      ≡ (rollback_claim env body.task_id env.claim_id "safety_rejected" g, blocked safety_rejected)
unfolding check_claim
check_claim-claimed env body e g t h = rw (
    is_passive_safe-claimed (normalize_idle_candidate t env.now_ms) (status-claimed t env.now_ms h))

module _ (env : Env) (body : PassiveClaimIn) (g : Graph) where
  abbrev pub expires : ℕ
  expires = env.now_ms + body.ttl_seconds * 1000

  abbrev pub row : Option Task
  row = first_task (is_claimable body.task_id) (set_claim env body expires) g.tasks

  -- the graph after the transaction
  abbrev pub claimed_graph : Graph
  claimed_graph = (tx_claim_passive_task env body expires g).0

  row-tx : (tx_claim_passive_task env body expires g).1 ≡ row
  unfolding tx_claim_passive_task
  row-tx = refl

  row-claimed : (t : Task) → row ≡ some t → t.status ≡ some claimed_passive
  row-claimed t h = status-first_task env body expires (is_claimable body.task_id) g.tasks t h

  -- the transaction's row is checked
  check-none :
      row ≡ none
      → check_claim env body expires claimed_graph (tx_claim_passive_task env body expires g).1
        ≡ (claimed_graph, blocked not_claimed)
  unfolding check_claim
  check-none h = rw (row-tx, h)

  check-some :
      (t : Task)
      → row ≡ some t
      → check_claim env body expires claimed_graph (tx_claim_passive_task env body expires g).1 ≡ (
        rollback_claim env body.task_id env.claim_id "safety_rejected" claimed_graph,
        blocked safety_rejected,
      )
  check-some t h =
      ap (check_claim env body expires claimed_graph) (row-tx ∙ h)
      ∙ check_claim-claimed env body expires claimed_graph t (row-claimed t h)

  abbrev is_refused : Bool
  is_refused =
      not (is_mode body.mode)
      || (body.mode == "claim_ready" && not body.operator_approved)
      || not env.tx_ok

  claim-refused :
      is_refused ≡ true
      → (r : Reason) × (claim_passive_task env body g ≡ (g, blocked r)) × (r ≢ safety_rejected)
  unfolding claim_passive_task
  claim-refused h = elim (Bool-cases (is_mode body.mode)) [
    | inr bad ↦ (invalid_mode, ground arith, ground arith)
    | inl good ↦ elim (Bool-cases (body.mode == "claim_ready" && not body.operator_approved)) [
      | inl wants ↦ (approval_required, ground arith, ground arith)
      | inr fine ↦ (neo4j_error, ground arith, ground arith)
    ]
  ]

  claim-tried :
      is_refused ≡ false
      → claim_passive_task env body g
        ≡ check_claim env body expires claimed_graph (tx_claim_passive_task env body expires g).1
  unfolding claim_passive_task
  claim-tried h = ground arith

  -- the three ways in which a request ends
  pub claim_passive_task_cases :
      ((r : Reason) × (claim_passive_task env body g ≡ (g, blocked r)) × (r ≢ safety_rejected))
      ⊎ ((row ≡ none) × (claim_passive_task env body g ≡ (claimed_graph, blocked not_claimed)))
      ⊎ ((t : Task) × (row ≡ some t)
          × (claim_passive_task env body g ≡ (
            rollback_claim env body.task_id env.claim_id "safety_rejected" claimed_graph,
            blocked safety_rejected,
          )))
  claim_passive_task_cases = elim (Bool-cases is_refused) [
    | inl refused ↦ inl (claim-refused refused)
    | inr tried ↦ elim (Option-cases row) [
      | inl absent ↦ inr (inl (absent, claim-tried tried ∙ check-none absent))
      | inr (t, found) ↦ inr (inr (t, found, claim-tried tried ∙ check-some t found))
    ]
  ]

  -- No request for a passive claim is ever granted, whatever the graph and the task: a task that
  -- the transaction has claimed is then rejected as not passive-safe, since its status is no longer
  -- READY or REVIEW.
  pub claim_passive_task-never_granted :
      (grant : ClaimGrant) → (claim_passive_task env body g).1 ≢ granted grant
  claim_passive_task-never_granted grant h = elim claim_passive_task_cases [
    | inl (r, e, other) ↦
        granted_is_not_blocked (sym h ∙ ap (λ (p : Graph × Reply ClaimGrant). p.1) e)
    | inr (inl (absent, e)) ↦
        granted_is_not_blocked (sym h ∙ ap (λ (p : Graph × Reply ClaimGrant). p.1) e)
    | inr (inr (t, found, e)) ↦
        granted_is_not_blocked (sym h ∙ ap (λ (p : Graph × Reply ClaimGrant). p.1) e)
  ]
