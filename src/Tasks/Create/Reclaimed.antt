-- ===== src/Tasks/Create/Reclaimed.antt =====
-- neo4j_client.py: a batch, and a claim of the task that it makes READY.
use auto_assist.Prelude.{
  ℕ, String, ◌≡◌, refl, sym, ap, ◌∙◌, inl, inr, true, false, Option, none, some, List, arith, any,
  find_first, eq_iff, Bool, Bool-cases, some_injective, if_true, if_false, [], ◌∷◌,
}
use auto_assist.Tasks.Graph.{Task, Graph, equals, is_dispatched}
use auto_assist.Tasks.Create.{Item, has_key, create_tasks_batch}
use auto_assist.Tasks.Create.Reset.{IsOpenTask, is_named, Ready, create_tasks_batch-Ready}
use auto_assist.Tasks.Claim.{Request, granted, is_claimable, set_claim, find_prior, claim_task}
use auto_assist.Tasks.Claim.Answers.{claimable_parts, claimable_id, claim_task-Answers}

dispatched_by_id :
    (g : Graph) (tasks : List Task) (t u : Task)
    → u.id ≡ t.id
    → is_dispatched (record g { tasks = tasks }) u ≡ is_dispatched g t
unfolding is_dispatched
dispatched_by_id g tasks t u same = rw same refl

any_found :
    (p c : Task → Bool) (tasks : List Task) (u : Task)
    → find_first p tasks ≡ some u
    → c u ≡ true
    → any c tasks ≡ true
unfolding find_first
any_found p c [] u there fits = ground (arith, there)
any_found p c (t ∷ tasks) u there fits = elim (Bool-cases (p t)) [
  | inl hit ↦
      let first = some_injective (sym (if_true _ _ _ hit) ∙ there) in
      ground (arith, ap c first ∙ fits)
  | inr miss ↦ ground (arith, any_found p c tasks u (sym (if_false _ _ _ miss) ∙ there) fits)
]

prior-none :
    (q : Request) (tasks : List Task) → q.idempotency_key ≡ none → find_prior q tasks ≡ none
prior-none q tasks bare = rw bare refl

-- a claim without an idempotency key, where a task with the id is READY and not dispatched
claim_granted :
    (q : Request) (g : Graph)
    → q.idempotency_key ≡ none
    → any (is_claimable g q.task_id) g.tasks ≡ true
    → (v : Task) × ((claim_task q g).1 ≡ granted v)
      × (v.id ≡ q.task_id)
      × (v.status ≡ some "CLAIMED")
      × (v.claimed_by ≡ some q.agent_id)
unfolding set_claim
claim_granted q g bare free = elim (claim_task-Answers q g) [
  | inl (t, prior, same, left) ↦ ground (arith, prior, prior-none q g.tasks bare)
  | inr (new, inr (none_free, left, refusal)) ↦ ground (arith, free, none_free)
  | inr (new, inl (t, fits, others, told, left)) ↦
      (set_claim q t, told, (eq_iff t.id q.task_id).0 (claimable_id g q.task_id t fits), refl, refl)
]

-- A batch that names the idempotency key of a task that is neither DONE nor CANCELLED makes this
-- task READY, wherever the item stands in the batch and whatever the other items are, so also where
-- an agent has claimed the task or runs it; that claim stays on the task. Unless the task is
-- dispatched to Paperclip, any agent that then claims its id, without an idempotency key, is granted
-- it.
pub create_tasks_batch-reset :
    (key : String) (now : ℕ) (items : List (String × Item)) (g : Graph) (t : Task) (q : Request)
    → find_first (has_key key) g.tasks ≡ some t
    → IsOpenTask t
    → is_named key items ≡ true
    → is_dispatched g t ≡ false
    → q.task_id ≡ t.id
    → q.idempotency_key ≡ none
    → let g' = record g { tasks = (create_tasks_batch now items g.tasks).0 } in
      Ready key t g'.tasks
      × ((v : Task) × ((claim_task q g').1 ≡ granted v)
          × (v.id ≡ t.id)
          × (v.status ≡ some "CLAIMED")
          × (v.claimed_by ≡ some q.agent_id))
create_tasks_batch-reset key now items g t q known open_task named kept asks bare =
    let (u, there, (id, by, claim), ready) =
      create_tasks_batch-Ready key now items g.tasks t open_task named known in
    let g' = record g { tasks = (create_tasks_batch now items g.tasks).0 } in
    let fits =
      claimable_parts g' q.task_id u ((eq_iff u.id q.task_id).1 (id ∙ sym asks))
        (ap (λ (o : Option String). equals o "READY") ready)
        (dispatched_by_id g g'.tasks t u id ∙ kept) in
    let (v, told, v_id, status, owner) =
      claim_granted q g' bare
        (any_found (has_key key) (is_claimable g' q.task_id) g'.tasks u there fits) in
    ((u, there, (id, by, claim), ready), (v, told, v_id ∙ asks, status, owner))
