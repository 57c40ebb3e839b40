-- ===== src/Tasks/Claim/Answers.antt =====
-- neo4j_client.py: which answers `claim_task` gives, and to which requests.
use auto_assist.Prelude.{
  String, ◌≡◌, refl, sym, subst, ◌⊎◌, inl, inr, true, false, Option, none, some, arith, any,
  Bool-cases, Option-cases, find_first, find_first_fits, find_first-any, find_first-stronger,
  find_first-none,
}
use auto_assist.Tasks.Graph.{Task, Graph, equals, has_id, update_tasks, is_dispatched}
use auto_assist.Tasks.Claim.{
  Request, not_found, not_ready, paperclip_dispatched, Claimed, granted, idempotent, refused,
  claim_id_of, is_claimable, set_claim, claim_ready, reason_of, answer_claim, find_prior,
  note_session, claim_task,
}

-- a task that can be claimed has the id, is READY and is not dispatched
pub claimable_parts :
    (g : Graph) (id : String) (t : Task)
    → has_id id t ≡ true
    → equals t.status "READY" ≡ true
    → is_dispatched g t ≡ false
    → is_claimable g id t ≡ true
unfolding is_claimable
claimable_parts g id t a b c = rw (a, b, c)

pub claimable_id :
    (g : Graph) (id : String) (t : Task) → is_claimable g id t ≡ true → has_id id t ≡ true
unfolding is_claimable
claimable_id g id t h = elim (Bool-cases (has_id id t)) [
  | inl known ↦ known
  | inr unknown ↦ ground (arith, unknown, h)
]

-- what a claim that finds no claimable task is told
abbrev pub IsRefusal : Claimed → Type 0
IsRefusal told =
    (told ≡ refused not_found)
    ⊎ ((st : Option String) × (told ≡ refused (not_ready st)) × (equals st "READY" ≡ false))
    ⊎ (told ≡ refused paperclip_dispatched)

reason_of-IsRefusal :
    (q : Request) (g : Graph)
    → find_first (is_claimable g q.task_id) g.tasks ≡ none
    → IsRefusal (reason_of q g (find_first (has_id q.task_id) g.tasks))
unfolding reason_of
reason_of-IsRefusal q g h = elim (Option-cases (find_first (has_id q.task_id) g.tasks)) [
  | inl absent ↦ rw absent (inl refl)
  | inr (t, known) ↦ rw known (elim (Bool-cases (equals t.status "READY")) [
    | inr later ↦ inr (inl (t.status, ground (arith, later), later))
    | inl ready ↦ elim (Bool-cases (is_dispatched g t)) [
      | inl sent ↦ inr (inr (ground (arith, ready, sent)))
      | inr free ↦
          (let found =
              find_first-stronger (has_id q.task_id) (is_claimable g q.task_id) g.tasks t
                (claimable_id g q.task_id) known
                (claimable_parts g q.task_id t (find_first_fits (has_id q.task_id) g.tasks t known)
                  ready free) in
            ground (arith, found, h))
    ]
  ])
]

pub tasks-note_session :
    (s : Option String) (id : String) (g : Graph) → (note_session s id g).tasks ≡ g.tasks
unfolding note_session
tasks-note_session s id g = ground arith

-- the answers to a request whose claim is not known yet
abbrev pub Answers : Request → Graph → Graph × Claimed → Type 0
Answers q g (g', told) =
    ((t : Task) × (is_claimable g q.task_id t ≡ true)
      × (any (is_claimable g q.task_id) g.tasks ≡ true)
      × (told ≡ granted (set_claim q t))
      × (g'.tasks ≡ update_tasks (is_claimable g q.task_id) (set_claim q) g.tasks))
    ⊎ ((any (is_claimable g q.task_id) g.tasks ≡ false) × (g' ≡ g) × IsRefusal told)

pub claim_ready-none :
    (q : Request) (g : Graph)
    → find_first (is_claimable g q.task_id) g.tasks ≡ none
    → claim_ready q g ≡ (g, none)
unfolding claim_ready
claim_ready-none q g h = rw (h, claim_ready) refl

pub claim_ready-some :
    (q : Request) (g : Graph) (t : Task)
    → find_first (is_claimable g q.task_id) g.tasks ≡ some t
    → claim_ready q g ≡ (
      record g { tasks = update_tasks (is_claimable g q.task_id) (set_claim q) g.tasks },
      some (set_claim q t),
    )
unfolding claim_ready
claim_ready-some q g t h = rw (h, claim_ready) refl

claim_ready-Answers : (q : Request) (g : Graph) → Answers q g (answer_claim q (claim_ready q g))
claim_ready-Answers q g = elim (Option-cases (find_first (is_claimable g q.task_id) g.tasks)) [
  | inl absent ↦
      subst (λ (r : Graph × Option Task). Answers q g (answer_claim q r))
        (sym (claim_ready-none q g absent))
        (inr (
          find_first-none (is_claimable g q.task_id) g.tasks absent,
          refl,
          reason_of-IsRefusal q g absent,
        ))
  | inr (t, known) ↦
      subst (λ (r : Graph × Option Task). Answers q g (answer_claim q r))
        (sym (claim_ready-some q g t known))
        (inl (
          t,
          find_first_fits (is_claimable g q.task_id) g.tasks t known,
          find_first-any (is_claimable g q.task_id) g.tasks t known,
          refl,
          tasks-note_session q.session_id q.task_id _,
        ))
]

-- A claim that is known by its idempotency key is answered with its task and changes nothing. Any
-- other is granted exactly when a task with the id is READY and not dispatched to Paperclip,
-- whatever the capabilities and the target agent, and then claims all such tasks; where there is
-- none nothing changes, and the answer is not_found, the status that is not READY, or
-- paperclip_dispatched, and never that capabilities or the target agent do not fit.
pub claim_task-Answers :
    (q : Request) (g : Graph)
    → let (g', told) = claim_task q g in
      ((t : Task) × (find_prior q g.tasks ≡ some t)
        × (g' ≡ g)
        × (told ≡ idempotent (claim_id_of q) t))
      ⊎ ((find_prior q g.tasks ≡ none) × Answers q g (g', told))
unfolding claim_task
claim_task-Answers q g = elim (Option-cases (find_prior q g.tasks)) [
  | inl new ↦ rw (new, claim_task) (inr (refl, claim_ready-Answers q g))
  | inr (t, prior) ↦ rw (prior, claim_task) (inl (t, refl, refl, refl))
]
