-- ===== src/Tasks/Taken/Claiming.antt =====
-- neo4j_client.py: a claim and the task that it takes.
use auto_assist.Prelude.{
  String, ◌≡◌, refl, sym, subst, ap, ◌∙◌, inl, inr, Bool, true, false, Option, arith, any,
  update_if, Bool-cases, Option-cases, false-ne-true, find_first,
}
use auto_assist.Tasks.Graph.{Task, Graph, is_dispatched}
use auto_assist.Tasks.Claim.{
  Request, Claimed, granted, is_claimable, set_claim, claim_ready, answer_claim, find_prior,
  note_session, claim_task,
}
use auto_assist.Tasks.Claim.Answers.{claim_task-Answers, claim_ready-none, claim_ready-some}
use auto_assist.Tasks.Taken.{
  IsTaken, Updates-IsTaken, Updates-claimed, back_if, step, unready, claim,
}

abbrev pub is_granted : Claimed → Bool
is_granted (granted t) = true
is_granted told = false

dispatched-note_session :
    (s : Option String) (id : String) (g : Graph) (t : Task)
    → is_dispatched (note_session s id g) t ≡ is_dispatched g t
unfolding note_session is_dispatched
dispatched-note_session s id g t = ground arith

set_claim-unready :
    (g : Graph) (q : Request) (id : String) (t : Task) → is_claimable g id (set_claim q t) ≡ false
unfolding set_claim
set_claim-unready g q id t = unready g id (set_claim q t) refl

set_claim-gone :
    (g : Graph) (q : Request) (t : Task)
    → is_claimable g q.task_id (update_if (is_claimable g q.task_id) (set_claim q) t) ≡ false
set_claim-gone g q t = elim (Bool-cases (is_claimable g q.task_id t)) [
  | inl free ↦ rw free (set_claim-unready g q q.task_id t)
  | inr taken ↦ rw taken taken
]

set_claim-back :
    (g : Graph) (q : Request) (id : String) (t : Task)
    → is_claimable g id (update_if (is_claimable g q.task_id) (set_claim q) t) ≡ true
    → is_claimable g id t ≡ true
set_claim-back g q id t =
    back_if (is_claimable g id) (is_claimable g q.task_id) (set_claim q) t
      (λ hit h. false-ne-true (set_claim-unready g q id t) h)

answer-dispatched :
    (q : Request) (g : Graph) (t : Task)
    → is_dispatched (answer_claim q (claim_ready q g)).0 t ≡ is_dispatched g t
unfolding is_dispatched
answer-dispatched q g t = elim (Option-cases (find_first (is_claimable g q.task_id) g.tasks)) [
  | inl absent ↦
      ap (λ (r : Graph × Option Task). is_dispatched (answer_claim q r).0 t)
        (claim_ready-none q g absent)
  | inr (u, known) ↦
      ap (λ (r : Graph × Option Task). is_dispatched (answer_claim q r).0 t)
        (claim_ready-some q g u known)
      ∙ dispatched-note_session q.session_id q.task_id _ t
]

dispatched-claim_task :
    (q : Request) (g : Graph) (t : Task) → is_dispatched (claim_task q g).0 t ≡ is_dispatched g t
unfolding claim_task
dispatched-claim_task q g t = elim (Option-cases (find_prior q g.tasks)) [
  | inl new ↦ rw (new, claim_task) (answer-dispatched q g t)
  | inr (u, prior) ↦ rw (prior, claim_task) refl
]

pub claim-IsTaken :
    (id : String) (q : Request) (g : Graph) → IsTaken id g → IsTaken id (step (claim q) g)
claim-IsTaken id q g taken = elim (claim_task-Answers q g) [
  | inl (t, _, same, _) ↦ subst (IsTaken id) (sym same) taken
  | inr (_, inl (t, _, _, _, updated)) ↦
      Updates-IsTaken g (is_claimable g q.task_id) (set_claim q) (claim_task q g).0 id
        (updated, dispatched-claim_task q g) (set_claim-back g q id) taken
  | inr (_, inr (_, same, _)) ↦ subst (IsTaken id) (sym same) taken
]

-- a granted claim takes the task, which was free
pub claim-granted :
    (q : Request) (g : Graph)
    → is_granted (claim_task q g).1 ≡ true
    → (any (is_claimable g q.task_id) g.tasks ≡ true) × IsTaken q.task_id (step (claim q) g)
claim-granted q g h = elim (claim_task-Answers q g) [
  | inl (t, _, _, told) ↦ false-ne-true (ap is_granted told) h
  | inr (_, inl (t, _, free, _, updated)) ↦ (
    free,
    Updates-claimed g (is_claimable g q.task_id) (set_claim q) (claim_task q g).0 q.task_id
        (updated, dispatched-claim_task q g) (set_claim-gone g q),
  )
  | inr (_, inr (_, _, inl told)) ↦ false-ne-true (ap is_granted told) h
  | inr (_, inr (_, _, inr (inl (st, told, _)))) ↦ false-ne-true (ap is_granted told) h
  | inr (_, inr (_, _, inr (inr told))) ↦ false-ne-true (ap is_granted told) h
]
