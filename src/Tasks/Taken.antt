-- ===== src/Tasks/Taken.antt =====
-- neo4j_client.py: the calls of agents, and when no task with an id can be claimed.
pub mod Claiming
pub mod Worked
use auto_assist.Prelude.{
  ℕ, suc, ◌≤◌, String, ◌≡◌, ◌≢◌, refl, sym, subst, ap, ◌∙◌, ◌⊎◌, inl, inr, Bool, true, false, not,
  ◌&&◌, Option, none, some, List, [], ◌∷◌, ◌==◌, eq_iff, eq_refl, arith, any, map, update_if,
  Bool-cases, Option-cases, if_true, if_false, if◌then◌else◌, All, false-ne-true, find_first,
  find_first-any, find_first-none, none-find_first, any-update, any-update_self, coalesce,
}
use auto_assist.Tasks.Graph.{Task, Run, Graph, equals, has_id, update_tasks, is_dispatched}
use auto_assist.Tasks.Claim.{
  Request, Claimed, granted, idempotent, refused, raised, is_claimable, set_claim, claim_ready,
  answer_claim, find_prior, note_session, claim_task,
}
use auto_assist.Tasks.Claim.Answers.{claim_task-Answers, claim_ready-none, claim_ready-some}
use auto_assist.Tasks.Progress.{
  Beat, Completion, Outcome, Completed, set_beat, set_completed, set_again, heartbeat_task,
  complete_task, complete_new, record_run, complete_again, complete_found, find_completed, remember,
  is_word, terminal_statuses, is_supported,
}

-- the calls of agents
pub data Op : Type 0 where
  claim : Request → Op
  beat : Beat → Op
  complete : Completion → Op

abbrev pub step : Op → Graph → Graph
step (claim q) g = (claim_task q g).0
step (beat q) g = (heartbeat_task q g).0
step (complete q) g = (complete_task q g).0

-- no heartbeat gives the task back
abbrev pub Holds : String → Op → Type 0
Holds id (claim q) = Unit
Holds id (beat q) = ((q.task_id == id) && equals q.status "READY") ≡ false
Holds id (complete q) = Unit

abbrev pub IsTaken : String → Graph → Type 0
IsTaken id g = any (is_claimable g id) g.tasks ≡ false

-- An operation that updates the tasks and leaves the dispatches alone.
abbrev pub Updates : Graph → (Task → Bool) → (Task → Task) → Graph → Type 0
Updates g c f g' =
    (g'.tasks ≡ update_tasks c f g.tasks) × ((t : Task) → is_dispatched g' t ≡ is_dispatched g t)

claimable_moved :
    (g g' : Graph) (id : String) (t : Task)
    → is_dispatched g' t ≡ is_dispatched g t
    → is_claimable g' id t ≡ is_claimable g id t
unfolding is_claimable
claimable_moved g g' id t h = rw h

any-moved :
    (p q : Task → Bool) (tasks : List Task) → ((t : Task) → p t ≡ q t) → any p tasks ≡ any q tasks
any-moved p q [] h = refl
any-moved p q (t ∷ tasks) h = ground (arith, h t, any-moved p q tasks h)

pub Updates-IsTaken :
    (g : Graph) (c : Task → Bool) (f : Task → Task) (g' : Graph) (id : String)
    → Updates g c f g'
    → ((t : Task) → is_claimable g id (update_if c f t) ≡ true → is_claimable g id t ≡ true)
    → IsTaken id g
    → IsTaken id g'
Updates-IsTaken g c f g' id (updated, same) back h =
    any-moved (is_claimable g' id) (is_claimable g id) g'.tasks
      (λ t. claimable_moved g g' id t (same t))
    ∙ ap (any (is_claimable g id)) updated
    ∙ any-update (is_claimable g id) c f g.tasks back h

pub Updates-claimed :
    (g : Graph) (c : Task → Bool) (f : Task → Task) (g' : Graph) (id : String)
    → Updates g c f g'
    → ((t : Task) → is_claimable g id (update_if c f t) ≡ false)
    → IsTaken id g'
Updates-claimed g c f g' id (updated, same) gone =
    any-moved (is_claimable g' id) (is_claimable g id) g'.tasks
      (λ t. claimable_moved g g' id t (same t))
    ∙ ap (any (is_claimable g id)) updated
    ∙ any-update_self (is_claimable g id) c f g.tasks gone

pub back_if :
    (p c : Task → Bool) (f : Task → Task) (t : Task)
    → (c t ≡ true → p (f t) ≡ true → p t ≡ true)
    → p (update_if c f t) ≡ true
    → p t ≡ true
back_if p c f t back h = elim (Bool-cases (c t)) [
  | inl hit ↦ back hit (ap p (sym (if_true _ _ _ hit)) ∙ h)
  | inr miss ↦ ap p (sym (if_false _ _ _ miss)) ∙ h
]

pub unready :
    (g : Graph) (id : String) (t : Task)
    → equals t.status "READY" ≡ false
    → is_claimable g id t ≡ false
unfolding is_claimable
unready g id t h = elim (Bool-cases (has_id id t)) [
  | inl known ↦ rw (known, h) refl
  | inr unknown ↦ rw unknown refl
]

pub claimable_parts :
    (g : Graph) (id : String) (t : Task)
    → is_claimable g id t ≡ true
    → (has_id id t ≡ true) × (equals t.status "READY" ≡ true)
unfolding is_claimable
claimable_parts g id t h = elim (Bool-cases (has_id id t)) [
  | inr unknown ↦ ground (arith, unknown, h)
  | inl known ↦ elim (Bool-cases (equals t.status "READY")) [
    | inl ready ↦ (known, ready)
    | inr later ↦ ground (arith, known, later, h)
  ]
]

-- an update that leaves what it changes unready
pub Updates-unready :
    (g : Graph) (c : Task → Bool) (f : Task → Task) (g' : Graph) (id : String)
    → Updates g c f g'
    → ((t : Task) → is_claimable g id (f t) ≡ false)
    → IsTaken id g
    → IsTaken id g'
Updates-unready g c f g' id updated gone =
    Updates-IsTaken g c f g' id updated
      (λ t. back_if (is_claimable g id) c f t (λ hit. false-ne-true (gone t)))
