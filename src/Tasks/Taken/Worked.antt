-- ===== src/Tasks/Taken/Worked.antt =====
-- neo4j_client.py: heartbeats and completions leave a task to its holder.
use auto_assist.Prelude.{
  String, ◌≡◌, refl, sym, subst, ap, ◌∙◌, inl, inr, true, false, not, ◌&&◌, Option, none, some,
  ◌==◌, eq_iff, arith, update_if, Bool-cases, Option-cases, if_true, if_false, false-ne-true,
  find_first, coalesce,
}
use auto_assist.Tasks.Graph.{Task, Run, Graph, equals, has_id, is_dispatched}
use auto_assist.Tasks.Claim.{is_claimable}
use auto_assist.Tasks.Progress.{
  Beat, Completion, Outcome, Completed, set_beat, set_completed, set_again, heartbeat_task,
  complete_task, complete_new, record_run, complete_again, complete_found, find_completed, remember,
  is_word, terminal_statuses, is_supported,
}
use auto_assist.Tasks.Taken.{
  Holds, IsTaken, Updates, Updates-IsTaken, Updates-unready, back_if, claimable_parts, step,
  unready, beat, complete,
}

-- a heartbeat leaves the task claimable only if it was
claimable-set_beat :
    (g : Graph) (q : Beat) (id : String) (t : Task) (st : Option String)
    → q.status ≡ st
    → (has_id id t ≡ true → equals st "READY" ≡ false)
    → is_claimable g id (set_beat q t) ≡ true
    → is_claimable g id t ≡ true
unfolding is_claimable is_dispatched set_beat
claimable-set_beat g q id t none e h k =
    ap
      (λ (st : Option String).
        has_id id t && equals (coalesce st t.status) "READY" && not (is_dispatched g t))
      (sym e)
    ∙ k
claimable-set_beat g q id t (some s) e h k =
    let (known, ready) = claimable_parts g id (set_beat q t) k in
    false-ne-true (h known)
      (ap (λ (st : Option String). equals (coalesce st t.status) "READY") (sym e) ∙ ready)

set_beat-back :
    (g : Graph) (q : Beat) (id : String) (t : Task)
    → Holds id (beat q)
    → is_claimable g id (update_if (has_id q.task_id) (set_beat q) t) ≡ true
    → is_claimable g id t ≡ true
set_beat-back g q id t h = back_if (is_claimable g id) (has_id q.task_id) (set_beat q) t λ hit.
    claimable-set_beat g q id t q.status refl λ known.
      ground (arith, h, hit, known, eq_iff t.id id, eq_iff t.id q.task_id, eq_iff q.task_id id)

pub beat-IsTaken :
    (id : String) (q : Beat) (g : Graph)
    → Holds id (beat q)
    → IsTaken id g
    → IsTaken id (step (beat q) g)
unfolding heartbeat_task is_dispatched
beat-IsTaken id q g h taken = elim (Bool-cases (is_supported q.status)) [
  | inr odd ↦ subst (λ (r : Graph × Outcome Task). IsTaken id r.0) (sym (if_false _ _ _ odd)) taken
  | inl fine ↦
      subst (λ (r : Graph × Outcome Task). IsTaken id r.0) (sym (if_true _ _ _ fine))
        (Updates-IsTaken g (has_id q.task_id) (set_beat q) _ id (refl, λ t. refl)
          (λ t. set_beat-back g q id t h) taken)
]

unready_word : (s : String) → is_word terminal_statuses s ≡ true → (s == "READY") ≡ false
unready_word s h = elim (Bool-cases (s == "READY")) [
  | inr other ↦ other
  | inl ready ↦
      false-ne-true refl
        (subst (λ (w : String). is_word terminal_statuses w ≡ true) ((eq_iff s "READY").0 ready) h)
]

set_completed-unready :
    (g : Graph) (q : Completion) (id : String) (t : Task)
    → (q.status == "READY") ≡ false
    → is_claimable g id (set_completed q t) ≡ false
unfolding set_completed
set_completed-unready g q id t h = unready g id (set_completed q t) h

set_again-unready :
    (g : Graph) (q : Completion) (id : String) (t : Task)
    → (q.status == "READY") ≡ false
    → is_claimable g id (set_again q t) ≡ false
unfolding set_again
set_again-unready g q id t h = unready g id (set_again q t) h

remember-Updates :
    (q : Completion) (g : Graph)
    → ((remember q g).0.tasks ≡ g.tasks)
      × ((t : Task) → is_dispatched (remember q g).0 t ≡ is_dispatched g t)
unfolding remember is_dispatched
remember-Updates q g = (ground arith, λ t. ground arith)

run-Updates :
    (q : Completion) (g : Graph)
    → Updates g (has_id q.task_id) (set_completed q) (remember q (record_run q g)).0
unfolding record_run is_dispatched
run-Updates q g = ((remember-Updates q (record_run q g)).0, (remember-Updates q (record_run q g)).1)

complete_new-IsTaken :
    (id : String) (q : Completion) (g : Graph)
    → (q.status == "READY") ≡ false
    → IsTaken id g
    → IsTaken id (complete_new q g).0
unfolding complete_new
complete_new-IsTaken id q g h taken = elim (Option-cases (find_first (has_id q.task_id) g.tasks)) [
  | inl absent ↦ rw (absent, complete_new) taken
  | inr (t, known) ↦
      rw (known, complete_new)
        (Updates-unready g (has_id q.task_id) (set_completed q) _ id (run-Updates q g)
          (λ t. set_completed-unready g q id t h) taken)
]

complete_again-IsTaken :
    (id : String) (q : Completion) (t : Task) (r : Run) (g : Graph)
    → (q.status == "READY") ≡ false
    → IsTaken id g
    → IsTaken id (complete_again q t r g).0
unfolding complete_again is_dispatched
complete_again-IsTaken id q t r g h taken = elim (Bool-cases (equals t.status q.status)) [
  | inl same ↦
      subst (λ (r : Graph × Outcome Completed). IsTaken id r.0) (sym (if_true _ _ _ same)) taken
  | inr changed ↦
      subst (λ (r : Graph × Outcome Completed). IsTaken id r.0) (sym (if_false _ _ _ changed))
        (Updates-unready g (has_id q.task_id) (set_again q) _ id (refl, λ u. refl)
          (λ u. set_again-unready g q id u h) taken)
]

found-IsTaken :
    (id : String) (q : Completion) (g : Graph)
    → (q.status == "READY") ≡ false
    → IsTaken id g
    → (o : Option (Task × Run)) → IsTaken id (complete_found q g o).0
found-IsTaken id q g h taken none = complete_new-IsTaken id q g h taken
found-IsTaken id q g h taken (some (t, r)) = complete_again-IsTaken id q t r g h taken

pub complete-IsTaken :
    (id : String) (q : Completion) (g : Graph) → IsTaken id g → IsTaken id (step (complete q) g)
unfolding complete_task
complete-IsTaken id q g taken = elim (Bool-cases (is_word terminal_statuses q.status)) [
  | inr odd ↦
      subst (λ (r : Graph × Outcome Completed). IsTaken id r.0) (sym (if_false _ _ _ odd)) taken
  | inl final ↦
      subst (λ (r : Graph × Outcome Completed). IsTaken id r.0) (sym (if_true _ _ _ final))
        (found-IsTaken id q g (unready_word q.status final) taken (find_completed q g))
]
