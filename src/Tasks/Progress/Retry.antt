-- ===== src/Tasks/Progress/Retry.antt =====
-- neo4j_client.py: a completion that is sent again with its idempotency key.
use auto_assist.Prelude.{
  String, ◌≡◌, refl, sym, subst, ap, ◌∙◌, inl, inr, true, false, Option, none, some, ◌==◌, eq_iff,
  arith, Bool-cases, Option-cases, if_true, if_false, find_first,
}
use auto_assist.Tasks.Graph.{Task, Graph, Run, equals, has_id}
use auto_assist.Tasks.Progress.{
  Completion, Completed, Outcome, value_error, missing, found, complete_again, complete_new,
  complete_found, complete_task, find_completed, find_run, is_word, terminal_statuses, both,
}
use auto_assist.Tasks.Progress.Known.{Known, again-Known, new-Known, complete_task-terminal}

-- what a completion of a task that is there answers and leaves behind
abbrev Leaves : Completion → String → Graph → Graph × Outcome Completed → Type 0
Leaves q key g (g', told) = (c : Completed) × (told ≡ found c) × Known q.task_id key c.run_id g'

new-Leaves :
    (q : Completion) (key : String) (g : Graph) (t : Task)
    → q.idempotency_key ≡ some key
    → find_first (has_id q.task_id) g.tasks ≡ some t
    → find_run q.task_id key g.runs ≡ none
    → Leaves q key g (complete_new q g)
unfolding complete_new
new-Leaves q key g t h first run =
    rw (first, complete_new) (_, refl, new-Known q key g t h first run)

equals-some : (o : Option String) (s : String) → equals o s ≡ true → o ≡ some s
equals-some none s h = ground (arith, h)
equals-some (some x) s h = ap some ((eq_iff x s).0 h)

-- the answer to a completion that is known, which adds nothing
abbrev IsReplayed : Completion → Run → Graph → Graph × Outcome Completed → Type 0
IsReplayed q r g (g', told) =
    (c : Completed) × (told ≡ found c)
    × (c.run_id ≡ r.id)
    × (c.idempotent ≡ true)
    × (c.task.status ≡ some q.status)
    × (g'.runs ≡ g.runs)
    × (g'.memories ≡ g.memories)

again-told :
    (q : Completion) (t : Task) (r : Run) (g : Graph) → IsReplayed q r g (complete_again q t r g)
unfolding complete_again
again-told q t r g = elim (Bool-cases (equals t.status q.status)) [
  | inl same ↦
      subst (IsReplayed q r g) (sym (if_true _ _ _ same))
        (_, refl, refl, refl, equals-some t.status q.status same, refl, refl)
  | inr changed ↦
      subst (IsReplayed q r g) (sym (if_false _ _ _ changed))
        (_, refl, refl, refl, refl, refl, refl)
]

again-Leaves :
    (q : Completion) (key : String) (g : Graph) (t : Task) (r : Run)
    → find_first (has_id q.task_id) g.tasks ≡ some t
    → find_run q.task_id key g.runs ≡ some r
    → Leaves q key g (complete_again q t r g)
unfolding complete_again
again-Leaves q key g t r first run =
    let (c, told, run_id, _, _, _, _) = again-told q t r g in
    (
      c,
      told,
      subst (λ (i : String). Known q.task_id key i (complete_again q t r g).0) (sym run_id)
          (again-Known q key g t r first run),
    )

complete_task-Leaves :
    (q : Completion) (key : String) (g : Graph) (t : Task)
    → is_word terminal_statuses q.status ≡ true
    → q.idempotency_key ≡ some key
    → (key == "") ≡ false
    → find_first (has_id q.task_id) g.tasks ≡ some t
    → Leaves q key g (complete_task q g)
complete_task-Leaves q key g t final h full first =
    elim (Option-cases (find_run q.task_id key g.runs)) [
      | inl new ↦
          subst (Leaves q key g)
            (sym (
              complete_task-terminal q key g final h full
              ∙ ap
                  (λ (o : Option Run).
                    complete_found q g (both (find_first (has_id q.task_id) g.tasks) o))
                  new
              ∙ ap (λ (o : Option Task). complete_found q g (both o none)) first))
            (new-Leaves q key g t h first new)
      | inr (r, known) ↦
          subst (Leaves q key g)
            (sym (
              complete_task-terminal q key g final h full
              ∙ ap
                  (λ (o : Option Run).
                    complete_found q g (both (find_first (has_id q.task_id) g.tasks) o))
                  known
              ∙ ap (λ (o : Option Task). complete_found q g (both o (some r))) first))
            (again-Leaves q key g t r first known)
    ]

found_injective : {c d : Completed} → found c ≡ found d → c ≡ d
found_injective h = cc

complete_found-missing :
    (q : Completion) (g : Graph) (o : Option Run)
    → find_first (has_id q.task_id) g.tasks ≡ none
    → (complete_found q g (both (find_first (has_id q.task_id) g.tasks) o)).1 ≡ missing
unfolding complete_new
complete_found-missing q g o h =
    ap (λ (x : Option Task). (complete_found q g (both x o)).1) h ∙ rw (h, complete_new) refl

known-IsReplayed :
    (q : Completion) (key : String) (g : Graph) (t : Task) (r : Run)
    → is_word terminal_statuses q.status ≡ true
    → q.idempotency_key ≡ some key
    → (key == "") ≡ false
    → find_first (has_id q.task_id) g.tasks ≡ some t
    → find_run q.task_id key g.runs ≡ some r
    → IsReplayed q r g (complete_task q g)
known-IsReplayed q key g t r final h full first run =
    subst (IsReplayed q r g)
      (sym (
        complete_task-terminal q key g final h full
        ∙ ap
            (λ (o : Option Run).
              complete_found q g (both (find_first (has_id q.task_id) g.tasks) o))
            run
        ∙ ap (λ (o : Option Task). complete_found q g (both o (some r))) first))
      (again-told q t r g)

-- a completion that finds its task has a terminal status and a task
reached :
    (q : Completion) (key : String) (g : Graph) (c : Completed)
    → q.idempotency_key ≡ some key
    → (key == "") ≡ false
    → (complete_task q g).1 ≡ found c
    → Known q.task_id key c.run_id (complete_task q g).0
unfolding complete_task
reached q key g c h full told = elim (Bool-cases (is_word terminal_statuses q.status)) [
  | inr odd ↦
      (let other =
          ap (λ (x : Graph × Outcome Completed). x.1)
            (if_false (complete_found q g (find_completed q g)) (g, value_error) _ odd) in
        absurd (cc))
  | inl final ↦ elim (Option-cases (find_first (has_id q.task_id) g.tasks)) [
    | inl unknown ↦
        (let other =
            ap (λ (x : Graph × Outcome Completed). x.1)
              (complete_task-terminal q key g final h full)
            ∙ complete_found-missing q g (find_run q.task_id key g.runs) unknown in
          absurd (cc))
    | inr (t, first) ↦
        (let (c', told', known) = complete_task-Leaves q key g t final h full first in
          subst (λ (x : Completed). Known q.task_id key x.run_id (complete_task q g).0)
            (found_injective (sym told' ∙ told)) known)
  ]
]

-- A completion under an idempotency key that reached its task can be sent again, with any terminal
-- status, summary and agent: no run and no memory is added, and the answer names the first run and
-- the new status.
pub complete_task-retried :
    (q q' : Completion) (key : String) (g : Graph) (c : Completed)
    → q.idempotency_key ≡ some key
    → q'.idempotency_key ≡ some key
    → (key == "") ≡ false
    → q'.task_id ≡ q.task_id
    → is_word terminal_statuses q'.status ≡ true
    → (complete_task q g).1 ≡ found c
    → let g' = (complete_task q g).0 in
      let (g'', told) = complete_task q' g' in
      (c' : Completed) × (told ≡ found c')
      × (c'.run_id ≡ c.run_id)
      × (c'.idempotent ≡ true)
      × (c'.task.status ≡ some q'.status)
      × (g''.runs ≡ g'.runs)
      × (g''.memories ≡ g'.memories)
complete_task-retried q q' key g c h h' full same final' told =
    let g' = (complete_task q g).0 in
    let (t, r, first, run, id) = reached q key g c h full told in
    let first' = ap (λ (i : String). find_first (has_id i) g'.tasks) same ∙ first in
    let run' = ap (λ (i : String). find_run i key g'.runs) same ∙ run in
    let (c', told', run_id, again, status, runs, memories) =
      known-IsReplayed q' key g' t r final' h' full first' run' in
    (c', told', run_id ∙ id, again, status, runs, memories)
