-- ===== src/Tasks/Progress/Known.antt =====
-- neo4j_client.py: the runs that completions leave, by task and idempotency key.
use auto_assist.Prelude.{
  String, ◌≡◌, refl, sym, subst, ap, ◌∙◌, inl, inr, Bool, true, false, ◌&&◌, Option, none, some,
  List, [], ◌∷◌, ◌++◌, ◌==◌, eq_refl, arith, map, keep, update_if, Bool-cases, if_true, if_false,
  if◌then◌else◌, some_injective, find_first, get_or, is_nonempty,
}
use auto_assist.Tasks.Graph.{Task, Graph, Run, equals, has_id, update_tasks}
use auto_assist.Tasks.Progress.{
  Completion, Completed, Outcome, value_error, set_again, set_completed, complete_again,
  complete_found, complete_task, find_completed, find_run, is_run, run_of, remember, record_run,
  is_word, terminal_statuses, both,
}

update_if-keeps :
    (c : Task → Bool) (f : Task → Task) (t : Task) → (f t).id ≡ t.id → (update_if c f t).id ≡ t.id
update_if-keeps c f t h = elim (Bool-cases (c t)) [ inl hit ↦ rw hit h | inr miss ↦ rw miss refl ]

-- an update that keeps the ids of tasks, and where it goes
find_first-kept :
    (id : String) (c : Task → Bool) (f : Task → Task) (tasks : List Task) (t : Task)
    → ((x : Task) → (f x).id ≡ x.id)
    → find_first (has_id id) tasks ≡ some t
    → find_first (has_id id) (update_tasks c f tasks) ≡ some (update_if c f t)
unfolding find_first
find_first-kept id c f [] t keeps h = ground (arith, h)
find_first-kept id c f (x ∷ tasks) t keeps h = elim (Bool-cases (has_id id x)) [
  | inl hit ↦
      let same = some_injective (sym (if_true _ _ _ hit) ∙ h) in
      if_true _ _ _ (ap (λ (i : String). i == id) (update_if-keeps c f x (keeps x)) ∙ hit)
      ∙ ap (λ (y : Task). some (update_if c f y)) same
  | inr miss ↦
      if_false _ _ _ (ap (λ (i : String). i == id) (update_if-keeps c f x (keeps x)) ∙ miss)
      ∙ find_first-kept id c f tasks t keeps (sym (if_false _ _ _ miss) ∙ h)
]

find_run-append :
    (id key : String) (runs more : List Run)
    → find_run id key runs ≡ none
    → find_run id key (runs ++ more) ≡ find_run id key more
unfolding find_run
find_run-append id key [] more h = refl
find_run-append id key (r ∷ runs) more h = elim (Bool-cases (is_run id key r)) [
  | inl hit ↦ ground (arith, hit, h)
  | inr miss ↦ ground (arith, miss, h, find_run-append id key runs more)
]

run_of-is_run :
    (q : Completion) (key : String) (t : Task)
    → q.idempotency_key ≡ some key
    → is_run q.task_id key (run_of q t) ≡ true
run_of-is_run q key t h =
    ap (λ (o : Option String). (q.task_id == q.task_id) && equals o key) h
    ∙ rw (eq_refl q.task_id) (eq_refl key)

-- the run of a completion with the key
run_of-new :
    (q : Completion) (key : String) (tasks : List Task) (t : Task)
    → q.idempotency_key ≡ some key
    → find_first (has_id q.task_id) tasks ≡ some t
    → find_run q.task_id key (map (run_of q) (keep (has_id q.task_id) tasks)) ≡ some (run_of q t)
unfolding find_run find_first
run_of-new q key [] t h first = ground (arith, first)
run_of-new q key (x ∷ tasks) t h first = elim (Bool-cases (has_id q.task_id x)) [
  | inl hit ↦
      let same = some_injective (sym (if_true _ _ _ hit) ∙ first) in
      rw hit (if_true _ _ _ (run_of-is_run q key x h) ∙ ap (λ (y : Task). some (run_of q y)) same)
  | inr miss ↦ rw miss (run_of-new q key tasks t h (sym (if_false _ _ _ miss) ∙ first))
]

find_completed-key :
    (q : Completion) (key : String) (g : Graph)
    → q.idempotency_key ≡ some key
    → (key == "") ≡ false
    → find_completed q g
      ≡ both (find_first (has_id q.task_id) g.tasks) (find_run q.task_id key g.runs)
unfolding find_completed
find_completed-key q key g h full =
    ap
      (λ (o : Option String).
        if is_nonempty (get_or o "")
        then both (find_first (has_id q.task_id) g.tasks) (find_run q.task_id (get_or o "") g.runs)
        else none)
      h
    ∙ if_true (both (find_first (has_id q.task_id) g.tasks) (find_run q.task_id key g.runs)) none
        (is_nonempty key) (rw full refl)

-- the task and the run that a completion leaves behind
abbrev pub Known : String → String → String → Graph → Type 0
Known id key run_id g =
    (t : Task) × (r : Run) × (find_first (has_id id) g.tasks ≡ some t)
    × (find_run id key g.runs ≡ some r)
    × (r.id ≡ run_id)

pub again-Known :
    (q : Completion) (key : String) (g : Graph) (t : Task) (r : Run)
    → find_first (has_id q.task_id) g.tasks ≡ some t
    → find_run q.task_id key g.runs ≡ some r
    → Known q.task_id key r.id (complete_again q t r g).0
unfolding complete_again set_again
again-Known q key g t r first run = elim (Bool-cases (equals t.status q.status)) [
  | inl same ↦
      subst (λ (x : Graph × Outcome Completed). Known q.task_id key r.id x.0)
        (sym (if_true _ _ _ same)) (t, r, first, run, refl)
  | inr changed ↦
      subst (λ (x : Graph × Outcome Completed). Known q.task_id key r.id x.0)
        (sym (if_false _ _ _ changed))
        (
          update_if (has_id q.task_id) (set_again q) t,
          r,
          find_first-kept q.task_id (has_id q.task_id) (set_again q) g.tasks t (λ x. refl) first,
          run,
          refl,
        )
]

remember-parts :
    (q : Completion) (g : Graph)
    → ((remember q g).0.tasks ≡ g.tasks) × ((remember q g).0.runs ≡ g.runs)
unfolding remember
remember-parts q g = (ground arith, ground arith)

pub new-Known :
    (q : Completion) (key : String) (g : Graph) (t : Task)
    → q.idempotency_key ≡ some key
    → find_first (has_id q.task_id) g.tasks ≡ some t
    → find_run q.task_id key g.runs ≡ none
    → Known q.task_id key q.run_id (remember q (record_run q g)).0
unfolding record_run set_completed
new-Known q key g t h first run =
    let (tasks, runs) = remember-parts q (record_run q g) in
    (
      update_if (has_id q.task_id) (set_completed q) t,
      run_of q t,
      ap (find_first (has_id q.task_id)) tasks
          ∙ find_first-kept q.task_id (has_id q.task_id) (set_completed q) g.tasks t (λ x. refl)
              first,
      ap (find_run q.task_id key) runs
          ∙ find_run-append q.task_id key g.runs _ run
          ∙ run_of-new q key g.tasks t h first,
      refl,
    )

pub complete_task-terminal :
    (q : Completion) (key : String) (g : Graph)
    → is_word terminal_statuses q.status ≡ true
    → q.idempotency_key ≡ some key
    → (key == "") ≡ false
    → complete_task q g
      ≡ complete_found q g
          (both (find_first (has_id q.task_id) g.tasks) (find_run q.task_id key g.runs))
unfolding complete_task
complete_task-terminal q key g final h full =
    if_true (complete_found q g (find_completed q g)) (g, value_error) _ final
    ∙ ap (complete_found q g) (find_completed-key q key g h full)
