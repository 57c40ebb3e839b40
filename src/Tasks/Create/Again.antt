-- ===== src/Tasks/Create/Again.antt =====
-- neo4j_client.py: a ticket that is written again under its idempotency key.
use auto_assist.Prelude.{
  ℕ, String, ◌≡◌, refl, sym, ap, ◌∙◌, inl, inr, Bool, true, Option, none, some, List, [], ◌∷◌, ◌++◌,
  Bool-cases, Option-cases, if_true, if_false, eq_refl, find_first, find_first-update_self,
}
use auto_assist.Tasks.Graph.{Task, Graph, update_tasks, equals}
use auto_assist.Tasks.Create.{
  Ticket, has_key, merge_task, key_of, set_ticket, created, write_ticket, link_parent,
  upsert_ticket,
}

find_first-append :
    (p : Task → Bool) (tasks : List Task) (t : Task)
    → find_first p tasks ≡ none
    → p t ≡ true
    → find_first p (tasks ++ t ∷ []) ≡ some t
unfolding find_first
find_first-append p [] t h fits = if_true _ _ _ fits
find_first-append p (u ∷ tasks) t h fits = elim (Bool-cases (p u)) [
  | inl hit ↦ (let other = sym (if_true _ _ _ hit) ∙ h in absurd cc)
  | inr miss ↦
      if_false _ _ _ miss ∙ find_first-append p tasks t (sym (if_false _ _ _ miss) ∙ h) fits
]

-- after a MERGE the key finds the task whose id it returns
abbrev pub Finds : String → List Task × String → Type 0
Finds key (tasks, id) = (t : Task) × (find_first (has_key key) tasks ≡ some t) × (t.id ≡ id)

merge_task-Finds :
    (key : String) (new : Task) (f : Task → Task) (tasks : List Task)
    → ((t : Task) → (f t).idempotency_key ≡ t.idempotency_key)
    → ((t : Task) → (f t).id ≡ t.id)
    → new.idempotency_key ≡ some key
    → Finds key (merge_task key new f tasks)
unfolding merge_task
merge_task-Finds key new f tasks keys ids mine =
    elim (Option-cases (find_first (has_key key) tasks)) [
      | inr (t, known) ↦
          rw (known, merge_task)
            ((
              f t,
              find_first-update_self (has_key key) f tasks t
                  (λ x. ap (λ (o : Option String). equals o key) (keys x)) known,
              ids t,
            ))
      | inl missing ↦
          rw (missing, merge_task)
            ((
              f new,
              find_first-append (has_key key) tasks (f new) missing
                  (ap (λ (o : Option String). equals o key) (keys new ∙ mine) ∙ eq_refl key),
              ids new,
            ))
    ]

merge_task-known :
    (key : String) (new : Task) (f : Task → Task) (tasks : List Task) (t : Task)
    → find_first (has_key key) tasks ≡ some t
    → merge_task key new f tasks ≡ (update_tasks (has_key key) f tasks, t.id)
unfolding merge_task
merge_task-known key new f tasks t known = rw (known, merge_task) refl

write_named :
    (now : ℕ) (id key : String) (k : Ticket) (tasks : List Task)
    → key_of k.idempotency_key ≡ some key
    → write_ticket now id k tasks
      ≡ merge_task key (created now id (some key) (some k.status)) (set_ticket now k) tasks
unfolding write_ticket
write_named now id key k tasks named = rw (named, write_ticket) refl

-- A ticket without a parent, under a key: the key then finds its task.
pub upsert_ticket-Finds :
    (now : ℕ) (id key : String) (k : Ticket) (g : Graph)
    → k.parent_id ≡ none
    → key_of k.idempotency_key ≡ some key
    → Finds key ((upsert_ticket now id k g).0.tasks, (upsert_ticket now id k g).1)
unfolding upsert_ticket link_parent set_ticket
upsert_ticket-Finds now id key k g alone named =
    rw (alone, write_named now id key k g.tasks named)
      (merge_task-Finds key (created now id (some key) (some k.status)) (set_ticket now k) g.tasks
        (λ t. refl) (λ t. refl) refl)

-- where the key finds a task, it is updated
pub upsert_ticket-known :
    (now : ℕ) (id key : String) (k : Ticket) (g : Graph) (t : Task)
    → k.parent_id ≡ none
    → key_of k.idempotency_key ≡ some key
    → find_first (has_key key) g.tasks ≡ some t
    → upsert_ticket now id k g
      ≡ (record g { tasks = update_tasks (has_key key) (set_ticket now k) g.tasks }, t.id)
unfolding upsert_ticket link_parent
upsert_ticket-known now id key k g t alone named known =
    rw
      (
        alone,
        write_named now id key k g.tasks named,
        merge_task-known key (created now id (some key) (some k.status)) (set_ticket now k) g.tasks
            t known,
      )
      refl
