-- ===== src/Tasks/Create/Keys.antt =====
-- neo4j_client.py: the idempotency keys of the tasks that tickets and batches write.
use auto_assist.Prelude.{
  ℕ, ◌≤◌, String, ◌≡◌, refl, sym, subst, ap, ◌∙◌, inl, inr, Bool, false, Option, none, some, List,
  [], ◌∷◌, ◌++◌, ◌==◌, eq_iff, arith, count, count-append, count-none, count-update, Bool-cases,
  Option-cases, any, find_first, find_first-none,
}
use auto_assist.Tasks.Graph.{Task, Graph, equals}
use auto_assist.Tasks.Create.{
  Ticket, Item, has_key, merge_task, key_of, set_ticket, set_item, created, write_ticket,
  write_item, link_parent, upsert_ticket, create_tasks_batch,
}

-- no two tasks have the key
abbrev pub IsUnique : String → List Task → Type 0
IsUnique key tasks = count (has_key key) tasks ≤ 1

-- a task with another key, or with none, at the end
append-IsUnique :
    (key : String) (tasks : List Task) (t : Task)
    → has_key key t ≡ false
    → IsUnique key tasks
    → IsUnique key (tasks ++ t ∷ [])
append-IsUnique key tasks t h unique = omega (
  arith,
  count-append (has_key key) tasks (t ∷ []),
  count-none (has_key key) (t ∷ []) (rw h refl),
  unique,
)

append_one : (p : Task → Bool) (t : Task) → count p (t ∷ []) ≤ 1
append_one p t = ground arith

-- a MERGE whose SET keeps the key
merge_task-IsUnique :
    (key k : String) (new : Task) (f : Task → Task) (tasks : List Task)
    → ((t : Task) → (f t).idempotency_key ≡ t.idempotency_key)
    → new.idempotency_key ≡ some k
    → IsUnique key tasks
    → IsUnique key (merge_task k new f tasks).0
unfolding merge_task
merge_task-IsUnique key k new f tasks keeps mine unique =
    elim (Option-cases (find_first (has_key k) tasks)) [
      | inr (t, known) ↦
          rw (known, merge_task)
            (subst (λ (n : ℕ). n ≤ 1)
              (sym (
                count-update (has_key key) (has_key k) f tasks
                  (λ t. ap (λ (o : Option String). equals o key) (keeps t))))
              unique)
      | inl missing ↦
          rw (missing, merge_task)
            (elim (Bool-cases (k == key)) [
              | inl same ↦
                  let absent =
                    subst (λ (j : String). any (has_key j) tasks ≡ false) ((eq_iff k key).0 same)
                      (find_first-none (has_key k) tasks missing) in
                  omega (
                    arith,
                    count-append (has_key key) tasks (f new ∷ []),
                    count-none (has_key key) tasks absent,
                    append_one (has_key key) (f new),
                  )
              | inr differs ↦
                  append-IsUnique key tasks (f new)
                    (ap (λ (o : Option String). equals o key) (keeps new ∙ mine) ∙ differs) unique
            ])
    ]

-- the key of a new task, when it has one
write-IsUnique :
    (key : String) (o : Option String) (id : String) (new : String → Task) (plain : Task)
    (f : Task → Task) (tasks : List Task)
    → ((t : Task) → (f t).idempotency_key ≡ t.idempotency_key)
    → ((k : String) → (new k).idempotency_key ≡ some k)
    → (plain.idempotency_key ≡ none)
    → IsUnique key tasks
    → IsUnique key
        (let r : List Task × String = elim o [
          | none ↦ (tasks ++ f plain ∷ [], id)
          | some k ↦ merge_task k (new k) f tasks
        ] in
          r).0
write-IsUnique key none id new plain f tasks keeps named bare unique =
    append-IsUnique key tasks (f plain)
      (ap (λ (o : Option String). equals o key) (keeps plain ∙ bare)) unique
write-IsUnique key (some k) id new plain f tasks keeps named bare unique =
    merge_task-IsUnique key k (new k) f tasks keeps (named k) unique

write_item-IsUnique :
    (key : String) (now : ℕ) (id : String) (k : Item) (tasks : List Task)
    → IsUnique key tasks
    → IsUnique key (write_item now id k tasks).0
unfolding write_item set_item
write_item-IsUnique key now id k tasks =
    write-IsUnique key (key_of k.idempotency_key) id (λ j. created now id (some j) none)
      (created now id none none) (set_item now k) tasks (λ t. refl) (λ j. refl) refl

create_tasks_batch-IsUnique :
    (key : String) (now : ℕ) (items : List (String × Item)) (tasks : List Task)
    → IsUnique key tasks
    → IsUnique key (create_tasks_batch now items tasks).0
unfolding create_tasks_batch
create_tasks_batch-IsUnique key now [] tasks unique = unique
create_tasks_batch-IsUnique key now ((id, k) ∷ items) tasks unique =
    create_tasks_batch-IsUnique key now items (write_item now id k tasks).0
      (write_item-IsUnique key now id k tasks unique)

tasks-link_parent :
    (p : Option String) (id : String) (g : Graph) → (link_parent p id g).tasks ≡ g.tasks
unfolding link_parent
tasks-link_parent p id g = ground arith

upsert_ticket-IsUnique :
    (key : String) (now : ℕ) (id : String) (k : Ticket) (g : Graph)
    → IsUnique key g.tasks
    → IsUnique key (upsert_ticket now id k g).0.tasks
unfolding upsert_ticket write_ticket set_ticket
upsert_ticket-IsUnique key now id k g unique =
    subst (IsUnique key) (sym (tasks-link_parent k.parent_id (write_ticket now id k g.tasks).1 _)) (
      write-IsUnique key (key_of k.idempotency_key) id
        (λ j. created now id (some j) (some k.status)) (created now id none none) (set_ticket now k)
        g.tasks (λ t. refl) (λ j. refl) refl unique)

-- Tickets and batches of tasks never give a second task an idempotency key that a task has: where
-- at most one task has a key, at most one has it after either call.
pub upsert_ticket-create_tasks_batch-IsUnique :
    (key : String) (now : ℕ) (id : String) (k : Ticket) (items : List (String × Item)) (g : Graph)
    → IsUnique key g.tasks
    → IsUnique key (upsert_ticket now id k g).0.tasks
      × IsUnique key (create_tasks_batch now items g.tasks).0
upsert_ticket-create_tasks_batch-IsUnique key now id k items g unique = (
  upsert_ticket-IsUnique key now id k g unique,
  create_tasks_batch-IsUnique key now items g.tasks unique,
)
