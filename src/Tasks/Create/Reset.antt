-- ===== src/Tasks/Create/Reset.antt =====
-- neo4j_client.py: what a batch does to a task that an agent works on, and who may then claim it.
use auto_assist.Prelude.{
  ℕ, String, ◌≡◌, refl, sym, subst, ap, ◌∙◌, inl, inr, ◌⊎◌, Bool, true, false, ◌||◌, Option, none,
  some, List, [], ◌∷◌, ◌++◌, eq_iff, arith, Bool-cases, Option-cases, find_first, find_first-update,
  find_first-update_self, find_first-append, if_true, if_false, update_if,
}
use auto_assist.Tasks.Graph.{Task, equals}
use auto_assist.Tasks.Create.{
  Item, has_key, merge_task, key_of, set_item, created, write_item, create_tasks_batch,
}

-- neither DONE nor CANCELLED
abbrev pub IsOpenTask : Task → Type 0
IsOpenTask t = (equals t.status "DONE" || equals t.status "CANCELLED") ≡ false

-- the same task with the same claim
abbrev pub IsSame : Task → Task → Type 0
IsSame t u = (u.id ≡ t.id) × (u.claimed_by ≡ t.claimed_by) × (u.claim_id ≡ t.claim_id)

-- what an item leaves of an open task: the task as it is, or made READY
abbrev Follows : Task → Task → Type 0
Follows t u = IsSame t u × ((u.status ≡ t.status) ⊎ (u.status ≡ some "READY"))

Follows-set_item : (now : ℕ) (k : Item) (t : Task) → IsOpenTask t → Follows t (set_item now k t)
unfolding set_item
Follows-set_item now k t open_task = ((refl, refl, refl), inr (rw open_task refl))

Follows-refl : (t : Task) → Follows t t
Follows-refl t = ((refl, refl, refl), inl refl)

Follows-trans : (t u v : Task) → Follows t u → Follows u v → Follows t v
Follows-trans t u v ((a, b, c), st) ((d, e, f), inl same) = (
  (d ∙ a, e ∙ b, f ∙ c),
  elim st [ inl as_before ↦ inl (same ∙ as_before) | inr ready ↦ inr (same ∙ ready) ],
)
Follows-trans t u v ((a, b, c), st) ((d, e, f), inr ready) = ((d ∙ a, e ∙ b, f ∙ c), inr ready)

Follows-IsOpenTask : (t u : Task) → Follows t u → IsOpenTask t → IsOpenTask u
Follows-IsOpenTask t u (same, inl as_before) open_task =
    ap (λ (o : Option String). equals o "DONE" || equals o "CANCELLED") as_before ∙ open_task
Follows-IsOpenTask t u (same, inr ready) open_task =
    ap (λ (o : Option String). equals o "DONE" || equals o "CANCELLED") ready

Follows-update_if :
    (c : Task → Bool) (now : ℕ) (k : Item) (t : Task)
    → IsOpenTask t
    → Follows t (update_if c (set_item now k) t)
Follows-update_if c now k t open_task = elim (Bool-cases (c t)) [
  | inl hit ↦ subst (Follows t) (sym (if_true _ _ _ hit)) (Follows-set_item now k t open_task)
  | inr miss ↦ subst (Follows t) (sym (if_false _ _ _ miss)) (Follows-refl t)
]

-- the task that has the key after a step
abbrev Kept : String → Task → List Task → Type 0
Kept key t tasks = (u : Task) × (find_first (has_key key) tasks ≡ some u) × Follows t u

key-set_item :
    (key : String) (now : ℕ) (k : Item) (t : Task) → has_key key (set_item now k t) ≡ has_key key t
unfolding set_item
key-set_item key now k t = refl

merge_task-Kept :
    (key j : String) (now : ℕ) (k : Item) (new : Task) (tasks : List Task) (t : Task)
    → IsOpenTask t
    → find_first (has_key key) tasks ≡ some t
    → Kept key t (merge_task j new (set_item now k) tasks).0
unfolding merge_task
merge_task-Kept key j now k new tasks t open_task known =
    elim (Option-cases (find_first (has_key j) tasks)) [
      | inl missing ↦
          rw (missing, merge_task)
            (t, find_first-append (has_key key) tasks _ t known, Follows-refl t)
      | inr (other, there) ↦
          rw (there, merge_task)
            (
              update_if (has_key j) (set_item now k) t,
              find_first-update (has_key key) (has_key j) (set_item now k) tasks t
                  (key-set_item key now k) known,
              Follows-update_if (has_key j) now k t open_task,
            )
    ]

write-Kept :
    (key : String) (o : Option String) (id : String) (now : ℕ) (k : Item) (new : String → Task)
    (plain : Task) (tasks : List Task) (t : Task)
    → IsOpenTask t
    → find_first (has_key key) tasks ≡ some t
    → Kept key t
        (let r : List Task × String = elim o [
          | none ↦ (tasks ++ set_item now k plain ∷ [], id)
          | some j ↦ merge_task j (new j) (set_item now k) tasks
        ] in
          r).0
write-Kept key none id now k new plain tasks t open_task known =
    (t, find_first-append (has_key key) tasks _ t known, Follows-refl t)
write-Kept key (some j) id now k new plain tasks t open_task known =
    merge_task-Kept key j now k (new j) tasks t open_task known

write_item-Kept :
    (key : String) (now : ℕ) (id : String) (k : Item) (tasks : List Task) (t : Task)
    → IsOpenTask t
    → find_first (has_key key) tasks ≡ some t
    → Kept key t (write_item now id k tasks).0
unfolding write_item
write_item-Kept key now id k tasks t open_task known =
    write-Kept key (key_of k.idempotency_key) id now k (λ j. created now id (some j) none)
      (created now id none none) tasks t open_task known

create_tasks_batch-Kept :
    (key : String) (now : ℕ) (items : List (String × Item)) (tasks : List Task) (t : Task)
    → IsOpenTask t
    → find_first (has_key key) tasks ≡ some t
    → Kept key t (create_tasks_batch now items tasks).0
unfolding create_tasks_batch
create_tasks_batch-Kept key now [] tasks t open_task known = (t, known, Follows-refl t)
create_tasks_batch-Kept key now ((id, k) ∷ items) tasks t open_task known =
    let (u, there, first) = write_item-Kept key now id k tasks t open_task known in
    let (v, last, second) =
      create_tasks_batch-Kept key now items (write_item now id k tasks).0 u
        (Follows-IsOpenTask t u first open_task) there in
    (v, last, Follows-trans t u v first second)

-- an item of the batch names the key
abbrev pub is_named : String → List (String × Item) → Bool
is_named key [] = false
is_named key ((id, k) ∷ items) = equals (key_of k.idempotency_key) key || is_named key items

-- the task that has the key after a batch that names it
abbrev pub Ready : String → Task → List Task → Type 0
Ready key t tasks =
    (u : Task) × (find_first (has_key key) tasks ≡ some u) × IsSame t u × (u.status ≡ some "READY")

Ready-Kept :
    (t u v : Task)
    → Follows t u
    → u.status ≡ some "READY"
    → Follows u v
    → IsSame t v × (v.status ≡ some "READY")
Ready-Kept t u v ((a, b, c), old) ready ((d, e, f), inl same) =
    ((d ∙ a, e ∙ b, f ∙ c), same ∙ ready)
Ready-Kept t u v ((a, b, c), old) ready ((d, e, f), inr again) = ((d ∙ a, e ∙ b, f ∙ c), again)

write_item-Ready :
    (key : String) (now : ℕ) (id : String) (k : Item) (tasks : List Task) (t : Task)
    → IsOpenTask t
    → key_of k.idempotency_key ≡ some key
    → find_first (has_key key) tasks ≡ some t
    → find_first (has_key key) (write_item now id k tasks).0 ≡ some (set_item now k t)
unfolding write_item merge_task
write_item-Ready key now id k tasks t open_task named known =
    rw (named, write_item, known, merge_task)
      (find_first-update_self (has_key key) (set_item now k) tasks t (key-set_item key now k) known)

status-set_item :
    (now : ℕ) (k : Item) (t : Task) → IsOpenTask t → (set_item now k t).status ≡ some "READY"
unfolding set_item
status-set_item now k t open_task = rw open_task refl

named_key : (o : Option String) (key : String) → equals o key ≡ true → o ≡ some key
named_key none key h = cc
named_key (some j) key h = ap some ((eq_iff j key).0 h)

pub create_tasks_batch-Ready :
    (key : String) (now : ℕ) (items : List (String × Item)) (tasks : List Task) (t : Task)
    → IsOpenTask t
    → is_named key items ≡ true
    → find_first (has_key key) tasks ≡ some t
    → Ready key t (create_tasks_batch now items tasks).0
unfolding create_tasks_batch
create_tasks_batch-Ready key now [] tasks t open_task named known = cc
create_tasks_batch-Ready key now ((id, k) ∷ items) tasks t open_task named known =
    elim (Bool-cases (equals (key_of k.idempotency_key) key)) [
      | inl mine ↦
          let there =
            write_item-Ready key now id k tasks t open_task
              (named_key (key_of k.idempotency_key) key mine) known in
          let first = Follows-set_item now k t open_task in
          let (v, last, second) =
            create_tasks_batch-Kept key now items (write_item now id k tasks).0 (set_item now k t)
              (Follows-IsOpenTask t (set_item now k t) first open_task) there in
          let (same, ready) =
            Ready-Kept t (set_item now k t) v first (status-set_item now k t open_task) second in
          (v, last, same, ready)
      | inr other ↦
          let (u, there, first) = write_item-Kept key now id k tasks t open_task known in
          let (v, last, (d, e, f), ready) =
            create_tasks_batch-Ready key now items (write_item now id k tasks).0 u
              (Follows-IsOpenTask t u first open_task) (ground (arith, named, other)) there in
          let ((a, b, c), old) = first in (v, last, (d ∙ a, e ∙ b, f ∙ c), ready)
    ]
