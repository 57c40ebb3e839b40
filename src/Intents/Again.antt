-- ===== src/Intents/Again.antt =====
-- intent_orchestrator.py: an intent that is queued for review again.
use Prim.Native.String.{count}
use text.Mathlib.TextLemmas.{length-append}
use auto_assist.Prelude.{
  ℕ, String, ◌≡◌, refl, sym, subst, ap, ◌∙◌, inl, inr, Bool, true, false, Option, some, List, [],
  ◌∷◌, ◌++◌, ◌==◌, any, length, length-map, Bool-cases, if_true, if_false, some_injective, eq_refl,
  eq_iff, arith, fstring, if◌then◌else◌, find_first,
}
use auto_assist.Tasks.Graph.{Task, Graph, Link, has_id, is_link, merge_link}
use auto_assist.Tasks.Create.{has_key, key_of, upsert_ticket}
use auto_assist.Tasks.Create.Again.{Finds, upsert_ticket-Finds, upsert_ticket-known}
use auto_assist.Intents.State.{Intent, Store, has_intent_id}
use auto_assist.Intents.Review.{review_ticket, link_task, queue_intent_review}

abbrev review_key : Intent → String
review_key i = fstring ("intent-review:" ∷ i.id ∷ [])

last_link :
    (from to : String) (links : List Link)
    → any (is_link from to) (links ++ record { from = from; to = to } ∷ []) ≡ true
last_link from to [] = ground (arith, eq_refl from, eq_refl to)
last_link from to (l ∷ links) = ground (arith, last_link from to links)

merge_link-again :
    (from to : String) (links : List Link)
    → merge_link from to (merge_link from to links) ≡ merge_link from to links
merge_link-again from to links = elim (Bool-cases (any (is_link from to) links)) [
  | inl known ↦ ap (merge_link from to) (if_true _ _ _ known)
  | inr new ↦
      ap (merge_link from to) (if_false _ _ _ new)
      ∙ if_true _ _ _ (last_link from to links)
      ∙ sym (if_false _ _ _ new)
]

key_full : (i : Intent) → (review_key i == "") ≡ false
key_full i = elim (Bool-cases (review_key i == "")) [
  | inr full ↦ full
  | inl empty ↦
      (let size = ap count ((eq_iff (review_key i) "").0 empty) in
        absurd (omega (arith, sym (length-append "intent-review:" (fstring (i.id ∷ []))), size)))
]

key_of-review :
    (dumps : List (String × Option String) → String) (i : Intent) (policy reason : String)
    → key_of (review_ticket dumps i policy reason).idempotency_key ≡ some (review_key i)
unfolding review_ticket
key_of-review dumps i policy reason = if_false _ _ _ (key_full i)

link_task-known :
    (intent_id task_id : String) (s : Store)
    → any (has_id task_id) s.queue.tasks ≡ true
    → link_task intent_id task_id s ≡ record s {
      created_task =
          if any (has_intent_id intent_id) s.intents
          then merge_link intent_id task_id s.created_task
          else s.created_task;
    }
unfolding link_task
link_task-known intent_id task_id s there =
    elim (Bool-cases (any (has_intent_id intent_id) s.intents)) [
      | inl known ↦ rw (known, there) refl
      | inr unknown ↦ rw unknown refl
    ]

queue-link_task :
    (intent_id task_id : String) (s : Store)
    → length (link_task intent_id task_id s).queue.tasks ≡ length s.queue.tasks
unfolding link_task
queue-link_task intent_id task_id s = ground arith

link_if : Bool → String → String → List Link → List Link
link_if b from to links = if b then merge_link from to links else links

link_if-again :
    (b : Bool) (from to : String) (links : List Link)
    → link_if b from to (link_if b from to links) ≡ link_if b from to links
unfolding link_if
link_if-again true from to links = merge_link-again from to links
link_if-again false from to links = refl

found_id :
    (p : Task → Bool) (tasks : List Task) (t : Task)
    → find_first p tasks ≡ some t
    → any (has_id t.id) tasks ≡ true
unfolding find_first
found_id p [] t h = cc
found_id p (u ∷ tasks) t h = elim (Bool-cases (p u)) [
  | inl hit ↦
      (let same = some_injective (sym (if_true _ _ _ hit) ∙ h) in
        ground (arith, ap (λ (x : Task). x.id == t.id) same ∙ eq_refl t.id))
  | inr miss ↦ ground (arith, found_id p tasks t (sym (if_false _ _ _ miss) ∙ h))
]

-- What a review leaves: the key finds the ticket, and the intent, where it is known, is linked with
-- it.
abbrev Leaves : Intent → Store → Store × String → Type 0
Leaves i s (s', id) =
    Finds (review_key i) (s'.queue.tasks, id)
    × (s'.intents ≡ s.intents)
    × (s'.created_task ≡ link_if (any (has_intent_id i.id) s.intents) i.id id s.created_task)

linked-Leaves :
    (i : Intent) (s : Store) (queue : Graph) (id : String)
    → Finds (review_key i) (queue.tasks, id)
    → Leaves i s (link_task i.id id (record s { queue = queue }), id)
unfolding link_if
linked-Leaves i s queue id (t, found, same) =
    subst (λ (r : Store). Leaves i s (r, id))
      (sym (
        link_task-known i.id id (record s { queue = queue })
          (subst (λ (k : String). any (has_id k) queue.tasks ≡ true) same
            (found_id _ queue.tasks t found))))
      ((t, found, same), refl, refl)

review-Leaves :
    (dumps : List (String × Option String) → String) (now : ℕ) (uuid : String) (i : Intent)
    (policy reason : String) (s : Store)
    → Leaves i s (queue_intent_review dumps now uuid i policy reason s)
unfolding queue_intent_review review_ticket
review-Leaves dumps now uuid i policy reason s =
    let k = review_ticket dumps i policy reason in
    linked-Leaves i s (upsert_ticket now uuid k s.queue).0 (upsert_ticket now uuid k s.queue).1 (
      upsert_ticket-Finds now uuid (review_key i) k s.queue refl
        (key_of-review dumps i policy reason))

review-known :
    (dumps : List (String × Option String) → String) (now : ℕ) (uuid : String) (i : Intent)
    (policy reason : String) (s : Store) (t : Task)
    → find_first (has_key (review_key i)) s.queue.tasks ≡ some t
    → let (s', id) = queue_intent_review dumps now uuid i policy reason s in
      (id ≡ t.id) × (length s'.queue.tasks ≡ length s.queue.tasks)
unfolding queue_intent_review review_ticket link_task
review-known dumps now uuid i policy reason s t known =
    let k = review_ticket dumps i policy reason in
    let e =
      upsert_ticket-known now uuid (review_key i) k s.queue t refl
        (key_of-review dumps i policy reason) known in
    (
      ap (λ (r : Graph × String). r.1) e,
      queue-link_task i.id (upsert_ticket now uuid k s.queue).1
            (record s { queue = (upsert_ticket now uuid k s.queue).0 })
          ∙ ap (λ (r : Graph × String). length r.0.tasks) e
          ∙ length-map _ s.queue.tasks,
    )

-- An intent that is queued for review again, at whatever time and for whatever reason, is given the
-- same ticket: no task and no link is added.
pub queue_intent_review-again :
    (dumps : List (String × Option String) → String) (now later : ℕ) (uuid other : String)
    (i : Intent) (policy reason policy' reason' : String) (s : Store)
    → let (s', ticket_id) = queue_intent_review dumps now uuid i policy reason s in
      let (s'', ticket_id') = queue_intent_review dumps later other i policy' reason' s' in
      (ticket_id' ≡ ticket_id)
      × (length s''.queue.tasks ≡ length s'.queue.tasks)
      × (s''.created_task ≡ s'.created_task)
queue_intent_review-again dumps now later uuid other i policy reason policy' reason' s =
    let s' = (queue_intent_review dumps now uuid i policy reason s).0 in
    let ((t, found, same), intents, links) = review-Leaves dumps now uuid i policy reason s in
    let (id, size) = review-known dumps later other i policy' reason' s' t found in
    let id' = (queue_intent_review dumps later other i policy' reason' s').1 in
    let (_, _, again) = review-Leaves dumps later other i policy' reason' s' in
    (
      id ∙ same,
      size,
      again
          ∙ ap (λ (l : List Intent). link_if (any (has_intent_id i.id) l) i.id id' s'.created_task)
              intents
          ∙ ap (λ (k : String). link_if (any (has_intent_id i.id) s.intents) i.id k s'.created_task)
              (id ∙ same)
          ∙ ap (link_if (any (has_intent_id i.id) s.intents) i.id _) links
          ∙ link_if-again (any (has_intent_id i.id) s.intents) i.id _ s.created_task
          ∙ sym links,
    )
