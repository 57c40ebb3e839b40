-- ===== src/Tasks/Claim/Replay.antt =====
-- neo4j_client.py: a claim that is sent again with its idempotency key.
use auto_assist.Prelude.{
  String, ◌≡◌, refl, sym, ap, ◌∙◌, inl, inr, Bool, true, false, Option, none, some, List, [], ◌∷◌,
  ◌==◌, eq_refl, arith, map, update_if, Bool-cases, if_true, if_false, if◌then◌else◌,
  some_injective, any, find_first, find_first-none, any-find_first, get_or, or_default, is_nonempty,
}
use auto_assist.Tasks.Graph.{Task, Graph, update_tasks}
use auto_assist.Tasks.Claim.{
  Request, Claimed, granted, idempotent, claim_id_of, is_claimable, set_claim, claim_ready,
  answer_claim, is_prior, find_prior, claim_task,
}
use auto_assist.Tasks.Claim.Answers.{
  claimable_id, claim_ready-some, tasks-note_session, claim_task-Answers,
}

find_first-updated :
    (p c : Task → Bool) (f : Task → Task) (tasks : List Task) (t : Task)
    → ((x : Task) → c x ≡ true → p (f x) ≡ true)
    → any p tasks ≡ false
    → find_first c tasks ≡ some t
    → find_first p (map (update_if c f) tasks) ≡ some (f t)
unfolding find_first
find_first-updated p c f [] t fits miss h = ground (arith, h)
find_first-updated p c f (x ∷ tasks) t fits miss h = elim (Bool-cases (c x)) [
  | inl hit ↦
      let same = some_injective (sym (if_true _ _ _ hit) ∙ h) in
      rw hit (if_true _ _ _ (fits x hit) ∙ ap (λ (y : Task). some (f y)) same)
  | inr other ↦ elim (Bool-cases (p x)) [
    | inl early ↦ ground (arith, early, miss)
    | inr later ↦ rw other (
        if_false _ _ _ later
        ∙ find_first-updated p c f tasks t fits (ground (arith, later, miss))
            (sym (if_false _ _ _ other) ∙ h))
  ]
]

key_prior :
    (q : Request) (key : String) (tasks : List Task)
    → q.idempotency_key ≡ some key
    → (key == "") ≡ false
    → find_prior q tasks ≡ find_first (is_prior q.task_id key) tasks
key_prior q key tasks h full =
    ap
      (λ (o : Option String).
        if is_nonempty (get_or o "")
        then find_first (is_prior q.task_id (get_or o "")) tasks
        else none)
      h
    ∙ if_true (find_first (is_prior q.task_id key) tasks) none (is_nonempty key) (rw full refl)

key_claim :
    (q : Request) (key : String)
    → q.idempotency_key ≡ some key
    → (key == "") ≡ false
    → claim_id_of q ≡ key
unfolding claim_id_of
key_claim q key h full = ap (λ (o : Option String). or_default o q.uuid) h ∙ if_false _ _ _ full

set_claim-prior :
    (g : Graph) (q : Request) (key : String) (t : Task)
    → claim_id_of q ≡ key
    → is_claimable g q.task_id t ≡ true
    → is_prior q.task_id key (set_claim q t) ≡ true
unfolding set_claim
set_claim-prior g q key t h free = rw (claimable_id g q.task_id t free, h) (eq_refl key)

claim_task-prior :
    (q : Request) (g : Graph) (t : Task)
    → find_prior q g.tasks ≡ some t
    → claim_task q g ≡ (g, idempotent (claim_id_of q) t)
unfolding claim_task
claim_task-prior q g t h = rw (h, claim_task) refl

claim_task-new :
    (q : Request) (g : Graph)
    → find_prior q g.tasks ≡ none
    → claim_task q g ≡ answer_claim q (claim_ready q g)
unfolding claim_task
claim_task-new q g h = rw (h, claim_task) refl

granted_injective : {t u : Task} → granted t ≡ granted u → t ≡ u
granted_injective h = cc

-- the first claim that fits is the one that a claim of the graph after it finds
prior_after :
    (q : Request) (key : String) (g : Graph) (u : Task)
    → q.idempotency_key ≡ some key
    → (key == "") ≡ false
    → find_prior q g.tasks ≡ none
    → find_first (is_claimable g q.task_id) g.tasks ≡ some u
    → find_prior q (update_tasks (is_claimable g q.task_id) (set_claim q) g.tasks)
      ≡ some (set_claim q u)
prior_after q key g u h full new free =
    let c = is_claimable g q.task_id in
    let none_yet =
      find_first-none (is_prior q.task_id key) g.tasks
        (sym (key_prior q key g.tasks h full) ∙ new) in
    key_prior q key (update_tasks c (set_claim q) g.tasks) h full
    ∙ find_first-updated (is_prior q.task_id key) c (set_claim q) g.tasks u
        (λ x. set_claim-prior g q key x (key_claim q key h full)) none_yet free

replayed :
    (q : Request) (key : String) (g : Graph) (t : Task)
    → q.idempotency_key ≡ some key
    → (key == "") ≡ false
    → (claim_task q g).1 ≡ granted t
    → find_prior q g.tasks ≡ none
    → any (is_claimable g q.task_id) g.tasks ≡ true
    → let g' = (claim_task q g).0 in claim_task q g' ≡ (g', idempotent key t)
replayed q key g t h full told new some_free =
    let (u, free) = any-find_first (is_claimable g q.task_id) g.tasks some_free in
    let answer = claim_task-new q g new ∙ ap (answer_claim q) (claim_ready-some q g u free) in
    let same = granted_injective (sym (ap (λ (r : Graph × Claimed). r.1) answer) ∙ told) in
    let after =
      ap (λ (r : Graph × Claimed). r.0.tasks) answer
      ∙ tasks-note_session q.session_id q.task_id _ in
    let again = ap (find_prior q) after ∙ prior_after q key g u h full new free in
    claim_task-prior q (claim_task q g).0 (set_claim q u) again
    ∙ ap (λ (k : String). ((claim_task q g).0, idempotent k (set_claim q u)))
        (key_claim q key h full)
    ∙ ap (λ (v : Task). ((claim_task q g).0, idempotent key v)) same

-- A claim that was granted under an idempotency key and is sent again at once is answered with the
-- same task as its own claim, and changes nothing.
pub claim_task-replayed :
    (q : Request) (key : String) (g : Graph) (t : Task)
    → q.idempotency_key ≡ some key
    → (key == "") ≡ false
    → (claim_task q g).1 ≡ granted t
    → let g' = (claim_task q g).0 in claim_task q g' ≡ (g', idempotent key t)
claim_task-replayed q key g t h full told = elim (claim_task-Answers q g) [
  | inl (u, _, _, other) ↦ cc
  | inr (_, inr (_, _, inl other)) ↦ cc
  | inr (_, inr (_, _, inr (inl (_, other, _)))) ↦ cc
  | inr (_, inr (_, _, inr (inr other))) ↦ cc
  | inr (new, inl (_, _, free, _, _)) ↦ replayed q key g t h full told new free
]
