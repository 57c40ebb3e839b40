-- ===== src/Swarm/Assignment/Leases.antt =====
-- swarm_core.py: what the sweep of the expired leases does, and which tasks it reaches.
use auto_assist.Prelude.{
  ℕ, String, ◌≡◌, refl, sym, ap, ◌∙◌, inl, inr, Bool, false, Option, none, some, List, [], ◌∷◌, any,
  map, count, eqb, arith, Bool-cases, if_true, if_false,
}
use mathlib.Core.Path.{ap₂}
use auto_assist.Swarm.Assignment.{
  Task, has_id, update_if, find_task, has_lapsed, set_released, now_or, release_expired_task_leases,
}

released-rested : (now clock : ℕ) (t : Task) → has_lapsed now (set_released clock t) ≡ false
released-rested now clock t = refl

swept-none :
    (now clock : ℕ) (tasks : List Task)
    → any (has_lapsed now) (map (update_if (has_lapsed now) (set_released clock)) tasks) ≡ false
swept-none now clock [] = refl
swept-none now clock (t ∷ tasks) = elim (Bool-cases (has_lapsed now t)) [
  | inl hit ↦ ground (arith, released-rested now clock t, swept-none now clock tasks)
  | inr miss ↦ ground (arith, swept-none now clock tasks)
]

module _ (p : Task → Bool) (f : Task → Task) where
  map-none : (tasks : List Task) → any p tasks ≡ false → map (update_if p f) tasks ≡ tasks
  map-none [] h = refl
  map-none (t ∷ tasks) h = ground (arith, map-none tasks)

  count-none : (tasks : List Task) → any p tasks ≡ false → count p tasks ≡ 0
  count-none [] h = refl
  count-none (t ∷ tasks) h = ground (arith, count-none tasks)

  pub id-kept :
      (id : String)
      → ((t : Task) → (f t).id ≡ t.id)
      → (u : Task) → has_id id (update_if p f u) ≡ has_id id u
  id-kept id same u = elim (Bool-cases (p u)) [ inl hit ↦ rw (hit, same u) | inr miss ↦ rw miss ]

  some-eq : (u t : Task) → some u ≡ some t → u ≡ t
  some-eq u t e = ground arith

  -- the update of a task leaves its place in the search by id
  pub find_task-map :
      (id : String)
      → ((t : Task) → (f t).id ≡ t.id)
      → (tasks : List Task) (t : Task) → find_task id tasks ≡ some t
      → find_task id (map (update_if p f) tasks) ≡ some (update_if p f t)
  unfolding find_task
  find_task-map id same [] t h = ground arith
  find_task-map id same (u ∷ tasks) t h = elim (Bool-cases (has_id id u)) [
    | inl hit ↦
        rw (if_true _ _ _ (id-kept id same u ∙ hit), some-eq u t (sym (if_true _ _ _ hit) ∙ h))
    | inr miss ↦
        if_false _ _ _ (id-kept id same u ∙ miss)
        ∙ find_task-map id same tasks t (sym (if_false _ _ _ miss) ∙ h)
  ]

-- One sweep is enough: after it, no lease of a claimed or running task has lapsed, and a second
-- sweep at the same time releases nothing and changes nothing.
release_expired_task_leases-settled :
    (now_ms : Option ℕ) (clock : ℕ) (tasks : List Task)
    → let (tasks', released) = release_expired_task_leases now_ms clock tasks in
      (any (has_lapsed (now_or now_ms clock)) tasks' ≡ false)
      × (released ≡ count (has_lapsed (now_or now_ms clock)) tasks)
      × (release_expired_task_leases none (now_or now_ms clock) tasks' ≡ (tasks', 0))
unfolding release_expired_task_leases
release_expired_task_leases-settled now_ms clock tasks =
    let now = now_or now_ms clock in
    let tasks' = map (update_if (has_lapsed now) (set_released clock)) tasks in
    let rested = swept-none now clock tasks in
    (
      rested,
      refl,
      ap₂ (λ (ts : List Task) (n : ℕ). (ts, n))
          (map-none (has_lapsed now) (set_released now) tasks' rested)
          (count-none (has_lapsed now) (set_released now) tasks' rested),
    )

pub sweep_always :
    (now_ms : Option ℕ) (clock : ℕ) (tasks : List Task)
    → (release_expired_task_leases now_ms clock tasks).0
      ≡ map (update_if (has_lapsed (now_or now_ms clock)) (set_released clock)) tasks
unfolding release_expired_task_leases
sweep_always now_ms clock tasks = refl

pub sweep-at :
    (later clock : ℕ) (tasks : List Task)
    → eqb later 0 ≡ false
    → (release_expired_task_leases (some later) clock tasks).0
      ≡ map (update_if (has_lapsed later) (set_released clock)) tasks
unfolding release_expired_task_leases
sweep-at later clock tasks h =
    ap (λ (n : ℕ). map (update_if (has_lapsed n) (set_released clock)) tasks) (if_false _ _ _ h)
