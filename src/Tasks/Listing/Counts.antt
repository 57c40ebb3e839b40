-- ===== src/Tasks/Listing/Counts.antt =====
-- neo4j_client.py: what the counts of the tasks by status add up to.
use auto_assist.Prelude.{
  ℕ, suc, String, ◌≡◌, refl, sym, subst, ap, ◌∙◌, inl, inr, true, false, Option, none, some, List,
  [], ◌∷◌, arith, Bool-cases, if_true, if_false, false-ne-true, if◌then◌else◌, length, count,
  eq_iff, eq_refl,
}
use auto_assist.Tasks.Graph.{Task}
use auto_assist.Tasks.Listing.{add_status, same_status, task_counts_by_status, total_tasks}

-- the number that is told for a status
abbrev pub count_of : Option String → List (Option String × ℕ) → ℕ
count_of st [] = 0
count_of st ((s, c) ∷ counts) = if same_status s st then c else count_of st counts

same_status-eq : (a b : Option String) → same_status a b ≡ true → a ≡ b
same_status-eq none none h = refl
same_status-eq none (some b) h = cc
same_status-eq (some a) none h = cc
same_status-eq (some a) (some b) h = ap some ((eq_iff a b).0 h)

same_refl : (a : Option String) → same_status a a ≡ true
same_refl none = refl
same_refl (some s) = eq_refl s

differ_sym : (a b : Option String) → same_status a b ≡ false → same_status b a ≡ false
differ_sym a b h = elim (Bool-cases (same_status b a)) [
  | inr differs ↦ differs
  | inl same ↦ false-ne-true h (
      subst (λ (x : Option String). same_status a x ≡ true) (sym (same_status-eq b a same))
        (same_refl a))
]

foreign_status :
    (r s st : Option String)
    → same_status r st ≡ true
    → same_status r s ≡ false
    → same_status s st ≡ false
foreign_status r s st mine miss =
    subst (λ (x : Option String). same_status s x ≡ false) (same_status-eq r st mine)
      (differ_sym r s miss)

count_of-add_status :
    (st s : Option String) (counts : List (Option String × ℕ))
    → count_of st (add_status s counts)
      ≡ (if same_status s st then suc (count_of st counts) else count_of st counts)
unfolding add_status
count_of-add_status st s [] = refl
count_of-add_status st s ((r, c) ∷ counts) = elim (Bool-cases (same_status r s)) [
  | inl hit ↦
      ap (count_of st) (if_true _ _ _ hit)
      ∙ subst
          (λ (x : Option String). (if same_status x st then suc c else count_of st counts) ≡ (
            if same_status s st
            then suc (if same_status x st then c else count_of st counts)
            else if same_status x st
            then c
            else count_of st counts))
          (sym (same_status-eq r s hit))
          (elim (Bool-cases (same_status s st)) [
            | inl mine ↦ rw mine refl
            | inr foreign ↦ rw foreign refl
          ])
  | inr miss ↦ ap (count_of st) (if_false _ _ _ miss) ∙ elim (Bool-cases (same_status r st)) [
    | inl mine ↦ rw (mine, foreign_status r s st mine miss) refl
    | inr foreign ↦ rw foreign (count_of-add_status st s counts)
  ]
]

total-add_status :
    (s : Option String) (counts : List (Option String × ℕ))
    → total_tasks (add_status s counts) ≡ suc (total_tasks counts)
unfolding add_status
total-add_status s [] = refl
total-add_status s ((r, c) ∷ counts) = ground (arith, total-add_status s counts)

-- The counts of `fleet_status` are exact: each status has as many as there are tasks with it, and
-- together they count every task once.
pub task_counts_by_status-exact :
    (st : Option String) (tasks : List Task)
    → (count_of st (task_counts_by_status tasks)
        ≡ count (λ (t : Task). same_status t.status st) tasks)
      × (total_tasks (task_counts_by_status tasks) ≡ length tasks)
unfolding task_counts_by_status
task_counts_by_status-exact st [] = (refl, refl)
task_counts_by_status-exact st (t ∷ tasks) =
    let (exact, total) = task_counts_by_status-exact st tasks in
    (
      count_of-add_status st t.status (task_counts_by_status tasks)
          ∙ ap (λ (n : ℕ). if same_status t.status st then suc n else n) exact,
      total-add_status t.status (task_counts_by_status tasks) ∙ ap suc total,
    )
