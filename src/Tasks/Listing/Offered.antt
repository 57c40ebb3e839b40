-- ===== src/Tasks/Listing/Offered.antt =====
-- neo4j_client.py: which tasks a poll offers.
use auto_assist.Prelude.{
  ℕ, ◌≤◌, max, min, length-keep_le, String, ◌≡◌, refl, sym, subst, ap, ◌∙◌, inl, inr, Bool, true,
  false, ◌&&◌, ◌||◌, List, [], ◌∷◌, ◌==◌, arith, map, keep, take, any, Bool-cases, if_true,
  if_false, false-ne-true, if◌then◌else◌, All, All-keep, All-take, All-imp, All-both, All-test,
  All-map, length, length-take, length-map,
}
use auto_assist.Prelude.Sorting.{sort_by, All-sort_by, length-sort_by}
use auto_assist.Passive.Graph.{Required, absent, listed, text, other}
use auto_assist.Tasks.Graph.{Task, equals}
use auto_assist.Tasks.Claim.{required_of, covers, is_empty, is_set}
use auto_assist.Tasks.Listing.{
  Poll, is_targeted, names, is_for, is_offered, fetch_tasks, list_of, with_required, ranks_before,
  fetch_limit, is_older, list_agent_tasks,
}

-- the requirements that an agent with capabilities meets
abbrev pub Fits : List String → List String → Type 0
Fits [] required = Unit
Fits (c ∷ caps) required =
    (any (λ (x : String). x == c) required ≡ true) × (covers (c ∷ caps) required ≡ true)

abbrev pub IsFor : Poll → Task → Type 0
IsFor q t =
    (required : List String) × (t.required_capabilities ≡ listed required)
    × (equals t.status q.status ≡ true)
    × (is_for q.agent_id t.target_agent_id ≡ true)
    × Fits q.capabilities required

required_listed :
    (t : Task) (x : String) (xs : List String)
    → t.required_capabilities ≡ listed (x ∷ xs)
    → list_of (required_of t) ≡ x ∷ xs
required_listed t x xs e =
    ap
      (λ (r : Required).
        list_of
          (if is_set r then r else if is_set t.capabilities then t.capabilities else listed []))
      e

required_of-Fits :
    (caps : List String) (own : Required) (t : Task)
    → t.required_capabilities ≡ own
    → is_targeted caps t ≡ true
    → (is_empty caps || is_empty (list_of (required_of t)) || covers caps (list_of (required_of t)))
      ≡ true
    → Fits caps (list_of (required_of t))
required_of-Fits [] own t e h k = tt
required_of-Fits (c ∷ caps) absent t e h k = false-ne-true (ap (names c) e) h
required_of-Fits (c ∷ caps) (listed []) t e h k = false-ne-true (ap (names c) e) h
required_of-Fits (c ∷ caps) (listed (x ∷ xs)) t e h k =
    let required : list_of (required_of t) ≡ x ∷ xs = required_listed t x xs e in
    (
      ap (any (λ (y : String). y == c)) required ∙ sym (ap (names c) e) ∙ h,
      subst
          (λ (r : List String).
            (is_empty r || covers (c ∷ caps) r) ≡ true → covers (c ∷ caps) r ≡ true)
          (sym required) (λ y. y) k,
    )
required_of-Fits (c ∷ caps) (text s) t e h k = false-ne-true (ap (names c) e) h
required_of-Fits (c ∷ caps) other t e h k = false-ne-true (ap (names c) e) h

-- what the query and the loop have tested
abbrev Tested : Poll → Task → Type 0
Tested q t =
    ((equals t.status q.status && is_targeted q.capabilities t) ≡ true) × (is_offered q t ≡ true)

both_true : (a b : Bool) → (a && b) ≡ true → (a ≡ true) × (b ≡ true)
both_true true b h = (refl, h)
both_true false b h = cc

Tested-IsFor : (q : Poll) (t : Task) → Tested q t → IsFor q (with_required t)
unfolding is_offered
Tested-IsFor q t (fetched, kept) =
    let (status, targeted) =
      both_true (equals t.status q.status) (is_targeted q.capabilities t) fetched in
    let (able, mine) = both_true _ (is_for q.agent_id t.target_agent_id) kept in
    (
      list_of (required_of t),
      refl,
      status,
      mine,
      required_of-Fits q.capabilities t.required_capabilities t refl targeted able,
    )

fetched-Tested :
    (q : Poll) (tasks : List Task)
    → All
        (λ (t : Task). (equals t.status q.status && is_targeted q.capabilities t) ≡ true)
        (fetch_tasks q tasks)
unfolding fetch_tasks
fetched-Tested q tasks = All-take _ _ _ (All-sort_by _ _ _ (All-test _ tasks))

-- the rows of the query that the loop reaches
length-kept :
    (q : Poll) (tasks : List Task)
    → length (keep (is_offered q) (fetch_tasks q tasks)) ≤ fetch_limit q
unfolding fetch_tasks
length-kept q tasks =
    let rows =
      sort_by is_older
        (keep (λ (t : Task). equals t.status q.status && is_targeted q.capabilities t) tasks) in
    omega (
      arith,
      length-keep_le (is_offered q) (take (fetch_limit q) rows),
      length-take (fetch_limit q) rows,
    )

-- no row where the limit is 0
fetch_limit-within : (q : Poll) (n : ℕ) → n ≤ fetch_limit q → n ≤ max q.limit 1 → n ≤ q.limit
fetch_limit-within q n rows taken = elim (Bool-cases (is_empty q.capabilities)) [
  | inl none_named ↦ omega (arith, taken, subst (λ (k : ℕ). n ≤ k) (if_true _ _ _ none_named) rows)
  | inr named ↦ subst (λ (k : ℕ). n ≤ k) (if_false _ _ _ named) rows
]

-- A poll offers at most `limit` tasks. Each has the status that it asks for,
-- its required capabilities as a list, and is targeted at no other agent. To an agent with
-- capabilities only tasks are offered that require the first of these and no capability that the
-- agent lacks: so none that requires nothing.
pub list_agent_tasks-IsFor :
    (q : Poll) (tasks : List Task)
    → All (IsFor q) (list_agent_tasks q tasks) × (length (list_agent_tasks q tasks) ≤ q.limit)
unfolding list_agent_tasks
list_agent_tasks-IsFor q tasks =
    let kept = keep (is_offered q) (fetch_tasks q tasks) in
    let tested : All (Tested q) kept =
      All-both _ _ kept (All-keep _ (is_offered q) (fetch_tasks q tasks) (fetched-Tested q tasks))
        (All-test (is_offered q) (fetch_tasks q tasks)) in
    let offered : length (list_agent_tasks q tasks) ≡ min (max q.limit 1) (length kept) = omega (
      arith,
      length-sort_by ranks_before (map with_required (take (max q.limit 1) kept)),
      length-map with_required (take (max q.limit 1) kept),
      length-take (max q.limit 1) kept,
    ) in
    (
      All-sort_by _ (IsFor q) _ (
          All-map (IsFor q) with_required _ (
            All-take _ (max q.limit 1) kept (
              All-imp (Tested q) (λ (t : Task). IsFor q (with_required t)) (Tested-IsFor q) kept
                tested))),
      fetch_limit-within q (length (list_agent_tasks q tasks))
          (omega (arith, offered, length-kept q tasks)) (omega (arith, offered)),
    )
