-- ===== src/Passive/Candidate/Safety.antt =====
-- passive_agents.py: which tasks are offered to an idle agent.
use auto_assist.Prelude.{
  ℕ, ◌*◌, ◌≤◌, String, ◌≡◌, ◌≢◌, refl, true, false, ◌&&◌, Option, List, [], ◌∷◌, arith, ◌==◌, leb,
  take, length, length-take, keep, All, All-take, lower, inl, inr, Bool-cases, eq_iff, ap, ◌∙◌,
  if◌then◌else◌, IsIn, any, all, map, upper, ◌⊎◌,
}
use auto_assist.Passive.Graph.{Task}
use auto_assist.Passive.Candidate.{
  Candidate, Suggestion, normalize_idle_candidate, is_passive_safe, is_idle_status,
  capabilities_match, suggest_from, insert_ranked, sort_ranked, suggest_idle_work, is_fetched,
  order_tasks, rank_candidate,
}

module _ {κ} (P : Suggestion → Type κ) where
  pub All-insert_ranked :
      (s : Suggestion) (ss : List Suggestion) → P s → All P ss → All P (insert_ranked s ss)
  unfolding insert_ranked
  All-insert_ranked s [] p h = (p, tt)
  All-insert_ranked s (r ∷ rs) p h = elim (Bool-cases (leb s.rank_score r.rank_score)) [
    | inl first ↦ rw first (p, h)
    | inr later ↦ rw later (h.0, All-insert_ranked s rs p h.1)
  ]

  pub All-sort_ranked : (ss : List Suggestion) → All P ss → All P (sort_ranked ss)
  unfolding sort_ranked
  All-sort_ranked [] h = tt
  All-sort_ranked (s ∷ ss) h = All-insert_ranked s (sort_ranked ss) h.0 (All-sort_ranked ss h.1)

-- the agent names the capability, in letters of either case
abbrev pub HasCapability : List String → String → Type 0
HasCapability capabilities r = (d : String) × IsIn d capabilities × (lower d ≡ lower r)

any_lowered :
    (capabilities : List String) (r : String)
    → any (λ (x : String). x == lower r) (map lower capabilities) ≡ true
    → HasCapability capabilities r
any_lowered [] r h = cc
any_lowered (d ∷ ds) r h = elim (Bool-cases (lower d == lower r)) [
  | inl hit ↦ (d, inl refl, (eq_iff (lower d) (lower r)).0 hit)
  | inr miss ↦
      let (e, there, same) = any_lowered ds r (ground (arith, h, miss)) in (e, inr there, same)
]

all_lowered :
    (capabilities required : List String)
    → all
        (λ (r : String). any (λ (x : String). x == r) (map lower capabilities))
        (map lower required)
      ≡ true
    → All (HasCapability capabilities) required
all_lowered capabilities [] h = tt
all_lowered capabilities (r ∷ rs) h =
    elim (Bool-cases (any (λ (x : String). x == lower r) (map lower capabilities))) [
      | inl hit ↦
          (any_lowered capabilities r hit, all_lowered capabilities rs (ground (arith, h, hit)))
      | inr miss ↦ ground (arith, h, miss)
    ]

capabilities_match-All :
    (c : Candidate) (capabilities : List String)
    → capabilities_match c capabilities ≡ true
    → All (HasCapability capabilities) c.required_capabilities
unfolding capabilities_match
capabilities_match-All c capabilities h = all_lowered capabilities c.required_capabilities h

idle_cases : (st : String) → is_idle_status st ≡ true → (upper st ≡ "READY") ⊎ (upper st ≡ "REVIEW")
unfolding is_idle_status
idle_cases st h = elim (Bool-cases (upper st == "READY")) [
  | inl ready ↦ inl ((eq_iff (upper st) "READY").0 ready)
  | inr other ↦ inr ((eq_iff (upper st) "REVIEW").0 (ground (arith, h, other)))
]

-- what a suggestion promises
pub record IsOffered (capabilities : List String) (s : Suggestion) : Type 0 where
  pub public_task : s.candidate.sensitive ≡ false
  pub anywhere : s.candidate.local_only ≡ false
  pub background :
      (lower s.candidate.queue_class ≢ "critical") × (lower s.candidate.queue_class ≢ "interactive")
  pub idle : (upper s.candidate.status ≡ "READY") ⊎ (upper s.candidate.status ≡ "REVIEW")
  pub able : All (HasCapability capabilities) s.candidate.required_capabilities
  pub ranked : s.rank_score ≡ rank_candidate s.candidate

lower-empty : lower "" ≡ ""
unfolding lower
lower-empty = refl

-- the queue class as it is, where the code reads "background" for an empty one
not_interactive :
    (q : String)
    → (lower (if q == "" then "background" else q) == "critical") ≡ false
    → (lower (if q == "" then "background" else q) == "interactive") ≡ false
    → (lower q ≢ "critical") × (lower q ≢ "interactive")
not_interactive q a b = elim (Bool-cases (q == "")) [
  | inl empty ↦
      let blank : lower q ≡ "" = ap lower ((eq_iff q "").0 empty) ∙ lower-empty in
      (
        λ e. ground (arith, blank, e, eq_iff "" "critical"),
        λ e. ground (arith, blank, e, eq_iff "" "interactive"),
      )
  | inr some_class ↦
      let a' = rw some_class at a in
      let b' = rw some_class at b in
      (
        λ e. ground (arith, a', eq_iff (lower q) "critical"),
        λ e. ground (arith, b', eq_iff (lower q) "interactive"),
      )
]

safe_facts :
    (c : Candidate)
    → is_passive_safe c ≡ true
    → (c.sensitive ≡ false)
      × (c.local_only ≡ false)
      × ((lower c.queue_class ≢ "critical") × (lower c.queue_class ≢ "interactive"))
      × (is_idle_status c.status ≡ true)
unfolding is_passive_safe
safe_facts c h = (
  ground arith,
  ground arith,
  not_interactive c.queue_class (ground arith) (ground arith),
  ground arith,
)

IsOffered-candidate :
    (c : Candidate) (capabilities : List String)
    → (is_passive_safe c && capabilities_match c capabilities) ≡ true
    → IsOffered capabilities (record { candidate = c; rank_score = rank_candidate c })
IsOffered-candidate c capabilities h =
    let facts = safe_facts c (ground arith) in
    record {
      public_task = facts.0;
      anywhere = facts.1;
      background = facts.2;
      idle = idle_cases c.status facts.3;
      able = capabilities_match-All c capabilities (ground arith);
      ranked = refl;
    }

suggest_from-IsOffered :
    (now_ms : ℕ) (capabilities : List String) (ts : List Task)
    → All (IsOffered capabilities) (suggest_from now_ms capabilities ts)
unfolding suggest_from
suggest_from-IsOffered now_ms capabilities [] = tt
suggest_from-IsOffered now_ms capabilities (t ∷ ts) =
    let item = normalize_idle_candidate t now_ms in
    elim (Bool-cases (is_passive_safe item && capabilities_match item capabilities)) [
      | inl good ↦ rw good (
        IsOffered-candidate item capabilities good,
        suggest_from-IsOffered now_ms capabilities ts,
      )
      | inr bad ↦ rw bad (suggest_from-IsOffered now_ms capabilities ts)
    ]

-- Every suggestion is neither sensitive nor bound to a machine, stands in no interactive queue, is
-- READY or in REVIEW, requires no capability that the agent does not name, in letters of either
-- case, and carries its own rank; there are at most `limit` of them.
pub suggest_idle_work-IsOffered :
    (tasks : List Task) (capabilities : List String) (limit : ℕ) (current : Option String)
    (now_ms : ℕ)
    → All (IsOffered capabilities) (suggest_idle_work tasks capabilities limit current now_ms)
      × (length (suggest_idle_work tasks capabilities limit current now_ms) ≤ limit)
unfolding suggest_idle_work
suggest_idle_work-IsOffered tasks capabilities limit current now_ms =
    let rows = take (limit * 5) (order_tasks (keep (is_fetched current) tasks)) in
    let found = suggest_from now_ms capabilities rows in
    (
      All-take (IsOffered capabilities) limit (sort_ranked found) (
          All-sort_ranked (IsOffered capabilities) found
            (suggest_from-IsOffered now_ms capabilities rows)),
      omega (arith, length-take limit (sort_ranked found)),
    )
