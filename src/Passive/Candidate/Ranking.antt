-- ===== src/Passive/Candidate/Ranking.antt =====
-- passive_agents.py: the order in which work is offered, and the range of a rank.
use mathlib.Core.List.{Perm}
use mathlib.Core.List.Perm
use auto_assist.Prelude.{
  ℕ, zero, suc, ◌+◌, ◌*◌, ◌≤◌, ◌<◌, String, ◌≡◌, ◌≢◌, ◌&&◌, refl, sym, subst, ap, eq_iff, if_true,
  if_false, All-both, Option, List, [], ◌∷◌, arith, leb, leb→le, leb→lt, take, length, keep, All,
  All-imp, All-take, inl, inr, Bool-cases, lower, upper, get_or, ◌==◌, if◌then◌else◌,
}
use auto_assist.Passive.Graph.{Task}
use auto_assist.Passive.Candidate.{
  Candidate, Suggestion, suggest_from, insert_ranked, sort_ranked, suggest_idle_work, is_fetched,
  order_tasks, normalize_idle_candidate, is_passive_safe, capabilities_match, rank_candidate,
  priority_bonus, queue_bonus, status_bonus,
}
use auto_assist.Passive.Candidate.Safety.{All-insert_ranked, All-sort_ranked}

abbrev NotBefore : Suggestion → Suggestion → Type 0
NotBefore s r = s.rank_score ≤ r.rank_score

-- from the least rank to the greatest
abbrev pub IsRanked : List Suggestion → Type 0
IsRanked [] = Unit
IsRanked (s ∷ ss) = All (NotBefore s) ss × IsRanked ss

insert_ranked-IsRanked :
    (s : Suggestion) (ss : List Suggestion) → IsRanked ss → IsRanked (insert_ranked s ss)
unfolding insert_ranked
insert_ranked-IsRanked s [] h = (tt, tt)
insert_ranked-IsRanked s (r ∷ rs) h = elim (Bool-cases (leb s.rank_score r.rank_score)) [
  | inl first ↦
      let le = leb→le s.rank_score r.rank_score first in
      rw first ((le, All-imp (NotBefore r) (NotBefore s) (λ u p. omega arith) rs h.0), h)
  | inr later ↦
      let lt = leb→lt s.rank_score r.rank_score later in
      rw later
        (All-insert_ranked (NotBefore r) s rs (omega arith) h.0, insert_ranked-IsRanked s rs h.1)
]

sort_ranked-IsRanked : (ss : List Suggestion) → IsRanked (sort_ranked ss)
unfolding sort_ranked
sort_ranked-IsRanked [] = tt
sort_ranked-IsRanked (s ∷ ss) = insert_ranked-IsRanked s (sort_ranked ss) (sort_ranked-IsRanked ss)

insert_ranked-perm : (s : Suggestion) (ss : List Suggestion) → Perm (insert_ranked s ss) (s ∷ ss)
unfolding insert_ranked
insert_ranked-perm s [] = Perm.refl (s ∷ [])
insert_ranked-perm s (r ∷ rs) = elim (Bool-cases (leb s.rank_score r.rank_score)) [
  | inl first ↦ rw first (Perm.refl (s ∷ r ∷ rs))
  | inr later ↦ rw later (Perm.trans (Perm.cons r (insert_ranked-perm s rs)) (Perm.swap s r rs))
]

sort_ranked-perm : (ss : List Suggestion) → Perm (sort_ranked ss) ss
unfolding sort_ranked
sort_ranked-perm [] = Perm.refl []
sort_ranked-perm (s ∷ ss) =
    Perm.trans (insert_ranked-perm s (sort_ranked ss)) (Perm.cons s (sort_ranked-perm ss))

IsRanked-take : (n : ℕ) (ss : List Suggestion) → IsRanked ss → IsRanked (take n ss)
IsRanked-take zero ss h = tt
IsRanked-take (suc n) [] h = tt
IsRanked-take (suc n) (s ∷ ss) h = (All-take (NotBefore s) n ss h.0, IsRanked-take n ss h.1)

-- the eligible work among the rows that the query returns
abbrev pub eligible : List Task → List String → ℕ → Option String → ℕ → List Suggestion
eligible tasks capabilities limit current now_ms =
    suggest_from now_ms capabilities
      (take (limit * 5) (order_tasks (keep (is_fetched current) tasks)))

priority_bonus-le : (p : String) → priority_bonus p ≤ 250
priority_bonus-le p = ground arith

queue_bonus-le : (q : String) → queue_bonus q ≤ 70
queue_bonus-le q = ground arith

status_bonus-le : (s : String) → status_bonus s ≤ 30
status_bonus-le s = ground arith

-- A rank lies between 578 and 1000, plus 5 for each required capability.
rank_candidate_bounds :
    (c : Candidate)
    → (578 + 5 * length c.required_capabilities ≤ rank_candidate c)
      × (rank_candidate c ≤ 1000 + 5 * length c.required_capabilities)
unfolding rank_candidate
rank_candidate_bounds c =
    let queue = lower (if c.queue_class == "" then "background" else c.queue_class) in
    omega (
      arith,
      priority_bonus-le (upper (get_or c.priority "")),
      queue_bonus-le queue,
      status_bonus-le (upper c.status),
    )

abbrev priority_of : Candidate → String
priority_of c = upper (get_or c.priority "")

abbrev pub IsHigh : Candidate → Type 0
IsHigh c = priority_of c ≡ "HIGH"

abbrev pub IsMinor : Candidate → Type 0
IsMinor c = (priority_of c ≢ "HIGH") × (priority_of c ≢ "MEDIUM")

rank_candidate-IsHigh :
    (c : Candidate) → IsHigh c → rank_candidate c ≤ 750 + 5 * length c.required_capabilities
unfolding rank_candidate
rank_candidate-IsHigh c high =
    let bonus : priority_bonus (priority_of c) ≡ 250 = ap priority_bonus high in
    omega (arith, bonus)

minor_bonus : (p : String) → p ≢ "HIGH" → p ≢ "MEDIUM" → priority_bonus p ≤ 50
minor_bonus p h m = elim (Bool-cases (p == "HIGH")) [
  | inl high ↦ absurd (h ((eq_iff p "HIGH").0 high))
  | inr lower_one ↦ elim (Bool-cases (p == "MEDIUM")) [
    | inl medium ↦ absurd (m ((eq_iff p "MEDIUM").0 medium))
    | inr minor ↦ ground (arith, lower_one, minor)
  ]
]

rank_candidate-IsMinor :
    (c : Candidate) → IsMinor c → 778 + 5 * length c.required_capabilities ≤ rank_candidate c
unfolding rank_candidate
rank_candidate-IsMinor c (h, m) =
    let queue = lower (if c.queue_class == "" then "background" else c.queue_class) in
    omega (
      arith,
      minor_bonus (priority_of c) h m,
      queue_bonus-le queue,
      status_bonus-le (upper c.status),
    )

-- `s` may stand before `r`: not where it is minor, `r` is HIGH, and it requires no less
abbrev Yields : Suggestion → Suggestion → Type 0
Yields s r =
    IsMinor s.candidate
    → IsHigh r.candidate
    → length s.candidate.required_capabilities < length r.candidate.required_capabilities

abbrev pub IsUrgentFirst : List Suggestion → Type 0
IsUrgentFirst [] = Unit
IsUrgentFirst (s ∷ ss) = All (Yields s) ss × IsUrgentFirst ss

abbrev IsScored : Suggestion → Type 0
IsScored s = s.rank_score ≡ rank_candidate s.candidate

suggest_from-IsScored :
    (now_ms : ℕ) (capabilities : List String) (ts : List Task)
    → All IsScored (suggest_from now_ms capabilities ts)
unfolding suggest_from
suggest_from-IsScored now_ms capabilities [] = tt
suggest_from-IsScored now_ms capabilities (t ∷ ts) =
    let item = normalize_idle_candidate t now_ms in
    let rest = suggest_from-IsScored now_ms capabilities ts in
    elim (Bool-cases (is_passive_safe item && capabilities_match item capabilities)) [
      | inl good ↦ subst (All IsScored) (sym (if_true _ _ _ good)) (refl, rest)
      | inr bad ↦ subst (All IsScored) (sym (if_false _ _ _ bad)) rest
    ]

Yields-ranked : (s r : Suggestion) → IsScored s → NotBefore s r × IsScored r → Yields s r
Yields-ranked s r known (ranked, scored) minor high = omega (
  arith,
  known,
  ranked,
  scored,
  rank_candidate-IsMinor s.candidate minor,
  rank_candidate-IsHigh r.candidate high,
)

IsRanked-IsUrgentFirst : (ss : List Suggestion) → IsRanked ss → All IsScored ss → IsUrgentFirst ss
IsRanked-IsUrgentFirst [] h k = tt
IsRanked-IsUrgentFirst (s ∷ ss) h k = (
  All-imp (λ (r : Suggestion). NotBefore s r × IsScored r) (Yields s)
      (λ r (x : NotBefore s r × IsScored r). Yields-ranked s r k.0 x) ss
      (All-both (NotBefore s) IsScored ss h.0 k.1),
  IsRanked-IsUrgentFirst ss h.1 k.1,
)

-- The suggestions are the first `limit` of an order of the eligible work among the first 5 * limit
-- rows that the query returns. In this order, and so also between what is offered and the eligible
-- work of these rows that is left out, ranks go from the least to the greatest, and a task whose
-- priority is neither HIGH nor MEDIUM stands before a HIGH one only if it requires fewer
-- capabilities.
pub suggest_idle_work-best :
    (tasks : List Task) (capabilities : List String) (limit : ℕ) (current : Option String)
    (now_ms : ℕ)
    → (order : List Suggestion) × Perm order (eligible tasks capabilities limit current now_ms)
      × IsRanked order
      × IsUrgentFirst order
      × (suggest_idle_work tasks capabilities limit current now_ms ≡ take limit order)
unfolding suggest_idle_work
suggest_idle_work-best tasks capabilities limit current now_ms =
    let found = eligible tasks capabilities limit current now_ms in
    let ranked = sort_ranked-IsRanked found in
    (
      sort_ranked found,
      sort_ranked-perm found,
      ranked,
      IsRanked-IsUrgentFirst (sort_ranked found) ranked
          (All-sort_ranked IsScored found (suggest_from-IsScored now_ms capabilities _)),
      refl,
    )
