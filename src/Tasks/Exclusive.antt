-- ===== src/Tasks/Exclusive.antt =====
-- neo4j_client.py: who is granted a task over a sequence of claims, heartbeats and completions.
use auto_assist.Prelude.{
  ℕ, suc, ◌≤◌, String, ◌≡◌, refl, sym, subst, ◌∙◌, inl, inr, true, ◌&&◌, List, [], ◌∷◌, ◌==◌,
  eq_iff, arith, any, Bool-cases, if_true, if_false, if◌then◌else◌, All, false-ne-true,
}
use auto_assist.Tasks.Graph.{Graph}
use auto_assist.Tasks.Claim.{Request, is_claimable, claim_task}
use auto_assist.Tasks.Taken.{Holds, IsTaken, Op, step, claim, beat, complete}
use auto_assist.Tasks.Taken.Claiming.{is_granted, claim-IsTaken, claim-granted}
use auto_assist.Tasks.Taken.Worked.{beat-IsTaken, complete-IsTaken}

-- how many claims of the task are granted
unfoldable pub grants : String → List Op → Graph → ℕ
grants id [] g = 0
grants id (claim q ∷ ops) g =
    let rest = grants id ops (step (claim q) g) in
    if q.task_id == id && is_granted (claim_task q g).1 then suc rest else rest
grants id (beat q ∷ ops) g = grants id ops (step (beat q) g)
grants id (complete q ∷ ops) g = grants id ops (step (complete q) g)

-- a claim of the task that is granted
counted :
    (id : String) (q : Request) (g : Graph)
    → (q.task_id == id && is_granted (claim_task q g).1) ≡ true
    → (any (is_claimable g id) g.tasks ≡ true) × IsTaken id (step (claim q) g)
counted id q g h =
    let same = (eq_iff q.task_id id).0 (ground (arith, h)) in
    subst (λ (k : String). (any (is_claimable g k) g.tasks ≡ true) × IsTaken k (step (claim q) g))
      same (claim-granted q g (ground (arith, h)))

taken-grants :
    (id : String) (ops : List Op) (g : Graph)
    → All (Holds id) ops
    → IsTaken id g
    → grants id ops g ≡ 0
unfolding grants
taken-grants id [] g hs taken = refl
taken-grants id (claim q ∷ ops) g hs taken =
    let rest = taken-grants id ops (step (claim q) g) hs.1 (claim-IsTaken id q g taken) in
    elim (Bool-cases (q.task_id == id && is_granted (claim_task q g).1)) [
      | inl hit ↦ false-ne-true taken (counted id q g hit).0
      | inr miss ↦ if_false _ _ _ miss ∙ rest
    ]
taken-grants id (beat q ∷ ops) g hs taken =
    taken-grants id ops (step (beat q) g) hs.1 (beat-IsTaken id q g hs.0 taken)
taken-grants id (complete q ∷ ops) g hs taken =
    taken-grants id ops (step (complete q) g) hs.1 (complete-IsTaken id q g taken)

-- Over any sequence of claims, heartbeats and completions by any agents, in which no heartbeat
-- gives the task the status READY, at most one claim of the task is granted.
pub grants-le : (id : String) (ops : List Op) (g : Graph) → All (Holds id) ops → grants id ops g ≤ 1
unfolding grants
grants-le id [] g hs = omega arith
grants-le id (claim q ∷ ops) g hs =
    elim (Bool-cases (q.task_id == id && is_granted (claim_task q g).1)) [
      | inl hit ↦
          let rest = taken-grants id ops (step (claim q) g) hs.1 (counted id q g hit).1 in
          subst (λ (n : ℕ). n ≤ 1) (sym (if_true _ _ _ hit)) (omega (arith, rest))
      | inr miss ↦
          subst (λ (n : ℕ). n ≤ 1) (sym (if_false _ _ _ miss))
            (grants-le id ops (step (claim q) g) hs.1)
    ]
grants-le id (beat q ∷ ops) g hs = grants-le id ops (step (beat q) g) hs.1
grants-le id (complete q ∷ ops) g hs = grants-le id ops (step (complete q) g) hs.1
