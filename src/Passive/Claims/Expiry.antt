-- ===== src/Passive/Claims/Expiry.antt =====
-- passive_claims.py: what `expire_passive_claims` does to the claims that have expired.
use auto_assist.Prelude.{
  ℕ, zero, suc, All-imp, All-take, ◌≤◌, ◌≡◌, refl, ap, ◌∙◌, inl, inr, Bool, true, false, ◌||◌, some,
  List, [], ◌∷◌, map, arith, ◌==◌, get_or, any, All, leb, upper, length, count, keep, take, is_some,
  Bool-cases, Option-cases,
}
use auto_assist.Passive.Graph.{Task, Agent, update_tasks, merge_agent}
use auto_assist.Passive.Claims.Base.{Env, claimed_passive, expiry}
use auto_assist.Passive.Claims.Expire.{
  has_expired, insert_expiry, by_expiry, overdue, same_node, is_among, set_expired, merge_idle,
  idle_after_expiry,
}

length-insert_expiry : (t : Task) (ts : List Task) → length (insert_expiry t ts) ≡ suc (length ts)
unfolding insert_expiry
length-insert_expiry t [] = refl
length-insert_expiry t (u ∷ us) = ground (arith, length-insert_expiry t us)

pub length-by_expiry : (ts : List Task) → length (by_expiry ts) ≡ length ts
unfolding by_expiry
length-by_expiry [] = refl
length-by_expiry (t ∷ ts) =
    ground (arith, length-insert_expiry t (by_expiry ts), length-by_expiry ts)

any-insert_expiry :
    (p : Task → Bool) (t : Task) (ts : List Task) → any p (insert_expiry t ts) ≡ (p t || any p ts)
unfolding insert_expiry
any-insert_expiry p t [] = refl
any-insert_expiry p t (u ∷ us) = ground (arith, any-insert_expiry p t us)

any-by_expiry : (p : Task → Bool) (ts : List Task) → any p (by_expiry ts) ≡ any p ts
unfolding by_expiry
any-by_expiry p [] = refl
any-by_expiry p (t ∷ ts) = ground (arith, any-insert_expiry p t (by_expiry ts), any-by_expiry p ts)

All-insert_expiry :
    (P : Task → Type 0) (t : Task) (ts : List Task) → P t → All P ts → All P (insert_expiry t ts)
unfolding insert_expiry
All-insert_expiry P t [] h hs = (h, hs)
All-insert_expiry P t (u ∷ us) h (k, hs) = elim (Bool-cases (leb (expiry t) (expiry u))) [
  | inl le ↦ ground arith
  | inr gt ↦ ground (arith, All-insert_expiry P t us h hs)
]

pub All-by_expiry : (P : Task → Type 0) (ts : List Task) → All P ts → All P (by_expiry ts)
unfolding by_expiry
All-by_expiry P [] hs = hs
All-by_expiry P (t ∷ ts) (h, hs) = All-insert_expiry P t (by_expiry ts) h (All-by_expiry P ts hs)

pub length-keep : (p : Task → Bool) (ts : List Task) → length (keep p ts) ≡ count p ts
length-keep p [] = refl
length-keep p (t ∷ ts) = ground (arith, length-keep p ts)

pub length-map : {A B : Type 0} (f : A → B) (xs : List A) → length (map f xs) ≡ length xs
length-map f [] = refl
length-map f (x ∷ xs) = ap suc (length-map f xs)

take-all : (n : ℕ) (ts : List Task) → length ts ≤ n → take n ts ≡ ts
take-all zero [] h = refl
take-all (suc n) [] h = refl
take-all zero (t ∷ ts) h = ground arith
take-all (suc n) (t ∷ ts) h = ground (arith, take-all n ts)

-- when the limit covers the expired claims, all of them are taken
pub overdue-all :
    (now_ms limit : ℕ) (ts : List Task)
    → count (has_expired now_ms) ts ≤ limit
    → overdue now_ms limit ts ≡ by_expiry (keep (has_expired now_ms) ts)
overdue-all now_ms limit ts h = take-all limit _ (
    ground
      (arith, length-by_expiry (keep (has_expired now_ms) ts), length-keep (has_expired now_ms) ts))

pub All-keep-hit :
    (P : Task → Type 0) (q : Task → Bool) (ts : List Task)
    → All (λ (t : Task). q t ≡ true → P t) ts
    → All P (keep q ts)
All-keep-hit P q [] h = tt
All-keep-hit P q (t ∷ ts) (h, hs) = elim (Bool-cases (q t)) [
  | inl hit ↦ ground (arith, h hit, All-keep-hit P q ts hs)
  | inr miss ↦ ground (arith, All-keep-hit P q ts hs)
]

-- The previous status is not CLAIMED_PASSIVE, and an expired claim has an agent id.
abbrev pub IsRestorable : ℕ → Task → Type 0
IsRestorable now_ms t =
    ((upper (get_or t.previous_status "READY") == claimed_passive) ≡ false)
    × (has_expired now_ms t ≡ true → is_some t.claim.agent_id ≡ true)

module _ (now_ms : ℕ) where
  abbrev Owned : Task → Type 0
  Owned t = is_some t.claim.agent_id ≡ true

  abbrev IsCovered : List Task → Task → Type 0
  IsCovered rows t = has_expired now_ms t ≡ true → is_among rows t ≡ true

  IsCovered-cons :
      (t : Task) (ts : List Task)
      → All (IsCovered (keep (has_expired now_ms) ts)) ts
      → All (IsCovered (keep (has_expired now_ms) (t ∷ ts))) ts
  IsCovered-cons t ts h =
      All-imp (IsCovered (keep (has_expired now_ms) ts))
        (IsCovered (keep (has_expired now_ms) (t ∷ ts)))
        (λ (u : Task) (k : IsCovered (keep (has_expired now_ms) ts) u)
            (e : has_expired now_ms u ≡ true).
          ground (arith, k e))
        ts h

  covered : (ts : List Task) → All (IsCovered (keep (has_expired now_ms) ts)) ts
  covered [] = tt
  covered (t ∷ ts) =
      ((λ (e : has_expired now_ms t ≡ true). ground arith), IsCovered-cons t ts (covered ts))

  pub IsCovered-overdue :
      (limit : ℕ) (ts : List Task)
      → count (has_expired now_ms) ts ≤ limit
      → All (IsCovered (overdue now_ms limit ts)) ts
  IsCovered-overdue limit ts h =
      All-imp (IsCovered (keep (has_expired now_ms) ts)) (IsCovered (overdue now_ms limit ts))
        (λ (u : Task) (k : IsCovered (keep (has_expired now_ms) ts) u)
            (e : has_expired now_ms u ≡ true).
          ap (any (same_node u)) (overdue-all now_ms limit ts h)
          ∙ any-by_expiry (same_node u) (keep (has_expired now_ms) ts)
          ∙ k e)
        ts (covered ts)

  pub merge_idle-some :
      (env : Env) (rows : List Task) (agents : List Agent)
      → All Owned rows
      → (merged : List Agent) × (merge_idle env rows agents ≡ some merged)
  unfolding merge_idle
  merge_idle-some env [] agents h = (agents, refl)
  merge_idle-some env (t ∷ rows) agents (h, hs) = elim (Option-cases t.claim.agent_id) [
    | inl absent ↦ ground arith
    | inr (id, e) ↦
        let (merged, k) =
          merge_idle-some env rows (merge_agent id (idle_after_expiry env) agents) hs in
        (merged, rw (e, k))
  ]

  -- the rows that are taken have agents
  pub Owned-overdue :
      (limit : ℕ) (ts : List Task)
      → All (IsRestorable now_ms) ts
      → All Owned (overdue now_ms limit ts)
  Owned-overdue limit ts h = All-take Owned limit (by_expiry (keep (has_expired now_ms) ts)) (
      All-by_expiry Owned (keep (has_expired now_ms) ts) (
        All-keep-hit Owned (has_expired now_ms) ts (
          All-imp (IsRestorable now_ms) (λ (t : Task). has_expired now_ms t ≡ true → Owned t)
            (λ (t : Task) (r : IsRestorable now_ms t). r.1) ts h)))

  set_expired-rested :
      (env : Env) (t : Task)
      → (upper (get_or t.previous_status "READY") == claimed_passive) ≡ false
      → has_expired now_ms (set_expired env t) ≡ false
  unfolding set_expired
  set_expired-rested env t h = ground arith

  pub cleared :
      (env : Env) (rows ts : List Task)
      → All (IsRestorable now_ms) ts
      → All (IsCovered rows) ts
      → any (has_expired now_ms) (update_tasks (is_among rows) (set_expired env) ts) ≡ false
  cleared env rows [] h k = refl
  cleared env rows (t ∷ ts) (h, hs) (k, ks) = elim (Bool-cases (is_among rows t)) [
    | inl hit ↦ ground (arith, set_expired-rested env t h.0, cleared env rows ts hs ks)
    | inr miss ↦ ground (arith, k, cleared env rows ts hs ks)
  ]
