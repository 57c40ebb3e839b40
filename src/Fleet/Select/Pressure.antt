-- ===== src/Fleet/Select/Pressure.antt =====
-- fleet.py: what `_apply_pressure` and `_pick` do to a list of scored candidates.
use auto_assist.Prelude.{
  ℕ, ◌≡◌, refl, sym, subst, inl, inr, Bool, true, false, ◌||◌, some, List, [], ◌∷◌, any, length,
  length-keep_pos, length-map, ◌<◌, All, All-keep, All-map, Bool-cases, if_true, if_false, arith,
  some_injective,
}
use auto_assist.Prelude.Sorting.{sort_by, All-sort_by, length-sort_by}
use auto_assist.Fleet.State.{Float, Fleet}
use auto_assist.Fleet.Select.{
  Scored, gated, apply_pressure, pick, or_all, near_best, is_near, first_of, used_before, best_of,
}

module _ {W : Type 0} (fl : Float W) where
  module _ {κ} (P : Scored W → Type κ) where
    All-or_all : (kept cs : List (Scored W)) → All P kept → All P cs → All P (or_all kept cs)
    All-or_all [] cs h k = k
    All-or_all (c ∷ kept) cs h k = h

    All-gated : (cs : List (Scored W)) → All P cs → All P (gated fl cs)
    unfolding gated
    All-gated cs h = All-or_all _ cs (All-keep P _ cs h) h

    abbrev pub AllScored : List (W × Scored W) → Type κ
    AllScored xs = All (λ (x : W × Scored W). P x.1) xs

    pub All-pressed :
        (now : ℕ) (f : Fleet W) (cs : List (Scored W))
        → All P (gated fl cs)
        → AllScored (apply_pressure fl now f cs)
    unfolding apply_pressure
    All-pressed now f cs h = All-map _ _ (gated fl cs) h

    pub All-apply_pressure :
        (now : ℕ) (f : Fleet W) (cs : List (Scored W))
        → All P cs
        → AllScored (apply_pressure fl now f cs)
    All-apply_pressure now f cs h = All-pressed now f cs (All-gated cs h)

    All-near_best : (xs : List (W × Scored W)) → AllScored xs → AllScored (near_best fl xs)
    unfolding near_best
    All-near_best [] h = tt
    All-near_best (x ∷ xs) h =
        All-keep (λ (y : W × Scored W). P y.1)
          (λ (y : W × Scored W). is_near fl (best_of fl x.0 xs) y.0) (x ∷ xs) h

    first_of-All :
        (xs : List (W × Scored W)) (x : W × Scored W)
        → AllScored xs
        → first_of fl xs ≡ some x
        → P x.1
    first_of-All [] x h e = cc
    first_of-All (y ∷ ys) x h e = subst (λ (z : W × Scored W). P z.1) (some_injective e) h.0

    pub pick-All :
        (f : Fleet W) (xs : List (W × Scored W)) (x : W × Scored W)
        → AllScored xs
        → pick fl f xs ≡ some x
        → P x.1
    unfolding pick
    pick-All f xs x h e =
        first_of-All (sort_by (used_before fl f) (near_best fl xs)) x
          (All-sort_by (used_before fl f) (λ (y : W × Scored W). P y.1) (near_best fl xs)
            (All-near_best xs h))
          e

  -- a test that the best score passes, some candidate passes
  best_of-any :
      (p : W → Bool) (best : W) (xs : List (W × Scored W))
      → p (best_of fl best xs) ≡ true
      → (p best || any (λ (y : W × Scored W). p y.0) xs) ≡ true
  unfolding best_of
  best_of-any p best [] h = rw h refl
  best_of-any p best (x ∷ xs) h = elim (Bool-cases (fl.lt best x.0)) [
    | inl more ↦ ground (
      arith,
      best_of-any p x.0 xs (subst (λ (w : W). p (best_of fl w xs) ≡ true) (if_true _ _ _ more) h),
    )
    | inr less ↦ ground (
      arith,
      best_of-any p best xs (subst (λ (w : W). p (best_of fl w xs) ≡ true) (if_false _ _ _ less) h),
    )
  ]

  -- taking a little off a number does not make it greater
  abbrev pub IsSane : Type 0
  IsSane = (w : W) → fl.lt w (fl.sub w (fl.ratio 4 10)) ≡ false

  length-near_best :
      IsSane → (xs : List (W × Scored W)) → 0 < length xs → 0 < length (near_best fl xs)
  unfolding near_best
  length-near_best sane [] h = h
  length-near_best sane (x ∷ xs) h =
      length-keep_pos (λ (y : W × Scored W). is_near fl (best_of fl x.0 xs) y.0) (x ∷ xs)
        (best_of-any (is_near fl (best_of fl x.0 xs)) x.0 xs (rw (sane (best_of fl x.0 xs)) refl))

  length-or_all : (kept cs : List (Scored W)) → 0 < length cs → 0 < length (or_all kept cs)
  length-or_all [] cs h = h
  length-or_all (c ∷ kept) cs h = omega arith

  pub length-apply_pressure :
      (now : ℕ) (f : Fleet W) (cs : List (Scored W))
      → 0 < length cs
      → 0 < length (apply_pressure fl now f cs)
  unfolding apply_pressure gated
  length-apply_pressure now f cs h =
      subst (λ (n : ℕ). 0 < n) (sym (length-map _ (gated fl cs))) (length-or_all _ cs h)

  first_of-some :
      (xs : List (W × Scored W)) → 0 < length xs → (x : W × Scored W) × (first_of fl xs ≡ some x)
  first_of-some [] h = elim h [ ]
  first_of-some (x ∷ xs) h = (x, refl)

  pub pick-some :
      IsSane
      → (f : Fleet W) (xs : List (W × Scored W)) → 0 < length xs
      → (x : W × Scored W) × (pick fl f xs ≡ some x)
  unfolding pick
  pick-some sane f xs h = first_of-some (sort_by (used_before fl f) (near_best fl xs)) (
      subst (λ (n : ℕ). 0 < n) (sym (length-sort_by (used_before fl f) (near_best fl xs)))
        (length-near_best sane xs h))
