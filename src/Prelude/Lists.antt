-- ===== src/Prelude/Lists.antt =====
-- Lists measured by native numbers, under the library's names, and filters by Boolean tests.
use Prim.Native.Nat.{ℕ, zero, suc, ◌+◌, ◌≤◌, ◌<◌, min}
use mathlib.Core.Path.{◌≡◌, refl, sym, subst, ap, ◌∙◌}
use mathlib.Core.Bool.{Bool, true, false, ◌&&◌, ◌||◌}
use mathlib.Core.List.{List, [], ◌∷◌, ◌++◌, map}
use mathlib.Core.Option.{Option, none, some}
use native.Mathlib.Omega.{arith}
use mathlib.Core.Logic.{◌⊎◌, inl, inr}
use auto_assist.Prelude.Tests.{Bool-cases, some_injective, if_true, if_false, if◌then◌else◌}

module _ {ℓ} {A : Type ℓ} where
  abbrev pub length : List A → ℕ
  length [] = 0
  length (x ∷ xs) = suc (length xs)

  abbrev pub take : ℕ → List A → List A
  take zero xs = []
  take (suc n) [] = []
  take (suc n) (x ∷ xs) = x ∷ take n xs

  -- `[x for x in xs if p(x)]`
  abbrev pub keep : (A → Bool) → List A → List A
  keep p [] = []
  keep p (x ∷ xs) = let rest = keep p xs in if p x then x ∷ rest else rest

  -- `sum(1 for x in xs if p(x))`
  abbrev pub count : (A → Bool) → List A → ℕ
  count p [] = 0
  count p (x ∷ xs) = let rest = count p xs in if p x then suc rest else rest

  abbrev pub any : (A → Bool) → List A → Bool
  any p [] = false
  any p (x ∷ xs) = p x || any p xs

  abbrev pub all : (A → Bool) → List A → Bool
  all p [] = true
  all p (x ∷ xs) = p x && all p xs

module _ {ℓ} {A : Type ℓ} where
  -- the first element that fits, as of `next((x for x in xs if p(x)), None)` and of a query's first
  -- row
  unfoldable pub find_first : (A → Bool) → List A → Option A
  find_first p [] = none
  find_first p (x ∷ xs) = if p x then some x else find_first p xs

  -- MATCH … WHERE p SET …, of one node
  abbrev pub update_if : (A → Bool) → (A → A) → A → A
  update_if p f x = if p x then f x else x

  pub find_first_fits : (p : A → Bool) (xs : List A) (a : A) → find_first p xs ≡ some a → p a ≡ true
  unfolding find_first
  find_first_fits p [] a h = ground (arith, h)
  find_first_fits p (x ∷ xs) a h = elim (Bool-cases (p x)) [
    | inl hit ↦ subst (λ (y : A). p y ≡ true) (some_injective (sym (if_true _ _ _ hit) ∙ h)) hit
    | inr miss ↦ find_first_fits p xs a (sym (if_false _ _ _ miss) ∙ h)
  ]

  pub find_first-none : (p : A → Bool) (xs : List A) → find_first p xs ≡ none → any p xs ≡ false
  unfolding find_first
  find_first-none p [] h = refl
  find_first-none p (x ∷ xs) h = elim (Bool-cases (p x)) [
    | inl hit ↦ ground (arith, hit, h)
    | inr miss ↦ rw miss (find_first-none p xs (sym (if_false _ _ _ miss) ∙ h))
  ]

  pub find_first-any :
      (p : A → Bool) (xs : List A) (a : A) → find_first p xs ≡ some a → any p xs ≡ true
  unfolding find_first
  find_first-any p [] a h = ground (arith, h)
  find_first-any p (x ∷ xs) a h = elim (Bool-cases (p x)) [
    | inl hit ↦ rw hit
    | inr miss ↦ rw miss (find_first-any p xs a (sym (if_false _ _ _ miss) ∙ h))
  ]

  pub any-find_first :
      (p : A → Bool) (xs : List A) → any p xs ≡ true → (a : A) × (find_first p xs ≡ some a)
  unfolding find_first
  any-find_first p [] h = ground (arith, h)
  any-find_first p (x ∷ xs) h = elim (Bool-cases (p x)) [
    | inl hit ↦ (x, if_true _ _ _ hit)
    | inr miss ↦
        let (a, found) = any-find_first p xs (ground (arith, miss, h)) in
        (a, if_false _ _ _ miss ∙ found)
  ]

  pub none-find_first : (p : A → Bool) (xs : List A) → any p xs ≡ false → find_first p xs ≡ none
  unfolding find_first
  none-find_first p [] h = refl
  none-find_first p (x ∷ xs) h = elim (Bool-cases (p x)) [
    | inl hit ↦ ground (arith, hit, h)
    | inr miss ↦ rw miss (none-find_first p xs (ground (arith, miss, h)))
  ]

  -- where all that fit `q` fit `p`, the first that fits `p` is the first that fits `q` if it does
  -- so
  pub find_first-stronger :
      (p q : A → Bool) (xs : List A) (a : A)
      → ((x : A) → q x ≡ true → p x ≡ true)
      → find_first p xs ≡ some a
      → q a ≡ true
      → find_first q xs ≡ some a
  unfolding find_first
  find_first-stronger p q [] a weaker h fits = h
  find_first-stronger p q (x ∷ xs) a weaker h fits = elim (Bool-cases (p x)) [
    | inl hit ↦
        let same = some_injective (sym (if_true _ _ _ hit) ∙ h) in
        if_true _ _ _ (subst (λ (y : A). q y ≡ true) (sym same) fits) ∙ ap some same
    | inr miss ↦ elim (Bool-cases (q x)) [
      | inl fit ↦ ground (arith, weaker x fit, miss)
      | inr unfit ↦
          if_false _ _ _ unfit
          ∙ find_first-stronger p q xs a weaker (sym (if_false _ _ _ miss) ∙ h) fits
    ]
  ]

  pub count-append : (p : A → Bool) (xs ys : List A) → count p (xs ++ ys) ≡ count p xs + count p ys
  count-append p [] ys = omega arith
  count-append p (x ∷ xs) ys = ground (arith, count-append p xs ys)

  pub count-none : (p : A → Bool) (xs : List A) → any p xs ≡ false → count p xs ≡ 0
  count-none p [] h = refl
  count-none p (x ∷ xs) h = ground (arith, h, count-none p xs)

  pub length-keep_le : (p : A → Bool) (xs : List A) → length (keep p xs) ≤ length xs
  length-keep_le p [] = omega arith
  length-keep_le p (x ∷ xs) = elim (Bool-cases (p x)) [
    | inl hit ↦ rw hit (omega (arith, length-keep_le p xs))
    | inr miss ↦ rw miss (omega (arith, length-keep_le p xs))
  ]

  -- an update that does not change what fits
  pub count-update :
      (p c : A → Bool) (f : A → A) (xs : List A)
      → ((x : A) → p (f x) ≡ p x)
      → count p (map (update_if c f) xs) ≡ count p xs
  count-update p c f [] same = refl
  count-update p c f (x ∷ xs) same = elim (Bool-cases (c x)) [
    | inl hit ↦ rw (hit, same x, count-update p c f xs same) refl
    | inr miss ↦ rw (miss, count-update p c f xs same) refl
  ]

  -- an update of what fits that leaves it fitting
  pub find_first-update_self :
      (p : A → Bool) (f : A → A) (xs : List A) (a : A)
      → ((x : A) → p (f x) ≡ p x)
      → find_first p xs ≡ some a
      → find_first p (map (update_if p f) xs) ≡ some (f a)
  unfolding find_first
  find_first-update_self p f [] a same h = ground (arith, h)
  find_first-update_self p f (x ∷ xs) a same h = elim (Bool-cases (p x)) [
    | inl hit ↦
        let first = some_injective (sym (if_true _ _ _ hit) ∙ h) in
        rw hit (if_true _ _ _ (same x ∙ hit) ∙ ap (λ (y : A). some (f y)) first)
    | inr miss ↦
        rw miss (
          if_false _ _ _ miss
          ∙ find_first-update_self p f xs a same (sym (if_false _ _ _ miss) ∙ h))
  ]

  -- an update of others, or of it as well
  pub find_first-update :
      (p c : A → Bool) (f : A → A) (xs : List A) (a : A)
      → ((x : A) → p (f x) ≡ p x)
      → find_first p xs ≡ some a
      → find_first p (map (update_if c f) xs) ≡ some (update_if c f a)
  unfolding find_first
  find_first-update p c f [] a same h = ground (arith, h)
  find_first-update p c f (x ∷ xs) a same h = elim (Bool-cases (p x)) [
    | inl hit ↦
        let first = some_injective (sym (if_true _ _ _ hit) ∙ h) in
        let fits : p (update_if c f x) ≡ true = elim (Bool-cases (c x)) [
          | inl changed ↦ rw changed (same x ∙ hit)
          | inr left ↦ rw left hit
        ] in
        if_true _ _ _ fits ∙ ap (λ (y : A). some (update_if c f y)) first
    | inr miss ↦
        let unfit : p (update_if c f x) ≡ false = elim (Bool-cases (c x)) [
          | inl changed ↦ rw changed (same x ∙ miss)
          | inr left ↦ rw left miss
        ] in
        if_false _ _ _ unfit ∙ find_first-update p c f xs a same (sym (if_false _ _ _ miss) ∙ h)
  ]

  pub find_first-append :
      (p : A → Bool) (xs ys : List A) (a : A)
      → find_first p xs ≡ some a
      → find_first p (xs ++ ys) ≡ some a
  unfolding find_first
  find_first-append p [] ys a h = ground (arith, h)
  find_first-append p (x ∷ xs) ys a h = elim (Bool-cases (p x)) [
    | inl hit ↦ if_true _ _ _ hit ∙ sym (if_true _ _ _ hit) ∙ h
    | inr miss ↦ if_false _ _ _ miss ∙ find_first-append p xs ys a (sym (if_false _ _ _ miss) ∙ h)
  ]

  -- an update after which only elements that fitted before fit
  pub any-update :
      (p c : A → Bool) (f : A → A) (xs : List A)
      → ((x : A) → p (update_if c f x) ≡ true → p x ≡ true)
      → any p xs ≡ false
      → any p (map (update_if c f) xs) ≡ false
  any-update p c f [] back h = refl
  any-update p c f (x ∷ xs) back h = elim (Bool-cases (p (update_if c f x))) [
    | inl fit ↦ ground (arith, back x fit, h)
    | inr unfit ↦ rw unfit (any-update p c f xs back (ground (arith, h)))
  ]

  -- an update of each element that fits, after which it does not
  pub any-update_self :
      (p c : A → Bool) (f : A → A) (xs : List A)
      → ((x : A) → p (update_if c f x) ≡ false)
      → any p (map (update_if c f) xs) ≡ false
  any-update_self p c f [] gone = refl
  any-update_self p c f (x ∷ xs) gone = rw (gone x) (any-update_self p c f xs gone)

module _ {ℓ κ} {A : Type ℓ} where
  -- Each element satisfies `P`.
  abbrev pub All : (A → Type κ) → List A → Type κ
  All P [] = Unit
  All P (x ∷ xs) = P x × All P xs

module _ {ℓ} {A : Type ℓ} where
  pub length-take : (n : ℕ) (xs : List A) → length (take n xs) ≡ min n (length xs)
  length-take zero xs = omega arith
  length-take (suc n) [] = omega arith
  length-take (suc n) (x ∷ xs) = omega (arith, length-take n xs)

  pub length-append : (xs ys : List A) → length (xs ++ ys) ≡ length xs + length ys
  length-append [] ys = omega arith
  length-append (x ∷ xs) ys = omega (arith, length-append xs ys)

  pub count-le-length : (p : A → Bool) (xs : List A) → count p xs ≤ length xs
  count-le-length p [] = omega arith
  count-le-length p (x ∷ xs) = ground (arith, count-le-length p xs)

module _ {A : Type 0} where
  -- an element at some place of a list
  abbrev pub IsIn : A → List A → Type 0
  IsIn a [] = ⊥
  IsIn a (x ∷ xs) = (a ≡ x) ⊎ IsIn a xs

module _ {ℓ κ} {A : Type ℓ} (P : A → Type κ) where
  pub All-keep : (p : A → Bool) (xs : List A) → All P xs → All P (keep p xs)
  All-keep p [] h = tt
  All-keep p (x ∷ xs) h = elim (Bool-cases (p x)) [
    | inl kept ↦ rw kept (h.0, All-keep p xs h.1)
    | inr dropped ↦ rw dropped (All-keep p xs h.1)
  ]

  pub All-take : (n : ℕ) (xs : List A) → All P xs → All P (take n xs)
  All-take zero xs h = tt
  All-take (suc n) [] h = tt
  All-take (suc n) (x ∷ xs) h = (h.0, All-take n xs h.1)

  pub All-append : (xs ys : List A) → All P xs → All P ys → All P (xs ++ ys)
  All-append [] ys hx hy = hy
  All-append (x ∷ xs) ys hx hy = (hx.0, All-append xs ys hx.1 hy)

module _ {ℓ κ μ} {A : Type ℓ} (P : A → Type κ) (Q : A → Type μ) where
  pub All-imp : ((x : A) → P x → Q x) → (xs : List A) → All P xs → All Q xs
  All-imp f [] h = tt
  All-imp f (x ∷ xs) h = (f x h.0, All-imp f xs h.1)

  pub All-both : (xs : List A) → All P xs → All Q xs → All (λ (x : A). P x × Q x) xs
  All-both [] h k = tt
  All-both (x ∷ xs) h k = ((h.0, k.0), All-both xs h.1 k.1)

module _ {ℓ} {A : Type ℓ} where
  -- what a filter keeps fits
  pub All-test : (p : A → Bool) (xs : List A) → All (λ (x : A). p x ≡ true) (keep p xs)
  All-test p [] = tt
  All-test p (x ∷ xs) = elim (Bool-cases (p x)) [
    | inl kept ↦ rw kept (kept, All-test p xs)
    | inr dropped ↦ rw dropped (All-test p xs)
  ]

module _ {ℓ κ μ} {A : Type ℓ} {B : Type κ} (P : B → Type μ) where
  pub All-map : (f : A → B) (xs : List A) → All (λ (x : A). P (f x)) xs → All P (map f xs)
  All-map f [] h = tt
  All-map f (x ∷ xs) h = (h.0, All-map f xs h.1)

module _ {ℓ κ} {A : Type ℓ} {B : Type κ} where
  pub length-map : (f : A → B) (xs : List A) → length (map f xs) ≡ length xs
  length-map f [] = refl
  length-map f (x ∷ xs) = ap suc (length-map f xs)

module _ {ℓ} {A : Type ℓ} where
  pub length-keep_pos : (p : A → Bool) (xs : List A) → any p xs ≡ true → 0 < length (keep p xs)
  length-keep_pos p [] h = ground (arith, h)
  length-keep_pos p (x ∷ xs) h = elim (Bool-cases (p x)) [
    | inl kept ↦ rw kept (omega arith)
    | inr dropped ↦ rw dropped (length-keep_pos p xs (ground (arith, dropped, h)))
  ]
