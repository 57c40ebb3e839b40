-- ===== src/Fleet/Select/Choice.antt =====
-- fleet.py: what `select_any` chooses, and when it chooses nothing.
use auto_assist.Prelude.{
  ℕ, String, ◌≡◌, refl, sym, subst, ap, ◌∙◌, inl, inr, true, false, Option, none, some, List, [],
  ◌∷◌, length, length-append, ◌<◌, get_or, IsIn, All, All-append, All-imp, Bool-cases, if_true,
  if_false, arith, some_injective,
}
use auto_assist.Dict.{get}
use auto_assist.Fleet.State.{Float, Candidate, Fleet}
use auto_assist.Fleet.Value.{Need, Values}
use auto_assist.Fleet.Outcome.{mark_dispatched}
use auto_assist.Fleet.Score.{is_capable, score, score_of}
use auto_assist.Fleet.Select.{
  Scored, apply_pressure, pick, is_eligible, score_one, score_all, score_models, dispatch,
  select_any,
}
use auto_assist.Fleet.Select.Open.{Query, IsTested, IsOpen, IsTested-IsOpen, IsOpen-IsTested}
use auto_assist.Fleet.Select.Pressure.{
  All-apply_pressure, pick-All, IsSane, length-apply_pressure, pick-some,
}

pair_injective :
    (a b c d : String)
    → ◌≡◌ {A = Option (String × String)} (some (a, b)) (some (c, d))
    → (a ≡ c) × (b ≡ d)
pair_injective a b c d h =
    let same = some_injective h in
    (ap (λ (p : String × String). p.0) same, ap (λ (p : String × String). p.1) same)

module _ {W : Type 0} (fl : Float W) where
  pub score_fit :
      (v : Values W) (now : ℕ) (t : Need W) (full model : String) (f : Fleet W)
      → is_capable fl t model ≡ true
      → score fl v now t full model f ≡ some (score_of fl v now t full model f)
  unfolding score
  score_fit v now t full model f h = if_true _ _ _ h

  pub score_unfit :
      (v : Values W) (now : ℕ) (t : Need W) (full model : String) (f : Fleet W)
      → is_capable fl t model ≡ false
      → score fl v now t full model f ≡ none
  unfolding score
  score_unfit v now t full model f h = if_false _ _ _ h

  -- a candidate of the model that may be chosen
  abbrev pub HasTested : Query fl → Fleet W → List Candidate → Scored W → Type 0
  HasTested q f xs c = (x : Candidate) × IsIn x xs × (x.full ≡ c.full) × IsTested fl q f x

  abbrev scored : Query fl → Fleet W → String → List Candidate → List (Scored W)
  scored q f asked xs = score_all fl q.config q.values q.now q.need q.prefer q.selftask f asked xs

  HasTested-later :
      (q : Query fl) (f : Fleet W) (y : Candidate) (xs : List Candidate) (c : Scored W)
      → HasTested q f xs c
      → HasTested q f (y ∷ xs) c
  HasTested-later q f y xs c (x, listed, same, fine) = (x, inr listed, same, fine)

  scored-HasTested :
      (q : Query fl) (f : Fleet W) (asked : String) (xs : List Candidate)
      → All (λ (c : Scored W). (c.asked ≡ asked) × HasTested q f xs c) (scored q f asked xs)
  unfolding score_all
  scored-HasTested q f asked [] = tt
  scored-HasTested q f asked (x ∷ xs) =
      let later =
        All-imp _ (λ (c : Scored W). (c.asked ≡ asked) × HasTested q f (x ∷ xs) c)
          (λ c (h : (c.asked ≡ asked) × HasTested q f xs c). (h.0, HasTested-later q f x xs c h.1))
          _ (scored-HasTested q f asked xs) in
      elim (Bool-cases (is_eligible fl q.config q.prefer q.selftask f x)) [
        | inr closed ↦ subst (All _) (sym (if_false _ _ _ closed)) later
        | inl eligible ↦ elim (Bool-cases (is_capable fl q.need x.model)) [
          | inr unfit ↦
              subst (All _) (sym (if_true _ _ _ eligible))
                (rw (score_unfit q.values q.now q.need x.full x.model f unfit, score_one) later)
          | inl fit ↦ subst (All _) (sym (if_true _ _ _ eligible)) (
              rw (score_fit q.values q.now q.need x.full x.model f fit, score_one)
                ((refl, (x, inl refl, refl, (eligible, fit))), later))
        ]
      ]

  abbrev pub listed : Fleet W → String → List Candidate
  listed f asked = get_or (get asked f.model_map) []

  -- a model that was asked for, with a candidate of it that may be chosen
  abbrev pub IsChoice : Query fl → List String → Fleet W → Scored W → Type 0
  IsChoice q models f c = IsIn c.asked models × HasTested q f (listed f c.asked) c

  abbrev pub scored_models : Query fl → Fleet W → List String → List (Scored W)
  scored_models q f models =
      score_models fl q.config q.values q.now q.need q.prefer q.selftask f models

  scored_models-IsChoice :
      (q : Query fl) (f : Fleet W) (models : List String)
      → All (IsChoice q models f) (scored_models q f models)
  unfolding score_models
  scored_models-IsChoice q f [] = tt
  scored_models-IsChoice q f (m ∷ ms) =
      All-append (IsChoice q (m ∷ ms) f) (scored q f m (listed f m)) (scored_models q f ms)
        (All-imp _ (IsChoice q (m ∷ ms) f)
          (λ c (h : (c.asked ≡ m) × HasTested q f (listed f m) c).
            (inl h.0, subst (λ (a : String). HasTested q f (listed f a) c) (sym h.0) h.1))
          _ (scored-HasTested q f m (listed f m)))
        (All-imp (IsChoice q ms f) (IsChoice q (m ∷ ms) f) (λ c h. (inr h.0, h.1)) _
          (scored_models-IsChoice q f ms))

  length-scored :
      (q : Query fl) (f : Fleet W) (asked : String) (x : Candidate) (xs : List Candidate)
      → IsIn x xs
      → IsTested fl q f x
      → 0 < length (scored q f asked xs)
  unfolding score_all
  length-scored q f asked x [] h fine = elim h [ ]
  length-scored q f asked x (y ∷ ys) (inl same) fine =
      (let mine = subst (IsTested fl q f) same fine in
        subst (λ (l : List (Scored W)). 0 < length l) (sym (if_true _ _ _ mine.0))
          (rw (score_fit q.values q.now q.need y.full y.model f mine.1, score_one) (omega arith)))
  length-scored q f asked x (y ∷ ys) (inr later) fine =
      (let rest = length-scored q f asked x ys later fine in
        elim (Bool-cases (is_eligible fl q.config q.prefer q.selftask f y)) [
          | inl eligible ↦
              subst (λ (l : List (Scored W)). 0 < length l) (sym (if_true _ _ _ eligible))
                (omega (
                  arith,
                  length-append (score_one fl q.values q.now q.need asked y f)
                      (scored q f asked ys),
                  rest,
                ))
          | inr closed ↦
              subst (λ (l : List (Scored W)). 0 < length l) (sym (if_false _ _ _ closed)) rest
        ])

  length-scored_models :
      (q : Query fl) (f : Fleet W) (m : String) (x : Candidate) (models : List String)
      → IsIn m models
      → IsIn x (listed f m)
      → IsTested fl q f x
      → 0 < length (scored_models q f models)
  unfolding score_models
  length-scored_models q f m x [] h listed_x fine = elim h [ ]
  length-scored_models q f m x (k ∷ ks) (inl same) listed_x fine = omega (
    arith,
    length-append (scored q f k (listed f k)) (scored_models q f ks),
    length-scored q f k x (listed f k) (subst (λ (n : String). IsIn x (listed f n)) same listed_x)
        fine,
  )
  length-scored_models q f m x (k ∷ ks) (inr later) listed_x fine = omega (
    arith,
    length-append (scored q f k (listed f k)) (scored_models q f ks),
    length-scored_models q f m x ks later listed_x fine,
  )

  abbrev pub selected : Query fl → List String → Fleet W → Fleet W × Option (String × String)
  selected q models f = select_any fl q.config q.values q.now q.need q.prefer q.selftask models f

  -- the candidate behind an answer
  abbrev Answered : Query fl → List String → Fleet W → String → String → Type 0
  Answered q models f asked full =
      IsIn asked models
      × ((x : Candidate) × IsIn x (listed f asked) × (x.full ≡ full) × IsTested fl q f x)

  IsChoice-Answered :
      (q : Query fl) (models : List String) (f : Fleet W) (c : Scored W) (asked full : String)
      → (c.asked ≡ asked) × (c.full ≡ full)
      → IsChoice q models f c
      → Answered q models f asked full
  IsChoice-Answered q models f c asked full (p, r) (mine, (x, listed_x, same, fine)) = (
    subst (λ (a : String). IsIn a models) p mine,
    (x, subst (λ (a : String). IsIn x (listed f a)) p listed_x, same ∙ r, fine),
  )

  dispatch-Answered :
      (q : Query fl) (models : List String) (f : Fleet W) (o : Option (W × Scored W))
      → ((x : W × Scored W) → o ≡ some x → IsChoice q models f x.1)
      → (asked full : String) → (dispatch fl q.now f o).1 ≡ some (asked, full)
      → Answered q models f asked full × ((dispatch fl q.now f o).0 ≡ mark_dispatched q.now full f)
  dispatch-Answered q models f none h asked full e = cc
  dispatch-Answered q models f (some (w, c)) h asked full e =
      let same = pair_injective c.asked c.full asked full e in
      (
        IsChoice-Answered q models f c asked full same (h (w, c) refl),
        ap (λ (s : String). mark_dispatched q.now s f) same.1,
      )

  -- The answer of `select_any` for a task is one of the models that were asked for, with a
  -- candidate of it in the registry that stands on a preferred node, is large enough and, if need
  -- be, can use tools, and, for a self-task, whose node runs less self-tasks than its cap. The call
  -- counts it as in flight.
  pub select_any-IsOpen :
      (q : Query fl) (models : List String) (f : Fleet W) (asked full : String)
      → (selected q models f).1 ≡ some (asked, full)
      → IsIn asked models
        × ((x : Candidate) × IsIn x (listed f asked) × (x.full ≡ full) × IsOpen fl q f x)
        × ((selected q models f).0 ≡ mark_dispatched q.now full f)
  unfolding select_any
  select_any-IsOpen q models f asked full e =
      let xs = apply_pressure fl q.now f (scored_models q f models) in
      let (answered, marked) =
        dispatch-Answered q models f (pick fl f xs)
          (λ x. pick-All fl (IsChoice q models f) f xs x (
            All-apply_pressure fl (IsChoice q models f) q.now f (scored_models q f models)
              (scored_models-IsChoice q f models)))
          asked full e in
      let (x, listed_x, same, fine) = answered.1 in
      (answered.0, (x, listed_x, same, IsTested-IsOpen fl q f x fine), marked)

  dispatch-some :
      (now : ℕ) (f : Fleet W) (o : Option (W × Scored W)) (x : W × Scored W)
      → o ≡ some x
      → (dispatch fl now f o).1 ≡ some (x.1.asked, x.1.full)
  dispatch-some now f o x h = ap (λ (p : Option (W × Scored W)). (dispatch fl now f p).1) h

  -- `select_any` for a task chooses a model whenever one that was asked for has a candidate that is
  -- open to it, on floats where taking 0.4 off a score does not make it greater.
  pub select_any-some :
      IsSane fl
      → (q : Query fl) (models : List String) (f : Fleet W) (m : String) (x : Candidate)
      → IsIn m models
      → IsIn x (listed f m)
      → IsOpen fl q f x
      → (r : String × String) × ((selected q models f).1 ≡ some r)
  unfolding select_any
  select_any-some sane q models f m x asked listed_x fine =
      let xs = apply_pressure fl q.now f (scored_models q f models) in
      let (y, chosen) = pick-some fl sane f xs (
        length-apply_pressure fl q.now f _
          (length-scored_models q f m x models asked listed_x (IsOpen-IsTested fl q f x fine))) in
      ((y.1.asked, y.1.full), dispatch-some q.now f (pick fl f xs) y chosen)
