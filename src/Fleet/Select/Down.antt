-- ===== src/Fleet/Select/Down.antt =====
-- fleet.py: models in their down window, which `select_any` keeps for the last resort.
use auto_assist.Prelude.{
  ℕ, String, ◌≡◌, refl, sym, subst, ap, ◌∙◌, inl, inr, ◌⊎◌, Bool, true, false, not, Option, none,
  some, List, [], ◌∷◌, keep, All, All-test, All-both, All-imp, All-keep, All-append, Bool-cases,
  if_true, if_false, some_injective, false-ne-true,
}
use auto_assist.Dict.{get}
use auto_assist.Fleet.Params.{greatest}
use auto_assist.Fleet.State.{Float, Candidate, Fleet}
use auto_assist.Fleet.Score.{Score, is_capable, is_waiting, score_of}
use auto_assist.Fleet.Select.{
  Scored, gate_of, gated, or_all, apply_pressure, pick, is_eligible, score_one, score_all,
  score_models, dispatch, select_any,
}
use auto_assist.Fleet.Select.Open.{Query}
use auto_assist.Fleet.Select.Pressure.{All-pressed, pick-All}
use auto_assist.Fleet.Select.Choice.{score_fit, score_unfit, scored_models, selected, listed}

module _ {W : Type 0} (fl : Float W) where
  -- the score of a model that waits
  abbrev lowest : W
  lowest = fl.sub (fl.ratio 0 1) (fl.ratio 10 1)

  abbrev IsLow : Query fl → Fleet W → Scored W → Type 0
  IsLow q f c = is_waiting fl q.now (get c.full f.perf) ≡ true → c.score.base ≡ lowest

  score_of-IsLow :
      (q : Query fl) (f : Fleet W) (asked : String) (x : Candidate)
      → IsLow q f (record {
        score = score_of fl q.values q.now q.need x.full x.model f;
        asked = asked;
        full = x.full;
      })
  unfolding score_of
  score_of-IsLow q f asked x h = ap (λ (s : Score W). s.base) (if_true _ _ _ h)

  score_one-IsLow :
      (q : Query fl) (f : Fleet W) (asked : String) (x : Candidate)
      → All (IsLow q f) (score_one fl q.values q.now q.need asked x f)
  score_one-IsLow q f asked x = elim (Bool-cases (is_capable fl q.need x.model)) [
    | inl fit ↦
        rw (score_fit fl q.values q.now q.need x.full x.model f fit, score_one)
          ((score_of-IsLow q f asked x, tt))
    | inr unfit ↦ rw (score_unfit fl q.values q.now q.need x.full x.model f unfit, score_one) tt
  ]

  score_all-IsLow :
      (q : Query fl) (f : Fleet W) (asked : String) (xs : List Candidate)
      → All (IsLow q f) (score_all fl q.config q.values q.now q.need q.prefer q.selftask f asked xs)
  unfolding score_all
  score_all-IsLow q f asked [] = tt
  score_all-IsLow q f asked (x ∷ xs) =
      let later = score_all-IsLow q f asked xs in
      elim (Bool-cases (is_eligible fl q.config q.prefer q.selftask f x)) [
        | inr closed ↦ subst (All (IsLow q f)) (sym (if_false _ _ _ closed)) later
        | inl open_now ↦ subst (All (IsLow q f)) (sym (if_true _ _ _ open_now)) (
            All-append (IsLow q f) (score_one fl q.values q.now q.need asked x f) _
              (score_one-IsLow q f asked x) later)
      ]

  scored_models-IsLow :
      (q : Query fl) (f : Fleet W) (models : List String)
      → All (IsLow q f) (scored_models fl q f models)
  unfolding score_models
  scored_models-IsLow q f [] = tt
  scored_models-IsLow q f (m ∷ ms) =
      All-append (IsLow q f)
        (score_all fl q.config q.values q.now q.need q.prefer q.selftask f m (listed fl f m)) _
        (score_all-IsLow q f m (listed fl f m)) (scored_models-IsLow q f ms)

  -- a score of -10 is below every gate, which is at least 0.05
  abbrev pub IsGated : Type 0
  IsGated = (w : W) → fl.lt lowest (greatest fl w (fl.ratio 5 100)) ≡ true

  abbrev pub IsBelow : List (Scored W) → Scored W → Type 0
  IsBelow cs c = fl.lt c.score.base (gate_of fl cs) ≡ true

  not-false : (b : Bool) → not b ≡ false → b ≡ true
  not-false true h = refl
  not-false false h = sym h

  abbrev passes : List (Scored W) → Scored W → Bool
  passes cs d = not (fl.lt d.score.base (gate_of fl cs))

  up_of :
      (q : Query fl) (f : Fleet W) (d : Scored W) (gate : W)
      → fl.lt lowest gate ≡ true
      → not (fl.lt d.score.base gate) ≡ true
      → IsLow q f d
      → is_waiting fl q.now (get d.full f.perf) ≡ false
  up_of q f d gate over fits low = elim (Bool-cases (is_waiting fl q.now (get d.full f.perf))) [
    | inr up ↦ up
    | inl down ↦ false-ne-true (ap not (ap (λ (w : W). fl.lt w gate) (low down) ∙ over)) fits
  ]

  none_kept :
      (p : Scored W → Bool) (cs : List (Scored W))
      → keep p cs ≡ []
      → All (λ (d : Scored W). p d ≡ false) cs
  none_kept p [] h = tt
  none_kept p (c ∷ cs) h = elim (Bool-cases (p c)) [
    | inl hit ↦ (let full = sym (if_true (c ∷ keep p cs) (keep p cs) _ hit) ∙ h in absurd cc)
    | inr miss ↦ (miss, none_kept p cs (sym (if_false _ _ _ miss) ∙ h))
  ]

  -- the candidates that stay behind the gate are up, or all scores are below it
  gated-up :
      (q : Query fl) (f : Fleet W) (cs : List (Scored W)) (gate : W)
      → fl.lt lowest gate ≡ true
      → gate_of fl cs ≡ gate
      → All (IsLow q f) cs
      → (kept : List (Scored W)) → keep (passes cs) cs ≡ kept
      → All (λ (d : Scored W). is_waiting fl q.now (get d.full f.perf) ≡ false) (or_all kept cs)
        ⊎ All (IsBelow cs) cs
  gated-up q f cs gate over same lows [] e = inr (
      All-imp _ (IsBelow cs) (λ d (h : passes cs d ≡ false). not-false _ h) cs
        (none_kept (passes cs) cs e))
  gated-up q f cs gate over same lows (k ∷ kept) e = inl (
      subst (All _) e (
        All-imp _ _
          (λ d (h : (passes cs d ≡ true) × IsLow q f d).
            up_of q f d gate over (ap (λ (w : W). not (fl.lt d.score.base w)) (sym same) ∙ h.0) h.1)
          (keep (passes cs) cs)
          (All-both _ _ (keep (passes cs) cs) (All-test (passes cs) cs)
            (All-keep (IsLow q f) (passes cs) cs lows))))

  gate-over : IsGated → (cs : List (Scored W)) → fl.lt lowest (gate_of fl cs) ≡ true
  unfolding gate_of
  gate-over sane [] =
      let low = fl.ratio 5 100 in
      elim (Bool-cases (fl.lt low low)) [
        | inl less ↦ sym (ap (fl.lt lowest) (if_true low low _ less)) ∙ sane low
        | inr same ↦ sym (ap (fl.lt lowest) (if_false low low _ same)) ∙ sane low
      ]
  gate-over sane (c ∷ cs) = sane _

  dispatch-full :
      (now : ℕ) (f : Fleet W) (o : Option (W × Scored W)) (asked full : String)
      → (dispatch fl now f o).1 ≡ some (asked, full)
      → (x : W × Scored W) × (o ≡ some x) × (x.1.full ≡ full)
  dispatch-full now f none asked full e = cc
  dispatch-full now f (some x) asked full e =
      (x, refl, ap (λ (p : String × String). p.1) (some_injective e))

  -- A model in its down window is chosen only as the last resort: what `select_any` chooses for a
  -- task is up, or the scores of all candidates are below the gate, on floats where -10 is less
  -- than 0.05 and any greater number.
  pub select_any-up :
      IsGated
      → (q : Query fl) (models : List String) (f : Fleet W) (asked full : String)
      → (selected fl q models f).1 ≡ some (asked, full)
      → let cs = scored_models fl q f models in
        (is_waiting fl q.now (get full f.perf) ≡ false) ⊎ All (IsBelow cs) cs
  unfolding select_any gated
  select_any-up sane q models f asked full e =
      let cs = scored_models fl q f models in
      let (x, chosen, same) =
        dispatch-full q.now f (pick fl f (apply_pressure fl q.now f cs)) asked full e in
      elim (gated-up q f cs (gate_of fl cs) (gate-over sane cs) refl
        (scored_models-IsLow q f models) _ refl) [
          | inr below ↦ inr below
          | inl up ↦ inl (
              subst (λ (s : String). is_waiting fl q.now (get s f.perf) ≡ false) same
                (pick-All fl (λ (d : Scored W). is_waiting fl q.now (get d.full f.perf) ≡ false) f
                  (apply_pressure fl q.now f cs) x
                  (All-pressed fl
                    (λ (d : Scored W). is_waiting fl q.now (get d.full f.perf) ≡ false) q.now f cs
                    up)
                  chosen))
        ]
