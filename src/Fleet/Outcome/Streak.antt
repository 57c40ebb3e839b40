-- ===== src/Fleet/Outcome/Streak.antt =====
-- fleet.py: what `record_outcome` has learned of a model, read off the history of its calls.
use auto_assist.Prelude.{
  ℕ, suc, ◌+◌, ◌≤◌, String, ◌≡◌, refl, sym, subst, ap, ◌∙◌, Bool, true, false, Option, none, some,
  List, [], ◌∷◌, ◌==◌, keep, length, leb, arith, get_or, eq_iff, eq_refl, if_true, if_false,
  some_injective, inl, inr, Bool-cases, if◌then◌else◌,
}
use auto_assist.Dict.{get, put, get-put}
use auto_assist.Fleet.State.{Float, Config, Perf, Fleet}
use auto_assist.Fleet.Outcome.{
  Call, new_perf, update_perf, streak_after, down_after, mark_done, record_outcome,
}

module _ {W : Type 0} (fl : Float W) (c : Config) where
  -- the state after a history of calls, the last of which comes first
  abbrev pub after : List (Call fl) → Fleet W → Fleet W
  after [] f = f
  after (q ∷ older) f = record_outcome fl c q (after older f)

  abbrev pub calls_of : String → List (Call fl) → List (Call fl)
  calls_of id calls = keep (λ (q : Call fl). q.full_id == id) calls

  -- how many calls have failed since the last that succeeded
  abbrev pub last_failures : List (Call fl) → ℕ
  last_failures [] = 0
  last_failures (q ∷ older) = if q.success then 0 else suc (last_failures older)

  -- the end of the down window, or 0
  abbrev pub window_end : List (Call fl) → ℕ
  window_end [] = 0
  window_end (q ∷ older) =
      if leb c.fail_demote (last_failures (q ∷ older)) then q.now + c.down_penalty else 0

  -- what is known of a model after its calls
  abbrev pub Learned : List (Call fl) → Option (Perf W) → Type 0
  Learned [] o = o ≡ none
  Learned (q ∷ older) o =
      (p : Perf W) × (o ≡ some p)
      × (p.n ≡ length (q ∷ older))
      × (p.fail_streak ≡ last_failures (q ∷ older))
      × (p.down_until ≡ window_end (q ∷ older))
      × (p.last_used ≡ q.now)

  perf-record_outcome :
      (q : Call fl) (f : Fleet W)
      → (q.full_id == "") ≡ false
      → (record_outcome fl c q f).perf
        ≡ put q.full_id
            (update_perf fl c q.now q.elapsed q.n_tokens q.success q.tier
              (get_or (get q.full_id f.perf) (new_perf fl q.now)))
            f.perf
  unfolding record_outcome mark_done
  perf-record_outcome q f named = ap (λ (g : Fleet W). g.perf) (if_false _ _ _ named)

  streak-step :
      (success : Bool) (n m : ℕ)
      → n ≡ m
      → streak_after fl success n ≡ (if success then 0 else suc m)
  streak-step true n m h = refl
  streak-step false n m h = omega (arith, h)

  window-step :
      (now : ℕ) (success : Bool) (n m d e : ℕ)
      → 1 ≤ c.fail_demote
      → n ≡ m
      → d ≡ (if leb c.fail_demote m then e else 0)
      → down_after fl c now success n d
        ≡ (if leb c.fail_demote (if success then 0 else suc m) then now + c.down_penalty else 0)
  window-step now true n m d e one h k = ground (arith, one)
  window-step now false n m d e one h k = ground (arith, h, k)

  update-Learned :
      (q : Call fl) (calls : List (Call fl)) (o : Option (Perf W))
      → 1 ≤ c.fail_demote
      → Learned calls o
      → Learned (q ∷ calls) (
          some (
            update_perf fl c q.now q.elapsed q.n_tokens q.success q.tier
              (get_or o (new_perf fl q.now))))
  unfolding update_perf
  update-Learned q [] none one h = (
    _,
    refl,
    refl,
    streak-step q.success 0 0 refl,
    window-step q.now q.success 0 0 0 0 one refl (ground arith),
    refl,
  )
  update-Learned q [] (some p) one h = cc
  update-Learned q (r ∷ calls) none one (p, same, _, _, _, _) = cc
  update-Learned q (r ∷ calls) (some p) one (p', same, n, streak, down, used) =
      let eq : p ≡ p' = some_injective same in
      (
        _,
        refl,
        ap (λ (x : Perf W). x.n + 1) eq ∙ omega (arith, n),
        streak-step q.success p.fail_streak (last_failures (r ∷ calls))
            (ap (λ (x : Perf W). x.fail_streak) eq ∙ streak),
        window-step q.now q.success p.fail_streak (last_failures (r ∷ calls)) p.down_until
            (r.now + c.down_penalty) one (ap (λ (x : Perf W). x.fail_streak) eq ∙ streak)
            (ap (λ (x : Perf W). x.down_until) eq ∙ down),
        refl,
      )

  perf_self :
      (q : Call fl) (g : Fleet W) (id : String)
      → (id == "") ≡ false
      → q.full_id ≡ id
      → get id (record_outcome fl c q g).perf
        ≡ some (
            update_perf fl c q.now q.elapsed q.n_tokens q.success q.tier
              (get_or (get id g.perf) (new_perf fl q.now)))
  perf_self q g id named mine =
      subst
        (λ (i : String).
          get i (record_outcome fl c q g).perf
          ≡ some (
              update_perf fl c q.now q.elapsed q.n_tokens q.success q.tier
                (get_or (get i g.perf) (new_perf fl q.now))))
        mine
        (ap (get q.full_id) (perf-record_outcome q g (ap (λ (i : String). i == "") mine ∙ named))
          ∙ get-put q.full_id q.full_id _ g.perf
          ∙ if_true _ _ _ (eq_refl q.full_id))

  perf_other :
      (q : Call fl) (g : Fleet W) (id : String)
      → (q.full_id == id) ≡ false
      → get id (record_outcome fl c q g).perf ≡ get id g.perf
  unfolding record_outcome
  perf_other q g id foreign = elim (Bool-cases (q.full_id == "")) [
    | inl nameless ↦ ap (λ (h : Fleet W). get id h.perf) (if_true _ _ _ nameless)
    | inr named ↦
        ap (get id) (perf-record_outcome q g named)
        ∙ get-put q.full_id id _ g.perf
        ∙ if_false _ _ _ foreign
  ]

  -- Where `fail_demote` is at least 1, what the fleet knows of a model after any history of calls,
  -- from no knowledge of it, is read off the model's own calls: how many there were, when the last came, how many have failed since
  -- the last that succeeded, and its down window, which ends `down_penalty` after the last call if
  -- at least `fail_demote` have failed, and is closed otherwise.
  pub record_outcome-Learned :
      1 ≤ c.fail_demote
      → (id : String) (calls : List (Call fl)) (f : Fleet W) → (id == "") ≡ false
      → get id f.perf ≡ none
      → Learned (calls_of id calls) (get id (after calls f).perf)
  record_outcome-Learned one id [] f named unknown = unknown
  record_outcome-Learned one id (q ∷ older) f named unknown =
      let ih = record_outcome-Learned one id older f named unknown in
      elim (Bool-cases (q.full_id == id)) [
        | inl mine ↦
            subst (λ (l : List (Call fl)). Learned l (get id (after (q ∷ older) f).perf))
              (sym (if_true _ _ _ mine))
              (subst (Learned (q ∷ calls_of id older))
                (sym (perf_self q (after older f) id named ((eq_iff q.full_id id).0 mine)))
                (update-Learned q (calls_of id older) (get id (after older f).perf) one ih))
        | inr foreign ↦
            subst (λ (l : List (Call fl)). Learned l (get id (after (q ∷ older) f).perf))
              (sym (if_false _ _ _ foreign))
              (subst (Learned (calls_of id older)) (sym (perf_other q (after older f) id foreign))
                ih)
      ]
