-- ===== src/Fleet/Health/Cooldown.antt =====
-- fleet.py: which wakes of a node the watchdog issues, and how far they are apart.
use auto_assist.Prelude.{
  ℕ, ◌+◌, ◌≤◌, String, ◌≡◌, refl, sym, subst, ap, ◌∙◌, Bool, true, false, ◌&&◌, ◌||◌, Option, List,
  [], ◌∷◌, ◌==◌, ltb, leb, leb→le, arith, get_or, eq_iff, eq_refl, is_nonempty, if_true, if_false,
  inl, inr, Bool-cases, if◌then◌else◌,
}
use auto_assist.Dict.{get, get-put}
use auto_assist.Fleet.State.{Config, Fleet, at}
use auto_assist.Fleet.Health.{Wake, wake_node}

late_or_early : (a b : ℕ) → ltb a b ≡ true → leb b a ≡ false
late_or_early a b h = ground (arith, h)

early_or_late : (a b : ℕ) → ltb a b ≡ false → leb b a ≡ true
early_or_late a b h = ground (arith, h)

module _ (c : Config) where
  -- each time comes a cooldown after the one before it
  abbrev pub IsSpaced : ℕ → List ℕ → Type 0
  IsSpaced last [] = Unit
  IsSpaced last (t ∷ times) = (last + c.wake_cooldown ≤ t) × IsSpaced t times

  -- a command is configured and runs, or the node has an address and the packet is sent
  abbrev pub can_wake : String → Wake → Bool
  can_wake node w =
      (c.wake_cmd && w.cmd_ok) || (is_nonempty (get_or (get node c.wake_map) "") && w.wol_ok)

  -- What a log of the node alone expects of calls for any nodes: a call is due when the cooldown
  -- since the last due call is over, and a due call that can wake the node is issued.
  abbrev pub expected : String → ℕ → List (String × Wake) → List ℕ
  expected node last [] = []
  expected node last ((n, w) ∷ calls) =
      let due = n == node && leb (last + c.wake_cooldown) w.now in
      let rest = expected node (if due then w.now else last) calls in
      if due && can_wake node w then w.now ∷ rest else rest

  IsSpaced-earlier : (a b : ℕ) (times : List ℕ) → a ≤ b → IsSpaced b times → IsSpaced a times
  IsSpaced-earlier a b [] le h = tt
  IsSpaced-earlier a b (t ∷ times) le h = (omega (arith, le, h.0), h.1)

  IsSpaced-step :
      (last now : ℕ) (ours works : Bool) (rest : ℕ → List ℕ)
      → ((k : ℕ) → IsSpaced k (rest k))
      → let due = ours && leb (last + c.wake_cooldown) now in
        let later = rest (if due then now else last) in
        IsSpaced last (if due && works then now ∷ later else later)
  IsSpaced-step last now false works rest h = h last
  IsSpaced-step last now true works rest h = elim (Bool-cases (leb (last + c.wake_cooldown) now)) [
    | inr early ↦ rw early (h last)
    | inl late ↦
        let gap = leb→le (last + c.wake_cooldown) now late in
        rw late (elim (Bool-cases works) [
          | inl on ↦ rw on ((gap, h now))
          | inr off ↦ rw off (IsSpaced-earlier last now (rest now) (omega (arith, gap)) (h now))
        ])
  ]

  expected-IsSpaced :
      (node : String) (last : ℕ) (calls : List (String × Wake))
      → IsSpaced last (expected node last calls)
  expected-IsSpaced node last [] = tt
  expected-IsSpaced node last ((n, w) ∷ calls) =
      IsSpaced-step last w.now (n == node) (can_wake node w) (λ k. expected node k calls)
        (λ k. expected-IsSpaced node k calls)

module _ {W : Type 0} (c : Config) where
  -- the times of the calls for the node that `wake_node` says it has issued
  unfoldable pub issued : String → List (String × Wake) → Fleet W → List ℕ
  issued node [] f = []
  issued node ((n, w) ∷ calls) f =
      let rest = issued node calls (wake_node c n w f).0 in
      if n == node && (wake_node c n w f).1 then w.now ∷ rest else rest

  -- what a call leaves of the node, and what it says
  Step : String → String → Wake → Fleet W → Fleet W × Bool → Type 0
  Step n node w f (f', told) =
      let due = n == node && leb (at node f.last_wake + c.wake_cooldown) w.now in
      (at node f'.last_wake ≡ (if due then w.now else at node f.last_wake))
      × ((n == node && told) ≡ (due && can_wake c node w))

  wake_node-other :
      (n node : String) (w : Wake) (f : Fleet W)
      → (n == node) ≡ false
      → at node (wake_node c n w f).0.last_wake ≡ at node f.last_wake
  unfolding wake_node
  wake_node-other n node w f h =
      elim (Bool-cases (ltb w.now (at n f.last_wake + c.wake_cooldown))) [
        | inl early ↦ ap (λ (r : Fleet W × Bool). at node r.0.last_wake) (if_true _ _ _ early)
        | inr late ↦
            ap (λ (r : Fleet W × Bool). at node r.0.last_wake) (if_false _ _ _ late)
            ∙ ap (λ (o : Option ℕ). get_or o 0)
                (get-put n node w.now f.last_wake ∙ if_false _ _ _ h)
      ]

  wake_node-own :
      (node : String) (w : Wake) (f : Fleet W) → Step node node w f (wake_node c node w f)
  unfolding wake_node Step
  wake_node-own node w f = elim (Bool-cases (ltb w.now (at node f.last_wake + c.wake_cooldown))) [
    | inl early ↦
        rw (early, late_or_early w.now (at node f.last_wake + c.wake_cooldown) early, eq_refl node)
          ((refl, refl))
    | inr late ↦
        rw (late, early_or_late w.now (at node f.last_wake + c.wake_cooldown) late, eq_refl node)
          ((
            ap (λ (o : Option ℕ). get_or o 0)
                (get-put node node w.now f.last_wake ∙ if_true _ _ _ (eq_refl node)),
            refl,
          ))
  ]

  wake_node-Step : (n node : String) (w : Wake) (f : Fleet W) → Step n node w f (wake_node c n w f)
  unfolding Step
  wake_node-Step n node w f = elim (Bool-cases (n == node)) [
    | inr other ↦ rw other ((wake_node-other n node w f other, refl))
    | inl mine ↦
        subst (λ (m : String). Step m node w f (wake_node c m w f)) (sym ((eq_iff n node).0 mine))
          (wake_node-own node w f)
  ]

  same_times :
      (node : String) (calls : List (String × Wake)) (f : Fleet W)
      → issued node calls f ≡ expected c node (at node f.last_wake) calls
  unfolding issued Step
  same_times node [] f = refl
  same_times node ((n, w) ∷ calls) f =
      let due = n == node && leb (at node f.last_wake + c.wake_cooldown) w.now in
      let rest = issued node calls (wake_node c n w f).0 in
      let (last, told) = wake_node-Step n node w f in
      ap (λ (b : Bool). if b then w.now ∷ rest else rest) told
      ∙ ap (λ (l : List ℕ). if due && can_wake c node w then w.now ∷ l else l)
          (same_times node calls (wake_node c n w f).0
            ∙ ap (λ (k : ℕ). expected c node k calls) last)

  -- Whatever wakes are asked for, of any nodes at any times, those of one node that are issued are
  -- just the ones that a log of this node expects: a call is issued when the cooldown since the last
  -- call that was not too early is over, and the command or the packet can be sent. They are at least
  -- the cooldown apart, and the first is that long after the last call before them.
  pub issued-expected :
      (node : String) (calls : List (String × Wake)) (f : Fleet W)
      → (issued node calls f ≡ expected c node (at node f.last_wake) calls)
        × IsSpaced c (at node f.last_wake) (issued node calls f)
  issued-expected node calls f =
      let same = same_times node calls f in
      (same, subst (IsSpaced c (at node f.last_wake)) (sym same) (expected-IsSpaced c node _ calls))
