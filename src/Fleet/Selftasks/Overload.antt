-- ===== src/Fleet/Selftasks/Overload.antt =====
-- fleet.py and hermes_agent_adapter.py: self-tasks that several workers start on one node.
use auto_assist.Prelude.{
  ℕ, zero, suc, ◌+◌, String, ◌≡◌, refl, subst, ap, ◌∙◌, true, Option, List, [], ◌∷◌, length, IsIn,
  inl, inr, some, none, sym, ◌≤◌, ◌<◌, Option-cases, Bool-cases, leb, leb→le, ◌⊎◌, arith, get_or,
  eq_refl, if_true,
}
use auto_assist.Dict.{Dict, get, put, get-put}
use auto_assist.Fleet.Names.{node_of}
use auto_assist.Fleet.State.{Float, Candidate, Fleet, at}
use auto_assist.Fleet.Outcome.{mark_dispatched, mark_selftask_dispatched}
use auto_assist.Fleet.Health.{node_cap}
use auto_assist.Fleet.Select.Open.{Query, IsOpen}
use auto_assist.Fleet.Select.Pressure.{IsSane}
use auto_assist.Fleet.Select.Choice.{listed, selected, select_any-IsOpen, select_any-some}
use auto_assist.Fleet.Selftasks.{is_routed, take_slot}

unfoldable pub repeat : {A : Type 0} → ℕ → (A → A) → A → A
repeat zero f a = a
repeat (suc n) f a = f (repeat n f a)

module _ {W : Type 0} where
  at-take_slot :
      (x : Candidate) (f : Fleet W)
      → is_routed x.full ≡ true
      → node_of x.full ≡ x.node
      → at x.node (take_slot x.full f).selftask_inflight ≡ at x.node f.selftask_inflight + 1
  unfolding take_slot mark_selftask_dispatched
  at-take_slot x f routed node =
      ap (λ (g : Fleet W). at x.node g.selftask_inflight) (if_true _ _ _ routed)
      ∙ subst
          (λ (n : String).
            get_or
              (get n (
                put (node_of x.full) (at (node_of x.full) f.selftask_inflight + 1)
                  f.selftask_inflight))
              0
            ≡ at n f.selftask_inflight + 1)
          node
          (ap (λ (o : Option ℕ). get_or o 0)
            (get-put (node_of x.full) (node_of x.full) _ f.selftask_inflight
              ∙ if_true _ _ _ (eq_refl (node_of x.full))))

  at-take_slots :
      (n : ℕ) (x : Candidate) (f : Fleet W)
      → is_routed x.full ≡ true
      → node_of x.full ≡ x.node
      → at x.node (repeat n (take_slot x.full) f).selftask_inflight
        ≡ at x.node f.selftask_inflight + n
  unfolding repeat
  at-take_slots zero x f routed node = omega arith
  at-take_slots (suc n) x f routed node = omega (
    arith,
    at-take_slot x (repeat n (take_slot x.full) f) routed node,
    at-take_slots n x f routed node,
  )

module _ {W : Type 0} (fl : Float W) where
  -- the fleet after workers have asked for one of the models, one after the other at these times
  unfoldable pub selections : Query fl → List String → List ℕ → Fleet W → Fleet W
  selections q models [] f = f
  selections q models (n ∷ times) f =
      selections q models times (selected fl (record q { now = n }) models f).0

  -- every one of them is told the same answer
  abbrev pub AllTold : Query fl → List String → String × String → List ℕ → Fleet W → Type 0
  AllTold q models r [] f = Unit
  AllTold q models r (n ∷ times) f =
      let (f', told) = selected fl (record q { now = n }) models f in
      (told ≡ some r) × AllTold q models r times f'

  -- the candidate is the only one of the model in the registry, and open to the query
  abbrev Alone : Query fl → String → Candidate → Fleet W → Type 0
  Alone q m x f = (listed fl f m ≡ x ∷ []) × IsOpen fl q f x

  Alone-mark_dispatched :
      (q : Query fl) (m : String) (x : Candidate) (now : ℕ) (full : String) (f : Fleet W)
      → Alone q m x f
      → Alone q m x (mark_dispatched now full f)
  unfolding mark_dispatched node_cap
  Alone-mark_dispatched q m x now full f h = h

  selftasks-mark_dispatched :
      (now : ℕ) (full : String) (f : Fleet W)
      → (mark_dispatched now full f).selftask_inflight ≡ f.selftask_inflight
  unfolding mark_dispatched
  selftasks-mark_dispatched now full f = refl

  single : (A : Type 0) (a b : A) → IsIn a (b ∷ []) → a ≡ b
  single A a b (inl same) = same
  single A a b (inr never) = absurd never

  -- what a worker is told, and the fleet it leaves
  selected-Alone :
      IsSane fl
      → (q : Query fl) (m : String) (x : Candidate) (f : Fleet W) → Alone q m x f
      → ((selected fl q (m ∷ []) f).1 ≡ some (m, x.full))
        × ((selected fl q (m ∷ []) f).0 ≡ mark_dispatched q.now x.full f)
  selected-Alone sane q m x f (only, fine) =
      let ((asked, full), told) =
        select_any-some fl sane q (m ∷ []) f m x (inl refl)
          (subst (λ (l : List Candidate). IsIn x l) (sym only) (inl refl)) fine in
      let (mine, (y, listed_y, same, open_y), left) =
        select_any-IsOpen fl q (m ∷ []) f asked full told in
      let asks = single String asked m mine in
      let chosen =
        single Candidate y x
          (subst (λ (l : List Candidate). IsIn y l) (ap (listed fl f) asks ∙ only) listed_y) in
      let fulls = sym same ∙ ap (λ (z : Candidate). z.full) chosen in
      (
        told ∙ ap (λ (a : String). some (a, full)) asks ∙ ap (λ (a : String). some (m, a)) fulls,
        left ∙ ap (λ (a : String). mark_dispatched q.now a f) fulls,
      )

  at-selections :
      IsSane fl
      → (q : Query fl) (m : String) (x : Candidate) (times : List ℕ) (f : Fleet W) → Alone q m x f
      → AllTold q (m ∷ []) (m, x.full) times f
        × ((selections q (m ∷ []) times f).selftask_inflight ≡ f.selftask_inflight)
        × Alone q m x (selections q (m ∷ []) times f)
  unfolding selections
  at-selections sane q m x [] f fine = (tt, refl, fine)
  at-selections sane q m x (n ∷ times) f fine =
      let (told, left) = selected-Alone sane (record q { now = n }) m x f fine in
      let fine' = subst (Alone q m x) (sym left) (Alone-mark_dispatched q m x n x.full f fine) in
      let (rest, same, open_still) = at-selections sane q m x times _ fine' in
      (
        (told, rest),
        same
            ∙ ap (λ (g : Fleet W). g.selftask_inflight) left
            ∙ selftasks-mark_dispatched n x.full f,
        open_still,
      )

  listed-take_slot :
      (m full : String) (f : Fleet W)
      → is_routed full ≡ true
      → listed fl (take_slot full f) m ≡ listed fl f m
  unfolding take_slot mark_selftask_dispatched
  listed-take_slot m full f routed = ap (λ (g : Fleet W). listed fl g m) (if_true _ _ _ routed)

  listed-take_slots :
      (m full : String) (n : ℕ) (f : Fleet W)
      → is_routed full ≡ true
      → listed fl (repeat n (take_slot full) f) m ≡ listed fl f m
  unfolding repeat
  listed-take_slots m full zero f routed = refl
  listed-take_slots m full (suc n) f routed =
      listed-take_slot m full (repeat n (take_slot full) f) routed
      ∙ listed-take_slots m full n f routed

  -- no candidate is open where the node of the only one has reached its cap
  selected-full :
      (q : Query fl) (m : String) (x : Candidate) (f : Fleet W)
      → q.selftask ≡ true
      → listed fl f m ≡ x ∷ []
      → node_cap fl q.config x.node f ≤ at x.node f.selftask_inflight
      → (selected fl q (m ∷ []) f).1 ≡ none
  selected-full q m x f own only full_up = elim (Option-cases (selected fl q (m ∷ []) f).1) [
    | inl nothing ↦ nothing
    | inr ((asked, full), told) ↦
        let (mine, (y, listed_y, same, (preferred, within, large, able)), left) =
          select_any-IsOpen fl q (m ∷ []) f asked full told in
        let chosen = single Candidate y x (
          subst (λ (l : List Candidate). IsIn y l)
            (ap (listed fl f) (single String asked m mine) ∙ only) listed_y) in
        let room =
          subst (λ (z : Candidate). at z.node f.selftask_inflight < node_cap fl q.config z.node f)
            chosen (within own) in
        ground (arith, room, full_up)
  ]

  -- The cap on the self-tasks of a node holds only for workers that take their slots before the
  -- next one asks. Where a model has one candidate in the registry, with a routed name that names
  -- its own node, and it is open to a self-task, any number of workers that ask for the model for
  -- self-tasks one after the other are all told this candidate, whatever the cap, and once they take
  -- their slots the node runs that many more. The next worker is then told the candidate if the node
  -- runs less than its cap, and nothing otherwise. It is so on floats where taking 0.4 off a score
  -- does not make it greater.
  pub take_slot-overload :
      IsSane fl
      → (q : Query fl) (m : String) (x : Candidate) (times : List ℕ) (later : ℕ) (f : Fleet W)
      → q.selftask ≡ true
      → is_routed x.full ≡ true
      → node_of x.full ≡ x.node
      → listed fl f m ≡ x ∷ []
      → IsOpen fl q f x
      → let f' = repeat (length times) (take_slot x.full) (selections q (m ∷ []) times f) in
        AllTold q (m ∷ []) (m, x.full) times f
        × (at x.node f'.selftask_inflight ≡ at x.node f.selftask_inflight + length times)
        × (((at x.node f'.selftask_inflight < node_cap fl q.config x.node f')
              × ((selected fl (record q { now = later }) (m ∷ []) f').1 ≡ some (m, x.full)))
            ⊎ ((node_cap fl q.config x.node f' ≤ at x.node f'.selftask_inflight)
                × ((selected fl (record q { now = later }) (m ∷ []) f').1 ≡ none)))
  take_slot-overload sane q m x times later f own routed node only fine =
      let g = selections q (m ∷ []) times f in
      let (told, counts, (only', fine')) = at-selections sane q m x times f (only, fine) in
      let names = listed-take_slots m x.full (length times) g routed in
      let g' = repeat (length times) (take_slot x.full) g in
      (
        told,
        at-take_slots (length times) x g routed node
            ∙ ap (λ (d : Dict ℕ). at x.node d + length times) counts,
        elim (Bool-cases (leb (node_cap fl q.config x.node g') (at x.node g'.selftask_inflight))) [
          | inl reached ↦
              let full_up = leb→le (node_cap fl q.config x.node g') _ reached in
              inr (
                full_up,
                selected-full (record q { now = later }) m x g' own (names ∙ only') full_up,
              )
          | inr below ↦
              let room : at x.node g'.selftask_inflight < node_cap fl q.config x.node g' =
                ground (arith, below) in
              let (preferred, within, large, able) = fine' in
              inl (
                room,
                (selected-Alone sane (record q { now = later }) m x g'
                    (names ∙ only', (preferred, λ self. room, large, able))).0,
              )
        ],
      )
