-- ===== src/Fleet/Outcome/Inflight.antt =====
-- fleet.py: the counters of work in flight count the calls that are outstanding.
use auto_assist.Prelude.{
  ℕ, suc, ◌+◌, ◌-◌, String, ◌≡◌, refl, sym, subst, ap, ◌∙◌, Option, List, [], ◌∷◌, ◌++◌, ◌==◌,
  count, count-append, arith, get_or, eq_refl, eq_iff, if_true, if_false, inl, inr, Bool-cases,
  if◌then◌else◌,
}
use auto_assist.Dict.{Dict, get, put, get-put}
use auto_assist.Fleet.Names.{node_of}
use auto_assist.Fleet.State.{Fleet, at}
use auto_assist.Fleet.Outcome.{mark_dispatched, mark_done}

at-put : (k j : String) (n : ℕ) (d : Dict ℕ) → at j (put k n d) ≡ (if k == j then n else at j d)
at-put k j n d =
    ap (λ (o : Option ℕ). get_or o 0) (get-put k j n d)
    ∙ elim (Bool-cases (k == j)) [ inl same ↦ rw same refl | inr other ↦ rw other refl ]

-- the outstanding calls of a model, and those on a node
abbrev pub of_model : String → List String → ℕ
of_model id calls = count (λ (x : String). x == id) calls

abbrev pub on_node : String → List String → ℕ
on_node node calls = count (λ (x : String). node_of x == node) calls

-- The state of the counters that dispatches and their ends reach, with the bag of the calls that
-- are outstanding. Only an outstanding call ends.
pub data Reach {W : Type 0} : Fleet W → List String → Type 0 where
  start : (f : Fleet W) → f.inflight ≡ [] → f.node_inflight ≡ [] → Reach f []
  dispatch :
      {f : Fleet W} {calls : List String}
      → Reach f calls
      → (now : ℕ) (id : String) → Reach (mark_dispatched now id f) (id ∷ calls)
  done :
      {f : Fleet W} {calls : List String}
      → Reach f calls
      → (before : List String) (id : String) (after : List String) → calls ≡ before ++ id ∷ after
      → Reach (mark_done id f) (before ++ after)

-- each counter counts the calls that have its key
abbrev Counts : (String → String) → Dict ℕ → List String → Type 0
Counts key d calls = (j : String) → at j d ≡ count (λ (x : String). key x == j) calls

bump-Counts :
    (key : String → String) (d : Dict ℕ) (calls : List String) (id : String)
    → Counts key d calls
    → Counts key (put (key id) (at (key id) d + 1) d) (id ∷ calls)
bump-Counts key d calls id h j =
    at-put (key id) j (at (key id) d + 1) d ∙ elim (Bool-cases (key id == j)) [
      | inr other ↦ rw other (h j)
      | inl same ↦ rw same (
          subst (λ (k : String). at (key id) d + 1 ≡ suc (count (λ (x : String). key x == k) calls))
            ((eq_iff (key id) j).0 same) (omega (arith, h (key id))))
    ]

drop-Counts :
    (key : String → String) (d : Dict ℕ) (before after : List String) (id : String)
    → Counts key d (before ++ id ∷ after)
    → Counts key (put (key id) (at (key id) d - 1) d) (before ++ after)
drop-Counts key d before after id h j =
    let p = λ (k x : String). key x == k in
    at-put (key id) j (at (key id) d - 1) d ∙ elim (Bool-cases (key id == j)) [
      | inr other ↦ rw other (
          h j
          ∙ count-append (p j) before (id ∷ after)
          ∙ ap (λ (n : ℕ). count (p j) before + n) (if_false _ _ _ other)
          ∙ sym (count-append (p j) before after))
      | inl same ↦ rw same (
          subst (λ (k : String). at (key id) d - 1 ≡ count (p k) (before ++ after))
            ((eq_iff (key id) j).0 same)
            (let here =
                if_true (suc (count (p (key id)) after)) (count (p (key id)) after) _
                  (eq_refl (key id)) in
              omega (
                arith,
                h (key id),
                count-append (p (key id)) before (id ∷ after),
                count-append (p (key id)) before after,
                here,
              )))
    ]

empty-Counts : (key : String → String) (d : Dict ℕ) → d ≡ [] → Counts key d []
unfolding get
empty-Counts key d h j = ap (at j) h

-- The counters of work in flight refine the bag of outstanding calls: whatever calls are sent and
-- end, each model's counter is the number of its outstanding calls, and each node's counter that of
-- the outstanding calls on it.
pub Reach-counts :
    {W : Type 0} {f : Fleet W} {calls : List String}
    → Reach f calls
    → (id node : String)
    → (at id f.inflight ≡ of_model id calls) × (at node f.node_inflight ≡ on_node node calls)
unfolding mark_dispatched mark_done
Reach-counts (start f none_yet no_node) id node =
    (empty-Counts (λ (x : String). x) _ none_yet id, empty-Counts node_of _ no_node node)
Reach-counts (dispatch {f} {calls} r now sent) id node = (
  bump-Counts (λ (x : String). x) f.inflight calls sent (λ j. (Reach-counts r j node).0) id,
  bump-Counts node_of f.node_inflight calls sent (λ j. (Reach-counts r id j).1) node,
)
Reach-counts (done {f} {calls} r before ended after e) id node = (
  drop-Counts (λ (x : String). x) f.inflight before after ended
      (λ j. (Reach-counts r j node).0 ∙ ap (of_model j) e) id,
  drop-Counts node_of f.node_inflight before after ended
      (λ j. (Reach-counts r id j).1 ∙ ap (on_node j) e) node,
)
