-- ===== src/Swarm/Trace/Latest.antt =====
-- swarm_core.py: the newest event in the two orders of the events, and the group that it is linked
-- to.
use auto_assist.Prelude.{
  ℕ, ◌<◌, String, ◌≡◌, refl, sym, subst, ap, ◌∙◌, inl, inr, Bool, true, false, some, List, [], ◌∷◌,
  ◌++◌, ◌==◌, eq_refl, leb, any, All, keep, map, arith, Bool-cases, if_true, if_false,
}
use auto_assist.Swarm.Trace.{
  empty_group, TraceEvent, TraceGroup, Trace, state_of_type, insert_desc, by_ts_desc, insert_asc,
  by_ts_asc, is_group, update_group, merge_group, set_state, last_type, derive_of_type,
  derive_trace_state, find_group, trace_of,
}

-- the two tables of states agree
derive_of_type_lem : (s : String) → derive_of_type s ≡ state_of_type s
unfolding derive_of_type state_of_type
derive_of_type_lem s = ground arith

abbrev pub IsOlder : ℕ → TraceEvent → Type 0
IsOlder ts x = x.ts_ms < ts

some-eq : (u g : TraceGroup) → some u ≡ some g → u ≡ g
some-eq u g e = ground arith

module _ (e : TraceEvent) where
  -- the newest event comes first in the descending order
  by_ts_desc-newest :
      (es : List TraceEvent)
      → All (IsOlder e.ts_ms) es
      → (rest : List TraceEvent) × (by_ts_desc (es ++ e ∷ []) ≡ e ∷ rest)
  unfolding by_ts_desc insert_desc
  by_ts_desc-newest [] h = ([], refl)
  by_ts_desc-newest (x ∷ es) (h, hs) =
      let (rest, q) = by_ts_desc-newest es hs in
      (
        insert_desc x rest,
        ap (insert_desc x) q ∙ if_false _ _ (leb e.ts_ms x.ts_ms) (ground (arith, h)),
      )

  insert_asc-last :
      (x : TraceEvent) (es : List TraceEvent)
      → x.ts_ms < e.ts_ms
      → (before : List TraceEvent) × (insert_asc x (es ++ e ∷ []) ≡ before ++ e ∷ [])
  unfolding insert_asc
  insert_asc-last x [] h = (x ∷ [], if_true _ _ (leb x.ts_ms e.ts_ms) (ground (arith, h)))
  insert_asc-last x (y ∷ es) h = elim (Bool-cases (leb x.ts_ms y.ts_ms)) [
    | inl le ↦ (x ∷ y ∷ es, if_true _ _ _ le)
    | inr gt ↦
        let (before, q) = insert_asc-last x es h in
        (y ∷ before, if_false _ _ _ gt ∙ ap (λ (l : List TraceEvent). y ∷ l) q)
  ]

  -- and last in the ascending order
  by_ts_asc-newest :
      (es : List TraceEvent)
      → All (IsOlder e.ts_ms) es
      → (before : List TraceEvent) × (by_ts_asc (es ++ e ∷ []) ≡ before ++ e ∷ [])
  unfolding by_ts_asc
  by_ts_asc-newest [] h = ([], refl)
  by_ts_asc-newest (x ∷ es) (h, hs) =
      let (mid, q) = by_ts_asc-newest es hs in
      let (before, r) = insert_asc-last x mid h in (before, ap (insert_asc x) q ∙ r)

  last_type-append : (es : List TraceEvent) → last_type (es ++ e ∷ []) ≡ e.event_type
  unfolding last_type
  last_type-append [] = refl
  last_type-append (x ∷ []) = refl
  last_type-append (x ∷ y ∷ es) = last_type-append (y ∷ es)

module _ (id : String) (f : TraceGroup → TraceGroup)
    (same : (g : TraceGroup) → (f g).correlation_id ≡ g.correlation_id) where
  id-kept : (g : TraceGroup) → is_group id (update_group id f g) ≡ is_group id g
  id-kept g = elim (Bool-cases (is_group id g)) [
    | inl hit ↦ ap (is_group id) (if_true (f g) g _ hit) ∙ ap (λ (j : String). j == id) (same g)
    | inr miss ↦ ap (is_group id) (if_false (f g) g _ miss)
  ]

  pub found-map :
      (groups : List TraceGroup) (g : TraceGroup)
      → find_group id groups ≡ some g
      → find_group id (map (update_group id f) groups) ≡ some (f g)
  unfolding find_group
  found-map [] g h = ground arith
  found-map (u ∷ groups) g h = elim (Bool-cases (is_group id u)) [
    | inl hit ↦
        if_true _ _ _ (id-kept u ∙ hit)
        ∙ ap some (if_true (f u) u _ hit ∙ ap f (some-eq u g (sym (if_true _ _ _ hit) ∙ h)))
    | inr miss ↦
        if_false _ _ _ (id-kept u ∙ miss) ∙ found-map groups g (sym (if_false _ _ _ miss) ∙ h)
  ]

  found-append :
      (groups : List TraceGroup) (g : TraceGroup)
      → any (is_group id) groups ≡ false
      → is_group id g ≡ true
      → find_group id (groups ++ g ∷ []) ≡ some g
  unfolding find_group
  found-append [] g h k = if_true _ _ _ k
  found-append (u ∷ groups) g h k = ground (arith, found-append groups g)

found-any :
    (id : String) (groups : List TraceGroup)
    → any (is_group id) groups ≡ true
    → (g : TraceGroup) × (find_group id groups ≡ some g)
unfolding find_group
found-any id [] h = ground arith
found-any id (u ∷ groups) h = elim (Bool-cases (is_group id u)) [
  | inl hit ↦ (u, if_true _ _ _ hit)
  | inr miss ↦ let (g, q) = found-any id groups (ground arith) in (g, if_false _ _ _ miss ∙ q)
]

-- every event of a group is older
abbrev pub AreOlder : ℕ → TraceGroup → Type 0
AreOlder ts g = All (IsOlder ts) g.events

found-All :
    (P : TraceGroup → Type 0) (id : String) (groups : List TraceGroup) (g : TraceGroup)
    → All P groups
    → find_group id groups ≡ some g
    → P g
unfolding find_group
found-All P id [] g h q = ground arith
found-All P id (u ∷ groups) g (h, hs) q = elim (Bool-cases (is_group id u)) [
  | inl hit ↦ subst P (some-eq u g (sym (if_true _ _ _ hit) ∙ q)) h
  | inr miss ↦ found-All P id groups g hs (sym (if_false _ _ _ miss) ∙ q)
]

abbrev add_event : TraceEvent → TraceGroup → TraceGroup
add_event e g = record g { events = g.events ++ e ∷ [] }

-- the group of an event after it was linked
pub merged :
    (id : String) (e : TraceEvent) (groups : List TraceGroup)
    → All (AreOlder e.ts_ms) groups
    → (g : TraceGroup) × (es : List TraceEvent) × (find_group id (merge_group id e groups) ≡ some g)
      × (g.events ≡ es ++ e ∷ [])
      × All (IsOlder e.ts_ms) es
unfolding merge_group
merged id e groups old = elim (Bool-cases (any (is_group id) groups)) [
  | inl known ↦
      let (g, q) = found-any id groups known in
      (
        add_event e g,
        g.events,
        ap (find_group id) (if_true _ _ _ known)
            ∙ found-map id (add_event e) (λ (u : TraceGroup). refl) groups g q,
        refl,
        found-All (AreOlder e.ts_ms) id groups g old q,
      )
  | inr new ↦ (
    add_event e (empty_group id),
    [],
    ap (find_group id) (if_false _ _ _ new)
        ∙ found-append id (λ (u : TraceGroup). u) (λ (u : TraceGroup). refl) groups
            (add_event e (empty_group id)) new (eq_refl id),
    refl,
    tt,
  )
]

pub keep-append :
    (p : TraceEvent → Bool) (es : List TraceEvent) (e : TraceEvent)
    → p e ≡ true
    → keep p (es ++ e ∷ []) ≡ keep p es ++ e ∷ []
keep-append p [] e h = if_true _ _ _ h
keep-append p (x ∷ es) e h = ground (arith, keep-append p es e)

pub set_state-newest :
    (e : TraceEvent) (es : List TraceEvent) (g : TraceGroup)
    → All (IsOlder e.ts_ms) es
    → set_state (by_ts_desc (es ++ e ∷ [])) g
      ≡ record g { current_state = some (state_of_type e.event_type) }
set_state-newest e es g old =
    let (rest, q) = by_ts_desc-newest e es old in ap (λ (l : List TraceEvent). set_state l g) q

trace_of-last :
    (id : String) (e : TraceEvent) (es : List TraceEvent)
    → (t : Trace) × (trace_of id (es ++ e ∷ []) ≡ some t)
      × (t.current_state ≡ state_of_type e.event_type)
unfolding derive_trace_state
trace_of-last id e [] =
    (_, refl, derive_of_type_lem (last_type (e ∷ [])) ∙ ap state_of_type (last_type-append e []))
trace_of-last id e (x ∷ es) = (
  _,
  refl,
  derive_of_type_lem (last_type (x ∷ es ++ e ∷ []))
      ∙ ap state_of_type (last_type-append e (x ∷ es)),
)

pub trace_of-newest :
    (id : String) (e : TraceEvent) (es : List TraceEvent)
    → All (IsOlder e.ts_ms) es
    → (t : Trace) × (trace_of id (by_ts_asc (es ++ e ∷ [])) ≡ some t)
      × (t.current_state ≡ state_of_type e.event_type)
trace_of-newest id e es old =
    let (before, q) = by_ts_asc-newest e es old in
    let (t, r, k) = trace_of-last id e before in (t, ap (trace_of id) q ∙ r, k)
