-- ===== src/Outbox/Table.antt =====
-- outbox_client.py: rows by their primary key, and what the queries and updates keep.
use auto_assist.Prelude.{
  ℕ, zero, suc, ◌+◌, String, ◌≡◌, ◌≢◌, refl, sym, Bool, true, Option, none, some, [], ◌∷◌, ◌++◌,
  arith, leb, ◌==◌, eq_iff, eq_refl, inl, inr, keep, take, All, All-keep, All-take, Bool-cases,
  if◌then◌else◌,
}
use auto_assist.Outbox.{
  Status, OutboxEntry, Rows, is_open, insert_row, order_rows, set_status, update_status, open_rows,
}

-- the row with this primary key
unfoldable pub find_row : String → Rows → Option OutboxEntry
find_row id [] = none
find_row id (e ∷ rows) = if e.outbox_id == id then some e else find_row id rows

abbrev pub Other : OutboxEntry → OutboxEntry → Type 0
Other e d = e.outbox_id ≢ d.outbox_id

-- the primary key
abbrev pub IsUnique : Rows → Type 0
IsUnique [] = Unit
IsUnique (e ∷ rows) = All (Other e) rows × IsUnique rows

-- every row of the list stands in the table
abbrev pub Stands : Rows → OutboxEntry → Type 0
Stands rows e = find_row e.outbox_id rows ≡ some e

Stands-cons :
    (e : OutboxEntry) (rows es : Rows)
    → All (Other e) es
    → All (Stands rows) es
    → All (Stands (e ∷ rows)) es
unfolding find_row
Stands-cons e rows [] h s = tt
Stands-cons e rows (d ∷ es) h s =
    (ground (arith, eq_iff e.outbox_id d.outbox_id), Stands-cons e rows es h.1 s.1)

pub IsUnique-Stands : (rows : Rows) → IsUnique rows → All (Stands rows) rows
unfolding find_row
IsUnique-Stands [] u = tt
IsUnique-Stands (e ∷ rows) u = (rw eq_refl, Stands-cons e rows rows u.0 (IsUnique-Stands rows u.1))

module _ {κ} (P : OutboxEntry → Type κ) where
  All-insert_row : (e : OutboxEntry) (rows : Rows) → P e → All P rows → All P (insert_row e rows)
  unfolding insert_row
  All-insert_row e [] p h = (p, tt)
  All-insert_row e (d ∷ rows) p h = elim (Bool-cases (leb e.created_at d.created_at)) [
    | inl first ↦ rw first (p, h)
    | inr later ↦ rw later (h.0, All-insert_row e rows p h.1)
  ]

  pub All-order_rows : (rows : Rows) → All P rows → All P (order_rows rows)
  unfolding order_rows
  All-order_rows [] h = tt
  All-order_rows (e ∷ rows) h = All-insert_row e (order_rows rows) h.0 (All-order_rows rows h.1)

IsUnique-keep : (p : OutboxEntry → Bool) (rows : Rows) → IsUnique rows → IsUnique (keep p rows)
IsUnique-keep p [] u = tt
IsUnique-keep p (e ∷ rows) u = elim (Bool-cases (p e)) [
  | inl kept ↦ rw kept (All-keep (Other e) p rows u.0, IsUnique-keep p rows u.1)
  | inr dropped ↦ rw dropped (IsUnique-keep p rows u.1)
]

IsUnique-take : (n : ℕ) (rows : Rows) → IsUnique rows → IsUnique (take n rows)
IsUnique-take zero rows u = tt
IsUnique-take (suc n) [] u = tt
IsUnique-take (suc n) (e ∷ rows) u = (All-take (Other e) n rows u.0, IsUnique-take n rows u.1)

All-symm :
    (e : OutboxEntry) (rows : Rows) → All (Other e) rows → All (λ (d : OutboxEntry). Other d e) rows
All-symm e [] h = tt
All-symm e (d ∷ rows) h = (λ p. h.0 (sym p), All-symm e rows h.1)

IsUnique-insert_row :
    (e : OutboxEntry) (rows : Rows)
    → All (Other e) rows
    → IsUnique rows
    → IsUnique (insert_row e rows)
unfolding insert_row
IsUnique-insert_row e [] h u = (tt, tt)
IsUnique-insert_row e (d ∷ rows) h u = elim (Bool-cases (leb e.created_at d.created_at)) [
  | inl first ↦ rw first (h, u)
  | inr later ↦
      rw later
        (All-insert_row (Other d) e rows (λ p. h.0 (sym p)) u.0, IsUnique-insert_row e rows h.1 u.1)
]

IsUnique-order_rows : (rows : Rows) → IsUnique rows → IsUnique (order_rows rows)
unfolding order_rows
IsUnique-order_rows [] u = tt
IsUnique-order_rows (e ∷ rows) u =
    IsUnique-insert_row e (order_rows rows) (All-order_rows (Other e) rows u.0)
      (IsUnique-order_rows rows u.1)

-- the rows that a flush reads
abbrev pub selected : ℕ → Rows → Rows
selected n rows = take n (order_rows (open_rows rows))

pub selected-IsUnique : (n : ℕ) (rows : Rows) → IsUnique rows → IsUnique (selected n rows)
selected-IsUnique n rows u = IsUnique-take n (order_rows (open_rows rows)) (
    IsUnique-order_rows (open_rows rows)
      (IsUnique-keep (λ (e : OutboxEntry). is_open e.status) rows u))

pub selected-Stands : (n : ℕ) (rows : Rows) → IsUnique rows → All (Stands rows) (selected n rows)
selected-Stands n rows u = All-take (Stands rows) n (order_rows (open_rows rows)) (
    All-order_rows (Stands rows) (open_rows rows) (
      All-keep (Stands rows) (λ (e : OutboxEntry). is_open e.status) rows (IsUnique-Stands rows u)))

All-open_rows : (rows : Rows) → All (λ (e : OutboxEntry). is_open e.status ≡ true) (open_rows rows)
All-open_rows [] = tt
All-open_rows (e ∷ rows) = elim (Bool-cases (is_open e.status)) [
  | inl kept ↦ rw kept (kept, All-open_rows rows)
  | inr dropped ↦ rw dropped (All-open_rows rows)
]

pub selected-is_open :
    (n : ℕ) (rows : Rows) → All (λ (e : OutboxEntry). is_open e.status ≡ true) (selected n rows)
selected-is_open n rows =
    let IsOpen = λ (e : OutboxEntry). is_open e.status ≡ true in
    All-take IsOpen n (order_rows (open_rows rows))
      (All-order_rows IsOpen (open_rows rows) (All-open_rows rows))

-- An update changes the row with its key and no other.
pub find_row-update_status :
    (id j : String) (s : Status) (n now : ℕ) (rows : Rows)
    → find_row j (update_status id s n now rows) ≡ (
        if id == j
        then elim (find_row j rows) [ none ↦ none | some e ↦ some (set_status s n now e) ]
        else find_row j rows)
unfolding find_row update_status
find_row-update_status id j s n now [] = ground arith
find_row-update_status id j s n now (e ∷ rows) = ground (
  arith,
  eq_iff e.outbox_id id,
  eq_iff e.outbox_id j,
  eq_iff id j,
  find_row-update_status id j s n now rows,
)

All_Other-update_status :
    (d : OutboxEntry) (id : String) (s : Status) (n now : ℕ) (rows : Rows)
    → All (Other d) rows
    → All (Other d) (update_status id s n now rows)
unfolding update_status
All_Other-update_status d id s n now [] h = tt
All_Other-update_status d id s n now (e ∷ rows) h =
    (ground arith, All_Other-update_status d id s n now rows h.1)

pub IsUnique-update_status :
    (id : String) (s : Status) (n now : ℕ) (rows : Rows)
    → IsUnique rows
    → IsUnique (update_status id s n now rows)
unfolding update_status
IsUnique-update_status id s n now [] u = tt
IsUnique-update_status id s n now (e ∷ rows) u = elim (Bool-cases (e.outbox_id == id)) [
  | inl same ↦
      rw same
        (All_Other-update_status e id s n now rows u.0, IsUnique-update_status id s n now rows u.1)
  | inr other ↦
      rw other
        (All_Other-update_status e id s n now rows u.0, IsUnique-update_status id s n now rows u.1)
]

-- the sum of a weight over the rows
abbrev pub total : (OutboxEntry → ℕ) → Rows → ℕ
total w [] = 0
total w (e ∷ rows) = w e + total w rows

total-update_absent :
    (w : OutboxEntry → ℕ) (d : OutboxEntry) (s : Status) (n now : ℕ) (rows : Rows)
    → All (Other d) rows
    → total w (update_status d.outbox_id s n now rows) ≡ total w rows
unfolding update_status
total-update_absent w d s n now [] h = refl
total-update_absent w d s n now (e ∷ rows) h =
    ground (arith, eq_iff e.outbox_id d.outbox_id, total-update_absent w d s n now rows h.1)

-- An update moves the weight of its one row.
pub total-update_status :
    (w : OutboxEntry → ℕ) (e : OutboxEntry) (s : Status) (n now : ℕ) (rows : Rows)
    → IsUnique rows
    → Stands rows e
    → total w (update_status e.outbox_id s n now rows) + w e
      ≡ total w rows + w (set_status s n now e)
unfolding update_status find_row
total-update_status w e s n now [] u h = absurd (ground arith)
total-update_status w e s n now (d ∷ rows) u h = elim (Bool-cases (d.outbox_id == e.outbox_id)) [
  | inl same ↦
      let here : d ≡ e = ground arith in
      ground (arith, eq_refl e.outbox_id, total-update_absent w d s n now rows u.0)
  | inr other ↦ ground (arith, total-update_status w e s n now rows u.1 (ground arith))
]

pub total-append :
    (w : OutboxEntry → ℕ) (xs ys : Rows) → total w (xs ++ ys) ≡ total w xs + total w ys
total-append w [] ys = omega arith
total-append w (x ∷ xs) ys = omega (arith, total-append w xs ys)
