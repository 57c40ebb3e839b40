-- ===== src/Outbox/Loop.antt =====
-- outbox_client.py: one attempt to deliver a row, and induction over the loop of `flush`.
use auto_assist.Prelude.{
  ℕ, ◌+◌, String, ◌≡◌, Bool, true, false, Option, none, some, [], ◌∷◌, arith, inl, inr, Bool-cases,
  Option-cases, leb, ◌==◌, eq_iff, All, if◌then◌else◌,
}
use auto_assist.Outbox.{
  Status, OutboxEntry, Rows, Network, is_open, set_status, deliver, after_failure, settle, attempt,
  attempt_all, limit_of, batch, flush, add_if,
}
use auto_assist.Outbox.Table.{
  find_row, Other, IsUnique, Stands, selected, selected-IsUnique, selected-Stands, selected-is_open,
  find_row-update_status, IsUnique-update_status, total, total-update_status,
}

-- the row that an attempt leaves in place of `e`
unfoldable pub tried : Network → ℕ → OutboxEntry → OutboxEntry
tried net m e =
    if leb m e.attempt_count
    then set_status Status.dead e.attempt_count net.now e
    else elim (deliver net e) [
      | none ↦ e
      | some true ↦ set_status Status.delivered (e.attempt_count + 1) net.now e
      | some false ↦
          set_status (after_failure m (e.attempt_count + 1)) (e.attempt_count + 1) net.now e
    ]

module _ (net : Network) (m : ℕ) where
  IsUnique-settle :
      (e : OutboxEntry) (rows : Rows) (o : Option Bool)
      → IsUnique rows
      → IsUnique (settle net m e rows o).0
  unfolding settle
  IsUnique-settle e rows none u = u
  IsUnique-settle e rows (some true) u = IsUnique-update_status e.outbox_id _ _ _ rows u
  IsUnique-settle e rows (some false) u = IsUnique-update_status e.outbox_id _ _ _ rows u

  pub IsUnique-attempt :
      (e : OutboxEntry) (rows : Rows) → IsUnique rows → IsUnique (attempt net m e rows).0
  unfolding attempt
  IsUnique-attempt e rows u = elim (Bool-cases (leb m e.attempt_count)) [
    | inl spent ↦
        rw spent (IsUnique-update_status e.outbox_id Status.dead e.attempt_count net.now rows u)
    | inr fresh ↦ rw fresh (IsUnique-settle e rows (deliver net e) u)
  ]

  pub find_row-attempt :
      (e : OutboxEntry) (rows : Rows) (j : String)
      → Stands rows e
      → find_row j (attempt net m e rows).0
        ≡ (if e.outbox_id == j then some (tried net m e) else find_row j rows)
  unfolding attempt tried
  find_row-attempt e rows j h =
      let a = e.attempt_count in
      ground (
        arith,
        eq_iff e.outbox_id j,
        find_row-update_status e.outbox_id j Status.dead a net.now rows,
        find_row-update_status e.outbox_id j Status.delivered (a + 1) net.now rows,
        find_row-update_status e.outbox_id j (after_failure m (a + 1)) (a + 1) net.now rows,
      )

  pub total-attempt :
      (w : OutboxEntry → ℕ) (e : OutboxEntry) (rows : Rows)
      → IsUnique rows
      → Stands rows e
      → total w (attempt net m e rows).0 + w e ≡ total w rows + w (tried net m e)
  unfolding attempt tried
  total-attempt w e rows u h =
      let a = e.attempt_count in
      ground (
        arith,
        total-update_status w e Status.dead a net.now rows u h,
        total-update_status w e Status.delivered (a + 1) net.now rows u h,
        total-update_status w e (after_failure m (a + 1)) (a + 1) net.now rows u h,
      )

  pub Stands-attempt :
      (e : OutboxEntry) (rows es : Rows)
      → Stands rows e
      → All (Other e) es
      → All (Stands rows) es
      → All (Stands (attempt net m e rows).0) es
  Stands-attempt e rows [] h o s = tt
  Stands-attempt e rows (d ∷ es) h o s = (
    ground (arith, eq_iff e.outbox_id d.outbox_id, find_row-attempt e rows d.outbox_id h),
    Stands-attempt e rows es h o.1 s.1,
  )

  pub attempt_all-raised :
      (e : OutboxEntry) (es rows : Rows) (done : ℕ)
      → (attempt net m e rows).1 ≡ none
      → attempt_all net m (e ∷ es) rows done ≡ ((attempt net m e rows).0, none)
  unfolding attempt_all
  attempt_all-raised e es rows done h = rw (h, attempt_all)

  pub attempt_all-went :
      (e : OutboxEntry) (es rows : Rows) (done : ℕ) (ok : Bool)
      → (attempt net m e rows).1 ≡ some ok
      → attempt_all net m (e ∷ es) rows done
        ≡ attempt_all net m es (attempt net m e rows).0 (add_if ok done)
  unfolding attempt_all
  attempt_all-went e es rows done ok h = rw (h, attempt_all)

abbrev pub IsOpen : OutboxEntry → Type 0
IsOpen e = is_open e.status ≡ true

-- What an attempt on a row that was read and still stands keeps, a flush keeps.
module _ {κ} (net : Network) (m : ℕ) (P : Rows → Type κ)
    (step : (e : OutboxEntry) (rows : Rows)
      → IsUnique rows
      → Stands rows e
      → IsOpen e
      → P rows
      → P (attempt net m e rows).0) where
  pub attempt_all_induction :
      (es rows : Rows) (done : ℕ)
      → IsUnique rows
      → IsUnique es
      → All (Stands rows) es
      → All IsOpen es
      → P rows
      → IsUnique (attempt_all net m es rows done).0 × P (attempt_all net m es rows done).0
  unfolding attempt_all
  attempt_all_induction [] rows done u d s o p = (u, p)
  attempt_all_induction (e ∷ es) rows done u d s o p =
      let u' = IsUnique-attempt net m e rows u in
      let p' = step e rows u s.0 o.0 p in
      elim (Option-cases (attempt net m e rows).1) [
        | inl raised ↦ rw (attempt_all-raised net m e es rows done raised) (u', p')
        | inr (ok, went) ↦ rw (attempt_all-went net m e es rows done ok went) (
            attempt_all_induction es (attempt net m e rows).0 (add_if ok done) u' d.1
              (Stands-attempt net m e rows es s.0 d.0 s.1) o.1 p')
      ]

  pub flush_induction :
      (max_retries : ℕ) (max_attempts : Option ℕ) (rows : Rows)
      → limit_of max_attempts max_retries ≡ m
      → IsUnique rows
      → P rows
      → IsUnique (flush net max_retries max_attempts rows).0
        × P (flush net max_retries max_attempts rows).0
  unfolding flush
  flush_induction max_retries max_attempts rows limit u p = rw limit (
      attempt_all_induction (selected batch rows) rows 0 u (selected-IsUnique batch rows u)
        (selected-Stands batch rows u) (selected-is_open batch rows) p)
