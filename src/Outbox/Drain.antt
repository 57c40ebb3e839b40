-- ===== src/Outbox/Drain.antt =====
-- outbox_client.py: repeated flushes empty the queue.
use auto_assist.Prelude.{
  ℕ, suc, ◌+◌, ◌-◌, ◌*◌, ◌≤◌, ◌≡◌, ◌≢◌, refl, none, List, [], ◌∷◌, arith, length, length-take, All,
  if◌then◌else◌, Option-cases, inl, inr, Bool-cases,
}
use auto_assist.Outbox.{
  OutboxEntry, Rows, Reply, Network, is_open, insert_row, order_rows, open_rows, deliver, attempt,
  attempt_all, add_if, batch, flush, get_pending,
}
use auto_assist.Outbox.Table.{
  IsUnique, Stands, selected, selected-IsUnique, selected-Stands, selected-is_open, total,
}
use auto_assist.Outbox.Loop.{
  tried, IsUnique-attempt, Stands-attempt, total-attempt, IsOpen, flush_induction, attempt_all-went,
}

-- The answers of a network that raises no exception beyond those that `_deliver` catches.
abbrev pub IsContained : Network → Type 0
IsContained net = (e : OutboxEntry) → net.reply e ≢ Reply.broken

-- how many more attempts, and the mark as dead, a row can still take
abbrev work_of : ℕ → OutboxEntry → ℕ
work_of m e = if is_open e.status then suc (m - e.attempt_count) else 0

abbrev pub work : ℕ → Rows → ℕ
work m rows = total (work_of m) rows

module _ (net : Network) (contained : IsContained net) (m : ℕ) where
  deliver_returns : (e : OutboxEntry) → deliver net e ≢ none
  unfolding deliver
  deliver_returns e h = ground (arith, contained e)

  outcome_returns : (e : OutboxEntry) (rows : Rows) → (attempt net m e rows).1 ≢ none
  unfolding attempt
  outcome_returns e rows h = ground (arith, deliver_returns e)

  work_of-tried : (e : OutboxEntry) → IsOpen e → suc (work_of m (tried net m e)) ≤ work_of m e
  unfolding tried
  work_of-tried e unsent = ground (arith, deliver_returns e)

  work-attempt :
      (e : OutboxEntry) (rows : Rows)
      → IsUnique rows
      → Stands rows e
      → IsOpen e
      → suc (work m (attempt net m e rows).0) ≤ work m rows
  work-attempt e rows u s o =
      omega (arith, total-attempt net m (work_of m) e rows u s, work_of-tried e o)

  work-attempt_all :
      (es rows : Rows) (done : ℕ)
      → IsUnique rows
      → IsUnique es
      → All (Stands rows) es
      → All IsOpen es
      → work m (attempt_all net m es rows done).0 + length es ≤ work m rows
  unfolding attempt_all
  work-attempt_all [] rows done u d s o = omega arith
  work-attempt_all (e ∷ es) rows done u d s o = elim (Option-cases (attempt net m e rows).1) [
    | inl raised ↦ absurd (outcome_returns e rows raised)
    | inr (ok, went) ↦ rw (attempt_all-went net m e es rows done ok went) (
        omega (
          arith,
          work-attempt e rows u s.0 o.0,
          work-attempt_all es (attempt net m e rows).0 (add_if ok done)
              (IsUnique-attempt net m e rows u) d.1 (Stands-attempt net m e rows es s.0 d.0 s.1)
              o.1,
        ))
  ]

length-insert_row : (e : OutboxEntry) (rows : Rows) → length (insert_row e rows) ≡ suc (length rows)
unfolding insert_row
length-insert_row e [] = refl
length-insert_row e (d ∷ rows) = ground (arith, length-insert_row e rows)

pub length-order_rows : (rows : Rows) → length (order_rows rows) ≡ length rows
unfolding order_rows
length-order_rows [] = refl
length-order_rows (e ∷ rows) =
    omega (arith, length-insert_row e (order_rows rows), length-order_rows rows)

-- a queue with open rows has some of them read
selected_some : (rows : Rows) → length (selected batch rows) ≡ 0 → length (open_rows rows) ≡ 0
selected_some rows h =
    omega (
      arith,
      length-take batch (order_rows (open_rows rows)),
      length-order_rows (open_rows rows),
      h,
    )

work_of_closed : (m : ℕ) (rows : Rows) → length (open_rows rows) ≡ 0 → work m rows ≡ 0
work_of_closed m [] h = refl
work_of_closed m (e ∷ rows) h = ground (arith, work_of_closed m rows)

open_of_work : (m : ℕ) (rows : Rows) → work m rows ≡ 0 → open_rows rows ≡ []
open_of_work m [] h = refl
open_of_work m (e ∷ rows) h = ground (arith, open_of_work m rows)

-- the flusher's thread, one network for each round
unfoldable pub flush_rounds : ℕ → List Network → Rows → Rows
flush_rounds max_retries [] rows = rows
flush_rounds max_retries (net ∷ nets) rows =
    flush_rounds max_retries nets (flush net max_retries none rows).0

work-flush :
    (net : Network) (m : ℕ) (rows : Rows)
    → IsContained net
    → IsUnique rows
    → work m (flush net m none rows).0 ≤ work m rows - 1
unfolding flush
work-flush net m rows contained u =
    let fewer =
      work-attempt_all net contained m (selected batch rows) rows 0 u
        (selected-IsUnique batch rows u) (selected-Stands batch rows u)
        (selected-is_open batch rows) in
    grind (arith, fewer, work_of_closed m rows, selected_some rows)

work-le : (m : ℕ) (rows : Rows) → work m rows ≤ length (open_rows rows) * suc m
work-le m [] = omega arith
work-le m (e ∷ rows) = elim (Bool-cases (is_open e.status)) [
  | inl kept ↦ rw kept (omega (arith, work-le m rows))
  | inr closed ↦ rw closed (omega (arith, work-le m rows))
]

flush_rounds-drains_by_work :
    (m : ℕ) (nets : List Network) (rows : Rows)
    → All IsContained nets
    → IsUnique rows
    → work m rows ≤ length nets
    → get_pending (flush_rounds m nets rows) ≡ []
unfolding flush_rounds get_pending
flush_rounds-drains_by_work m [] rows contained u enough =
    rw (open_of_work m rows (omega arith)) (unfold order_rows in refl)
flush_rounds-drains_by_work m (net ∷ nets) rows contained u enough =
    flush_rounds-drains_by_work m nets (flush net m none rows).0 contained.1
      (flush_induction net m (λ _. Unit {0}) (λ _ _ _ _ _ _. tt) m none rows refl u tt).0
      (omega (arith, work-flush net m rows contained.0 u))

-- Whatever the network answers, within what `_deliver` catches, `max_retries + 1` flushes for each
-- open row leave no row pending or failed: each has been delivered or is dead.
pub flush_rounds-drains :
    (m : ℕ) (nets : List Network) (rows : Rows)
    → All IsContained nets
    → IsUnique rows
    → length (open_rows rows) * suc m ≤ length nets
    → get_pending (flush_rounds m nets rows) ≡ []
flush_rounds-drains m nets rows contained u enough =
    flush_rounds-drains_by_work m nets rows contained u (omega (arith, work-le m rows))
