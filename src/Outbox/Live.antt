-- ===== src/Outbox/Live.antt =====
-- outbox_client.py: every table that enqueues and flushes can reach. An event has at most one row
-- that is not dead; a row's status and attempts agree; a row that was delivered is never touched.
use auto_assist.Prelude.{
  ℕ, ◌≤◌, ◌<◌, String, ◌≡◌, ◌⊎◌, refl, Bool, true, false, ◌&&◌, Option, none, some, [], ◌∷◌, ◌++◌,
  arith, leb, ◌==◌, eq_iff, keep, length, All, All-append, is_nonempty, inl, inr, Bool-cases,
  Option-cases, if◌then◌else◌,
}
use mathlib.Core.Path.{subst}
use auto_assist.Outbox.{
  Status, OutboxEntry, Rows, Network, is_open, is_live, head_row, order_rows, find_live, enqueue,
  new_entry, limit_of, set_status, update_status, deliver, settle, attempt, flush,
}
use auto_assist.Outbox.Table.{find_row, Other, IsUnique, Stands, total, total-append}
use auto_assist.Outbox.Loop.{tried, find_row-attempt, total-attempt, IsOpen, flush_induction}
use auto_assist.Outbox.Drain.{length-order_rows}

-- 1 for a row of the event that is not dead
abbrev pub live_of : String → OutboxEntry → ℕ
live_of event_id e = if e.event_id == event_id && is_live e.status then 1 else 0

abbrev pub live_rows : String → Rows → ℕ
live_rows event_id rows = total (live_of event_id) rows

-- what a row's status says of its attempts, where the flushes' limits lie between `least` and `most`
abbrev pub IsSound : ℕ → ℕ → OutboxEntry → Type 0
IsSound least most e =
    (e.attempt_count ≤ most)
    × (e.status ≡ Status.dead → least ≤ e.attempt_count)
    × (e.status ≡ Status.failed → (least ≤ e.attempt_count) × (0 < e.attempt_count))
    × (e.status ≡ Status.delivered → 0 < e.attempt_count)

pub record IsValid (least most : ℕ) (rows : Rows) : Type 0 where
  pub unique : IsUnique rows
  pub one_live : (event_id : String) → is_nonempty event_id ≡ true → live_rows event_id rows ≤ 1
  pub sound : All (IsSound least most) rows

-- what a client, the flusher's thread and a caller of the flush with a limit of its own can do;
-- `outbox_id` is a fresh UUID, and `m` the client's `max_retries`
pub data Step (m least most : ℕ) (rows : Rows) : Rows → Type 0 where
  enqueued :
      (event_id payload_json outbox_id : String) (now : ℕ)
      → find_row outbox_id rows ≡ none
      → Step m least most rows (enqueue event_id payload_json outbox_id now rows).0
  flushed :
      (net : Network) (max_attempts : Option ℕ)
      → least ≤ limit_of max_attempts m
      → limit_of max_attempts m ≤ most
      → Step m least most rows (flush net m max_attempts rows).0

pub data Reach (m least most : ℕ) : Rows → Type 0 where
  start : Reach m least most []
  next :
      {rows rows' : Rows}
      → Reach m least most rows
      → Step m least most rows rows'
      → Reach m least most rows'

live_of_closed :
    (event_id : String) (rows : Rows)
    → length (keep (λ (e : OutboxEntry). e.event_id == event_id && is_live e.status) rows) ≡ 0
    → live_rows event_id rows ≡ 0
live_of_closed ev [] h = refl
live_of_closed ev (e ∷ rows) h = ground (arith, live_of_closed ev rows)

head_row-none : (rows : Rows) → head_row rows ≡ none → length rows ≡ 0
head_row-none [] h = refl
head_row-none (e ∷ rows) h = cc

-- `enqueue` inserts only when the event has no row that is not dead
find_live-none : (ev : String) (rows : Rows) → find_live ev rows ≡ none → live_rows ev rows ≡ 0
unfolding find_live
find_live-none ev rows h =
    let found = keep (λ (e : OutboxEntry). e.event_id == ev && is_live e.status) rows in
    live_of_closed ev rows
      (omega (arith, length-order_rows found, head_row-none (order_rows found) h))

Other-append :
    (rows : Rows) (e : OutboxEntry)
    → find_row e.outbox_id rows ≡ none
    → IsUnique rows
    → IsUnique (rows ++ e ∷ [])
unfolding find_row
Other-append [] e h u = (tt, tt)
Other-append (d ∷ rows) e h u = (
  All-append (Other d) rows (e ∷ []) u.0 (ground (arith, eq_iff d.outbox_id e.outbox_id), tt),
  Other-append rows e (ground arith) u.1,
)

module _ (least most : ℕ) (rows : Rows) (v : IsValid least most rows) where
  -- a flush keeps each part of the invariant, by an attempt at a time
  live_of-tried :
      (ev : String) (net : Network) (m : ℕ) (e : OutboxEntry)
      → IsOpen e
      → live_of ev (tried net m e) ≤ live_of ev e
  unfolding tried
  live_of-tried ev net m e o = ground arith

  flush-one_live :
      (net : Network) (m : ℕ) (limit : Option ℕ) (ev : String)
      → is_nonempty ev ≡ true
      → live_rows ev (flush net m limit rows).0 ≤ 1
  flush-one_live net m limit ev named =
      (flush_induction net (limit_of limit m) (λ (rs : Rows). live_rows ev rs ≤ 1)
        (λ e rs u s o p. omega (
          arith,
          p,
          live_of-tried ev net (limit_of limit m) e o,
          total-attempt net (limit_of limit m) (live_of ev) e rs u s,
        ))
        m limit rows refl v.unique (v.one_live ev named)).1

  IsSound-update :
      (id : String) (s : Status) (n now : ℕ) (rs : Rows)
      → ((d : OutboxEntry) → IsSound least most (set_status s n now d))
      → All (IsSound least most) rs
      → All (IsSound least most) (update_status id s n now rs)
  unfolding update_status
  IsSound-update id s n now [] f h = tt
  IsSound-update id s n now (e ∷ rs) f h = elim (Bool-cases (e.outbox_id == id)) [
    | inl same ↦ rw same (f e, IsSound-update id s n now rs f h.1)
    | inr other ↦ rw other (h.0, IsSound-update id s n now rs f h.1)
  ]

  IsSound-settle :
      (net : Network) (m : ℕ) (e : OutboxEntry) (rs : Rows) (o : Option Bool)
      → least ≤ m
      → m ≤ most
      → e.attempt_count < m
      → All (IsSound least most) rs
      → All (IsSound least most) (settle net m e rs o).0
  unfolding settle
  IsSound-settle net m e rs none low high lt h = h
  IsSound-settle net m e rs (some true) low high lt h =
      IsSound-update e.outbox_id _ _ _ rs (λ d. ground arith) h
  IsSound-settle net m e rs (some false) low high lt h =
      IsSound-update e.outbox_id _ _ _ rs (λ d. ground arith) h

  find_row-IsSound :
      (id : String) (rs : Rows) (e : OutboxEntry)
      → All (IsSound least most) rs
      → find_row id rs ≡ some e
      → IsSound least most e
  unfolding find_row
  find_row-IsSound id [] e h f = cc
  find_row-IsSound id (d ∷ rs) e h f = elim (Bool-cases (d.outbox_id == id)) [
    | inl same ↦ let here : d ≡ e = ground arith in rw here at (h.0)
    | inr other ↦ find_row-IsSound id rs e h.1 (ground arith)
  ]

  IsSound-attempt :
      (net : Network) (m : ℕ) (e : OutboxEntry) (rs : Rows)
      → least ≤ m
      → m ≤ most
      → Stands rs e
      → All (IsSound least most) rs
      → All (IsSound least most) (attempt net m e rs).0
  unfolding attempt
  IsSound-attempt net m e rs low high s h = elim (Bool-cases (leb m e.attempt_count)) [
    | inl spent ↦
        let known = find_row-IsSound e.outbox_id rs e h s in
        rw spent
          (IsSound-update e.outbox_id Status.dead e.attempt_count net.now rs (λ d. ground arith) h)
    | inr left ↦ rw left (IsSound-settle net m e rs (deliver net e) low high (ground arith) h)
  ]

  flush-IsValid :
      (net : Network) (m : ℕ) (limit : Option ℕ)
      → least ≤ limit_of limit m
      → limit_of limit m ≤ most
      → IsValid least most (flush net m limit rows).0
  flush-IsValid net m limit low high =
      let kept =
        flush_induction net (limit_of limit m) (All (IsSound least most))
          (λ e rs u s o p. IsSound-attempt net (limit_of limit m) e rs low high s p) m limit rows
          refl v.unique v.sound in
      record { unique = kept.0; one_live = flush-one_live net m limit; sound = kept.1 }

  module _ (ev payload id : String) (now : ℕ) where
    abbrev entry : OutboxEntry
    entry = new_entry ev payload id now

    -- an enqueue changes nothing, or appends a row for an event that has none that is not dead
    enqueue_cases :
        ((enqueue ev payload id now rows).0 ≡ rows)
        ⊎ (((enqueue ev payload id now rows).0 ≡ rows ++ entry ∷ [])
            × (is_nonempty ev ≡ true → find_live ev rows ≡ none))
    unfolding enqueue
    enqueue_cases = elim (Option-cases (if is_nonempty ev then find_live ev rows else none)) [
      | inl absent ↦ inr (rw absent, λ named. rw named at absent)
      | inr (row, there) ↦ inl (rw there)
    ]

    one_live-append :
        (is_nonempty ev ≡ true → find_live ev rows ≡ none)
        → (j : String) → is_nonempty j ≡ true
        → live_rows j (rows ++ entry ∷ []) ≤ 1
    one_live-append absent j named = ground (
      arith,
      eq_iff ev j,
      total-append (live_of j) rows (entry ∷ []),
      v.one_live j named,
      λ (e : ev ≡ j).
          find_live-none j rows
            (subst (λ (i : String). is_nonempty i ≡ true → find_live i rows ≡ none) e absent named),
    )

    enqueue-IsValid :
        find_row id rows ≡ none → IsValid least most (enqueue ev payload id now rows).0
    enqueue-IsValid new = elim enqueue_cases [
      | inl same ↦ rw same v
      | inr (grown, absent) ↦ rw grown (record {
        unique = Other-append rows entry new v.unique;
        one_live = one_live-append absent;
        sound = All-append (IsSound least most) rows (entry ∷ []) v.sound (ground arith, tt);
      })
    ]

Step-IsValid :
    {m least most : ℕ} {rows rows' : Rows}
    → IsValid least most rows
    → Step m least most rows rows'
    → IsValid least most rows'
Step-IsValid {m} {least} {most} {rows} v (enqueued ev payload id now new) =
    enqueue-IsValid least most rows v ev payload id now new
Step-IsValid {m} {least} {most} {rows} v (flushed net limit low high) =
    flush-IsValid least most rows v net m limit low high

-- In every table that enqueues (under fresh primary keys) and flushes, with or without a
-- `max_attempts` of their own, can reach from the empty one, where the limit of each flush lies
-- between a least and a greatest number, the primary keys differ, each named event has at most one
-- row that is not dead, no row has more attempts than the greatest limit, failed and dead rows have
-- at least the least limit, and failed and delivered rows at least one.
pub Reach-IsValid :
    (m least most : ℕ) (rows : Rows) → Reach m least most rows → IsValid least most rows
Reach-IsValid m least most _ start = record {
  unique = tt;
  one_live = λ ev named. omega arith;
  sound = tt;
}
Reach-IsValid m least most _ (next r s) = Step-IsValid (Reach-IsValid m least most _ r) s

-- A flush leaves every row that was delivered or is dead exactly as it was, whatever the network.
flush-closed :
    (net : Network) (m : ℕ) (max_attempts : Option ℕ) (rows : Rows) (id : String) (e : OutboxEntry)
    → IsUnique rows
    → find_row id rows ≡ some e
    → is_open e.status ≡ false
    → find_row id (flush net m max_attempts rows).0 ≡ some e
flush-closed net m max_attempts rows id e u there closed =
    (flush_induction net (limit_of max_attempts m) (λ (rs : Rows). find_row id rs ≡ some e)
      (λ d rs unique s o p.
        ground
          (arith, eq_iff d.outbox_id id, find_row-attempt net (limit_of max_attempts m) d rs id s))
      m max_attempts rows refl u there).1
