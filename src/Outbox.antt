-- ===== src/Outbox.antt =====
-- src/assistx/outbox_client.py: the SQLite outbox of events that wait for delivery. A table is the
-- list of its rows; an ISO time is a number, whose order is that of the texts.
pub mod Table
pub mod Loop
pub mod Live
pub mod Drain
pub mod Stuck
use auto_assist.Prelude.{
  ℕ, suc, ◌+◌, String, Bool, true, false, not, ◌&&◌, ◌||◌, Option, none, some, List, [], ◌∷◌, ◌++◌,
  leb, eqb, ◌==◌, is_nonempty, keep, take, count, if◌then◌else◌,
}

-- the texts of the column `status`
pub data Status : Type 0 where
  pending failed delivered dead : Status

pub record OutboxEntry : Type 0 where
  pub outbox_id : String
  pub event_id : String
  pub payload_json : String
  pub attempt_count : ℕ
  pub last_attempt_at : Option ℕ
  pub status : Status
  pub created_at : ℕ

abbrev pub Rows : Type 0
Rows = List OutboxEntry

-- status IN ('pending', 'failed')
abbrev pub is_open : Status → Bool
is_open pending = true
is_open failed = true
is_open delivered = false
is_open dead = false

-- status IN ('pending', 'failed', 'delivered')
abbrev pub is_live : Status → Bool
is_live dead = false
is_live pending = true
is_live failed = true
is_live delivered = true

insert_row : OutboxEntry → Rows → Rows
insert_row e [] = e ∷ []
insert_row e (d ∷ rows) =
    if leb e.created_at d.created_at then e ∷ d ∷ rows else d ∷ insert_row e rows

-- ORDER BY created_at ASC
unfoldable pub order_rows : Rows → Rows
unfolding insert_row
order_rows [] = []
order_rows (e ∷ rows) = insert_row e (order_rows rows)

abbrev pub head_row : Rows → Option OutboxEntry
head_row [] = none
head_row (e ∷ rows) = some e

-- the query of `enqueue`
unfoldable pub find_live : String → Rows → Option OutboxEntry
find_live event_id rows =
    head_row
      (order_rows (keep (λ (e : OutboxEntry). e.event_id == event_id && is_live e.status) rows))

abbrev pub new_entry : String → String → String → ℕ → OutboxEntry
new_entry event_id payload_json outbox_id now = record {
  outbox_id = outbox_id;
  event_id = event_id;
  payload_json = payload_json;
  attempt_count = 0;
  last_attempt_at = none;
  status = pending;
  created_at = now;
}

abbrev pub insert_unless : Option OutboxEntry → OutboxEntry → Rows → Rows × OutboxEntry
insert_unless (some row) entry rows = (rows, row)
insert_unless none entry rows = (rows ++ entry ∷ [], entry)

-- The event is its id and its JSON text; `outbox_id` is the fresh UUID and `now` the clock.
unfoldable pub enqueue : String → String → String → ℕ → Rows → Rows × OutboxEntry
enqueue event_id payload_json outbox_id now rows =
    insert_unless (if is_nonempty event_id then find_live event_id rows else none)
      (new_entry event_id payload_json outbox_id now) rows

-- What the POST of an entry comes to: a JSON object that says `accepted` or not, one of the
-- exceptions that `_deliver` catches, or another one, which ends the flush.
pub data Reply : Type 0 where
  accepted refused unreachable broken : Reply

-- One flush: whether an API address is configured, the answers to its POSTs, and the clock.
pub record Network : Type 0 where
  pub has_api_url : Bool
  pub reply : OutboxEntry → Reply
  pub now : ℕ

-- `none` is an exception that leaves `_deliver`
unfoldable pub deliver : Network → OutboxEntry → Option Bool
deliver net entry = if not net.has_api_url then some false else elim (net.reply entry) [
  | accepted ↦ some true
  | refused ↦ some false
  | unreachable ↦ some false
  | broken ↦ none
]

abbrev pub set_status : Status → ℕ → ℕ → OutboxEntry → OutboxEntry
set_status status attempt_count now e = record e {
  status = status;
  attempt_count = attempt_count;
  last_attempt_at = some now;
}

-- UPDATE outbox SET … WHERE outbox_id=?
unfoldable pub update_status : String → Status → ℕ → ℕ → Rows → Rows
update_status outbox_id status attempt_count now [] = []
update_status outbox_id status attempt_count now (e ∷ rows) =
    let rest = update_status outbox_id status attempt_count now rows in
    (if e.outbox_id == outbox_id then set_status status attempt_count now e else e) ∷ rest

-- the status of an entry after an attempt that did not deliver it
abbrev pub after_failure : ℕ → ℕ → Status
after_failure max_retries new_count = if leb max_retries new_count then failed else pending

-- what `flush` writes after `_deliver` has returned; `none` is its exception
unfoldable pub settle : Network → ℕ → OutboxEntry → Rows → Option Bool → Rows × Option Bool
settle net max_retries entry rows none = (rows, none)
settle net max_retries entry rows (some true) =
    (update_status entry.outbox_id delivered (entry.attempt_count + 1) net.now rows, some true)
settle net max_retries entry rows (some false) =
    let new_count = entry.attempt_count + 1 in
    (
      update_status entry.outbox_id (after_failure max_retries new_count) new_count net.now rows,
      some false,
    )

-- The body of the loop of `flush` for one row that was read: the new table and whether it was
-- delivered; `none` beside the table is an exception.
unfoldable pub attempt : Network → ℕ → OutboxEntry → Rows → Rows × Option Bool
unfolding settle
attempt net max_retries entry rows =
    if leb max_retries entry.attempt_count
    then (update_status entry.outbox_id dead entry.attempt_count net.now rows, some false)
    else settle net max_retries entry rows (deliver net entry)

abbrev pub add_if : Bool → ℕ → ℕ
add_if true n = suc n
add_if false n = n

-- An exception ends the loop: the rows that are left are not tried.
unfoldable pub attempt_all : Network → ℕ → List OutboxEntry → Rows → ℕ → Rows × Option ℕ
attempt_all net max_retries [] rows done = (rows, some done)
attempt_all net max_retries (entry ∷ entries) rows done =
    let (rows', outcome) = attempt net max_retries entry rows in
    elim outcome [
      | none ↦ (rows', none)
      | some ok ↦ attempt_all net max_retries entries rows' (add_if ok done)
    ]

-- `max_attempts or self.max_retries`
abbrev pub limit_of : Option ℕ → ℕ → ℕ
limit_of none max_retries = max_retries
limit_of (some n) max_retries = if eqb n 0 then max_retries else n

abbrev pub batch : ℕ
batch = 50

abbrev pub open_rows : Rows → Rows
open_rows rows = keep (λ (e : OutboxEntry). is_open e.status) rows

unfoldable pub flush : Network → ℕ → Option ℕ → Rows → Rows × Option ℕ
flush net max_retries max_attempts rows =
    attempt_all net (limit_of max_attempts max_retries) (take batch (order_rows (open_rows rows)))
      rows 0

unfoldable pub get_pending : Rows → Rows
get_pending rows = order_rows (open_rows rows)

abbrev pub same_status : Status → Status → Bool
same_status pending pending = true
same_status failed failed = true
same_status delivered delivered = true
same_status dead dead = true
same_status _ _ = false

pub record Stats : Type 0 where
  pub total : ℕ
  pub of_status : Status → ℕ

-- SELECT status, COUNT(*) … GROUP BY status, and their sum
unfoldable pub get_stats : Rows → Stats
get_stats rows =
    let counted = λ (s : Status). count (λ (e : OutboxEntry). same_status e.status s) rows in
    record {
      total = counted pending + counted failed + counted delivered + counted dead;
      of_status = counted;
    }
