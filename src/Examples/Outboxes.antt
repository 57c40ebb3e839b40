-- ===== src/Examples/Outboxes.antt =====
-- src/assistx/outbox_client.py at concrete tables.
use auto_assist.Prelude.{◌≡◌, refl, true, some, none, [], ◌∷◌, arith}
use auto_assist.Examples.{differ}
use auto_assist.Outbox.{
  Status, OutboxEntry, Rows, Reply, Network, order_rows, open_rows, new_entry, enqueue, flush,
  get_pending, attempt, attempt_all, deliver, settle, update_status,
}
use auto_assist.Outbox.Table.{find_row}
use auto_assist.Outbox.Live.{Step, Reach, IsValid, Reach-IsValid}
use auto_assist.Outbox.Drain.{flush_rounds, flush_rounds-drains}
use auto_assist.Outbox.Stuck.{flush-stuck}

abbrev answers : Reply → Network
answers r = record { has_api_url = true; reply = λ (e : OutboxEntry). r; now = 9 }

abbrev first : OutboxEntry
first = new_entry "evt-1" "{}" "row-1" 1

abbrev second : OutboxEntry
second = new_entry "evt-2" "{}" "row-2" 2

abbrev sent : OutboxEntry
sent = record first { status = Status.delivered; attempt_count = 1; last_attempt_at = some 3 }

abbrev queued : Rows
queued = first ∷ second ∷ []

-- a flush that is accepted delivers both rows
queued_flushed : (flush (answers Reply.accepted) 10 none queued).1 ≡ some 2
unfolding flush order_rows attempt_all attempt deliver settle update_status
queued_flushed = refl

there_is_none : find_row "row-1" [] ≡ none
unfolding find_row
there_is_none = refl

sent_found : find_row "row-1" (sent ∷ second ∷ []) ≡ some sent
unfolding find_row
sent_found = refl

queued_ordered : order_rows (open_rows queued) ≡ queued
unfolding order_rows
queued_ordered = refl

-- a flush of a caller that allows one attempt, for a client that allows ten
Reach-IsValid_example :
    IsValid 1 10 (flush (answers Reply.refused) 10 (some 1) (enqueue "evt-1" "{}" "row-1" 1 []).0).0
Reach-IsValid_example =
    Reach-IsValid 10 1 10
      (flush (answers Reply.refused) 10 (some 1) (enqueue "evt-1" "{}" "row-1" 1 []).0).0
      (Reach.next (Reach.next Reach.start (Step.enqueued "evt-1" "{}" "row-1" 1 there_is_none))
        (Step.flushed (answers Reply.refused) (some 1) (omega arith) (omega arith)))

flush_rounds-drains_example :
    get_pending (flush_rounds 0 (answers Reply.refused ∷ answers Reply.accepted ∷ []) queued) ≡ []
flush_rounds-drains_example =
    flush_rounds-drains 0 (answers Reply.refused ∷ answers Reply.accepted ∷ []) queued
      ((λ e h. ground (arith, h)), ((λ e h. ground (arith, h)), tt))
      ((differ "row-1" "row-2" refl, tt), (tt, tt)) (omega arith)

flush-stuck_example : flush (answers Reply.broken) 10 none queued ≡ (queued, none)
flush-stuck_example =
    flush-stuck (answers Reply.broken) 10 none queued first (second ∷ []) queued_ordered
      (omega arith) refl refl
