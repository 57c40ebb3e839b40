-- ===== src/Intents/Review.antt =====
-- intent_orchestrator.py: `_queue_intent_review` and `_handle_cancel`.
use auto_assist.Prelude.{
  ℕ, String, Bool, ◌&&◌, ◌||◌, Option, none, some, List, [], ◌∷◌, any, trim_to, fstring,
  is_nonempty, if◌then◌else◌,
}
use auto_assist.Tasks.Graph.{Task, Link, has_id, equals, merge_link, is_link, update_tasks}
use auto_assist.Tasks.Create.{Ticket, upsert_ticket}
use auto_assist.Intents.State.{Intent, Store, has_intent_id}

-- The ticket of a review. `dumps` is `json.dumps` of a dict of texts.
unfoldable pub review_ticket :
    (List (String × Option String) → String) → Intent → String → String → Ticket
review_ticket dumps i policy reason = record {
  title =
      if is_nonempty i.text
      then fstring ("Review intent: " ∷ trim_to 96 i.text ∷ [])
      else "Review intent";
  ticket_type = "chore";
  status = "REVIEW";
  kind = some "intent_review";
  parent_id = none;
  required_capabilities = [];
  target_agent_id = none;
  priority = none;
  payload = dumps (
      ("source_intent", some i.id)
      ∷ ("source_text", some i.text)
      ∷ ("classification", i.classification)
      ∷ ("policy_action", some policy)
      ∷ ("reason", some reason)
      ∷ []);
  idempotency_key = some (fstring ("intent-review:" ∷ i.id ∷ []));
}

-- MATCH (i:Intent {id:$iid}), (t:Task {id:$tid}) MERGE (i)-[:CREATED_TASK]->(t)
unfoldable pub link_task : String → String → Store → Store
link_task intent_id task_id s =
    if any (has_intent_id intent_id) s.intents && any (has_id task_id) s.queue.tasks
    then record s { created_task = merge_link intent_id task_id s.created_task }
    else s

-- `uuid` is the text of the new UUID.
unfoldable pub queue_intent_review :
    (List (String × Option String) → String)
    → ℕ
    → String
    → Intent
    → String
    → String
    → Store
    → Store × String
unfolding review_ticket link_task upsert_ticket
queue_intent_review dumps now uuid i policy reason s =
    let (queue, ticket_id) = upsert_ticket now uuid (review_ticket dumps i policy reason) s.queue in
    (link_task i.id ticket_id (record s { queue = queue }), ticket_id)

-- MATCH (i:Intent {id:$id})-[:CREATED_TASK]->(t:Task) WHERE t.status IN [...]
abbrev pub is_open : Task → Bool
is_open t = equals t.status "READY" || equals t.status "CLAIMED" || equals t.status "RUNNING"

abbrev pub is_cancelled_by : List Link → String → Task → Bool
is_cancelled_by links intent_id t = any (is_link intent_id t.id) links && is_open t

unfoldable pub handle_cancel : ℕ → Intent → Store → Store
handle_cancel now i s =
    let set = λ (t : Task). record t {
      status = some "CANCELLED";
      cancelled_reason = some (fstring ("Cancelled by intent: " ∷ trim_to 200 i.text ∷ []));
      updated_at_ts = some now;
    } in
    record s {
      queue = record s.queue {
        tasks = update_tasks (is_cancelled_by s.created_task i.id) set s.queue.tasks;
      };
    }
