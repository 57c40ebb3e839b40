-- ===== src/Tasks/Create.antt =====
-- neo4j_client.py: `upsert_ticket` and `create_tasks_batch`, which write READY work.
pub mod Keys
pub mod Again
pub mod Reset
pub mod Reclaimed
use auto_assist.Prelude.{
  ℕ, suc, String, Bool, not, ◌&&◌, ◌||◌, Option, none, some, List, [], ◌∷◌, ◌++◌, ◌==◌, any, get_or,
  or_default, is_nonempty, if◌then◌else◌, find_first,
}
use auto_assist.Passive.Graph.{Required, listed}
use auto_assist.Tasks.Graph.{Task, new_task, Graph, equals, has_id, update_tasks, merge_link}

-- The arguments of `upsert_ticket`. The payload is the text of `json.dumps(payload or {})`.
pub record Ticket : Type 0 where
  pub title : String
  pub ticket_type : String
  pub status : String
  pub kind : Option String
  pub parent_id : Option String
  pub required_capabilities : List String
  pub target_agent_id : Option String
  pub priority : Option String
  pub payload : String
  pub idempotency_key : Option String

abbrev pub has_key : String → Task → Bool
has_key key t = equals t.idempotency_key key

-- The status that a MERGE gives: finished work is not made READY again.
abbrev pub next_status : String → Option String → Option String
next_status status old =
    if (equals old "DONE" || equals old "CANCELLED") && status == "READY" then old else some status

-- MERGE (t:Task {idempotency_key:$key}) ON CREATE … SET …, and the id that it returns
unfoldable pub merge_task : String → Task → (Task → Task) → List Task → List Task × String
unfolding find_first
merge_task key new f tasks = elim (find_first (has_key key) tasks) [
  | none ↦ (tasks ++ f new ∷ [], new.id)
  | some t ↦ (update_tasks (has_key key) f tasks, t.id)
]

-- `if idempotency_key:` leaves an empty key out
abbrev pub key_of : Option String → Option String
key_of none = none
key_of (some key) = if key == "" then none else some key

unfoldable pub set_ticket : ℕ → Ticket → Task → Task
set_ticket now k t = record t {
  title = some k.title;
  ticket_type = some k.ticket_type;
  kind = some (or_default k.kind k.ticket_type);
  required_capabilities = listed k.required_capabilities;
  target_agent_id = k.target_agent_id;
  priority = k.priority;
  payload_json = some k.payload;
  status = next_status k.status t.status;
  updated_at_ts = some now;
}

abbrev pub created : ℕ → String → Option String → Option String → Task
created now id key status = record (new_task id) {
  idempotency_key = key;
  status = status;
  created_at_ts = some now;
}

unfoldable pub write_ticket : ℕ → String → Ticket → List Task → List Task × String
unfolding set_ticket merge_task
write_ticket now id k tasks = elim (key_of k.idempotency_key) [
  | none ↦ (tasks ++ set_ticket now k (created now id none none) ∷ [], id)
  | some key ↦ merge_task key (created now id (some key) (some k.status)) (set_ticket now k) tasks
]

-- MATCH (parent:Task {id:$parent_id}), (child …) MERGE (parent)-[:HAS_CHILD]->(child)
-- MERGE (child)-[:PART_OF]->(parent)
unfoldable pub link_parent : Option String → String → Graph → Graph
link_parent parent child g =
    let id = get_or parent "" in
    if is_nonempty id && any (has_id id) g.tasks
    then record g {
      has_child = merge_link id child g.has_child;
      part_of = merge_link child id g.part_of;
    }
    else g

-- `id` is the text of the new UUID.
unfoldable pub upsert_ticket : ℕ → String → Ticket → Graph → Graph × String
unfolding write_ticket link_parent
upsert_ticket now id k g =
    let (tasks, ticket_id) = write_ticket now id k g.tasks in
    (link_parent k.parent_id ticket_id (record g { tasks = tasks }), ticket_id)

-- An item of a batch: `title` and `kind` are `none` where the key is missing.
pub record Item : Type 0 where
  pub title : Option String
  pub kind : Option String
  pub required_capabilities : List String
  pub priority : Option String
  pub payload : String
  pub idempotency_key : Option String

unfoldable pub set_item : ℕ → Item → Task → Task
set_item now k t = record t {
  title = some (get_or k.title "");
  ticket_type = some (get_or k.kind "task");
  kind = some (get_or k.kind "task");
  required_capabilities = listed k.required_capabilities;
  priority = k.priority;
  payload_json = some k.payload;
  status = next_status "READY" t.status;
  updated_at_ts = some now;
}

unfoldable pub write_item : ℕ → String → Item → List Task → List Task × String
unfolding set_item merge_task
write_item now id k tasks = elim (key_of k.idempotency_key) [
  | none ↦ (tasks ++ set_item now k (created now id none none) ∷ [], id)
  | some key ↦ merge_task key (created now id (some key) none) (set_item now k) tasks
]

-- each item with its new UUID; a task whose id is empty is not counted
unfoldable pub create_tasks_batch : ℕ → List (String × Item) → List Task → List Task × ℕ
unfolding write_item
create_tasks_batch now [] tasks = (tasks, 0)
create_tasks_batch now ((id, k) ∷ items) tasks =
    let (tasks', task_id) = write_item now id k tasks in
    let (tasks'', written) = create_tasks_batch now items tasks' in
    (tasks'', if is_nonempty task_id then suc written else written)
