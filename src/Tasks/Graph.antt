-- ===== src/Tasks/Graph.antt =====
-- neo4j_client.py: the nodes and relationships of the task queue, and the clauses of its queries.
-- An absent property is `none`, and JSON texts are held as they are written.
use auto_assist.Prelude.{
  ℕ, String, Bool, false, ◌&&◌, Option, none, some, List, [], ◌∷◌, ◌++◌, map, ◌==◌, any, is_some,
  update_if, if◌then◌else◌,
}
use auto_assist.Prelude.Int.{ℤ}
use auto_assist.Passive.Graph.{Required, absent}

pub record Task : Type 0 where
  pub id : String
  pub idempotency_key : Option String
  pub title : Option String
  pub ticket_type : Option String
  pub kind : Option String
  pub status : Option String
  pub required_capabilities : Required
  pub capabilities : Required
  pub target_agent_id : Option String
  pub priority : Option String
  pub priority_rank : Option ℕ
  pub payload_json : Option String
  pub claimed_by : Option String
  pub claim_id : Option String
  pub agent_session_id : Option String
  pub claimed_at_ts : Option ℕ
  pub lease_seconds : Option ℤ
  pub lease_expires_at_ts : Option ℤ
  pub heartbeat_by : Option String
  pub heartbeat_metadata_json : Option String
  pub last_heartbeat_at_ts : Option ℕ
  pub completed_by : Option String
  pub result_summary : Option String
  pub result_json : Option String
  pub failure_count : Option ℕ
  pub cancelled_reason : Option String
  pub completed_at_ts : Option ℕ
  pub created_at_ts : Option ℕ
  pub updated_at_ts : Option ℕ

-- CREATE (t:Task {id:$id})
abbrev pub new_task : String → Task
new_task id = record {
  id = id;
  idempotency_key = none;
  title = none;
  ticket_type = none;
  kind = none;
  status = none;
  required_capabilities = absent;
  capabilities = absent;
  target_agent_id = none;
  priority = none;
  priority_rank = none;
  payload_json = none;
  claimed_by = none;
  claim_id = none;
  agent_session_id = none;
  claimed_at_ts = none;
  lease_seconds = none;
  lease_expires_at_ts = none;
  heartbeat_by = none;
  heartbeat_metadata_json = none;
  last_heartbeat_at_ts = none;
  completed_by = none;
  result_summary = none;
  result_json = none;
  failure_count = none;
  cancelled_reason = none;
  completed_at_ts = none;
  created_at_ts = none;
  updated_at_ts = none;
}

-- the node Dispatch, as far as the queue reads it
pub record Dispatch : Type 0 where
  pub id : String
  pub paperclip_issue_id : Option String

-- the node AgentRun, with its relationship EXECUTED_BY from the task
pub record Run : Type 0 where
  pub id : String
  pub task_id : String
  pub agent : String
  pub completion_id : Option String
  pub status : String
  pub summary : Option String
  pub result_json : String
  pub started_at_ts : ℕ
  pub ended_at_ts : ℕ

-- the node MemoryItem, with its relationship RELATED_MEMORY from the task
pub record Memory : Type 0 where
  pub id : String
  pub task_id : String
  pub text : String
  pub agent : String

-- a relationship between two nodes, by their ids
pub record Link : Type 0 where
  pub from : String
  pub to : String

-- CLAIMED leads from an AgentSession, HAS_CHILD from the parent, DISPATCHED_AS to a Dispatch.
pub record Graph : Type 0 where
  pub tasks : List Task
  pub dispatches : List Dispatch
  pub dispatched_as : List Link
  pub runs : List Run
  pub memories : List Memory
  pub sessions : List String
  pub claimed : List Link
  pub has_child : List Link
  pub part_of : List Link

-- `x = $k` in a WHERE clause, where an absent value fits nothing
abbrev pub equals : Option String → String → Bool
equals none k = false
equals (some j) k = j == k

abbrev pub has_id : String → Task → Bool
has_id id t = t.id == id

-- MATCH (t:Task) WHERE p SET …
abbrev pub update_tasks : (Task → Bool) → (Task → Task) → List Task → List Task
update_tasks p f tasks = map (update_if p f) tasks

abbrev pub is_link : String → String → Link → Bool
is_link from to l = l.from == from && l.to == to

-- MERGE of a relationship, and of an AgentSession
abbrev pub merge_link : String → String → List Link → List Link
merge_link from to links =
    if any (is_link from to) links then links else links ++ record { from = from; to = to } ∷ []

abbrev pub merge_id : String → List String → List String
merge_id id ids = if any (λ (x : String). x == id) ids then ids else ids ++ id ∷ []

abbrev is_issue : String → Dispatch → Bool
is_issue id d = d.id == id && is_some d.paperclip_issue_id

-- MATCH (t)-[:DISPATCHED_AS]->(pc:Dispatch) WHERE pc.paperclip_issue_id IS NOT NULL
unfoldable pub is_dispatched : Graph → Task → Bool
is_dispatched g t =
    any (λ (l : Link). l.from == t.id && any (is_issue l.to) g.dispatches) g.dispatched_as
