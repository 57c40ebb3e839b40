-- ===== src/Tasks/Progress.antt =====
-- neo4j_client.py: `heartbeat_task`, `complete_task` and `update_task_status`, which move a task
-- on.
pub mod Known
pub mod Retry
use auto_assist.Prelude.{
  ℕ, suc, ◌+◌, String, Bool, true, false, not, ◌&&◌, ◌||◌, Option, none, some, List, [], ◌∷◌, ◌++◌,
  ◌==◌, any, map, keep, get_or, coalesce, is_nonempty, if◌then◌else◌, find_first,
}
use auto_assist.Prelude.Int.{ℤ, pos}
use auto_assist.Tasks.Graph.{Task, Graph, Run, Memory, equals, has_id, update_tasks}
use auto_assist.Tasks.Claim.{after_seconds}

abbrev pub is_word : List String → String → Bool
is_word words w = any (λ (x : String). x == w) words

abbrev pub executable_statuses : List String
executable_statuses = "READY" ∷ "CLAIMED" ∷ "RUNNING" ∷ "DONE" ∷ "FAILED" ∷ "CANCELLED" ∷ []

abbrev pub terminal_statuses : List String
terminal_statuses = "DONE" ∷ "FAILED" ∷ "CANCELLED" ∷ []

-- The task that a call returns, or its ValueError.
pub data Outcome {ℓ} (A : Type ℓ) : Type ℓ where
  value_error : Outcome A
  missing : Outcome A
  found : A → Outcome A

-- the arguments of `heartbeat_task`, with the clock
pub record Beat : Type 0 where
  pub task_id : String
  pub agent_id : String
  pub status : Option String
  pub session_id : Option String
  pub metadata : String
  pub lease_seconds : Option ℤ
  pub now : ℕ

abbrev lease_after : Beat → Task → ℤ
lease_after q t = get_or (coalesce q.lease_seconds t.lease_seconds) (pos 900)

unfoldable pub set_beat : Beat → Task → Task
set_beat q t = record t {
  heartbeat_by = some q.agent_id;
  agent_session_id = q.session_id;
  heartbeat_metadata_json = some q.metadata;
  status = coalesce q.status t.status;
  lease_seconds = some (lease_after q t);
  last_heartbeat_at_ts = some q.now;
  lease_expires_at_ts = some (after_seconds q.now (lease_after q t));
  updated_at_ts = some q.now;
}

abbrev outcome_of : Option Task → Outcome Task
outcome_of none = missing
outcome_of (some t) = found t

-- `if status and status not in EXECUTABLE_TASK_STATUSES`
abbrev pub is_supported : Option String → Bool
is_supported none = true
is_supported (some s) = s == "" || is_word executable_statuses s

unfoldable pub heartbeat_task : Beat → Graph → Graph × Outcome Task
unfolding set_beat find_first
heartbeat_task q g =
    let tasks = update_tasks (has_id q.task_id) (set_beat q) g.tasks in
    if is_supported q.status
    then (record g { tasks = tasks }, outcome_of (find_first (has_id q.task_id) tasks))
    else (g, value_error)

-- The arguments of `complete_task`, with the clock and the new UUIDs. The result is the text of
-- `json.dumps(result or {})`.
pub record Completion : Type 0 where
  pub task_id : String
  pub agent_id : String
  pub status : String
  pub summary : Option String
  pub result : String
  pub session_id : Option String
  pub idempotency_key : Option String
  pub now : ℕ
  pub run_id : String
  pub memory_id : String

-- What the call adds to the task that it returns: the id of the run, and that of the memory.
pub record Completed : Type 0 where
  pub task : Task
  pub run_id : String
  pub memory_item_id : Option String
  pub idempotent : Bool

-- the SET of a completion that is known
unfoldable pub set_again : Completion → Task → Task
set_again q t = record t {
  status = some q.status;
  result_summary = q.summary;
  result_json = some q.result;
  completed_by = some q.agent_id;
  completed_at_ts = some q.now;
  updated_at_ts = some q.now;
}

unfoldable pub set_completed : Completion → Task → Task
set_completed q t = record t {
  status = some q.status;
  completed_by = some q.agent_id;
  agent_session_id = coalesce q.session_id t.agent_session_id;
  result_summary = q.summary;
  result_json = some q.result;
  failure_count = some (
      if q.status == "FAILED" || q.status == "CANCELLED"
      then get_or t.failure_count 0 + 1
      else get_or t.failure_count 0);
  completed_at_ts = some q.now;
  updated_at_ts = some q.now;
}

-- CREATE (r:AgentRun …) MERGE (t)-[:EXECUTED_BY]->(r)
abbrev pub run_of : Completion → Task → Run
run_of q t = record {
  id = q.run_id;
  task_id = q.task_id;
  agent = q.agent_id;
  completion_id = q.idempotency_key;
  status = q.status;
  summary = q.summary;
  result_json = q.result;
  started_at_ts = get_or t.claimed_at_ts q.now;
  ended_at_ts = q.now;
}

-- MATCH (t:Task {id})-[:EXECUTED_BY]->(r:AgentRun {completion_id})
abbrev pub is_run : String → String → Run → Bool
is_run task_id key r = r.task_id == task_id && equals r.completion_id key

unfoldable pub find_run : String → String → List Run → Option Run
find_run task_id key [] = none
find_run task_id key (r ∷ runs) = if is_run task_id key r then some r else find_run task_id key runs

abbrev pub both : Option Task → Option Run → Option (Task × Run)
both (some t) (some r) = some (t, r)
both t r = none

unfoldable pub find_completed : Completion → Graph → Option (Task × Run)
unfolding find_first find_run
find_completed q g =
    let key = get_or q.idempotency_key "" in
    if is_nonempty key
    then both (find_first (has_id q.task_id) g.tasks) (find_run q.task_id key g.runs)
    else none

unfoldable pub complete_again : Completion → Task → Run → Graph → Graph × Outcome Completed
unfolding set_again
complete_again q t r g =
    let told : Task → Completed =
      λ t'. record { task = t'; run_id = r.id; memory_item_id = none; idempotent = true } in
    if equals t.status q.status then (g, found (told t)) else (
      record g { tasks = update_tasks (has_id q.task_id) (set_again q) g.tasks },
      found (told (record t { status = some q.status })),
    )

-- the memory of a summary
unfoldable pub remember : Completion → Graph → Graph × Option String
remember q g =
    let summary = get_or q.summary "" in
    let memory : Memory = record {
      id = q.memory_id;
      task_id = q.task_id;
      text = summary;
      agent = q.agent_id;
    } in
    if is_nonempty summary
    then (record g { memories = g.memories ++ memory ∷ [] }, some q.memory_id)
    else (g, none)

-- the SET of a completion, and its CREATE of a run for each task that has the id
unfoldable pub record_run : Completion → Graph → Graph
unfolding set_completed
record_run q g = record g {
  tasks = update_tasks (has_id q.task_id) (set_completed q) g.tasks;
  runs = g.runs ++ map (run_of q) (keep (has_id q.task_id) g.tasks);
}

abbrev pub told_new : Completion → Task → Option String → Outcome Completed
told_new q t memory =
    found (record { task = t; run_id = q.run_id; memory_item_id = memory; idempotent = false })

unfoldable pub complete_new : Completion → Graph → Graph × Outcome Completed
unfolding record_run remember find_first
complete_new q g = elim (find_first (has_id q.task_id) g.tasks) [
  | none ↦ (g, missing)
  | some t ↦ (
    (remember q (record_run q g)).0,
    told_new q (set_completed q t) (remember q (record_run q g)).1,
  )
]

abbrev pub complete_found : Completion → Graph → Option (Task × Run) → Graph × Outcome Completed
complete_found q g (some (t, r)) = complete_again q t r g
complete_found q g none = complete_new q g

unfoldable pub complete_task : Completion → Graph → Graph × Outcome Completed
unfolding find_completed complete_again complete_new
complete_task q g =
    if is_word terminal_statuses q.status
    then complete_found q g (find_completed q g)
    else (g, value_error)

unfoldable pub update_task_status : ℕ → String → String → Graph → Graph
update_task_status now id status g =
    let set = λ (t : Task). record t { status = some status; updated_at_ts = some now } in
    record g { tasks = update_tasks (has_id id) set g.tasks }
