-- ===== src/Examples/Queue.antt =====
-- src/assistx/neo4j_client.py at concrete graphs.
use auto_assist.Prelude.{
  All, ◌≡◌, refl, ◌≤◌, arith, find_first, ◌⊎◌, true, false, some, none, [], ◌∷◌, length, List,
  String,
}
use auto_assist.Prelude.Sorting.{sort_by}
use auto_assist.Passive.Graph.{listed}
use auto_assist.Tasks.Graph.{Task, Graph, new_task, is_dispatched}
use auto_assist.Tasks.Create.{Ticket, Item, upsert_ticket, create_tasks_batch}
use auto_assist.Tasks.Create.Keys.{IsUnique, upsert_ticket-create_tasks_batch-IsUnique}
use auto_assist.Tasks.Create.Reset.{Ready}
use auto_assist.Tasks.Create.Reclaimed.{create_tasks_batch-reset}
use auto_assist.Tasks.Claim.{
  Request, granted, idempotent, claim_id_of, is_claimable, set_claim, claim_ready, find_prior,
  note_session, claim_task,
}
use auto_assist.Tasks.Claim.Answers.{Answers, claim_task-Answers}
use auto_assist.Tasks.Claim.Replay.{claim_task-replayed}
use auto_assist.Tasks.Progress.{
  Beat, Completion, Completed, found, set_completed, record_run, remember, find_run, find_completed,
  complete_new, complete_task,
}
use auto_assist.Tasks.Progress.Retry.{complete_task-retried}
use auto_assist.Tasks.Listing.{Poll, list_agent_tasks, fetch_tasks, is_offered}
use auto_assist.Tasks.Listing.Offered.{IsFor, list_agent_tasks-IsFor}
use auto_assist.Tasks.Taken.{claim, beat, complete}
use auto_assist.Tasks.Exclusive.{grants, grants-le}

abbrev pub python_task : Task
python_task = record (new_task "t-1") {
  idempotency_key = some "k-1";
  status = some "READY";
  required_capabilities = listed ("python" ∷ []);
  target_agent_id = some "bob";
}

abbrev pub running_task : Task
running_task = record (new_task "t-2") {
  idempotency_key = some "k-2";
  status = some "RUNNING";
  claimed_by = some "bob";
  claim_id = some "c-2";
}

abbrev pub queue : Graph
queue = record {
  tasks = python_task ∷ running_task ∷ [];
  dispatches = [];
  dispatched_as = [];
  runs = [];
  memories = [];
  sessions = [];
  claimed = [];
  has_child = [];
  part_of = [];
}

-- an agent that is not the target and cannot do what is required
abbrev wish : Request
wish = record {
  task_id = "t-1";
  agent_id = "ann";
  capabilities = "rust" ∷ [];
  session_id = none;
  idempotency_key = some "ann-1";
  lease_seconds = none;
  now = 5000;
  uuid = "u-1";
}

abbrev other_wish : Request
other_wish = record wish { agent_id = "bob"; idempotency_key = none; uuid = "u-2" }

claim_mismatched : (claim_task wish queue).1 ≡ granted (set_claim wish python_task)
unfolding claim_task claim_ready is_claimable is_dispatched set_claim note_session
claim_mismatched = refl

claim_task-Answers_example :
    let (g', told) = claim_task wish queue in
    ((t : Task) × (find_prior wish queue.tasks ≡ some t)
      × (g' ≡ queue)
      × (told ≡ idempotent (claim_id_of wish) t))
    ⊎ ((find_prior wish queue.tasks ≡ none) × Answers wish queue (g', told))
claim_task-Answers_example = claim_task-Answers wish queue

claim_task-replayed_example :
    let g' = (claim_task wish queue).0 in
    claim_task wish g' ≡ (g', idempotent "ann-1" (set_claim wish python_task))
claim_task-replayed_example =
    claim_task-replayed wish "ann-1" queue (set_claim wish python_task) refl refl claim_mismatched

abbrev done : Completion
done = record {
  task_id = "t-1";
  agent_id = "ann";
  status = "DONE";
  summary = some "all done";
  result = "{}";
  session_id = none;
  idempotency_key = some "done-1";
  now = 9000;
  run_id = "run-1";
  memory_id = "mem-1";
}

-- the same completion, as a failure
abbrev failed_again : Completion
failed_again = record done { status = "FAILED"; now = 9500; run_id = "run-2"; memory_id = "mem-2" }

abbrev completed : Completed
completed = record {
  task = set_completed done python_task;
  run_id = "run-1";
  memory_item_id = some "mem-1";
  idempotent = false;
}

complete_told : (complete_task done queue).1 ≡ found completed
unfolding complete_task find_completed find_run complete_new record_run remember set_completed
complete_told = refl

complete_task-retried_example :
    let g' = (complete_task done queue).0 in
    let (g'', told) = complete_task failed_again g' in
    (c : Completed) × (told ≡ found c)
    × (c.run_id ≡ "run-1")
    × (c.idempotent ≡ true)
    × (c.task.status ≡ some "FAILED")
    × (g''.runs ≡ g'.runs)
    × (g''.memories ≡ g'.memories)
complete_task-retried_example =
    complete_task-retried done failed_again "done-1" queue completed refl refl refl refl refl
      complete_told

abbrev ticket : Ticket
ticket = record {
  title = "again";
  ticket_type = "task";
  status = "READY";
  kind = none;
  parent_id = none;
  required_capabilities = [];
  target_agent_id = none;
  priority = none;
  payload = "{}";
  idempotency_key = some "k-1";
}

abbrev item : Item
item = record {
  title = some "again";
  kind = none;
  required_capabilities = [];
  priority = none;
  payload = "{}";
  idempotency_key = some "k-2";
}

upsert_ticket-create_tasks_batch-IsUnique_example :
    IsUnique "k-1" (upsert_ticket 7000 "u-3" ticket queue).0.tasks
    × IsUnique "k-1" (create_tasks_batch 7000 (("u-4", item) ∷ []) queue.tasks).0
upsert_ticket-create_tasks_batch-IsUnique_example =
    upsert_ticket-create_tasks_batch-IsUnique "k-1" 7000 "u-3" ticket (("u-4", item) ∷ []) queue
      (omega arith)

-- a batch makes the task READY that bob runs, and ann claims it
abbrev items : List (String × Item)
items = ("u-4", record item { idempotency_key = none }) ∷ ("u-5", item) ∷ []

abbrev late_wish : Request
late_wish = record wish { task_id = "t-2"; idempotency_key = none; now = 7500; uuid = "u-6" }

create_tasks_batch-reset_example :
    let g' = record queue { tasks = (create_tasks_batch 7000 items queue.tasks).0 } in
    Ready "k-2" running_task g'.tasks
    × ((v : Task) × ((claim_task late_wish g').1 ≡ granted v)
        × (v.id ≡ "t-2")
        × (v.status ≡ some "CLAIMED")
        × (v.claimed_by ≡ some "ann"))
unfolding find_first is_dispatched
create_tasks_batch-reset_example =
    create_tasks_batch-reset "k-2" 7000 items queue running_task late_wish refl refl refl refl refl
      refl

abbrev poll : Poll
poll = record {
  status = "READY";
  capabilities = "python" ∷ "rust" ∷ [];
  agent_id = some "bob";
  limit = 10;
}

polled : length (list_agent_tasks poll queue.tasks) ≡ 1
unfolding list_agent_tasks fetch_tasks is_offered sort_by
polled = refl

list_agent_tasks-IsFor_example :
    All (IsFor poll) (list_agent_tasks poll queue.tasks)
    × (length (list_agent_tasks poll queue.tasks) ≤ 10)
list_agent_tasks-IsFor_example = list_agent_tasks-IsFor poll queue.tasks

abbrev alive : Beat
alive = record {
  task_id = "t-1";
  agent_id = "ann";
  status = some "RUNNING";
  session_id = none;
  metadata = "{}";
  lease_seconds = none;
  now = 6000;
}

grants-le_example :
    grants "t-1"
      (claim wish ∷ claim other_wish ∷ beat alive ∷ complete done ∷ claim other_wish ∷ [])
      queue
    ≤ 1
grants-le_example =
    grants-le "t-1"
      (claim wish ∷ claim other_wish ∷ beat alive ∷ complete done ∷ claim other_wish ∷ []) queue
      (tt, (tt, (refl, (tt, (tt, tt)))))
