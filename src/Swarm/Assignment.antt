-- ===== src/Swarm/Assignment.antt =====
-- swarm_core.py: the tasks that assignment events project on, their leases and failures.
pub mod Leases
pub mod Projection
use auto_assist.Prelude.{
  ℕ, suc, ◌+◌, ◌-◌, ◌*◌, ◌/◌, max, String, Bool, true, false, not, ◌&&◌, ◌||◌, Option, none, some,
  List, [], ◌∷◌, ◌++◌, ◌==◌, any, map, count, ltb, eqb, get_or, coalesce, strip, if◌then◌else◌,
}
use auto_assist.Prelude.Int.{ℤ, pos_part}
use auto_assist.Swarm.Json.{
  Json, null, boolean, number, text, array, object, Items, nil, item, Fields, empty, field, lookup,
  read, is_truthy, str, or_else, str_or_empty,
}

-- the node Task, as far as this part writes it; an absent property is null
pub record Task : Type 0 where
  pub id : String
  pub status : Json
  pub assignment_id : Json
  pub worker_id : Json
  pub node_id : Json
  pub claim_id : Json
  pub claimed_by : Json
  pub agent_session_id : Json
  pub heartbeat_by : Json
  pub completed_by : Json
  pub lease_seconds : Json
  pub lease_expires_at_ts : Option ℕ
  pub last_heartbeat_at_ts : Option ℕ
  pub result_summary : Json
  pub result_json : Json
  pub lease_released_reason : Json
  pub failed_by : Json
  pub error_summary : Json
  pub failure_count : Option ℕ
  pub updated_at_ts : Option ℕ

abbrev pub new_task : String → Task
new_task id = record {
  id = id;
  status = null;
  assignment_id = null;
  worker_id = null;
  node_id = null;
  claim_id = null;
  claimed_by = null;
  agent_session_id = null;
  heartbeat_by = null;
  completed_by = null;
  lease_seconds = null;
  lease_expires_at_ts = none;
  last_heartbeat_at_ts = none;
  result_summary = null;
  result_json = null;
  lease_released_reason = null;
  failed_by = null;
  error_summary = null;
  failure_count = none;
  updated_at_ts = none;
}

abbrev pub has_id : String → Task → Bool
has_id id t = t.id == id

abbrev pub update_if : (Task → Bool) → (Task → Task) → Task → Task
update_if p f t = if p t then f t else t

-- MERGE (t:Task {id:$task_id}) SET …
unfoldable pub merge_task : String → (Task → Task) → List Task → List Task
merge_task id f tasks =
    if any (has_id id) tasks
    then map (update_if (has_id id) f) tasks
    else tasks ++ f (new_task id) ∷ []

unfoldable pub find_task : String → List Task → Option Task
find_task id [] = none
find_task id (t ∷ tasks) = if has_id id t then some t else find_task id tasks

-- What the library's calls read from a text, not below 0: `float(text)` in thousandths and
-- `datetime.fromisoformat(text).timestamp()` in milliseconds, or none where they raise.
pub record Times : Type 0 where
  pub thousandths : String → Option ℕ
  pub iso_ms : String → Option ℕ

-- a number is in seconds below 10^10, and in milliseconds from there
abbrev scaled : ℕ → ℕ
scaled m = if ltb m 10000000000000 then m else m / 1000

abbrev coerce_text : Times → String → Option ℕ
coerce_text times s = elim (times.thousandths s) [
  | some m ↦ some (scaled m)
  | none ↦ times.iso_ms s
]

unfoldable pub coerce_timestamp_ms : Times → Json → Option ℕ
coerce_timestamp_ms times (boolean b) = some (if b then 1000 else 0)
coerce_timestamp_ms times (number s) = elim (times.thousandths s) [
  | some m ↦ some (scaled m)
  | none ↦ none
]
coerce_timestamp_ms times (text s) =
    let t = strip s in if t == "" then none else coerce_text times t
coerce_timestamp_ms times v = none

-- coalesce($v, t.p)
abbrev pub coalesce_json : Json → Json → Json
coalesce_json null w = w
coalesce_json v w = v

-- the status that an event gives its task
unfoldable pub status_of : String → Json → Json
status_of event_type status =
    if event_type == "assignment.claimed"
    then text "CLAIMED"
    else if event_type == "assignment.heartbeat"
    then or_else status (text "RUNNING")
    else if event_type == "assignment.completed"
    then or_else status (text "DONE")
    else if event_type == "assignment.failed"
    then or_else status (text "FAILED")
    else if event_type == "assignment.released" || event_type == "assignment.expired"
    then text "READY"
    else or_else status (text "CLAIMED")

abbrev pub clears_claim : String → Bool
clears_claim event_type = event_type == "assignment.released" || event_type == "assignment.expired"

abbrev released_reason : String → Json → Json
released_reason event_type reason =
    if event_type == "assignment.released"
    then or_else reason (text "released")
    else if event_type == "assignment.expired"
    then or_else reason (text "expired")
    else null

abbrev read_or : String → Json → Fields → Json
read_or k v d = elim (lookup k d) [ none ↦ v | some w ↦ w ]

abbrev result_of : String → Fields → Json
result_of event_type payload =
    if event_type == "assignment.completed" || event_type == "assignment.failed"
    then object (
        field "assignment_id" (read "assignment_id" payload) (
          field "task_id" (text (strip (str_or_empty (read "task_id" payload)))) (
            field "worker_id" (read "worker_id" payload) (
              field "node_id" (read "node_id" payload) (
                field "status" (read "status" payload) (
                  field "summary" (read "summary" payload)
                    (field "artifacts" (read_or "artifacts" (array nil) payload) empty)))))))
    else null

abbrev unless_cleared : Bool → Json → Json → Json
unless_cleared cleared v w = if cleared then null else coalesce_json v w

-- the SET of `project_assignment_event`
unfoldable pub set_assignment : Times → ℕ → String → Fields → Fields → Task → Task
unfolding status_of coerce_timestamp_ms
set_assignment times now_ms event_type event payload t =
    let assignment = read "assignment_id" payload in
    let worker = read "worker_id" payload in
    let cleared = clears_claim event_type in
    let session =
      or_else (read "correlation_id" payload) (or_else (read "correlation_id" event) assignment) in
    let expires = coerce_timestamp_ms times (read "lease_expires_at" payload) in
    let beat =
      coerce_timestamp_ms times
        (or_else (read "last_heartbeat_at" payload) (read "occurred_at" event)) in
    record t {
      status = status_of event_type (read "status" payload);
      assignment_id = coalesce_json assignment t.assignment_id;
      worker_id = coalesce_json worker t.worker_id;
      node_id = coalesce_json (read "node_id" payload) t.node_id;
      claim_id = unless_cleared cleared (or_else (read "claim_id" payload) assignment) t.claim_id;
      claimed_by = unless_cleared cleared worker t.claimed_by;
      agent_session_id = unless_cleared cleared session t.agent_session_id;
      heartbeat_by = unless_cleared cleared worker t.heartbeat_by;
      completed_by = coalesce_json worker t.completed_by;
      lease_seconds = unless_cleared cleared (read "lease_seconds" payload) t.lease_seconds;
      lease_expires_at_ts = if cleared then none else coalesce expires t.lease_expires_at_ts;
      last_heartbeat_at_ts =
          coalesce (if event_type == "assignment.heartbeat" then beat else none)
            t.last_heartbeat_at_ts;
      result_summary = coalesce_json (read "summary" payload) t.result_summary;
      result_json = coalesce_json (result_of event_type payload) t.result_json;
      lease_released_reason =
          coalesce_json (released_reason event_type (read "reason" payload))
            t.lease_released_reason;
      updated_at_ts = some now_ms;
    }

-- `is_known` says whether the graph has the event's envelope, which the query matches first.
unfoldable pub project_assignment_event : Times → ℕ → Bool → Fields → Fields → List Task → List Task
unfolding set_assignment merge_task
project_assignment_event times now_ms is_known event payload tasks =
    let task_id = strip (str_or_empty (read "task_id" payload)) in
    if task_id == "" || not is_known
    then tasks
    else merge_task task_id
        (set_assignment times now_ms (str_or_empty (read "event_type" event)) event payload) tasks

unfoldable pub fail_task :
    ℕ → String → String → String → Bool → Json → List Task → List Task × Option Task
unfolding find_task
fail_task now_ms task_id agent_id error_summary retryable session_id tasks =
    let f = λ (t : Task). record t {
      status = text (if retryable then "READY" else "FAILED");
      failed_by = text agent_id;
      agent_session_id = coalesce_json session_id t.agent_session_id;
      error_summary = text error_summary;
      failure_count = some (get_or t.failure_count 0 + 1);
      updated_at_ts = some now_ms;
    } in
    let tasks' = map (update_if (has_id task_id) f) tasks in (tasks', find_task task_id tasks')

-- `lease_seconds` is any integer, and `shown` its text
abbrev pub with_lease : ℕ → ℤ → String → Task → Task
with_lease now_ms lease_seconds shown t = record t {
  lease_expires_at_ts = some (now_ms + max 1 (pos_part lease_seconds) * 1000);
  lease_seconds = number shown;
  updated_at_ts = some now_ms;
}

unfoldable pub set_task_lease : ℕ → String → ℤ → String → List Task → List Task
set_task_lease now_ms task_id lease_seconds shown tasks =
    map (update_if (has_id task_id) (with_lease now_ms lease_seconds shown)) tasks

abbrev pub is_text : String → Json → Bool
is_text w (text s) = s == w
is_text w v = false

abbrev pub has_lapsed : ℕ → Task → Bool
has_lapsed now t =
    (is_text "CLAIMED" t.status || is_text "RUNNING" t.status)
    && ltb (get_or t.lease_expires_at_ts 0) now

abbrev pub set_released : ℕ → Task → Task
set_released now t = record t {
  status = text "READY";
  claimed_by = null;
  agent_session_id = null;
  claim_id = null;
  lease_released_reason = text "expired";
  updated_at_ts = some now;
}

-- `int(now_ms or _now_ms())`
abbrev pub now_or : Option ℕ → ℕ → ℕ
now_or none clock = clock
now_or (some n) clock = if eqb n 0 then clock else n

unfoldable pub release_expired_task_leases : Option ℕ → ℕ → List Task → List Task × ℕ
release_expired_task_leases now_ms clock tasks =
    let now = now_or now_ms clock in
    (map (update_if (has_lapsed now) (set_released clock)) tasks, count (has_lapsed now) tasks)
