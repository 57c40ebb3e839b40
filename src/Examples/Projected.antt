-- ===== src/Examples/Projected.antt =====
-- src/assistx/swarm_core.py: tasks, leases and traces at concrete inputs.
use auto_assist.Prelude.{ℕ, String, ◌≡◌, refl, true, false, some, none, List, [], ◌∷◌, strip}
use auto_assist.Prelude.Int.{pos}
use auto_assist.Swarm.Json.{text, Fields, empty, field, lookup, read}
use auto_assist.Swarm.Assignment.{
  Task, Times, new_task, find_task, set_task_lease, release_expired_task_leases,
  project_assignment_event,
}
use auto_assist.Swarm.Assignment.Projection.{task_id_of, project_assignment_event-unswept}
use auto_assist.Swarm.Trace.{
  Observation, Traces, Trace, TraceGroup, record_trace_event, find_group, get_trace, state_of_type,
}
use auto_assist.Swarm.Trace.Current.{record_trace_event-current}

abbrev running : Task
running = record (new_task "task-1") {
  status = text "RUNNING";
  claimed_by = text "ann";
  lease_expires_at_ts = some 4000;
}

abbrev swept : List Task
swept =
    (release_expired_task_leases (some 5500) 9
      (set_task_lease 5000 "task-1" (pos 0) "0" (running ∷ []))).0

abbrev times : Times
times = record { thousandths = λ (s : String). none; iso_ms = λ (s : String). none }

abbrev payload : Fields
payload = field "task_id" (text "task-1") (field "status" (text "running") empty)

abbrev event : String → Fields
event event_type = field "event_type" (text event_type) empty

abbrev released : List Task
released =
    project_assignment_event times 7 true (event "assignment.released") payload (running ∷ [])

abbrev beaten : List Task
beaten = project_assignment_event times 7 true (event "assignment.heartbeat") payload (running ∷ [])

project_assignment_event-unswept_example :
    (t : Task) × (find_task (task_id_of payload) beaten ≡ some t)
    × (t.status ≡ text "running")
    × (find_task (task_id_of payload) (release_expired_task_leases none 99000 beaten).0 ≡ some t)
unfolding lookup read strip
project_assignment_event-unswept_example =
    project_assignment_event-unswept times 7 (event "assignment.heartbeat") payload (running ∷ [])
      "running" none 99000 refl refl refl refl

abbrev observed : ℕ → String → Observation
observed timestamp event_type = record {
  correlation_id = "corr-1";
  event_type = event_type;
  source = "auto-router";
  task_id = some "task-1";
  dispatch_id = none;
  route_id = none;
  assignment_id = none;
  payload = "{}";
  links = [];
  digits = "0123456789ab";
  timestamp = timestamp;
}

abbrev untraced : Traces
untraced = record { events = []; groups = []; edges = [] }

record_trace_event-current_example :
    let after = (record_trace_event false (observed 2 "assignment.claimed") untraced).0 in
    (g : TraceGroup) × (t : Trace) × (find_group "corr-1" after.groups ≡ some g)
    × (g.current_state ≡ some (state_of_type "assignment.claimed"))
    × (get_trace "corr-1" after ≡ some t)
    × (t.current_state ≡ state_of_type "assignment.claimed")
record_trace_event-current_example =
    record_trace_event-current (observed 2 "assignment.claimed") untraced tt tt
