-- ===== src/Swarm/Trace.antt =====
-- swarm_core.py: the trace events of a correlation id and the state of their group.
pub mod Latest
pub mod Current
use auto_assist.Prelude.{
  ℕ, String, Bool, true, false, not, ◌&&◌, ◌||◌, Option, none, some, List, [], ◌∷◌, ◌++◌, ◌==◌, any,
  map, keep, leb, fstring, starts_with, upper, or_default, strip, if◌then◌else◌,
}
use auto_assist.Dict.{Dict, get, put}

-- an element of `links`
pub record Link : Type 0 where
  pub rel : Option String
  pub target_type : Option String
  pub target_id : Option String

-- the node TraceEvent; `payload` is the JSON text of the payload
pub record TraceEvent : Type 0 where
  pub event_id : String
  pub correlation_id : String
  pub event_type : String
  pub source : String
  pub task_id : Option String
  pub dispatch_id : Option String
  pub route_id : Option String
  pub assignment_id : Option String
  pub payload : String
  pub ts_ms : ℕ

-- the node TraceGroup with the events that HAS_EVENT links it to
pub record TraceGroup : Type 0 where
  pub correlation_id : String
  pub current_state : Option String
  pub events : List TraceEvent

-- one relation from an event to a domain node
pub record Edge : Type 0 where
  pub event_id : String
  pub rel : String
  pub target_type : String
  pub target_id : String

pub record Traces : Type 0 where
  pub events : List TraceEvent
  pub groups : List TraceGroup
  pub edges : List Edge

-- the arguments of `record_trace_event`, with the 12 digits of its new UUID and the server's
-- `timestamp()`
pub record Observation : Type 0 where
  pub correlation_id : String
  pub event_type : String
  pub source : String
  pub task_id : Option String
  pub dispatch_id : Option String
  pub route_id : Option String
  pub assignment_id : Option String
  pub payload : String
  pub links : List Link
  pub digits : String
  pub timestamp : ℕ

abbrev names_target : String → Link → Bool
names_target target_type l = elim l.target_type [ none ↦ false | some t ↦ t == target_type ]

-- the link of one scalar id, unless the caller gave one to the same type
abbrev add_link : String → String → Option String → List Link → List Link
add_link rel target_type none links = links
add_link rel target_type (some id) links =
    if id == "" || any (names_target target_type) links
    then links
    else links
      ++ record { rel = some rel; target_type = some target_type; target_id = some id } ∷ []

unfoldable pub resolve_links : Observation → List Link
resolve_links o = add_link "FOR_ASSIGNMENT" "Assignment" o.assignment_id (
    add_link "FOR_ROUTE" "RouteDecision" o.route_id (
      add_link "FOR_DISPATCH" "Dispatch" o.dispatch_id
        (add_link "FOR_TASK" "Task" o.task_id o.links)))

unfoldable pub edges_of : String → List Link → List Edge
edges_of event_id [] = []
edges_of event_id (l ∷ links) =
    let rest = edges_of event_id links in
    let target = or_default l.target_id "" in
    if target == ""
    then rest
    else record {
      event_id = event_id;
      rel = upper (or_default l.rel "FOR_TASK");
      target_type = or_default l.target_type "Task";
      target_id = target;
    }
      ∷ rest

-- the map `from_state` and the CASE of the query, with their default
unfoldable pub state_of_type : String → String
state_of_type event_type =
    if event_type == "assignment.completed"
    then "completed"
    else if event_type == "assignment.failed"
    then "failed"
    else if event_type == "route.blocked"
    then "blocked"
    else if event_type == "assignment.expired"
    then "expired"
    else if event_type == "assignment.released"
    then "pending_assignment"
    else if event_type == "assignment.heartbeat"
    then "running"
    else if event_type == "assignment.claimed"
    then "running"
    else if event_type == "route.selected"
    then "pending_assignment"
    else if event_type == "router.route_decision"
    then "pending_assignment"
    else if event_type == "dispatch.accepted"
    then "pending_route"
    else if event_type == "voice.auth.rejected"
    then "rejected"
    else if event_type == "dispatch.rejected"
    then "rejected"
    else if event_type == "assignment.requested"
    then "pending_assignment"
    else "pending"

unfoldable pub insert_desc : TraceEvent → List TraceEvent → List TraceEvent
insert_desc e [] = e ∷ []
insert_desc e (x ∷ xs) = if leb x.ts_ms e.ts_ms then e ∷ x ∷ xs else x ∷ insert_desc e xs

-- ORDER BY t.ts_ms DESC
unfoldable pub by_ts_desc : List TraceEvent → List TraceEvent
unfolding insert_desc
by_ts_desc [] = []
by_ts_desc (e ∷ es) = insert_desc e (by_ts_desc es)

unfoldable pub insert_asc : TraceEvent → List TraceEvent → List TraceEvent
insert_asc e [] = e ∷ []
insert_asc e (x ∷ xs) = if leb e.ts_ms x.ts_ms then e ∷ x ∷ xs else x ∷ insert_asc e xs

-- ORDER BY t.ts_ms ASC
unfoldable pub by_ts_asc : List TraceEvent → List TraceEvent
unfolding insert_asc
by_ts_asc [] = []
by_ts_asc (e ∷ es) = insert_asc e (by_ts_asc es)

abbrev pub is_group : String → TraceGroup → Bool
is_group id g = g.correlation_id == id

abbrev pub update_group : String → (TraceGroup → TraceGroup) → TraceGroup → TraceGroup
update_group id f g = if is_group id g then f g else g

abbrev pub empty_group : String → TraceGroup
empty_group id = record { correlation_id = id; current_state = none; events = [] }

-- MERGE (g:TraceGroup …) with MERGE (g)-[:HAS_EVENT]->(t)
unfoldable pub merge_group : String → TraceEvent → List TraceGroup → List TraceGroup
merge_group id e groups =
    let f = λ (g : TraceGroup). record g { events = g.events ++ e ∷ [] } in
    if any (is_group id) groups
    then map (update_group id f) groups
    else groups ++ f (empty_group id) ∷ []

-- SET g.current_state from the latest of the events, when there is one
abbrev pub set_state : List TraceEvent → TraceGroup → TraceGroup
set_state [] g = g
set_state (e ∷ es) g = record g { current_state = some (state_of_type e.event_type) }

abbrev pub has_correlation : String → TraceEvent → Bool
has_correlation id e = e.correlation_id == id

-- without APOC: over the events that carry the correlation id
unfoldable pub update_trace_state_inline : String → Traces → Traces
unfolding by_ts_desc state_of_type
update_trace_state_inline id s = record s {
  groups =
      map (update_group id (set_state (by_ts_desc (keep (has_correlation id) s.events)))) s.groups;
}

abbrev pub event_of : Observation → TraceEvent
event_of o = record {
  event_id = fstring ("trace:" ∷ o.correlation_id ∷ ":" ∷ o.event_type ∷ ":" ∷ o.digits ∷ []);
  correlation_id = o.correlation_id;
  event_type = o.event_type;
  source = o.source;
  task_id = o.task_id;
  dispatch_id = o.dispatch_id;
  route_id = o.route_id;
  assignment_id = o.assignment_id;
  payload = o.payload;
  ts_ms = o.timestamp;
}

-- the event's node with its links and its group, before the group's state is set
unfoldable pub link_event : Observation → Traces → Traces
unfolding resolve_links edges_of
link_event o s =
    let e = event_of o in
    record {
      events = s.events ++ e ∷ [];
      groups = merge_group o.correlation_id e s.groups;
      edges = s.edges ++ edges_of e.event_id (resolve_links o);
    }

-- `has_apoc` is the answer of the server, and the event's id is new. With APOC the state's query is
-- `SET … END, g.current_state)`, which is no Cypher, so the call raises after the event is linked.
unfoldable pub record_trace_event : Bool → Observation → Traces → Traces × Option String
record_trace_event true o s = (link_event o s, none)
record_trace_event false o s =
    (update_trace_state_inline o.correlation_id (link_event o s), some (event_of o).event_id)

unfoldable pub last_type : List TraceEvent → String
last_type [] = ""
last_type (e ∷ []) = e.event_type
last_type (e ∷ x ∷ xs) = last_type (x ∷ xs)

unfoldable pub derive_of_type : String → String
derive_of_type latest =
    if latest == "assignment.completed"
    then "completed"
    else if latest == "assignment.failed"
    then "failed"
    else if latest == "route.blocked"
    then "blocked"
    else if latest == "assignment.expired"
    then "expired"
    else if latest == "assignment.released"
    then "pending_assignment"
    else if latest == "assignment.heartbeat" || latest == "assignment.claimed"
    then "running"
    else if latest == "route.selected" || latest == "router.route_decision"
    then "pending_assignment"
    else if latest == "dispatch.accepted"
    then "pending_route"
    else if latest == "voice.auth.rejected" || latest == "dispatch.rejected"
    then "rejected"
    else if latest == "assignment.requested"
    then "pending_assignment"
    else "pending"

unfoldable pub derive_trace_state : List TraceEvent → String
derive_trace_state events = derive_of_type (last_type events)

unfoldable pub find_group : String → List TraceGroup → Option TraceGroup
find_group id [] = none
find_group id (g ∷ groups) = if is_group id g then some g else find_group id groups

-- the state and the events that `get_trace` returns, without its summary
pub record Trace : Type 0 where
  pub correlation_id : String
  pub current_state : String
  pub events : List TraceEvent

abbrev pub trace_of : String → List TraceEvent → Option Trace
trace_of id [] = none
trace_of id (e ∷ es) =
    some
      (record { correlation_id = id; current_state = derive_trace_state (e ∷ es); events = e ∷ es })

unfoldable pub get_trace : String → Traces → Option Trace
unfolding find_group by_ts_asc
get_trace id s = elim (find_group id s.groups) [
  | none ↦ none
  | some g ↦ trace_of id (by_ts_asc g.events)
]
