-- ===== src/Swarm/Envelope.antt =====
-- swarm_core.py: the check of an event, the idempotent record of an event, and its dispatch.
pub mod Idempotence
pub mod Retry
use auto_assist.Prelude.{
  ℕ, suc, String, Bool, true, false, not, ◌&&◌, ◌||◌, Option, none, some, List, [], ◌∷◌, ◌++◌, ◌==◌,
  any, all, map, or_default, fstring, starts_with, strip, lower, if◌then◌else◌,
}
use auto_assist.Swarm.Json.{
  Json, null, boolean, number, text, array, object, Items, nil, item, Fields, empty, field, lookup,
  read, has_key, is_truthy, is_missing, str, str_or_empty,
}

abbrev pub required : List String
required =
    "event_id" ∷ "event_type" ∷ "source_repo" ∷ "source_service" ∷ "node_id" ∷ "occurred_at"
    ∷ "idempotency_key" ∷ "schema_version" ∷ "subject" ∷ "payload" ∷ "artifact_refs" ∷ "privacy"
    ∷ []

-- the exceptions of this part, and what a failed check finds
pub data Invalid : Type 0 where
  missing_fields unsupported_schema bad_subject bad_payload : Invalid
  bad_artifact_refs bad_metadata bad_privacy : Invalid

pub data Raised : Type 0 where
  validation_error : Invalid → Raised
  conflict_error : String → Raised
  unsupported_type session_error : Raised

abbrev pub is_absent : Fields → String → Bool
is_absent e k = not (has_key k e) || is_missing (read k e)

abbrev is_supported : Json → Bool
is_supported v = str v == "1.0" || str v == "2026-06-08.v1"

abbrev is_subject : Json → Bool
is_subject (object d) = is_truthy (read "kind" d) && is_truthy (read "id" d)
is_subject v = false

abbrev is_object : Json → Bool
is_object (object d) = true
is_object v = false

abbrev is_array : Json → Bool
is_array (array vs) = true
is_array v = false

abbrev is_privacy : Json → Bool
is_privacy (object d) = has_key "pii" d && has_key "privacy_class" d && has_key "retention_class" d
is_privacy v = false

-- the error that the check raises, or none
unfoldable pub validate_event_envelope : Fields → Option Invalid
validate_event_envelope e =
    if any (is_absent e) required
    then some missing_fields
    else if not (is_supported (read "schema_version" e))
    then some unsupported_schema
    else if not (is_subject (read "subject" e))
    then some bad_subject
    else if not (is_object (read "payload" e))
    then some bad_payload
    else if not (is_array (read "artifact_refs" e))
    then some bad_artifact_refs
    else if has_key "metadata" e && not (is_object (read "metadata" e))
    then some bad_metadata
    else if not (is_privacy (read "privacy" e))
    then some bad_privacy
    else none

-- the handlers that an event is dispatched to, by the function that the code calls
pub data Handler : Type 0 where
  upsert_swarm_node upsert_route_runtime_sample record_route_decision_trace : Handler
  project_assignment_event upsert_model_endpoint record_voice_auth_decision : Handler
  record_voice_quick_input upsert_ingest_batch upsert_memory_candidate : Handler

-- the node EventEnvelope, as far as the code reads it back
pub record Envelope : Type 0 where
  pub event_id : String
  pub idempotency_key : String
  pub payload_hash : String
  pub event : Fields

-- the node EventConflict
pub record Conflict : Type 0 where
  pub conflict_id : String
  pub event_id : String
  pub idempotency_key : String
  pub existing_event_id : String
  pub existing_payload_hash : String
  pub incoming_payload_hash : String

-- a call of a handler, with the status that the dispatch passes
pub record Dispatch : Type 0 where
  pub handler : Handler
  pub status : Option String
  pub event : Fields

pub record Store : Type 0 where
  pub envelopes : List Envelope
  pub conflicts : List Conflict
  pub artifacts : List String
  pub references : List (String × String)
  pub dispatched : List Dispatch

-- What one call meets: the SHA-256 of the event's JSON, the UUIDs of the conflict and of the
-- artifacts, and whether the sessions for the artifacts and for the dispatch go through.
pub record Call : Type 0 where
  pub payload_hash : Fields → String
  pub conflict_id : String
  pub artifact_id : ℕ → String
  pub artifacts_ok : Bool
  pub reconcile_ok : Bool

pub data Receipt : Type 0 where
  accepted : String → Bool → Bool → Receipt
  raised : Raised → Receipt

-- `ref.get("artifact_id") or uuid.uuid4().hex`
abbrev id_of_ref : Call → ℕ → Json → String
id_of_ref call i (object d) =
    let v = read "artifact_id" d in if is_truthy v then str v else call.artifact_id i
id_of_ref call i v = call.artifact_id i

abbrev artifact_ids : Call → ℕ → Items → List String
artifact_ids call i nil = []
artifact_ids call i (item ref refs) = id_of_ref call i ref ∷ artifact_ids call (suc i) refs

abbrev items_of : Json → Items
items_of (array vs) = vs
items_of v = nil

-- MERGE (a:ArtifactRef {artifact_id:$artifact_id})
abbrev merge_all : List String → List String → List String
merge_all [] artifacts = artifacts
merge_all (id ∷ ids) artifacts =
    merge_all ids
      (if any (λ (a : String). a == id) artifacts then artifacts else artifacts ++ id ∷ [])

unfoldable pub upsert_artifact_refs : Call → Json → Store → Store × List String
upsert_artifact_refs call refs s =
    let ids = artifact_ids call 0 (items_of refs) in
    (record s { artifacts = merge_all ids s.artifacts }, ids)

unfoldable pub handler_of : String → Option (Handler × Option String)
handler_of event_type =
    if event_type == "swarm.node.registered" || event_type == "swarm.node.heartbeat"
    then some (upsert_swarm_node, none)
    else if starts_with event_type "router.execution_stage."
    then some (upsert_route_runtime_sample, none)
    else if event_type == "router.route_decision" || event_type == "route.selected"
    then some (record_route_decision_trace, none)
    else if starts_with event_type "assignment."
    then some (project_assignment_event, none)
    else if event_type == "model.endpoint.discovered"
    then some (upsert_model_endpoint, none)
    else if event_type == "voice.auth.decision"
    then some (record_voice_auth_decision, none)
    else if event_type == "voice.quick_input.created"
    then some (record_voice_quick_input, none)
    else if event_type == "ingest.batch.started"
    then some (upsert_ingest_batch, some "scanning")
    else if event_type == "ingest.memory_candidate.created"
    then some (upsert_memory_candidate, none)
    else if event_type == "ingest.batch.review_ready"
    then some (upsert_ingest_batch, some "reviewing")
    else none

abbrev pub dispatch : Option (Handler × Option String) → Fields → Store → Store
dispatch none e s = s
dispatch (some (h, status)) e s = record s {
  dispatched = s.dispatched ++ record { handler = h; status = status; event = e } ∷ [];
}

unfoldable pub reconcile_event : Fields → Store → Store
reconcile_event e s = dispatch (handler_of (str_or_empty (read "event_type" e))) e s

abbrev pub clashes : String → String → Envelope → Bool
clashes event_id idempotency_key x = x.event_id == event_id || x.idempotency_key == idempotency_key

unfoldable pub find_existing : String → String → List Envelope → Option Envelope
find_existing event_id key [] = none
find_existing event_id key (x ∷ xs) =
    if clashes event_id key x then some x else find_existing event_id key xs

-- the steps after the envelope is written
unfoldable pub reconcile_new : Call → Fields → Store → Store × Receipt
unfolding upsert_artifact_refs reconcile_event
reconcile_new call e s =
    if not call.artifacts_ok
    then (s, raised session_error)
    else let (s', ids) = upsert_artifact_refs call (read "artifact_refs" e) s in
      let event_id = str (read "event_id" e) in
      let linked = record s' {
        references = s'.references ++ map (λ (a : String). (event_id, a)) ids;
      } in
      if not call.reconcile_ok
      then (linked, raised session_error)
      else (reconcile_event e linked, accepted event_id false true)

unfoldable pub record_unless : Call → Fields → Option Envelope → Store → Store × Receipt
unfolding reconcile_new
record_unless call e none s = reconcile_new call e (record s {
  envelopes =
      s.envelopes
      ++ record {
        event_id = str (read "event_id" e);
        idempotency_key = str (read "idempotency_key" e);
        payload_hash = call.payload_hash e;
        event = e;
      }
        ∷ [];
})
record_unless call e (some x) s =
    if x.payload_hash == call.payload_hash e then (s, accepted x.event_id true false) else (
      record s {
        conflicts =
            s.conflicts
            ++ record {
              conflict_id = call.conflict_id;
              event_id = str (read "event_id" e);
              idempotency_key = str (read "idempotency_key" e);
              existing_event_id = x.event_id;
              existing_payload_hash = x.payload_hash;
              incoming_payload_hash = call.payload_hash e;
            }
              ∷ [];
      },
      raised (conflict_error (str (read "idempotency_key" e))),
    )

abbrev pub record_checked : Call → Fields → Option Invalid → Store → Store × Receipt
record_checked call e (some bad) s = (s, raised (validation_error bad))
record_checked call e none s =
    record_unless call e
      (find_existing (str (read "event_id" e)) (str (read "idempotency_key" e)) s.envelopes) s

unfoldable pub record_event : Call → Fields → Store → Store × Receipt
unfolding validate_event_envelope record_unless find_existing
record_event call e s = record_checked call e (validate_event_envelope e) s

-- the event that `record_auto_ingest_event` builds; `uuid` gives the new UUIDs
abbrev pub auto_ingest_event : (ℕ → String) → String → Json → Option String → Option String → Fields
auto_ingest_event uuid event_type payload correlation_id idempotency_key =
    let key =
      or_default idempotency_key (fstring ("auto-ingest:" ∷ event_type ∷ ":" ∷ uuid 1 ∷ [])) in
    let links = object (field "correlation_id" (text (or_default correlation_id (uuid 3))) empty) in
    field "event_id" (text (fstring ("evt_" ∷ uuid 0 ∷ []))) (
      field "event_type" (text event_type) (
        field "source_repo" (text "auto-ingest") (
          field "source_service" (text "auto-ingest") (
            field "idempotency_key" (text key) (
              field "correlation_id" (text (or_default correlation_id (uuid 2)))
                (field "payload" payload (field "links" links empty)))))))

abbrev pub is_auto_ingest_type : String → Bool
is_auto_ingest_type event_type =
    event_type == "ingest.evidence.linked" || event_type == "context.available"

unfoldable pub record_auto_ingest_event :
    Call → (ℕ → String) → String → Json → Option String → Option String → Store → Store × Receipt
record_auto_ingest_event call uuid event_type payload correlation_id idempotency_key s =
    if not (is_auto_ingest_type event_type)
    then (s, raised unsupported_type)
    else record_event call
        (auto_ingest_event uuid event_type payload correlation_id idempotency_key) s
