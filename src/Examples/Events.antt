-- ===== src/Examples/Events.antt =====
-- src/assistx/swarm_core.py: the record of events at concrete stores.
use auto_assist.Prelude.{
  ◌≢◌, ◌⊎◌, ℕ, eq_iff, arith, String, ◌≡◌, refl, Bool, true, false, some, none, [], ◌∷◌,
}
use auto_assist.Swarm.Json.{text, array, object, nil, item, Fields, empty, field, lookup, read}
use auto_assist.Swarm.Envelope.{
  Envelope, Store, Call, accepted, validate_event_envelope, record_event, find_existing,
  reconcile_event, handler_of, record_unless, reconcile_new, upsert_artifact_refs,
}
use auto_assist.Swarm.Registry.{
  Registry, has, served_by, upsert_model_endpoint, endpoint_id_of, node_id_of, model_ids, items_of,
  not_found, constraint_error, delete_model_endpoint,
}
use auto_assist.Swarm.Registry.Served.{upsert_model_endpoint-serves}
use auto_assist.Swarm.Registry.Removal.{delete_model_endpoint-unchanged}
use auto_assist.Swarm.Envelope.Idempotence.{IsUnique, existing, event_id_of, record_event-IsUnique}
use auto_assist.Swarm.Envelope.Retry.{record_event-retried}

abbrev event : String → Fields
event note = field "event_id" (text "evt-1") (
    field "event_type" (text "assignment.claimed") (
      field "source_repo" (text "auto-router") (
        field "source_service" (text "router") (
          field "node_id" (text "node-1") (
            field "occurred_at" (text "2026-06-08T00:00:00Z") (
              field "idempotency_key" (text "key-1") (
                field "schema_version" (text "1.0") (
                  field "subject"
                    (object (field "kind" (text "task") (field "id" (text "task-1") empty)))
                    (field "payload" (object (field "note" (text note) empty)) (
                      field "artifact_refs" (array nil) (
                        field "privacy"
                          (object (
                            field "pii" (text "no") (
                              field "privacy_class" (text "low")
                                (field "retention_class" (text "short") empty))))
                          empty)))))))))))

-- the hash of a call stands for that of its event
abbrev call : String → Bool → Call
call hash reconcile_ok = record {
  payload_hash = λ (e : Fields). hash;
  conflict_id = "conflict-1";
  artifact_id = λ (i : ℕ). "artifact-1";
  artifacts_ok = true;
  reconcile_ok = reconcile_ok;
}

abbrev clean : Store
clean = record { envelopes = []; conflicts = []; artifacts = []; references = []; dispatched = [] }

abbrev kept : Envelope
kept = record {
  event_id = "evt-1";
  idempotency_key = "key-1";
  payload_hash = "a";
  event = event "first";
}

abbrev holding : Store
holding = record clean { envelopes = kept ∷ [] }

event_valid : validate_event_envelope (event "first") ≡ none
unfolding validate_event_envelope lookup read
event_valid = refl

-- a new event is accepted and dispatched
event_accepted :
    (record_event (call "a" true) (event "first") clean).1 ≡ accepted "evt-1" false true
unfolding record_event validate_event_envelope lookup read record_unless find_existing reconcile_new
    upsert_artifact_refs reconcile_event handler_of
event_accepted = refl

event_new : existing (event "first") clean ≡ none
unfolding find_existing
event_new = refl

event_known : existing (event "second") holding ≡ some kept
unfolding find_existing lookup read
event_known = refl

record_event-IsUnique_example :
    IsUnique (record_event (call "b" true) (event "second") holding).0.envelopes
record_event-IsUnique_example =
    record_event-IsUnique (call "b" true) (event "second") holding (tt, tt)

record_event-retried_example :
    record_event
      (call "a" true)
      (event "first")
      (record_event (call "a" true) (event "first") clean).0
    ≡ (
      (record_event (call "a" true) (event "first") clean).0,
      accepted (event_id_of (event "first")) true false,
    )
record_event-retried_example =
    record_event-retried (call "a" true) (event "first") clean (call "a" true) event_valid event_new
      refl

second_valid : validate_event_envelope (event "second") ≡ none
unfolding validate_event_envelope lookup read
second_valid = refl

abbrev uuid : ℕ → String
uuid i = "0123"

abbrev registry : Registry
registry = record {
  nodes = "node-1" ∷ [];
  endpoints = "ep-1" ∷ [];
  models = "m-1" ∷ [];
  exposes = record { source = "node-1"; target = "ep-1" } ∷ [];
  serves = record { source = "ep-1"; target = "m-1" } ∷ [];
}

delete_model_endpoint-unchanged_example :
    let (r', s', told) =
      delete_model_endpoint (call "a" true) "ep-1" "7" "2026-06-08" registry clean in
    (r' ≡ registry)
    × (((told ≡ not_found) × (has "ep-1" ("ep-1" ∷ []) ≡ false))
        ⊎ ((told ≡ constraint_error) × (served_by "ep-1" registry ≢ []))
        ⊎ ((told ≢ not_found) × (told ≢ constraint_error) × (served_by "ep-1" registry ≡ [])))
delete_model_endpoint-unchanged_example =
    delete_model_endpoint-unchanged (call "a" true) "ep-1" "7" "2026-06-08" registry clean

-- a payload that lists another model for the endpoint
abbrev endpoint_payload : String → Fields
endpoint_payload endpoint_id =
    let model = object (field "model_id" (text "m-2") empty) in
    field "node_id" (text "node-1")
      (field "model_endpoint_id" (text endpoint_id) (field "models" (array (item model nil)) empty))

relinked :
    has "m-2" (served_by "ep-1" (upsert_model_endpoint (endpoint_payload "ep-1") none registry))
    ≡ true
unfolding upsert_model_endpoint endpoint_id_of node_id_of lookup read
relinked = refl

upsert_model_endpoint-serves_example :
    let payload = endpoint_payload "ep-1" in
    let id = endpoint_id_of payload (node_id_of payload none) in
    has "m-1" (served_by id (upsert_model_endpoint payload none registry))
    ≡ has "m-1" (model_ids id (items_of (read "models" payload)))
unfolding lookup
upsert_model_endpoint-serves_example =
    upsert_model_endpoint-serves (endpoint_payload "ep-1") none registry "m-1" refl

other_endpoint :
    "ep-1" ≢ endpoint_id_of (endpoint_payload "ep-2") (node_id_of (endpoint_payload "ep-2") none)
unfolding endpoint_id_of node_id_of lookup read
other_endpoint h = ground (arith, (eq_iff "ep-1" "ep-2").1 h)
