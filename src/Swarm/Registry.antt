-- ===== src/Swarm/Registry.antt =====
-- swarm_core.py: the model endpoints of the swarm and the models that they serve.
pub mod Removal
pub mod Served
pub mod Others
use auto_assist.Prelude.{
  String, Bool, true, false, not, ◌&&◌, ◌||◌, Option, none, some, List, [], ◌∷◌, ◌++◌, ◌==◌, any,
  map, keep, fstring, if◌then◌else◌,
}
use auto_assist.Swarm.Json.{
  Json, null, boolean, text, array, object, Items, nil, item, Fields, empty, field, lookup, read,
  has_key, is_truthy, str, or_else,
}
use auto_assist.Swarm.Envelope.{Store, Call, Receipt, accepted, raised, Raised, record_event}

-- a relationship between two nodes, by their ids
pub record Edge : Type 0 where
  pub source : String
  pub target : String

-- the nodes SwarmNode, ModelEndpoint and Model by their ids, and EXPOSES and SERVES
pub record Registry : Type 0 where
  pub nodes : List String
  pub endpoints : List String
  pub models : List String
  pub exposes : List Edge
  pub serves : List Edge

abbrev pub has : String → List String → Bool
has id ids = any (λ (x : String). x == id) ids

-- MERGE of a node, and of a relationship
abbrev pub merge_id : String → List String → List String
merge_id id ids = if has id ids then ids else ids ++ id ∷ []

abbrev pub is_edge : String → String → Edge → Bool
is_edge source target e = e.source == source && e.target == target

abbrev pub merge_edge : String → String → List Edge → List Edge
merge_edge source target edges =
    if any (is_edge source target) edges
    then edges
    else edges ++ record { source = source; target = target } ∷ []

abbrev read_or : String → Json → Fields → Json
read_or k v d = elim (lookup k d) [ none ↦ v | some w ↦ w ]

abbrev optional_text : Option String → Json
optional_text none = null
optional_text (some s) = text s

unfoldable pub node_id_of : Fields → Option String → String
node_id_of payload event_node_id =
    str (or_else (read "node_id" payload) (or_else (optional_text event_node_id) (text "unknown")))

unfoldable pub endpoint_id_of : Fields → String → String
endpoint_id_of payload node_id = str (
    or_else (read "model_endpoint_id" payload) (
      or_else (read "endpoint_id" payload) (
        text (
          fstring (node_id ∷ ":model:" ∷ str (read_or "base_url" (text "unknown") payload) ∷ [])))))

-- `model.get(…)` of an element that is no dict raises, which is left out
abbrev fields_of : Json → Fields
fields_of (object d) = d
fields_of v = empty

unfoldable pub model_id_of : String → Fields → String
model_id_of endpoint_id model =
    let name =
      or_else (read "served_name" model)
        (or_else (read "id" model) (or_else (read "name" model) (text "unknown"))) in
    str (or_else (read "model_id" model) (text (fstring (endpoint_id ∷ ":" ∷ str name ∷ []))))

abbrev pub model_ids : String → Items → List String
model_ids endpoint_id nil = []
model_ids endpoint_id (item v vs) = model_id_of endpoint_id (fields_of v) ∷ model_ids endpoint_id vs

abbrev pub items_of : Json → Items
items_of (array vs) = vs
items_of v = nil

abbrev pub serve_all : String → List String → Registry → Registry
serve_all endpoint_id [] r = r
serve_all endpoint_id (m ∷ ms) r =
    serve_all endpoint_id ms
      (record r { models = merge_id m r.models; serves = merge_edge endpoint_id m r.serves })

-- The properties of the nodes are left out, and so is the endpoint that is returned. A model's id
-- is taken as its text.
unfoldable pub upsert_model_endpoint : Fields → Option String → Registry → Registry
unfolding node_id_of endpoint_id_of model_id_of
upsert_model_endpoint payload event_node_id r =
    let node_id = node_id_of payload event_node_id in
    let endpoint_id = endpoint_id_of payload node_id in
    let ids = model_ids endpoint_id (items_of (read "models" payload)) in
    let exposed : Registry = record r {
      nodes = merge_id node_id r.nodes;
      endpoints = merge_id endpoint_id r.endpoints;
      exposes = merge_edge node_id endpoint_id r.exposes;
    } in
    let served : Registry = serve_all endpoint_id ids exposed in
    if has_key "models" payload
    then record served {
      serves = keep (λ (e : Edge). not (e.source == endpoint_id) || has e.target ids) served.serves;
    }
    else served

-- the models that the endpoint serves
abbrev pub served_by : String → Registry → List String
served_by endpoint_id r =
    map (λ (e : Edge). e.target) (keep (λ (e : Edge). e.source == endpoint_id) r.serves)

abbrev pub touches : String → List String → Edge → Bool
touches endpoint_id models e =
    e.source == endpoint_id || e.target == endpoint_id || has e.target models

-- DELETE e, m: Neo4j refuses it while a deleted node has a relationship
unfoldable pub delete_nodes : String → List String → Registry → Option Registry
delete_nodes endpoint_id models r =
    if any (touches endpoint_id models) (r.exposes ++ r.serves)
    then none
    else some (record r {
      endpoints = keep (λ (x : String). not (x == endpoint_id)) r.endpoints;
      models = keep (λ (x : String). not (has x models)) r.models;
    })

-- MATCH (e) MATCH (e)-[:SERVES]->(m) DELETE e, m: without a served model there is no row
unfoldable pub delete_rows : String → List String → Registry → Option Registry
unfolding delete_nodes
delete_rows endpoint_id [] r = some r
delete_rows endpoint_id (m ∷ ms) r = delete_nodes endpoint_id (m ∷ ms) r

pub data Deletion : Type 0 where
  not_found constraint_error deleted : Deletion
  event_error : Raised → Deletion

-- the event of a deletion, with the texts of `int(time.time())` and of the time
abbrev pub deletion_event : String → String → String → Fields
deletion_event endpoint_id seconds occurred_at =
    let key = fstring ("delete-" ∷ endpoint_id ∷ "-" ∷ seconds ∷ []) in
    let subject = field "kind" (text "model_endpoint") (field "id" (text endpoint_id) empty) in
    let privacy =
      field "pii" (boolean false)
        (field "privacy_class" (text "public") (field "retention_class" (text "keep") empty)) in
    field "event_id" (text key) (
      field "event_type" (text "model.endpoint.deleted") (
        field "source_repo" (text "auto-assist") (
          field "source_service" (text "api") (
            field "node_id" (text "system") (
              field "occurred_at" (text occurred_at) (
                field "idempotency_key" (text key) (
                  field "schema_version" (text "1.0") (
                    field "subject" (object subject) (
                      field "payload" (object (field "model_endpoint_id" (text endpoint_id) empty))
                        (field "artifact_refs" (array nil)
                          (field "privacy" (object privacy) empty)))))))))))

abbrev pub deletion_of : Receipt → Deletion
deletion_of (accepted id deduped reconciled) = deleted
deletion_of (raised e) = event_error e

-- after the DELETE: the event is recorded, and its exception leaves the function
unfoldable pub finish_deletion :
    Call → Fields → Registry → Store → Option Registry → Registry × Store × Deletion
finish_deletion call e r s none = (r, s, constraint_error)
finish_deletion call e r s (some r') =
    let (s', receipt) = record_event call e s in (r', s', deletion_of receipt)

unfoldable pub delete_model_endpoint :
    Call → String → String → String → Registry → Store → Registry × Store × Deletion
unfolding delete_rows finish_deletion
delete_model_endpoint call endpoint_id seconds occurred_at r s =
    if not (has endpoint_id r.endpoints)
    then (r, s, not_found)
    else finish_deletion call (deletion_event endpoint_id seconds occurred_at) r s
        (delete_rows endpoint_id (served_by endpoint_id r) r)
