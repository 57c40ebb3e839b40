-- ===== src/Swarm/Registry/Served.antt =====
-- swarm_core.py: the models that an endpoint serves after `upsert_model_endpoint`.
use auto_assist.Prelude.{
  String, ◌≡◌, refl, subst, ap, ◌∙◌, inl, inr, Bool, true, false, not, ◌&&◌, ◌||◌, Option, List, [],
  ◌∷◌, ◌++◌, ◌==◌, eq_iff, eq_refl, arith, any, map, keep, Bool-cases, if_true, if_false,
}
use auto_assist.Swarm.Json.{Fields, has_key, read}
use auto_assist.Swarm.Registry.{
  Edge, Registry, merge_id, has, served_by, is_edge, merge_edge, serve_all, model_ids, items_of,
  node_id_of, endpoint_id_of, upsert_model_endpoint,
}

-- the targets of an endpoint's edges
abbrev pub targets : String → List Edge → List String
targets id edges = map (λ (e : Edge). e.target) (keep (λ (e : Edge). e.source == id) edges)

abbrev pub is_kept : String → List String → Edge → Bool
is_kept id ids e = not (e.source == id) || has e.target ids

targets-kept :
    (id m : String) (ids : List String) (edges : List Edge)
    → has m (targets id (keep (is_kept id ids) edges)) ≡ has m (targets id edges) && has m ids
targets-kept id m ids [] = refl
targets-kept id m ids (e ∷ edges) = elim (Bool-cases (e.source == id)) [
  | inr other ↦ ground (arith, other, targets-kept id m ids edges)
  | inl own ↦ elim (Bool-cases (has e.target ids)) [
    | inl among ↦ elim (Bool-cases (e.target == m)) [
      | inl same ↦
          (let found =
              subst (λ (x : String). has x ids ≡ true) ((eq_iff e.target m).0 same) among in
            ground (arith, own, among, same, found))
      | inr differs ↦ ground (arith, own, among, differs, targets-kept id m ids edges)
    ]
    | inr gone ↦ elim (Bool-cases (e.target == m)) [
      | inl same ↦
          (let missing =
              subst (λ (x : String). has x ids ≡ false) ((eq_iff e.target m).0 same) gone in
            ground (arith, own, gone, same, missing, targets-kept id m ids edges))
      | inr differs ↦ ground (arith, own, gone, differs, targets-kept id m ids edges)
    ]
  ]
]

has-linked :
    (id x : String) (edges : List Edge)
    → any (is_edge id x) edges ≡ true
    → has x (targets id edges) ≡ true
has-linked id x [] h = h
has-linked id x (e ∷ edges) h = elim (Bool-cases (e.source == id)) [
  | inr other ↦ ground (arith, other, h, has-linked id x edges)
  | inl own ↦ elim (Bool-cases (e.target == x)) [
    | inl same ↦ ground (arith, own, same)
    | inr differs ↦ ground (arith, own, differs, h, has-linked id x edges)
  ]
]

has-linked_new :
    (id x m : String) (edges : List Edge)
    → has m (targets id (edges ++ record { source = id; target = x } ∷ []))
      ≡ (x == m) || has m (targets id edges)
has-linked_new id x m [] = ground (arith, eq_refl id)
has-linked_new id x m (e ∷ edges) = elim (Bool-cases (e.source == id)) [
  | inr other ↦ ground (arith, other, has-linked_new id x m edges)
  | inl own ↦ elim (Bool-cases (x == m)) [
    | inl same ↦ ground (arith, own, same, has-linked_new id x m edges)
    | inr differs ↦ ground (arith, own, differs, has-linked_new id x m edges)
  ]
]

has-merged :
    (id x m : String) (edges : List Edge)
    → has m (targets id (merge_edge id x edges)) ≡ (x == m) || has m (targets id edges)
has-merged id x m edges = elim (Bool-cases (any (is_edge id x) edges)) [
  | inr new ↦
      ap (λ (es : List Edge). has m (targets id es)) (if_false _ _ _ new)
      ∙ has-linked_new id x m edges
  | inl linked ↦
      ap (λ (es : List Edge). has m (targets id es)) (if_true _ _ _ linked)
      ∙ elim (Bool-cases (x == m)) [
        | inr differs ↦ ground (arith, differs)
        | inl same ↦
            (let there =
                subst (λ (y : String). has y (targets id edges) ≡ true) ((eq_iff x m).0 same)
                  (has-linked id x edges linked) in
              ground (arith, same, there))
      ]
]

swapped : (a b c : Bool) → b || (a || c) ≡ (a || b) || c
swapped true true c = refl
swapped true false c = refl
swapped false b c = refl

has-serve_all :
    (id m : String) (ids : List String) (r : Registry)
    → has m (served_by id (serve_all id ids r)) ≡ has m ids || has m (served_by id r)
has-serve_all id m [] r = refl
has-serve_all id m (x ∷ ids) r =
    has-serve_all id m ids
      (record r { models = merge_id x r.models; serves = merge_edge id x r.serves })
    ∙ ap (λ (b : Bool). has m ids || b) (has-merged id x m r.serves)
    ∙ swapped (x == m) (has m ids) (has m (served_by id r))

absorbed : (a b : Bool) → (a || b) && a ≡ a
absorbed true b = refl
absorbed false true = refl
absorbed false false = refl

kept-serve_all :
    (id m : String) (ids : List String) (r : Registry)
    → has m (targets id (keep (is_kept id ids) (serve_all id ids r).serves)) ≡ has m ids
kept-serve_all id m ids r =
    targets-kept id m ids (serve_all id ids r).serves
    ∙ ap (λ (b : Bool). b && has m ids) (has-serve_all id m ids r)
    ∙ absorbed (has m ids) (has m (served_by id r))

-- An upsert whose payload has a list of models, even an empty one, leaves the endpoint serving just
-- the listed models: those that it served before and that are not listed are unlinked.
pub upsert_model_endpoint-serves :
    (payload : Fields) (event_node_id : Option String) (r : Registry) (m : String)
    → has_key "models" payload ≡ true
    → let id = endpoint_id_of payload (node_id_of payload event_node_id) in
      has m (served_by id (upsert_model_endpoint payload event_node_id r))
      ≡ has m (model_ids id (items_of (read "models" payload)))
unfolding upsert_model_endpoint
upsert_model_endpoint-serves payload event_node_id r m h =
    let id = endpoint_id_of payload (node_id_of payload event_node_id) in
    ap (λ (r' : Registry). has m (served_by id r')) (if_true _ _ _ h)
    ∙ kept-serve_all id m (model_ids id (items_of (read "models" payload))) _
