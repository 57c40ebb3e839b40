-- ===== src/Swarm/Registry/Others.antt =====
-- swarm_core.py: what `upsert_model_endpoint` leaves alone.
use auto_assist.Prelude.{
  String, ◌≡◌, ◌≢◌, refl, sym, subst, ap, ◌∙◌, inl, inr, false, Option, List, [], ◌∷◌, ◌++◌, ◌==◌,
  eq_iff, arith, any, keep, Bool-cases, if_true, if_false,
}
use auto_assist.Swarm.Json.{Fields, has_key, read}
use auto_assist.Swarm.Registry.{
  Edge, Registry, merge_id, served_by, is_edge, merge_edge, serve_all, model_ids, items_of,
  node_id_of, endpoint_id_of, upsert_model_endpoint,
}
use auto_assist.Swarm.Registry.Served.{targets, is_kept}

unequal : (s t : String) → s ≢ t → (s == t) ≡ false
unequal s t h = elim (Bool-cases (s == t)) [
  | inl same ↦ absurd (h ((eq_iff s t).0 same))
  | inr differs ↦ differs
]

targets-kept_other :
    (other id : String) (ids : List String) (edges : List Edge)
    → (other == id) ≡ false
    → targets other (keep (is_kept id ids) edges) ≡ targets other edges
targets-kept_other other id ids [] h = refl
targets-kept_other other id ids (e ∷ edges) h = elim (Bool-cases (e.source == other)) [
  | inl own ↦
      (let differs =
          subst (λ (s : String). (s == id) ≡ false) (sym ((eq_iff e.source other).0 own)) h in
        ground (arith, own, differs, targets-kept_other other id ids edges h))
  | inr foreign ↦ elim (Bool-cases (is_kept id ids e)) [
    | inl kept ↦ ground (arith, foreign, kept, targets-kept_other other id ids edges h)
    | inr dropped ↦ ground (arith, foreign, dropped, targets-kept_other other id ids edges h)
  ]
]

targets-append_other :
    (other id x : String) (edges : List Edge)
    → (id == other) ≡ false
    → targets other (edges ++ record { source = id; target = x } ∷ []) ≡ targets other edges
targets-append_other other id x [] h = ground (arith, h)
targets-append_other other id x (e ∷ edges) h = elim (Bool-cases (e.source == other)) [
  | inl own ↦ ground (arith, own, targets-append_other other id x edges h)
  | inr foreign ↦ ground (arith, foreign, targets-append_other other id x edges h)
]

targets-merge_other :
    (other id x : String) (edges : List Edge)
    → (id == other) ≡ false
    → targets other (merge_edge id x edges) ≡ targets other edges
targets-merge_other other id x edges h = elim (Bool-cases (any (is_edge id x) edges)) [
  | inl linked ↦ ap (targets other) (if_true _ _ _ linked)
  | inr new ↦ ap (targets other) (if_false _ _ _ new) ∙ targets-append_other other id x edges h
]

served_by-serve_all_other :
    (other id : String) (ids : List String) (r : Registry)
    → (id == other) ≡ false
    → served_by other (serve_all id ids r) ≡ served_by other r
served_by-serve_all_other other id [] r h = refl
served_by-serve_all_other other id (x ∷ ids) r h =
    served_by-serve_all_other other id ids
      (record r { models = merge_id x r.models; serves = merge_edge id x r.serves }) h
    ∙ targets-merge_other other id x r.serves h

-- An upsert of one endpoint leaves the models that any other endpoint serves, and their order, as
-- they were, whether or not the payload lists models.
upsert_model_endpoint-others :
    (payload : Fields) (event_node_id : Option String) (r : Registry) (other : String)
    → other ≢ endpoint_id_of payload (node_id_of payload event_node_id)
    → served_by other (upsert_model_endpoint payload event_node_id r) ≡ served_by other r
unfolding upsert_model_endpoint
upsert_model_endpoint-others payload event_node_id r other h =
    let id = endpoint_id_of payload (node_id_of payload event_node_id) in
    let away = unequal other id h in
    let back = unequal id other (λ p. h (sym p)) in
    let ids = model_ids id (items_of (read "models" payload)) in
    elim (Bool-cases (has_key "models" payload)) [
      | inl listed ↦
          ap (served_by other) (if_true _ _ _ listed)
          ∙ targets-kept_other other id ids _ away
          ∙ served_by-serve_all_other other id ids _ back
      | inr unlisted ↦
          ap (served_by other) (if_false _ _ _ unlisted)
          ∙ served_by-serve_all_other other id ids _ back
    ]
