-- ===== src/Swarm/Registry/Removal.antt =====
-- swarm_core.py: what `delete_model_endpoint` removes.
use auto_assist.Prelude.{
  String, ◌≡◌, ◌≢◌, refl, sym, subst, ◌⊎◌, inl, inr, Bool, true, false, not, Option, none, some,
  List, [], ◌∷◌, ◌++◌, ◌==◌, arith, any, map, keep, Bool-cases, if_true, if_false,
}
use auto_assist.Swarm.Json.{Fields}
use auto_assist.Swarm.Envelope.{Store, Call, Receipt, accepted, raised, record_event}
use auto_assist.Swarm.Registry.{
  Edge, Registry, has, served_by, touches, delete_nodes, delete_rows, Deletion, not_found,
  constraint_error, deletion_event, deletion_of, finish_deletion, delete_model_endpoint,
}

-- an endpoint that serves a model has a relationship
touched :
    (id : String) (models : List String) (edges : List Edge) (m : String) (ms : List String)
    → map (λ (e : Edge). e.target) (keep (λ (e : Edge). e.source == id) edges) ≡ m ∷ ms
    → any (touches id models) edges ≡ true
touched id models [] m ms h = ground (arith, h)
touched id models (e ∷ edges) m ms h = elim (Bool-cases (e.source == id)) [
  | inl hit ↦ ground (arith, hit)
  | inr miss ↦ ground (arith, touched id models edges m ms (ground (arith, h, miss)))
]

any-append : (p : Edge → Bool) (xs ys : List Edge) → any p ys ≡ true → any p (xs ++ ys) ≡ true
any-append p [] ys h = h
any-append p (x ∷ xs) ys h = ground (arith, any-append p xs ys h)

delete_rows_cases :
    (id : String) (r : Registry) (models : List String)
    → served_by id r ≡ models
    → (delete_rows id models r ≡ some r × models ≡ [])
      ⊎ (delete_rows id models r ≡ none × models ≢ [])
unfolding delete_rows delete_nodes
delete_rows_cases id r [] h = inl (refl, refl)
delete_rows_cases id r (m ∷ ms) h = inr (
  if_true _ _ _
      (any-append (touches id (m ∷ ms)) r.exposes r.serves (touched id (m ∷ ms) r.serves m ms h)),
  λ e. ground (arith, e),
)

flipped : (b : Bool) → b ≡ true → not b ≡ false
flipped b h = rw h

flipped_false : (b : Bool) → b ≡ false → not b ≡ true
flipped_false b h = rw h

-- how a deletion ends
abbrev Ends : String → Registry → Registry × Store × Deletion → Type 0
Ends id r (r', s', told) =
    (r' ≡ r)
    × (((told ≡ not_found) × (has id r.endpoints ≡ false))
        ⊎ ((told ≡ constraint_error) × (served_by id r ≢ []))
        ⊎ ((told ≢ not_found) × (told ≢ constraint_error) × (served_by id r ≡ [])))

deletion_of-known : (x : Receipt) → (deletion_of x ≢ not_found) × (deletion_of x ≢ constraint_error)
deletion_of-known (accepted id deduped reconciled) =
    ((λ e. ground (arith, e)), (λ e. ground (arith, e)))
deletion_of-known (raised e) = ((λ h. ground (arith, h)), (λ h. ground (arith, h)))

finish-some :
    (call : Call) (e : Fields) (id : String) (r : Registry) (s : Store)
    → served_by id r ≡ []
    → Ends id r (finish_deletion call e r s (some r))
unfolding finish_deletion
finish-some call e id r s h =
    let (other, fine) = deletion_of-known (record_event call e s).1 in
    (refl, inr (inr (other, fine, h)))

finish-none :
    (call : Call) (e : Fields) (id : String) (r : Registry) (s : Store)
    → served_by id r ≢ []
    → Ends id r (finish_deletion call e r s none)
unfolding finish_deletion
finish-none call e id r s h = (refl, inr (inl (refl, h)))

finish-rows :
    (call : Call) (e : Fields) (id : String) (r : Registry) (s : Store)
    → Ends id r (finish_deletion call e r s (delete_rows id (served_by id r) r))
finish-rows call e id r s = elim (delete_rows_cases id r (served_by id r) refl) [
  | inl (same, bare) ↦
      subst (λ (o : Option Registry). Ends id r (finish_deletion call e r s o)) (sym same)
        (finish-some call e id r s bare)
  | inr (refused, some_model) ↦
      subst (λ (o : Option Registry). Ends id r (finish_deletion call e r s o)) (sym refused)
        (finish-none call e id r s some_model)
]

-- A deletion never removes anything: the registry stays as it was. Either the endpoint is unknown
-- and reported as not found; or it serves a model, and Neo4j refuses to delete nodes with
-- relationships; or it serves none, and the answer is neither of these two: it is that of recording
-- the event.
pub delete_model_endpoint-unchanged :
    (call : Call) (id seconds occurred_at : String) (r : Registry) (s : Store)
    → let (r', s', told) = delete_model_endpoint call id seconds occurred_at r s in
      (r' ≡ r)
      × (((told ≡ not_found) × (has id r.endpoints ≡ false))
          ⊎ ((told ≡ constraint_error) × (served_by id r ≢ []))
          ⊎ ((told ≢ not_found) × (told ≢ constraint_error) × (served_by id r ≡ [])))
unfolding delete_model_endpoint
delete_model_endpoint-unchanged call id seconds occurred_at r s =
    elim (Bool-cases (has id r.endpoints)) [
      | inr unknown ↦
          subst (Ends id r) (sym (if_true _ _ _ (flipped_false (has id r.endpoints) unknown)))
            (refl, inl (refl, unknown))
      | inl known ↦
          subst (Ends id r) (sym (if_false _ _ _ (flipped (has id r.endpoints) known)))
            (finish-rows call (deletion_event id seconds occurred_at) id r s)
    ]
