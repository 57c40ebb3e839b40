-- ===== src/Swarm/Envelope/Retry.antt =====
-- swarm_core.py: a second call of `record_event`, and the receiver of auto-ingest events.
use auto_assist.Prelude.{
  ℕ, suc, String, ◌≡◌, refl, ap, ◌∙◌, inl, inr, true, false, Option, none, some, [], ◌∷◌, ◌++◌,
  ◌==◌, eq_iff, eq_refl, any, length, length-append, if_true, arith, Bool-cases, if◌then◌else◌,
}
use auto_assist.Swarm.Json.{Json, Fields, lookup}
use auto_assist.Swarm.Envelope.{
  missing_fields, validation_error, conflict_error, unsupported_type, validate_event_envelope,
  Envelope, Conflict, Store, Call, Receipt, accepted, raised, find_existing, record_unless,
  record_event, record_auto_ingest_event, auto_ingest_event, is_auto_ingest_type, required,
  is_absent,
}
use auto_assist.Swarm.Envelope.Idempotence.{
  find_existing-append, event_id_of, key_of, existing, envelope_of, record_event-invalid,
  record_event-valid, envelopes-record_event-new,
}

module _ (call : Call) (e : Fields) (s : Store) where
  existing-after :
      validate_event_envelope e ≡ none
      → existing e s ≡ none
      → existing e (record_event call e s).0 ≡ some (envelope_of call e)
  existing-after h k =
      ap (find_existing (event_id_of e) (key_of e)) (envelopes-record_event-new call e s h k)
      ∙ find_existing-append (event_id_of e) (key_of e) s.envelopes (envelope_of call e) k
          (ground (arith, eq_refl (event_id_of e)))

  -- After a valid event that no envelope clashed with was recorded, even by a call that then
  -- raised, the same event with the same hash is answered as a duplicate and changes nothing.
  pub record_event-retried :
      (again : Call)
      → validate_event_envelope e ≡ none
      → existing e s ≡ none
      → call.payload_hash e ≡ again.payload_hash e
      → record_event again e (record_event call e s).0
        ≡ ((record_event call e s).0, accepted (event_id_of e) true false)
  unfolding record_unless
  record_event-retried again h k same =
      record_event-valid again e (record_event call e s).0 h
      ∙ ap (λ (o : Option Envelope). record_unless again e o (record_event call e s).0)
          (existing-after h k)
      ∙ if_true _ _ _ ((eq_iff (call.payload_hash e) (again.payload_hash e)).1 same)

  abbrev conflict_of : Envelope → Conflict
  conflict_of x = record {
    conflict_id = call.conflict_id;
    event_id = event_id_of e;
    idempotency_key = key_of e;
    existing_event_id = x.event_id;
    existing_payload_hash = x.payload_hash;
    incoming_payload_hash = call.payload_hash e;
  }

  record_unless-other :
      (x : Envelope)
      → (x.payload_hash == call.payload_hash e) ≡ false
      → ((record_unless call e (some x) s).1 ≡ raised (conflict_error (key_of e)))
        × (length (record_unless call e (some x) s).0.conflicts ≡ suc (length s.conflicts))
        × ((record_unless call e (some x) s).0.envelopes ≡ s.envelopes)
        × ((record_unless call e (some x) s).0.dispatched ≡ s.dispatched)
  unfolding record_unless
  record_unless-other x other =
      let more : length (s.conflicts ++ conflict_of x ∷ []) ≡ suc (length s.conflicts) =
        omega (arith, length-append s.conflicts (conflict_of x ∷ [])) in
      (rw other, rw (other, more), rw other, rw other)

  -- A valid event that clashes with an envelope of another hash raises a conflict, which is
  -- recorded, and changes neither the envelopes nor the dispatched events.
  record_event-conflict :
      (x : Envelope)
      → validate_event_envelope e ≡ none
      → existing e s ≡ some x
      → (x.payload_hash == call.payload_hash e) ≡ false
      → ((record_event call e s).1 ≡ raised (conflict_error (key_of e)))
        × (length (record_event call e s).0.conflicts ≡ suc (length s.conflicts))
        × ((record_event call e s).0.envelopes ≡ s.envelopes)
        × ((record_event call e s).0.dispatched ≡ s.dispatched)
  record_event-conflict x h k other =
      let (told, more, same, kept) = record_unless-other x other in
      let known =
        record_event-valid call e s h ∙ ap (λ (o : Option Envelope). record_unless call e o s) k in
      (
        ap (λ (r : Store × Receipt). r.1) known ∙ told,
        ap (λ (r : Store × Receipt). length r.0.conflicts) known ∙ more,
        ap (λ (r : Store × Receipt). r.0.envelopes) known ∙ same,
        ap (λ (r : Store × Receipt). r.0.dispatched) known ∙ kept,
      )

any-required : (e : Fields) → is_absent e "node_id" ≡ true → any (is_absent e) required ≡ true
any-required e h = ground arith

validate-missing :
    (e : Fields) → is_absent e "node_id" ≡ true → validate_event_envelope e ≡ some missing_fields
unfolding validate_event_envelope
validate-missing e h = rw (any-required e h)

module _ (call : Call) (uuid : ℕ → String) (payload : Json)
    (correlation_id idempotency_key : Option String) (s : Store) where
  abbrev auto_event : String → Fields
  auto_event event_type = auto_ingest_event uuid event_type payload correlation_id idempotency_key

  no_node_id : (event_type : String) → is_absent (auto_event event_type) "node_id" ≡ true
  unfolding lookup
  no_node_id event_type = refl

  -- The receiver of auto-ingest events never stores one: it raises for each event type, payload and
  -- ids, and leaves the store as it was. A type that it supports fails the check of the event, for
  -- want of required fields.
  record_auto_ingest_event-refused :
      (event_type : String)
      → record_auto_ingest_event call uuid event_type payload correlation_id idempotency_key s ≡ (
        s,
        raised (
            if is_auto_ingest_type event_type
            then validation_error missing_fields
            else unsupported_type),
      )
  unfolding record_auto_ingest_event
  record_auto_ingest_event-refused event_type = elim (Bool-cases (is_auto_ingest_type event_type)) [
    | inr other ↦ rw other
    | inl known ↦
        let e =
          record_event-invalid call (auto_event event_type) s missing_fields
            (validate-missing (auto_event event_type) (no_node_id event_type)) in
        rw (known, e)
  ]
