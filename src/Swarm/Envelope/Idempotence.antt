-- ===== src/Swarm/Envelope/Idempotence.antt =====
-- swarm_core.py: `record_event` keeps one envelope for each event id and idempotency key, and what
-- a second call with the same event does.
use auto_assist.Prelude.{
  String, ◌≡◌, refl, sym, subst, ap, ◌∙◌, inl, inr, true, false, ◌&&◌, Option, none, some, List, [],
  ◌∷◌, ◌++◌, ◌==◌, eq_iff, All, All-append, arith, Bool-cases, Option-cases,
}
use auto_assist.Swarm.Json.{Fields, read, str, str_or_empty}
use auto_assist.Swarm.Envelope.{
  Invalid, validation_error, session_error, validate_event_envelope, Envelope, Store, Call, Receipt,
  raised, upsert_artifact_refs, handler_of, Handler, dispatch, reconcile_event, clashes,
  find_existing, reconcile_new, record_unless, record_event,
}

abbrev pub Clear : Envelope → Envelope → Type 0
Clear x y = clashes x.event_id x.idempotency_key y ≡ false

-- no two envelopes share an event id or an idempotency key
abbrev pub IsUnique : List Envelope → Type 0
IsUnique [] = Unit
IsUnique (x ∷ xs) = All (Clear x) xs × IsUnique xs

find_existing-none :
    (id key : String) (xs : List Envelope)
    → find_existing id key xs ≡ none
    → All (λ (x : Envelope). clashes id key x ≡ false) xs
unfolding find_existing
find_existing-none id key [] h = tt
find_existing-none id key (x ∷ xs) h = elim (Bool-cases (clashes id key x)) [
  | inl hit ↦ ground arith
  | inr miss ↦ (miss, find_existing-none id key xs (ground arith))
]

Clear-sym : (x y : Envelope) → clashes y.event_id y.idempotency_key x ≡ false → Clear x y
Clear-sym x y h = ground (
  arith,
  eq_iff x.event_id y.event_id,
  eq_iff y.event_id x.event_id,
  eq_iff x.idempotency_key y.idempotency_key,
  eq_iff y.idempotency_key x.idempotency_key,
)

IsUnique-append :
    (xs : List Envelope) (y : Envelope)
    → All (λ (x : Envelope). clashes y.event_id y.idempotency_key x ≡ false) xs
    → IsUnique xs
    → IsUnique (xs ++ y ∷ [])
IsUnique-append [] y h u = (tt, tt)
IsUnique-append (x ∷ xs) y (h, hs) (u, us) =
    (All-append (Clear x) xs (y ∷ []) u (Clear-sym x y h, tt), IsUnique-append xs y hs us)

pub find_existing-append :
    (id key : String) (xs : List Envelope) (y : Envelope)
    → find_existing id key xs ≡ none
    → clashes id key y ≡ true
    → find_existing id key (xs ++ y ∷ []) ≡ some y
unfolding find_existing
find_existing-append id key [] y h e = rw e
find_existing-append id key (x ∷ xs) y h e = elim (Bool-cases (clashes id key x)) [
  | inl hit ↦ ground arith
  | inr miss ↦ rw (miss, find_existing-append id key xs y (ground arith) e)
]

envelopes-dispatch :
    (h : Option (Handler × Option String)) (e : Fields) (s : Store)
    → (dispatch h e s).envelopes ≡ s.envelopes
envelopes-dispatch none e s = refl
envelopes-dispatch (some (h, status)) e s = refl

envelopes-reconcile_event : (e : Fields) (s : Store) → (reconcile_event e s).envelopes ≡ s.envelopes
unfolding reconcile_event
envelopes-reconcile_event e s =
    envelopes-dispatch (handler_of (str_or_empty (read "event_type" e))) e s

envelopes-reconcile_new :
    (call : Call) (e : Fields) (s : Store) → (reconcile_new call e s).0.envelopes ≡ s.envelopes
unfolding reconcile_new upsert_artifact_refs
envelopes-reconcile_new call e s = elim (Bool-cases call.artifacts_ok) [
  | inr lost ↦ rw lost
  | inl kept ↦ elim (Bool-cases call.reconcile_ok) [
    | inr lost ↦ rw (kept, lost)
    | inl done ↦ rw (kept, done, envelopes-reconcile_event)
  ]
]

-- a call whose later sessions do not all go through dispatches nothing
pub dispatched-reconcile_new :
    (call : Call) (e : Fields) (s : Store)
    → (call.artifacts_ok && call.reconcile_ok) ≡ false
    → ((reconcile_new call e s).1 ≡ raised session_error)
      × ((reconcile_new call e s).0.dispatched ≡ s.dispatched)
unfolding reconcile_new upsert_artifact_refs
dispatched-reconcile_new call e s h = elim (Bool-cases call.artifacts_ok) [
  | inr lost ↦ (rw lost, rw lost)
  | inl kept ↦
      let lost : call.reconcile_ok ≡ false = ground arith in (rw (kept, lost), rw (kept, lost))
]

abbrev pub event_id_of : Fields → String
event_id_of e = str (read "event_id" e)

abbrev pub key_of : Fields → String
key_of e = str (read "idempotency_key" e)

abbrev pub existing : Fields → Store → Option Envelope
existing e s = find_existing (event_id_of e) (key_of e) s.envelopes

abbrev pub envelope_of : Call → Fields → Envelope
envelope_of call e = record {
  event_id = event_id_of e;
  idempotency_key = key_of e;
  payload_hash = call.payload_hash e;
  event = e;
}

abbrev pub with_envelope : Call → Fields → Store → Store
with_envelope call e s = record s { envelopes = s.envelopes ++ envelope_of call e ∷ [] }

pub record_event-invalid :
    (call : Call) (e : Fields) (s : Store) (bad : Invalid)
    → validate_event_envelope e ≡ some bad
    → record_event call e s ≡ (s, raised (validation_error bad))
unfolding record_event
record_event-invalid call e s bad h = rw h

pub record_event-valid :
    (call : Call) (e : Fields) (s : Store)
    → validate_event_envelope e ≡ none
    → record_event call e s ≡ record_unless call e (existing e s) s
unfolding record_event
record_event-valid call e s h = rw h

pub record_event-new :
    (call : Call) (e : Fields) (s : Store)
    → validate_event_envelope e ≡ none
    → existing e s ≡ none
    → record_event call e s ≡ reconcile_new call e (with_envelope call e s)
unfolding record_unless
record_event-new call e s h k =
    record_event-valid call e s h ∙ ap (λ (x : Option Envelope). record_unless call e x s) k

envelopes-record_unless-some :
    (call : Call) (e : Fields) (x : Envelope) (s : Store)
    → (record_unless call e (some x) s).0.envelopes ≡ s.envelopes
unfolding record_unless
envelopes-record_unless-some call e x s =
    elim (Bool-cases (x.payload_hash == call.payload_hash e)) [
      | inl same ↦ rw same
      | inr other ↦ rw other
    ]

pub envelopes-record_event-new :
    (call : Call) (e : Fields) (s : Store)
    → validate_event_envelope e ≡ none
    → existing e s ≡ none
    → (record_event call e s).0.envelopes ≡ s.envelopes ++ envelope_of call e ∷ []
envelopes-record_event-new call e s h k =
    ap (λ (r : Store × Receipt). r.0.envelopes) (record_event-new call e s h k)
    ∙ envelopes-reconcile_new call e (with_envelope call e s)

-- Whatever a call does, with an event that is valid or not, new or known, no two envelopes share
-- an event id or an idempotency key when none did before.
pub record_event-IsUnique :
    (call : Call) (e : Fields) (s : Store)
    → IsUnique s.envelopes
    → IsUnique (record_event call e s).0.envelopes
record_event-IsUnique call e s u = elim (Option-cases (validate_event_envelope e)) [
  | inr (bad, h) ↦
      subst (λ (r : Store × Receipt). IsUnique r.0.envelopes)
        (sym (record_event-invalid call e s bad h)) u
  | inl valid ↦ elim (Option-cases (existing e s)) [
    | inl new ↦ subst IsUnique (sym (envelopes-record_event-new call e s valid new)) (
        IsUnique-append s.envelopes (envelope_of call e)
          (find_existing-none (event_id_of e) (key_of e) s.envelopes new) u)
    | inr (x, known) ↦
        subst IsUnique
          (sym (
            ap (λ (r : Store × Receipt). r.0.envelopes)
              (record_event-valid call e s valid
                ∙ ap (λ (o : Option Envelope). record_unless call e o s) known)
            ∙ envelopes-record_unless-some call e x s))
          u
  ]
]
