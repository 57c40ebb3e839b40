-- ===== src/Swarm/Trace/Current.antt =====
-- swarm_core.py: the state that a group keeps and the state that `get_trace` derives.
use auto_assist.Prelude.{
  none, String, ◌≡◌, refl, ap, ◌∙◌, true, false, some, List, [], ◌∷◌, ◌++◌, eq_refl, All, All-keep,
  keep,
}
use auto_assist.Swarm.Trace.{
  has_correlation, TraceEvent, TraceGroup, Traces, Trace, Observation, state_of_type, by_ts_desc,
  by_ts_asc, merge_group, set_state, update_trace_state_inline, link_event, event_of,
  record_trace_event, find_group, trace_of, get_trace,
}
use auto_assist.Swarm.Trace.Latest.{
  IsOlder, AreOlder, merged, keep-append, set_state-newest, trace_of-newest, found-map,
}

correlation_id-set_state :
    (l : List TraceEvent) (g : TraceGroup) → (set_state l g).correlation_id ≡ g.correlation_id
correlation_id-set_state [] g = refl
correlation_id-set_state (e ∷ es) g = refl

abbrev with_state : String → TraceGroup → TraceGroup
with_state state g = record g { current_state = some state }

module _ (o : Observation) (s : Traces) where
  abbrev state : String
  state = state_of_type o.event_type

  inline-state :
      (g : TraceGroup)
      → find_group o.correlation_id (merge_group o.correlation_id (event_of o) s.groups) ≡ some g
      → All (IsOlder o.timestamp) s.events
      → find_group o.correlation_id (record_trace_event false o s).0.groups
        ≡ some (with_state state g)
  unfolding record_trace_event update_trace_state_inline link_event
  inline-state g q old =
      let p = has_correlation o.correlation_id in
      let stored = keep p (s.events ++ event_of o ∷ []) in
      found-map o.correlation_id (set_state (by_ts_desc stored))
        (correlation_id-set_state (by_ts_desc stored))
        (merge_group o.correlation_id (event_of o) s.groups) g q
      ∙ ap some (
          ap (λ (l : List TraceEvent). set_state (by_ts_desc l) g)
            (keep-append p s.events (event_of o) (eq_refl o.correlation_id))
          ∙ set_state-newest (event_of o) (keep p s.events) g
              (All-keep (IsOlder o.timestamp) p s.events old))

get_trace-found :
    (id : String) (s : Traces) (g : TraceGroup)
    → find_group id s.groups ≡ some g
    → get_trace id s ≡ trace_of id (by_ts_asc g.events)
unfolding get_trace
get_trace-found id s g q = rw (q, get_trace)

module _ (o : Observation) (s : Traces) where
  -- An event that is newer than all that are stored gives its group its state, on a server without
  -- APOC, and `get_trace` then derives the same state.
  pub record_trace_event-current :
      All (IsOlder o.timestamp) s.events
      → All (AreOlder o.timestamp) s.groups
      → let after = (record_trace_event false o s).0 in
        (g : TraceGroup) × (t : Trace) × (find_group o.correlation_id after.groups ≡ some g)
        × (g.current_state ≡ some (state_of_type o.event_type))
        × (get_trace o.correlation_id after ≡ some t)
        × (t.current_state ≡ state_of_type o.event_type)
  record_trace_event-current old olds =
      let (g, es, q, k, older) = merged o.correlation_id (event_of o) s.groups olds in
      let held = inline-state o s g q old in
      let (t, r, current) = trace_of-newest o.correlation_id (event_of o) es older in
      (
        with_state (state_of_type o.event_type) g,
        t,
        held,
        refl,
        get_trace-found o.correlation_id (record_trace_event false o s).0
              (with_state (state_of_type o.event_type) g) held
            ∙ ap (λ (l : List TraceEvent). trace_of o.correlation_id (by_ts_asc l)) k
            ∙ r,
        current,
      )

  -- On a server with APOC the call raises, once the event is stored: `get_trace` then derives the
  -- event's state, but the groups are only given the event, and no state is set.
  record_trace_event-stale :
      All (AreOlder o.timestamp) s.groups
      → let (after, told) = record_trace_event true o s in
        (told ≡ none)
        × (after.groups ≡ merge_group o.correlation_id (event_of o) s.groups)
        × ((t : Trace) × (get_trace o.correlation_id after ≡ some t)
            × (t.current_state ≡ state_of_type o.event_type))
  unfolding record_trace_event link_event
  record_trace_event-stale olds =
      let (g, es, q, k, older) = merged o.correlation_id (event_of o) s.groups olds in
      let (t, r, current) = trace_of-newest o.correlation_id (event_of o) es older in
      (
        refl,
        refl,
        (
          t,
          get_trace-found o.correlation_id (record_trace_event true o s).0 g q
              ∙ ap (λ (l : List TraceEvent). trace_of o.correlation_id (by_ts_asc l)) k
              ∙ r,
          current,
        ),
      )
