-- ===== src/Passive/Control.antt =====
-- src/assistx/passive_control.py: the operator's global control of passive work.
pub mod Policy
use auto_assist.Prelude.{
  ℕ, String, Bool, true, false, not, ◌&&◌, ◌||◌, Option, none, some, List, [], ◌∷◌, ◌==◌,
  or_default, strip, lower, if◌then◌else◌,
}
use auto_assist.Passive.Graph.{Graph}
use auto_assist.Passive.Candidate.{is_in}
use auto_assist.Passive.Claims.Base.{Logger, event, record_passive_event}

abbrev pub valid_modes : List String
valid_modes = "enabled" ∷ "paused" ∷ "draining" ∷ "maintenance" ∷ []

pub record PassiveControlIn : Type 0 where
  pub mode : String
  pub reason : Option String
  pub updated_by : Option String
  pub metadata : String

-- the node PassiveAgentControl {id:'global'}
pub record ControlNode : Type 0 where
  pub mode : Option String
  pub reason : Option String
  pub updated_by : Option String
  pub updated_at : Option ℕ
  pub updated_at_ts : Option ℕ
  pub metadata : Option String

-- a control state, with the keys that a failed read adds
pub record ControlState : Type 0 where
  pub ok : Bool
  pub mode : String
  pub passive_allowed : Bool
  pub new_claims_allowed : Bool
  pub renewals_allowed : Bool
  pub recommended_agent_status : String
  pub reason : Option String
  pub updated_by : Option String
  pub updated_at_ts : Option ℕ
  pub metadata : String

abbrev pub empty_dict : String
empty_dict = "{}"

unfoldable pub normalize_mode : Option String → String
normalize_mode mode = lower (strip (or_default mode "enabled"))

unfoldable pub recommended_agent_status_for_mode : String → String
recommended_agent_status_for_mode mode =
    if mode == "enabled"
    then "idle"
    else if mode == "paused"
    then "paused"
    else if mode == "draining"
    then "draining"
    else if mode == "maintenance"
    then "paused"
    else "paused"

unfoldable pub build_control_state :
    Option String → Option String → Option String → Option ℕ → Option String → ControlState
unfolding normalize_mode recommended_agent_status_for_mode
build_control_state mode reason updated_by updated_at_ts metadata =
    let normalized = normalize_mode mode in
    record {
      ok = true;
      mode = normalized;
      passive_allowed = normalized == "enabled";
      new_claims_allowed = normalized == "enabled";
      renewals_allowed = normalized == "enabled" || normalized == "draining";
      recommended_agent_status = recommended_agent_status_for_mode normalized;
      reason = reason;
      updated_by = updated_by;
      updated_at_ts = updated_at_ts;
      metadata = or_default metadata empty_dict;
    }

abbrev pub default_passive_control_state : ControlState
default_passive_control_state =
    build_control_state (some "enabled")
      (some "default enabled; no PassiveAgentControl node exists yet") none none (some empty_dict)

-- the graph with its control node, when it has one
pub record Board : Type 0 where
  pub control : Option ControlNode
  pub graph : Graph

abbrev pub state_of : Option ControlNode → ControlState
state_of none = default_passive_control_state
state_of (some c) = build_control_state c.mode c.reason c.updated_by c.updated_at_ts c.metadata

-- `read_ok` says whether the session succeeds
unfoldable pub get_passive_control_state : Bool → Board → ControlState
get_passive_control_state read_ok b =
    if read_ok
    then state_of b.control
    else record (build_control_state (some "maintenance") (some "passive control read failed") none
        none (some empty_dict)) { ok = false }

pub data Refusal : Type 0 where
  invalid_mode neo4j_error : Refusal

pub data Outcome : Type 0 where
  refused : Refusal → Outcome
  changed : ControlState → Option String → Outcome

-- the clock in milliseconds and as `datetime()`, whether the write succeeds, and the event's logger
unfoldable pub set_passive_control_state :
    ℕ → ℕ → Bool → Logger → PassiveControlIn → Board → Board × Outcome
unfolding record_passive_event
set_passive_control_state now_ms datetime write_ok logger body b =
    let mode = normalize_mode (some body.mode) in
    if not (is_in valid_modes mode)
    then (b, refused invalid_mode)
    else if not write_ok
    then (b, refused neo4j_error)
    else let (graph, event_id) =
        record_passive_event logger
          (record (event "passive_control.changed") {
            agent_id = body.updated_by;
            action = some "passive_control_changed";
            status = some mode;
            result = some mode;
            summary = body.reason;
          })
          b.graph in
      (
        record {
          control = some (record {
            mode = some mode;
            reason = body.reason;
            updated_by = body.updated_by;
            updated_at = some datetime;
            updated_at_ts = some now_ms;
            metadata = some (or_default (some body.metadata) empty_dict);
          });
          graph = graph;
        },
        changed
            (build_control_state (some mode) body.reason body.updated_by (some now_ms)
              (some (or_default (some body.metadata) empty_dict)))
            event_id,
      )
