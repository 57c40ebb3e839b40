-- ===== src/Passive/Claims/Base.antt =====
-- passive_claims.py and passive_events.py: what the requests share. A reply keeps its fields and
-- leaves out the texts of its messages.
use auto_assist.Prelude.{
  ◌≡◌, refl, ℕ, String, Bool, Option, none, some, List, [], ◌∷◌, ◌++◌, ◌==◌, get_or, upper,
}
use auto_assist.Passive.Graph.{Task, Agent, Event, Graph, merge_agent}

-- The outcome of `record_passive_event`: the id and the time of the event, or `none` when its write
-- fails, which it swallows.
abbrev pub Logger : Type 0
Logger = Option (String × ℕ)

abbrev pub event : String → Event
event event_type = record {
  event_id = "";
  event_type = event_type;
  agent_id = none;
  task_id = none;
  claim_id = none;
  lease_id = none;
  status = none;
  action = none;
  result = none;
  summary = none;
  created_at_ts = 0;
}

unfoldable pub record_passive_event : Logger → Event → Graph → Graph × Option String
record_passive_event none e g = (g, none)
record_passive_event (some (id, now)) e g = (
  record g { events = g.events ++ record e { event_id = id; created_at_ts = now } ∷ [] },
  some id,
)

-- What the calls of one request meet: the clock, the new UUID, the server's `datetime()`, whether
-- the transaction raises, whether the session of a rollback raises, and the loggers.
pub record Env : Type 0 where
  pub now_ms : ℕ
  pub claim_id : String
  pub datetime : ℕ
  pub tx_ok : Bool
  pub rollback_ok : Bool
  pub logger : Logger

pub data Reason : Type 0 where
  invalid_mode approval_required neo4j_error not_claimed safety_rejected : Reason
  capability_mismatch not_renewed not_released : Reason

pub data Reply {ℓ} (A : Type ℓ) : Type ℓ where
  granted : A → Reply A
  blocked : Reason → Reply A

abbrev pub claimed_passive : String
claimed_passive = "CLAIMED_PASSIVE"

-- a query that has matched no task merges no heartbeat
abbrev pub merge_if : Option Task → String → (Agent → Agent) → List Agent → List Agent
merge_if none id f agents = agents
merge_if (some t) id f agents = merge_agent id f agents

-- toUpper(coalesce(t.status, '')) = 'CLAIMED_PASSIVE'
abbrev pub is_claimed : Task → Bool
is_claimed t = upper (get_or t.status "") == claimed_passive

abbrev pub expiry : Task → ℕ
expiry t = get_or t.claim.expires_at_ts 0

-- an event touches neither tasks nor agents
pub tasks-record_passive_event :
    (l : Logger) (e : Event) (g : Graph) → (record_passive_event l e g).0.tasks ≡ g.tasks
unfolding record_passive_event
tasks-record_passive_event none e g = refl
tasks-record_passive_event (some (id, now)) e g = refl

pub agents-record_passive_event :
    (l : Logger) (e : Event) (g : Graph) → (record_passive_event l e g).0.agents ≡ g.agents
unfolding record_passive_event
agents-record_passive_event none e g = refl
agents-record_passive_event (some (id, now)) e g = refl

abbrev pub logged_id : Logger → Option String
logged_id none = none
logged_id (some (id, now)) = some id

pub record_passive_event_id :
    (l : Logger) (e : Event) (g : Graph) → (record_passive_event l e g).1 ≡ logged_id l
unfolding record_passive_event
record_passive_event_id none e g = refl
record_passive_event_id (some (id, now)) e g = refl
