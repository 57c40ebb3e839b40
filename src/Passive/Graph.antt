-- ===== src/Passive/Graph.antt =====
-- The nodes of the graph that the passive-agent modules read and write, and the clauses of their
-- queries: MATCH … SET on the tasks, MERGE of a heartbeat, CREATE of an event. An absent property
-- is `none`. The relationships PASSIVELY_CLAIMED, EMITTED_PASSIVE_EVENT and ABOUT_TASK are left
-- out, since no query of the program reads them back, and JSON texts are held decoded.
use auto_assist.Prelude.{
  ℕ, String, Bool, false, Option, none, some, List, [], ◌∷◌, ◌++◌, map, ◌==◌, coalesce, any,
  if◌then◌else◌,
}

-- the value of a property `required_capabilities`
pub data Required : Type 0 where
  absent : Required
  listed : List String → Required
  text : String → Required
  -- a value that is neither a list nor a text, and is true
  other : Required

-- what `_json_dict` makes of a task's payload or metadata: the keys that are read, `local_only` and
-- `sensitive` by their truth value
pub record Extra : Type 0 where
  pub title : Option String
  pub kind : Option String
  pub priority : Option String
  pub privacy : Option String
  pub queue_class : Option String
  pub required : Required
  pub local_only : Bool
  pub sensitive : Bool
  pub created_at_ts : Option ℕ
  pub updated_at_ts : Option ℕ

-- the properties of a task that the claims do not change
pub record Details : Type 0 where
  pub own : Extra
  pub privacy_label : Option String
  pub payload : Extra
  pub metadata : Extra

-- the properties that a claim sets and that its end removes
pub record Claim : Type 0 where
  pub claim_id : Option String
  pub agent_id : Option String
  pub lease_id : Option String
  pub mode : Option String
  pub claimed_at : Option ℕ
  pub claimed_at_ts : Option ℕ
  pub expires_at_ts : Option ℕ
  pub metadata : Option String
  pub renewed_at : Option ℕ
  pub renewed_at_ts : Option ℕ
  pub progress_note : Option String
  pub renew_metadata : Option String

abbrev pub no_claim : Claim
no_claim = record {
  claim_id = none;
  agent_id = none;
  lease_id = none;
  mode = none;
  claimed_at = none;
  claimed_at_ts = none;
  expires_at_ts = none;
  metadata = none;
  renewed_at = none;
  renewed_at_ts = none;
  progress_note = none;
  renew_metadata = none;
}

-- the properties `last_passive_claim_…`
pub record LastClaim : Type 0 where
  pub claim_id : Option String
  pub agent_id : Option String
  pub result : Option String
  pub summary : Option String
  pub released_at : Option ℕ
  pub released_at_ts : Option ℕ
  pub metadata : Option String

-- `node` is the identity of the node in the graph.
pub record Task : Type 0 where
  pub node : ℕ
  pub id : Option String
  pub task_id : Option String
  pub status : Option String
  pub previous_status : Option String
  pub claim : Claim
  pub last : LastClaim
  pub details : Details

-- the node AgentHeartbeat
pub record Agent : Type 0 where
  pub agent_id : String
  pub status : Option String
  pub capabilities : List String
  pub current_task_id : Option String
  pub current_focus : Option String
  pub last_completed_task_id : Option String
  pub last_result_summary : Option String
  pub mode : Option String
  pub metadata : Option String
  pub last_seen_at : Option ℕ
  pub last_seen_at_ts : Option ℕ
  pub next_heartbeat_seconds : Option ℕ
  pub recommended_task_id : Option String
  pub action : Option String

abbrev pub new_agent : String → Agent
new_agent id = record {
  agent_id = id;
  status = none;
  capabilities = [];
  current_task_id = none;
  current_focus = none;
  last_completed_task_id = none;
  last_result_summary = none;
  mode = none;
  metadata = none;
  last_seen_at = none;
  last_seen_at_ts = none;
  next_heartbeat_seconds = none;
  recommended_task_id = none;
  action = none;
}

-- the node PassiveAgentEvent, without the free-form metadata that the caller passes
pub record Event : Type 0 where
  pub event_id : String
  pub event_type : String
  pub agent_id : Option String
  pub task_id : Option String
  pub claim_id : Option String
  pub lease_id : Option String
  pub status : Option String
  pub action : Option String
  pub result : Option String
  pub summary : Option String
  pub created_at_ts : ℕ

pub record Graph : Type 0 where
  pub tasks : List Task
  pub agents : List Agent
  pub events : List Event

-- coalesce(t.id, t.task_id)
abbrev pub key : Task → Option String
key t = coalesce t.id t.task_id

-- `x = $k` in a WHERE clause, where an absent value fits nothing
abbrev pub equals : Option String → String → Bool
equals none k = false
equals (some j) k = j == k

-- MATCH (t:Task) WHERE p SET …
abbrev pub update_if : (Task → Bool) → (Task → Task) → Task → Task
update_if p f t = if p t then f t else t

abbrev pub update_tasks : (Task → Bool) → (Task → Task) → List Task → List Task
update_tasks p f tasks = map (update_if p f) tasks

-- `result.single()` after RETURN t: the first matched task, as it was set
unfoldable pub first_task : (Task → Bool) → (Task → Task) → List Task → Option Task
first_task p f [] = none
first_task p f (t ∷ tasks) = if p t then some (f t) else first_task p f tasks

abbrev pub is_agent : String → Agent → Bool
is_agent id a = a.agent_id == id

-- MERGE (a:AgentHeartbeat {agent_id:$id}) SET …
unfoldable pub merge_agent : String → (Agent → Agent) → List Agent → List Agent
merge_agent id f agents =
    if any (is_agent id) agents
    then map (λ (a : Agent). if is_agent id a then f a else a) agents
    else agents ++ f (new_agent id) ∷ []

unfoldable pub find_agent : String → List Agent → Option Agent
find_agent id [] = none
find_agent id (a ∷ agents) = if is_agent id a then some a else find_agent id agents
