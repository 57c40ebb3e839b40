-- ===== src/Passive/Plan.antt =====
-- src/assistx/passive_agents.py: the plan that a heartbeat returns, and the record of the
-- heartbeat.
pub mod Policy
use auto_assist.Prelude.{
  ℕ, suc, ◌+◌, ◌*◌, min, max, String, Bool, true, false, ◌&&◌, ◌||◌, Option, none, some, List, [],
  ◌∷◌, ◌==◌, eqb, get_or, or_default, is_nonempty, trim_to, lower, strip, if◌then◌else◌,
}
use auto_assist.Passive.Graph.{Task, Agent, Graph, merge_agent}
use auto_assist.Passive.Candidate.{Candidate, Suggestion, is_in, suggest_idle_work}

abbrev statuses : List String
statuses = "idle" ∷ "busy" ∷ "paused" ∷ "interrupted" ∷ "offline" ∷ "draining" ∷ []

unfoldable pub normalize_status : String → String
normalize_status status =
    let value = lower (strip (if status == "" then "idle" else status)) in
    if is_in statuses value then value else "idle"

pub record CurrentTask : Type 0 where
  pub task_id : String
  pub focus : Option String

abbrev pub safe_current_task : Option String → Option String → Option CurrentTask
safe_current_task none focus = none
safe_current_task (some id) focus =
    if id == "" then none else some (record { task_id = id; focus = focus })

-- an advisory lease: `lease_type` is always "advisory_only", and a claim is always required
pub record Lease : Type 0 where
  pub lease_id : String
  pub task_id : String
  pub mode : String
  pub issued_at_ts : ℕ
  pub expires_at_ts : ℕ
  pub max_work_seconds : ℕ

-- the texts of `action`
pub data Action : Type 0 where
  yield_to_user standby pause_current stay_paused continue_current finish_current_step : Action
  resume_current idle_wait recommend_claim review_next_candidate : Action

pub record Plan : Type 0 where
  pub action : Action
  pub generated_at_ts : ℕ
  pub next_heartbeat_seconds : ℕ
  pub interrupt_policy : String
  pub mode : String
  pub resume : Option CurrentTask
  pub recommended_task_id : Option String
  pub lease : Option Lease

abbrev pub next_heartbeat_seconds : String → Bool → ℕ
next_heartbeat_seconds status true = 10
next_heartbeat_seconds status false =
    if status == "idle"
    then 45
    else if status == "busy"
    then 60
    else if status == "paused"
    then 120
    else if status == "interrupted"
    then 10
    else if status == "offline"
    then 300
    else if status == "draining"
    then 20
    else 45

-- `max_work_seconds or 900` within [60, 7200]
abbrev pub lease_seconds : ℕ → ℕ
lease_seconds n = max 60 (min (if eqb n 0 then 900 else n) 7200)

-- the arguments of `_plan_for_status`, with the UUIDs of the plan's lease
pub record Request : Type 0 where
  pub status : String
  pub current_task : Option CurrentTask
  pub candidates : List Suggestion
  pub mode : String
  pub user_active : Bool
  pub allow_resume_current : Bool
  pub max_work_seconds : ℕ
  pub interrupt_policy : String
  pub now_ms : ℕ
  pub lease_id : String

unfoldable pub advisory_lease : Request → Option String → ℕ → Option Lease
advisory_lease q none max_work_seconds = none
advisory_lease q (some task_id) max_work_seconds =
    if task_id == ""
    then none
    else let seconds = lease_seconds max_work_seconds in
      some (record {
        lease_id = q.lease_id;
        task_id = task_id;
        mode = q.mode;
        issued_at_ts = q.now_ms;
        expires_at_ts = q.now_ms + seconds * 1000;
        max_work_seconds = seconds;
      })

abbrev pub task_of : Option CurrentTask → Option String
task_of none = none
task_of (some c) = some c.task_id

-- the dict `base` with the entries of one branch
abbrev plan : Request → Action → Option CurrentTask → Option String → Option Lease → Plan
plan q action resume recommended lease = record {
  action = action;
  generated_at_ts = q.now_ms;
  next_heartbeat_seconds = next_heartbeat_seconds q.status q.user_active;
  interrupt_policy = q.interrupt_policy;
  mode = q.mode;
  resume = resume;
  recommended_task_id = recommended;
  lease = lease;
}

-- the end of `_plan_for_status`, when no current task is resumed
unfoldable pub plan_new_work : Request → List Suggestion → Plan
plan_new_work q [] = plan q idle_wait none none none
plan_new_work q (recommended ∷ rest) =
    let task = some recommended.candidate.task_id in
    let lease = advisory_lease q task q.max_work_seconds in
    if q.mode == "claim_ready"
    then plan q recommend_claim none task lease
    else plan q review_next_candidate none task lease

unfoldable pub plan_idle : Request → Option CurrentTask → Plan
plan_idle q none = plan_new_work q q.candidates
plan_idle q (some c) =
    if q.allow_resume_current
    then plan q resume_current (some c) (some c.task_id)
        (advisory_lease q (some c.task_id) q.max_work_seconds)
    else plan_new_work q q.candidates

unfoldable pub plan_for_status : Request → Plan
plan_for_status q =
    let status = q.status in
    if q.user_active && (status == "idle" || status == "busy" || status == "draining")
    then plan q yield_to_user q.current_task none none
    else if status == "offline"
    then plan q standby none none none
    else if status == "interrupted"
    then plan q pause_current q.current_task none none
    else if status == "paused"
    then plan q stay_paused q.current_task none none
    else if status == "busy"
    then plan q continue_current q.current_task none
        (advisory_lease q (task_of q.current_task) q.max_work_seconds)
    else if status == "draining"
    then plan q finish_current_step q.current_task none
        (advisory_lease q (task_of q.current_task) (min q.max_work_seconds 300))
    else plan_idle q q.current_task

abbrev action_text : Action → String
action_text yield_to_user = "yield_to_user"
action_text standby = "standby"
action_text pause_current = "pause_current_and_wait_for_user_work"
action_text stay_paused = "stay_paused"
action_text continue_current = "continue_current"
action_text finish_current_step = "finish_current_step_then_pause"
action_text resume_current = "resume_current"
action_text idle_wait = "idle_wait"
action_text recommend_claim = "recommend_claim_via_approved_endpoint"
action_text review_next_candidate = "review_next_candidate"

-- the body of POST /heartbeat-plan, the clock and the lease's UUID
pub record Heartbeat : Type 0 where
  pub agent_id : String
  pub status : String
  pub capabilities : List String
  pub current_task_id : Option String
  pub current_focus : Option String
  pub last_completed_task_id : Option String
  pub last_result_summary : Option String
  pub max_suggestions : ℕ
  pub mode : String
  pub user_active : Bool
  pub allow_resume_current : Bool
  pub max_work_seconds : ℕ
  pub interrupt_policy : String
  pub metadata : String
  pub now_ms : ℕ
  pub datetime : ℕ
  pub lease_id : String

abbrev pub cut_summary : Option String → Option String
cut_summary none = none
cut_summary (some s) = if s == "" then none else some (trim_to 1000 s)

-- the write of `_record_agent_heartbeat`; `plan_json` holds the plan's text, which is left out
unfoldable pub record_agent_heartbeat : Heartbeat → String → Plan → Graph → Graph
record_agent_heartbeat b status p g = record g {
  agents =
      merge_agent b.agent_id
        (λ (a : Agent). record a {
          status = some status;
          capabilities = b.capabilities;
          current_task_id = b.current_task_id;
          current_focus = b.current_focus;
          last_completed_task_id = b.last_completed_task_id;
          last_result_summary = cut_summary b.last_result_summary;
          mode = some b.mode;
          metadata = some b.metadata;
          last_seen_at = some b.datetime;
          last_seen_at_ts = some b.now_ms;
          next_heartbeat_seconds =
              some (if eqb p.next_heartbeat_seconds 0 then 45 else p.next_heartbeat_seconds);
          recommended_task_id = p.recommended_task_id;
          action = some (action_text p.action);
        })
        g.agents;
}

-- `max(1, min(int(body.max_suggestions or 3), 10))`
abbrev suggestions_limit : ℕ → ℕ
suggestions_limit n = max 1 (min (if eqb n 0 then 3 else n) 10)

-- `read_ok` and `write_ok` say whether the two sessions with the graph succeed
unfoldable pub heartbeat_plan : Heartbeat → Bool → Bool → Graph → Graph × Plan
unfolding plan_for_status record_agent_heartbeat
heartbeat_plan b read_ok write_ok g =
    let status = normalize_status b.status in
    let candidates =
      if read_ok
      then suggest_idle_work g.tasks b.capabilities (suggestions_limit b.max_suggestions)
          b.current_task_id b.now_ms
      else [] in
    let p = plan_for_status (record {
      status = status;
      current_task = safe_current_task b.current_task_id b.current_focus;
      candidates = candidates;
      mode = b.mode;
      user_active = b.user_active;
      allow_resume_current = b.allow_resume_current;
      max_work_seconds = b.max_work_seconds;
      interrupt_policy = b.interrupt_policy;
      now_ms = b.now_ms;
      lease_id = b.lease_id;
    }) in
    (if write_ok then record_agent_heartbeat b status p g else g, p)
