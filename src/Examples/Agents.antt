-- ===== src/Examples/Agents.antt =====
-- src/assistx/passive_agents.py, passive_control.py and swarm_core.py's approvals at concrete
-- inputs.
use mathlib.Core.List.{Perm}
use auto_assist.Prelude.{
  String, ◌≡◌, ◌≢◌, refl, ◌≤◌, ◌⊎◌, Bool, true, false, some, none, List, [], ◌∷◌, All, length,
  lower, upper, strip, take,
}
use auto_assist.Passive.Graph.{Task, Extra, Required, no_claim}
use auto_assist.Passive.Candidate.{
  Candidate, Suggestion, suggest_idle_work, rank_candidate, normalize_idle_candidate,
  is_idle_status, suggest_from, is_passive_safe, capabilities_match, sort_ranked,
}
use auto_assist.Passive.Candidate.Safety.{IsOffered, suggest_idle_work-IsOffered}
use auto_assist.Passive.Candidate.Ranking.{
  IsRanked, IsUrgentFirst, eligible, suggest_idle_work-best,
}
use auto_assist.Passive.Plan.{Request, plan_for_status, plan_idle}
use auto_assist.Passive.Plan.Policy.{IsSource, plan_for_status-recommended}
use auto_assist.Passive.Control.{Board, PassiveControlIn, Outcome, set_passive_control_state}

abbrev plain : Extra
plain = record {
  title = none;
  kind = none;
  priority = some "HIGH";
  privacy = none;
  queue_class = none;
  required = Required.absent;
  local_only = false;
  sensitive = false;
  created_at_ts = none;
  updated_at_ts = none;
}

-- a ready task without a claim
abbrev pub ready : Task
ready = record {
  node = 1;
  id = some "task-1";
  task_id = none;
  status = some "READY";
  previous_status = none;
  claim = no_claim;
  last = record {
    claim_id = none;
    agent_id = none;
    result = none;
    summary = none;
    released_at = none;
    released_at_ts = none;
    metadata = none;
  };
  details = record { own = plain; privacy_label = none; payload = plain; metadata = plain };
}

abbrev offered : List Suggestion
offered = suggest_idle_work (ready ∷ []) [] 3 none 1000

-- the ready task is offered
ready_offered : length offered ≡ 1
unfolding suggest_idle_work suggest_from normalize_idle_candidate is_passive_safe is_idle_status
    capabilities_match rank_candidate sort_ranked lower upper strip
ready_offered = refl

suggest_idle_work-IsOffered_example : All (IsOffered []) offered × (length offered ≤ 3)
suggest_idle_work-IsOffered_example = suggest_idle_work-IsOffered (ready ∷ []) [] 3 none 1000

suggest_idle_work-best_example :
    (order : List Suggestion) × Perm order (eligible (ready ∷ []) [] 3 none 1000)
    × IsRanked order
    × IsUrgentFirst order
    × (offered ≡ take 3 order)
suggest_idle_work-best_example = suggest_idle_work-best (ready ∷ []) [] 3 none 1000

abbrev candidate : Candidate
candidate = normalize_idle_candidate ready 1000

abbrev request : String → Bool → Request
request status user_active = record {
  status = status;
  current_task = some (record { task_id = "task-1"; focus = none });
  candidates = [];
  mode = "review_only";
  user_active = user_active;
  allow_resume_current = true;
  max_work_seconds = 900;
  interrupt_policy = "yield";
  now_ms = 1000;
  lease_id = "lease-1";
}

resumed : (plan_for_status (request "idle" false)).recommended_task_id ≡ some "task-1"
unfolding plan_for_status plan_idle
resumed = refl

plan_for_status-recommended_example :
    ((request "idle" false).status ≢ "busy")
    × ((request "idle" false).status ≢ "draining")
    × ((false ≡ false) ⊎ ((request "idle" false).status ≢ "idle"))
    × IsSource (request "idle" false) "task-1" (some (record { task_id = "task-1"; focus = none }))
plan_for_status-recommended_example =
    plan_for_status-recommended (request "idle" false) "task-1" resumed

abbrev bare : Board
bare = record { control = none; graph = record { tasks = []; agents = []; events = [] } }

abbrev drain : PassiveControlIn
drain = record { mode = " Draining "; reason = none; updated_by = some "ann"; metadata = "" }

abbrev drained : Board × Outcome
drained = set_passive_control_state 1000 1 true none drain bare
