-- ===== src/Passive/Claims/Expire.antt =====
-- passive_claims.py: `expire_passive_claims`, and the list of the claims with its summary.
use auto_assist.Prelude.{
  ℕ, suc, ◌-◌, ◌/◌, String, Bool, true, not, ◌&&◌, ◌||◌, Option, none, some, List, [], ◌∷◌, map,
  ltb, leb, eqb, get_or, any, count, keep, take, length, or_default, if◌then◌else◌,
}
use auto_assist.Passive.Graph.{no_claim, Task, Agent, Graph, key, equals, update_tasks, merge_agent}
use auto_assist.Passive.Claims.Base.{
  Logger, Env, neo4j_error, Reply, granted, blocked, event, record_passive_event, is_claimed,
  expiry,
}

-- coalesce(t.passive_claim_expires_at_ts, 0) < $now_ms
abbrev pub has_expired : ℕ → Task → Bool
has_expired now_ms t = is_claimed t && ltb (expiry t) now_ms

unfoldable pub insert_expiry : Task → List Task → List Task
insert_expiry t [] = t ∷ []
insert_expiry t (u ∷ us) = if leb (expiry t) (expiry u) then t ∷ u ∷ us else u ∷ insert_expiry t us

-- ORDER BY coalesce(t.passive_claim_expires_at_ts, 0) ASC
unfoldable pub by_expiry : List Task → List Task
unfolding insert_expiry
by_expiry [] = []
by_expiry (t ∷ ts) = insert_expiry t (by_expiry ts)

-- the rows of the first WITH … LIMIT
abbrev pub overdue : ℕ → ℕ → List Task → List Task
overdue now_ms limit tasks = take limit (by_expiry (keep (has_expired now_ms) tasks))

abbrev pub same_node : Task → Task → Bool
same_node t u = eqb t.node u.node

abbrev pub is_among : List Task → Task → Bool
is_among rows t = any (same_node t) rows

abbrev pub expired_summary : String
expired_summary = "Passive claim expired and was returned to READY/REVIEW."

unfoldable pub set_expired : Env → Task → Task
set_expired env t = record t {
  status = some (get_or t.previous_status "READY");
  claim = no_claim;
  last = record t.last {
    claim_id = t.claim.claim_id;
    agent_id = t.claim.agent_id;
    result = some "expired";
    summary = some expired_summary;
    released_at = some env.datetime;
    released_at_ts = some env.now_ms;
  };
}

abbrev pub idle_after_expiry : Env → Agent → Agent
idle_after_expiry env a = record a {
  status = some "idle";
  current_task_id = none;
  action = some "passive_claim_expired";
  last_seen_at_ts = some env.now_ms;
  recommended_task_id = none;
}

-- one MERGE for each row; an absent agent id cannot be merged, and fails the transaction
unfoldable pub merge_idle : Env → List Task → List Agent → Option (List Agent)
merge_idle env [] agents = some agents
merge_idle env (t ∷ rows) agents = elim t.claim.agent_id [
  | none ↦ none
  | some id ↦ merge_idle env rows (merge_agent id (idle_after_expiry env) agents)
]

pub record ExpiredRow : Type 0 where
  pub task_id : Option String
  pub claim_id : Option String
  pub agent_id : Option String
  pub next_status : String

abbrev pub expired_row : Task → ExpiredRow
expired_row t = record {
  task_id = key t;
  claim_id = t.claim.claim_id;
  agent_id = t.claim.agent_id;
  next_status = get_or t.previous_status "READY";
}

unfoldable pub tx_expire_passive_claims : Env → ℕ → Graph → Option (Graph × List ExpiredRow)
unfolding set_expired by_expiry
tx_expire_passive_claims env limit g =
    let rows = overdue env.now_ms limit g.tasks in
    elim (merge_idle env rows g.agents) [
      | none ↦ none
      | some agents ↦ some (
        record g {
          tasks = update_tasks (is_among rows) (set_expired env) g.tasks;
          agents = agents;
        },
        map expired_row rows,
      )
    ]

-- one event for each row, each with its own logger
unfoldable pub log_expired : (ℕ → Logger) → ℕ → List ExpiredRow → Graph → Graph
unfolding record_passive_event
log_expired loggers i [] g = g
log_expired loggers i (r ∷ rows) g =
    log_expired loggers (suc i) rows
      (record_passive_event (loggers i)
        (record (event "passive_claim.expired") {
          agent_id = r.agent_id;
          task_id = r.task_id;
          claim_id = r.claim_id;
          action = some "passive_claim_expired";
          result = some "expired";
          summary = some expired_summary;
        })
        g).0

abbrev pub finish_expiry :
    (ℕ → Logger) → Graph → Option (Graph × List ExpiredRow) → Graph × Reply (List ExpiredRow)
finish_expiry loggers g none = (g, blocked neo4j_error)
finish_expiry loggers g (some (g', rows)) = (log_expired loggers 0 rows g', granted rows)

unfoldable pub expire_passive_claims :
    Env → (ℕ → Logger) → ℕ → Graph → Graph × Reply (List ExpiredRow)
unfolding tx_expire_passive_claims
expire_passive_claims env loggers limit g =
    if not env.tx_ok
    then (g, blocked neo4j_error)
    else finish_expiry loggers g (tx_expire_passive_claims env limit g)

-- an item of the list of claims
pub record ClaimItem : Type 0 where
  pub task_id : String
  pub claim_id : Option String
  pub agent_id : Option String
  pub lease_id : Option String
  pub mode : Option String
  pub claimed_at_ts : Option ℕ
  pub renewed_at_ts : Option ℕ
  pub progress_note : Option String
  pub expires_at_ts : ℕ
  pub expired : Bool
  pub seconds_remaining : ℕ
  pub status : Option String

-- `max(0, int((expires_at - now_ms) / 1000)) if expires_at else 0`
unfoldable pub claim_from_task : Task → ℕ → ClaimItem
claim_from_task t now_ms = record {
  task_id = or_default t.id (or_default t.task_id "");
  claim_id = t.claim.claim_id;
  agent_id = t.claim.agent_id;
  lease_id = t.claim.lease_id;
  mode = t.claim.mode;
  claimed_at_ts = t.claim.claimed_at_ts;
  renewed_at_ts = t.claim.renewed_at_ts;
  progress_note = t.claim.progress_note;
  expires_at_ts = expiry t;
  expired = ltb (expiry t) now_ms;
  seconds_remaining = (expiry t - now_ms) / 1000;
  status = t.status;
}

-- $agent_id IS NULL OR t.passive_claim_agent_id = $agent_id
abbrev is_of_agent : Option String → Task → Bool
is_of_agent none t = true
is_of_agent (some id) t = equals t.claim.agent_id id

abbrev pub is_listed : Option String → Bool → ℕ → Task → Bool
is_listed agent_id include_expired now_ms t =
    is_claimed t && is_of_agent agent_id t && (include_expired || leb now_ms (expiry t))

-- `read_ok` says whether the session succeeds
unfoldable pub list_passive_claims : Bool → Option String → Bool → ℕ → ℕ → Graph → List ClaimItem
unfolding by_expiry claim_from_task
list_passive_claims read_ok agent_id include_expired limit now_ms g =
    if read_ok
    then map (λ (t : Task). claim_from_task t now_ms)
        (take limit (by_expiry (keep (is_listed agent_id include_expired now_ms) g.tasks)))
    else []

pub record ClaimSummary : Type 0 where
  pub total : ℕ
  pub active : ℕ
  pub expired : ℕ
  pub review_only : ℕ
  pub claim_ready : ℕ

unfoldable pub passive_claim_summary : List ClaimItem → ClaimSummary
passive_claim_summary claims = record {
  total = length claims;
  active = count (λ (c : ClaimItem). not c.expired) claims;
  expired = count (λ (c : ClaimItem). c.expired) claims;
  review_only =
      count (λ (c : ClaimItem). equals c.mode "review_only" || equals c.mode "passive") claims;
  claim_ready = count (λ (c : ClaimItem). equals c.mode "claim_ready") claims;
}
