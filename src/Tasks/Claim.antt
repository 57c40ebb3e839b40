-- ===== src/Tasks/Claim.antt =====
-- neo4j_client.py: `claim_task`, which gives a READY task to an agent.
pub mod Answers
pub mod Replay
use auto_assist.Prelude.{
  ℕ, ◌+◌, ◌*◌, String, Bool, true, false, not, ◌&&◌, Option, none, some, List, [], ◌∷◌, ◌==◌, any,
  all, get_or, coalesce, is_nonempty, or_default, if◌then◌else◌, find_first,
}
use auto_assist.Prelude.Int.{ℤ, pos, pos_part, neg_part, sub_ℕ}
use auto_assist.Passive.Graph.{Required, absent, listed, text, other}
use auto_assist.Tasks.Graph.{
  Task, Graph, equals, has_id, update_tasks, is_dispatched, merge_link, merge_id,
}

-- the arguments of a claim, with the clock and the new UUID of the call
pub record Request : Type 0 where
  pub task_id : String
  pub agent_id : String
  pub capabilities : List String
  pub session_id : Option String
  pub idempotency_key : Option String
  pub lease_seconds : Option ℤ
  pub now : ℕ
  pub uuid : String

pub data Reason : Type 0 where
  not_found paperclip_dispatched target_agent_mismatch not_claimed : Reason
  not_ready : Option String → Reason
  capability_mismatch : List String → Reason

pub data Claimed : Type 0 where
  granted : Task → Claimed
  idempotent : String → Task → Claimed
  refused : Reason → Claimed
  raised : Claimed

-- idempotency_key or uuid.uuid4().hex
unfoldable pub claim_id_of : Request → String
claim_id_of q = or_default q.idempotency_key q.uuid

abbrev pub lease_of : Request → ℤ
lease_of q = get_or q.lease_seconds (pos 900)

-- timestamp() + $lease_seconds * 1000
abbrev pub after_seconds : ℕ → ℤ → ℤ
after_seconds now seconds = sub_ℕ (now + pos_part seconds * 1000) (neg_part seconds * 1000)

-- the WHERE and the SET of the claim
unfoldable pub is_claimable : Graph → String → Task → Bool
unfolding is_dispatched
is_claimable g id t = has_id id t && equals t.status "READY" && not (is_dispatched g t)

unfoldable pub set_claim : Request → Task → Task
unfolding claim_id_of
set_claim q t = record t {
  status = some "CLAIMED";
  claimed_by = some q.agent_id;
  agent_session_id = q.session_id;
  claim_id = some (claim_id_of q);
  claimed_at_ts = some q.now;
  lease_seconds = some (lease_of q);
  lease_expires_at_ts = some (after_seconds q.now (lease_of q));
  updated_at_ts = some q.now;
}

-- The query that claims: one statement, which Neo4j runs alone.
unfoldable pub claim_ready : Request → Graph → Graph × Option Task
unfolding is_claimable set_claim
claim_ready q g =
    let tasks = update_tasks (is_claimable g q.task_id) (set_claim q) g.tasks in
    elim (find_first (is_claimable g q.task_id) g.tasks) [
      | none ↦ (g, none)
      | some t ↦ (record g { tasks = tasks }, some (set_claim q t))
    ]

-- MERGE (a:AgentSession) … MATCH (t:Task) MERGE (a)-[:CLAIMED]->(t)
unfoldable pub note_session : Option String → String → Graph → Graph
note_session session task_id g =
    let id = get_or session "" in
    if is_nonempty id
    then record g { sessions = merge_id id g.sessions; claimed = merge_link id task_id g.claimed }
    else g

-- the elements of a value, which for a text are its letters; a value that has none raises
unfoldable pub letters : String → List String
letters String.[] = []
letters (String.◌∷◌ c s) = String.◌∷◌ c String.[] ∷ letters s

abbrev pub elements : Required → Option (List String)
unfolding letters
elements absent = some []
elements (listed xs) = some xs
elements (text s) = some (letters s)
elements other = none

abbrev pub is_set : Required → Bool
is_set absent = false
is_set (listed []) = false
is_set (listed (x ∷ xs)) = true
is_set (text s) = not (s == "")
is_set other = true

-- item.get("required_capabilities") or item.get("capabilities") or []
abbrev pub required_of : Task → Required
required_of t =
    if is_set t.required_capabilities
    then t.required_capabilities
    else if is_set t.capabilities
    then t.capabilities
    else listed []

-- all(cap in caps for cap in required)
abbrev pub covers : List String → List String → Bool
covers caps required = all (λ (c : String). any (λ (x : String). x == c) caps) required

abbrev pub is_empty : List String → Bool
is_empty [] = true
is_empty (x ∷ xs) = false

abbrev pub check_target : Request → Task → Claimed
check_target q t =
    let target = get_or t.target_agent_id "" in
    refused (
      if is_nonempty target && not (target == q.agent_id)
      then target_agent_mismatch
      else not_claimed)

abbrev pub check_required : Request → Task → Option (List String) → Claimed
check_required q t none = raised
check_required q t (some required) =
    if covers q.capabilities required
    then check_target q t
    else refused (capability_mismatch required)

-- why no task was claimed, from the query that looks again
unfoldable pub reason_of : Request → Graph → Option Task → Claimed
unfolding is_dispatched
reason_of q g none = refused not_found
reason_of q g (some t) =
    if not (equals t.status "READY")
    then refused (not_ready t.status)
    else if is_dispatched g t
    then refused paperclip_dispatched
    else if not (is_empty q.capabilities) && is_set (required_of t)
    then check_required q t (elements (required_of t))
    else check_target q t

abbrev pub answer_claim : Request → Graph × Option Task → Graph × Claimed
answer_claim q (g, none) = (g, reason_of q g (find_first (has_id q.task_id) g.tasks))
answer_claim q (g, some t) = (note_session q.session_id q.task_id g, granted t)

-- MATCH (t:Task {id:$task_id, claim_id:$claim_id})
abbrev pub is_prior : String → String → Task → Bool
is_prior id claim_id t = has_id id t && equals t.claim_id claim_id

abbrev pub find_prior : Request → List Task → Option Task
find_prior q tasks =
    if is_nonempty (get_or q.idempotency_key "")
    then find_first (is_prior q.task_id (get_or q.idempotency_key "")) tasks
    else none

unfoldable pub claim_task : Request → Graph → Graph × Claimed
unfolding claim_ready reason_of note_session find_first
claim_task q g = elim (find_prior q g.tasks) [
  | some t ↦ (g, idempotent (claim_id_of q) t)
  | none ↦ answer_claim q (claim_ready q g)
]
