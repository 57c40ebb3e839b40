-- ===== src/Tasks/Listing.antt =====
-- neo4j_client.py: `list_agent_tasks`, the poll of an agent, and the counts of `fleet_status`.
pub mod Offered
pub mod Counts
use auto_assist.Prelude.{
  ℕ, suc, ◌+◌, ◌*◌, ◌-◌, max, String, Bool, true, false, not, ◌&&◌, ◌||◌, Option, none, some, List,
  [], ◌∷◌, ◌==◌, any, all, keep, map, take, ltb, leb, eqb, get_or, if◌then◌else◌,
}
use auto_assist.Prelude.Sorting.{sort_by}
use auto_assist.Passive.Graph.{Required, absent, listed, text, other}
use auto_assist.Tasks.Graph.{Task, Graph, equals}
use auto_assist.Tasks.Claim.{required_of, covers, is_empty}

-- the arguments of `list_agent_tasks`
pub record Poll : Type 0 where
  pub status : String
  pub capabilities : List String
  pub agent_id : Option String
  pub limit : ℕ

abbrev created_at : Task → ℕ
created_at t = get_or t.created_at_ts 0

-- ORDER BY coalesce(t.created_at_ts, 0) ASC
abbrev pub is_older : Task → Task → Bool
is_older t u = leb (created_at t) (created_at u)

abbrev pub names : String → Required → Bool
names c (listed xs) = any (λ (x : String). x == c) xs
names c r = false

-- `$caps IN coalesce(t.required_capabilities, [])`, of the first capability
abbrev pub is_targeted : List String → Task → Bool
is_targeted [] t = true
is_targeted (c ∷ caps) t = names c t.required_capabilities

-- the rows of the query; without capabilities it fetches ten times the limit
abbrev pub fetch_limit : Poll → ℕ
fetch_limit q = if is_empty q.capabilities then max (q.limit * 10) q.limit else q.limit

unfoldable pub fetch_tasks : Poll → List Task → List Task
unfolding sort_by
fetch_tasks q tasks = take (fetch_limit q) (
    sort_by is_older
      (keep (λ (t : Task). equals t.status q.status && is_targeted q.capabilities t) tasks))

abbrev pub list_of : Required → List String
list_of (listed xs) = xs
list_of r = []

abbrev pub is_for : Option String → Option String → Bool
is_for none target = true
is_for agent none = true
is_for (some agent) (some target) = target == agent

-- neither `continue` of the loop
unfoldable pub is_offered : Poll → Task → Bool
is_offered q t =
    let required = list_of (required_of t) in
    (is_empty q.capabilities || is_empty required || covers q.capabilities required)
    && is_for q.agent_id t.target_agent_id

abbrev pub with_required : Task → Task
with_required t = record t { required_capabilities = listed (list_of (required_of t)) }

-- the order of the key, a pair of the rank, 999 where it is absent, and the creation
abbrev pub ranks_before : Task → Task → Bool
ranks_before t u =
    let a = get_or t.priority_rank 999 in
    let b = get_or u.priority_rank 999 in ltb a b || (eqb a b && leb (created_at t) (created_at u))

-- The loop tests the limit after it has taken a task, so that it takes one where the limit is 0, if
-- the query had a row then.
unfoldable pub list_agent_tasks : Poll → List Task → List Task
unfolding fetch_tasks is_offered sort_by
list_agent_tasks q tasks =
    sort_by ranks_before
      (map with_required (take (max q.limit 1) (keep (is_offered q) (fetch_tasks q tasks))))

-- MATCH (t:Task) RETURN t.status AS st, count(t) AS c
abbrev pub same_status : Option String → Option String → Bool
same_status none none = true
same_status (some a) (some b) = a == b
same_status a b = false

unfoldable pub add_status : Option String → List (Option String × ℕ) → List (Option String × ℕ)
add_status st [] = (st, 1) ∷ []
add_status st ((s, c) ∷ counts) =
    if same_status s st then (s, suc c) ∷ counts else (s, c) ∷ add_status st counts

unfoldable pub task_counts_by_status : List Task → List (Option String × ℕ)
unfolding add_status
task_counts_by_status [] = []
task_counts_by_status (t ∷ tasks) = add_status t.status (task_counts_by_status tasks)

-- sum(by_status.values())
abbrev pub total_tasks : List (Option String × ℕ) → ℕ
total_tasks [] = 0
total_tasks ((s, c) ∷ counts) = c + total_tasks counts

abbrev pub is_finished : Task → Bool
is_finished t = equals t.status "DONE" || equals t.status "FAILED" || equals t.status "CANCELLED"

abbrev updated_at : Task → ℕ
updated_at t = get_or t.updated_at_ts 0

abbrev is_since : ℕ → Option ℕ → Bool
is_since since none = false
is_since since (some ts) = leb since ts

-- the tasks that ended within the window, the last first
unfoldable pub recent_completions : ℕ → List Task → List Task
unfolding sort_by
recent_completions since tasks = take 20 (
    sort_by (λ (t : Task) (u : Task). leb (updated_at u) (updated_at t))
      (keep (λ (t : Task). is_since since t.updated_at_ts && is_finished t) tasks))
