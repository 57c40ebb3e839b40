-- ===== src/Passive/Plan/Policy.antt =====
-- passive_agents.py: what a plan never tells an agent to do, and the range of its times.
use auto_assist.Prelude.{
  ℕ, ◌+◌, ◌*◌, ◌≤◌, min, String, ◌≡◌, ◌≢◌, refl, ◌⊎◌, Bool, true, false, Option, none, some, List,
  [], ◌∷◌, arith, ◌==◌, eq_iff, inl, inr, Bool-cases, is_nonempty,
}
use auto_assist.Passive.Candidate.{Suggestion}
use auto_assist.Passive.Plan.{
  Request, CurrentTask, Lease, advisory_lease, plan_new_work, plan_idle, plan_for_status,
  next_heartbeat_seconds, task_of,
}

-- a lease runs for 60 to 7200 seconds from now, for a task that has a name
abbrev pub IsBounded : Request → Lease → Type 0
IsBounded q l =
    (60 ≤ l.max_work_seconds)
    × (l.max_work_seconds ≤ 7200)
    × (l.expires_at_ts ≡ q.now_ms + l.max_work_seconds * 1000)
    × (is_nonempty l.task_id ≡ true)

advisory_lease-IsBounded :
    (q : Request) (task : Option String) (n : ℕ) (l : Lease)
    → advisory_lease q task n ≡ some l
    → IsBounded q l
unfolding advisory_lease
advisory_lease-IsBounded q task n l h = ground arith

plan_new_work-IsBounded :
    (q : Request) (ss : List Suggestion) (l : Lease)
    → (plan_new_work q ss).lease ≡ some l
    → IsBounded q l
unfolding plan_new_work
plan_new_work-IsBounded q [] l h = cc
plan_new_work-IsBounded q (s ∷ ss) l h =
    advisory_lease-IsBounded q (some s.candidate.task_id) q.max_work_seconds l (ground arith)

plan_idle-IsBounded :
    (q : Request) (c : Option CurrentTask) (l : Lease)
    → (plan_idle q c).lease ≡ some l
    → IsBounded q l
unfolding plan_idle
plan_idle-IsBounded q none l h = plan_new_work-IsBounded q q.candidates l h
plan_idle-IsBounded q (some c) l h = ground (
  arith,
  advisory_lease-IsBounded q (some c.task_id) q.max_work_seconds l,
  plan_new_work-IsBounded q q.candidates l,
)

next_heartbeat-plan_new_work :
    (q : Request) (ss : List Suggestion)
    → (plan_new_work q ss).next_heartbeat_seconds ≡ next_heartbeat_seconds q.status q.user_active
unfolding plan_new_work
next_heartbeat-plan_new_work q [] = refl
next_heartbeat-plan_new_work q (s ∷ ss) = ground arith

next_heartbeat-plan_for_status :
    (q : Request)
    → (plan_for_status q).next_heartbeat_seconds ≡ next_heartbeat_seconds q.status q.user_active
unfolding plan_for_status plan_idle
next_heartbeat-plan_for_status q = ground (arith, next_heartbeat-plan_new_work q q.candidates)

next_heartbeat_seconds_bounds :
    (s : String) (b : Bool) → (10 ≤ next_heartbeat_seconds s b) × (next_heartbeat_seconds s b ≤ 300)
next_heartbeat_seconds_bounds s b = ground arith

lease-IsBounded : (q : Request) (l : Lease) → (plan_for_status q).lease ≡ some l → IsBounded q l
unfolding plan_for_status
lease-IsBounded q l h = ground (
  arith,
  advisory_lease-IsBounded q (task_of q.current_task) q.max_work_seconds l,
  advisory_lease-IsBounded q (task_of q.current_task) (min q.max_work_seconds 300) l,
  plan_idle-IsBounded q q.current_task l,
)

-- Every plan asks for the next heartbeat within 10 to 300 seconds, and a lease that it grants runs
-- for 60 to 7200 seconds from now and names a task.
plan_for_status_bounds :
    (q : Request)
    → (10 ≤ (plan_for_status q).next_heartbeat_seconds)
      × ((plan_for_status q).next_heartbeat_seconds ≤ 300)
      × ((l : Lease) → (plan_for_status q).lease ≡ some l → IsBounded q l)
plan_for_status_bounds q =
    let times = next_heartbeat_seconds_bounds q.status q.user_active in
    rw next_heartbeat-plan_for_status (times.0, times.1, lease-IsBounded q)

-- A plan for an agent that is offline, paused or interrupted, or that is idle, busy or draining
-- while a user is active, recommends no task and grants no lease.
plan_for_status_preempted :
    (q : Request)
    → ((q.status ≡ "offline") ⊎ (q.status ≡ "paused") ⊎ (q.status ≡ "interrupted"))
      ⊎ ((q.user_active ≡ true)
          × ((q.status ≡ "idle") ⊎ (q.status ≡ "busy") ⊎ (q.status ≡ "draining")))
    → ((plan_for_status q).recommended_task_id ≡ none) × ((plan_for_status q).lease ≡ none)
unfolding plan_for_status
plan_for_status_preempted q h = ground (
  arith,
  (eq_iff q.status "offline").1,
  (eq_iff q.status "paused").1,
  (eq_iff q.status "interrupted").1,
  (eq_iff q.status "idle").1,
  (eq_iff q.status "busy").1,
  (eq_iff q.status "draining").1,
)

recommended-plan_new_work :
    (q : Request) (ss : List Suggestion) (id : String)
    → (plan_new_work q ss).recommended_task_id ≡ some id
    → (s : Suggestion) × (rest : List Suggestion) × (ss ≡ s ∷ rest) × (s.candidate.task_id ≡ id)
unfolding plan_new_work
recommended-plan_new_work q [] id h = cc
recommended-plan_new_work q (s ∷ ss) id h = (s, ss, refl, ground arith)

-- the task that is resumed, or the first suggestion
abbrev pub IsSource : Request → String → Option CurrentTask → Type 0
IsSource q id current =
    ((c : CurrentTask) × (current ≡ some c) × (q.allow_resume_current ≡ true) × (c.task_id ≡ id))
    ⊎ ((s : Suggestion) × (rest : List Suggestion) × (q.candidates ≡ s ∷ rest)
        × (s.candidate.task_id ≡ id))

recommended-plan_idle :
    (q : Request) (current : Option CurrentTask) (id : String)
    → (plan_idle q current).recommended_task_id ≡ some id
    → IsSource q id current
unfolding plan_idle
recommended-plan_idle q none id h = inr (recommended-plan_new_work q q.candidates id h)
recommended-plan_idle q (some c) id h = elim (Bool-cases q.allow_resume_current) [
  | inl resumes ↦ inl (c, refl, resumes, ground arith)
  | inr drops ↦ inr (recommended-plan_new_work q q.candidates id (ground arith))
]

from_plan_idle :
    (q : Request) (id : String)
    → (plan_for_status q).recommended_task_id ≡ some id
    → ((plan_idle q q.current_task).recommended_task_id ≡ some id)
      × ((q.status == "busy") ≡ false)
      × ((q.status == "draining") ≡ false)
      × ((q.user_active ≡ false) ⊎ ((q.status == "idle") ≡ false))
unfolding plan_for_status
from_plan_idle q id h = (ground arith, ground arith, ground arith, ground arith)

-- A plan recommends a task only to an agent that is neither busy nor draining, and not to an idle
-- one while a user is active; the task is the agent's current one, when it may be resumed, or the
-- first suggestion.
pub plan_for_status-recommended :
    (q : Request) (id : String)
    → (plan_for_status q).recommended_task_id ≡ some id
    → (q.status ≢ "busy")
      × (q.status ≢ "draining")
      × ((q.user_active ≡ false) ⊎ (q.status ≢ "idle"))
      × IsSource q id q.current_task
plan_for_status-recommended q id h =
    let (idle, not_busy, not_draining, quiet) = from_plan_idle q id h in
    (
      λ e. ground (arith, eq_iff q.status "busy"),
      λ e. ground (arith, eq_iff q.status "draining"),
      elim quiet [
        | inl calm ↦ inl calm
        | inr other ↦ inr (λ e. ground (arith, eq_iff q.status "idle"))
      ],
      recommended-plan_idle q q.current_task id idle,
    )
