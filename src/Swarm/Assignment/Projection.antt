-- ===== src/Swarm/Assignment/Projection.antt =====
-- swarm_core.py: what an assignment event makes of its task.
use auto_assist.Prelude.{
  ℕ, String, ◌≡◌, refl, ap, ◌∙◌, inl, inr, true, false, not, Option, ◌||◌, none, some, List, [],
  ◌∷◌, ◌++◌, ◌==◌, eq_iff, eq_refl, any, map, arith, strip, Bool-cases, if_true, if_false,
}
use auto_assist.Swarm.Json.{Json, null, text, Fields, read, str_or_empty}
use auto_assist.Swarm.Assignment.{
  Task, Times, new_task, has_id, update_if, find_task, merge_task, has_lapsed, set_released, now_or,
  is_text, status_of, clears_claim, set_assignment, project_assignment_event,
  release_expired_task_leases,
}
use auto_assist.Swarm.Assignment.Leases.{find_task-map, sweep_always, id-kept}

module _ (id : String) (f : Task → Task) (same : (t : Task) → (f t).id ≡ t.id) where
  found-map :
      (tasks : List Task)
      → any (has_id id) tasks ≡ true
      → (t : Task) × (find_task id (map (update_if (has_id id) f) tasks) ≡ some (f t))
  unfolding find_task
  found-map [] h = ground arith
  found-map (u ∷ tasks) h = elim (Bool-cases (has_id id u)) [
    | inl hit ↦
        (u, if_true _ _ _ (id-kept (has_id id) f id same u ∙ hit) ∙ ap some (if_true _ _ _ hit))
    | inr miss ↦
        let (t, e) = found-map tasks (ground arith) in
        (t, if_false _ _ _ (id-kept (has_id id) f id same u ∙ miss) ∙ e)
  ]

  found-append :
      (tasks : List Task) (u : Task)
      → any (has_id id) tasks ≡ false
      → has_id id u ≡ true
      → find_task id (tasks ++ u ∷ []) ≡ some u
  unfolding find_task
  found-append [] u h e = rw e
  found-append (t ∷ tasks) u h e = ground (arith, found-append tasks u)

  -- the task that a MERGE by id sets
  find_task-merge :
      (tasks : List Task) → (t : Task) × (find_task id (merge_task id f tasks) ≡ some (f t))
  unfolding merge_task
  find_task-merge tasks = elim (Bool-cases (any (has_id id) tasks)) [
    | inl known ↦
        let (t, e) = found-map tasks known in (t, ap (find_task id) (if_true _ _ _ known) ∙ e)
    | inr new ↦ (
      new_task id,
      ap (find_task id) (if_false _ _ _ new)
          ∙ found-append tasks (f (new_task id)) new
              (ap (λ (j : String). j == id) (same (new_task id)) ∙ eq_refl id),
    )
  ]

status_of-cleared :
    (event_type : String) (status : Json)
    → clears_claim event_type ≡ true
    → status_of event_type status ≡ text "READY"
unfolding status_of
status_of-cleared event_type status h = elim (Bool-cases (event_type == "assignment.released")) [
  | inl a ↦ ap (λ (e : String). status_of e status) ((eq_iff event_type "assignment.released").0 a)
  | inr n ↦
      ap (λ (e : String). status_of e status)
        ((eq_iff event_type "assignment.expired").0 (ground arith))
]

status_of-heartbeat :
    (event_type : String) (status : Json) (s : String)
    → event_type ≡ "assignment.heartbeat"
    → status ≡ text s
    → (s == "") ≡ false
    → status_of event_type status ≡ text s
unfolding status_of
status_of-heartbeat event_type status s h k nonempty =
    ap (λ (e : String). status_of e status) h
    ∙ ap (status_of "assignment.heartbeat") k
    ∙ if_true _ _ (not (s == "")) (ground arith)

has_lapsed-other :
    (later : ℕ) (t : Task) (s : String)
    → t.status ≡ text s
    → ((s == "") || (s == "CLAIMED") || (s == "RUNNING")) ≡ false
    → has_lapsed later t ≡ false
has_lapsed-other later t s h other =
    ground (arith, ap (is_text "CLAIMED") h, ap (is_text "RUNNING") h)

abbrev pub task_id_of : Fields → String
task_id_of payload = strip (str_or_empty (read "task_id" payload))

abbrev pub event_type_of : Fields → String
event_type_of event = str_or_empty (read "event_type" event)

module _ (times : Times) (now_ms : ℕ) (event payload : Fields) (tasks : List Task) where
  abbrev projected : List Task
  projected = project_assignment_event times now_ms true event payload tasks

  blank : ((task_id_of payload) == "") ≡ false → ((task_id_of payload) == "" || not true) ≡ false
  blank h = ground (arith, h)

  -- the task of the event after its SET
  projected-task :
      ((task_id_of payload) == "") ≡ false
      → (t : Task) × (find_task (task_id_of payload) projected
          ≡ some (set_assignment times now_ms (event_type_of event) event payload t))
  unfolding project_assignment_event set_assignment
  projected-task h =
      let (t, e) =
        find_task-merge (task_id_of payload)
          (set_assignment times now_ms (event_type_of event) event payload) (λ (u : Task). refl)
          tasks in
      (t, ap (find_task (task_id_of payload)) (if_false tasks _ _ (blank h)) ∙ e)

  -- A released or expired assignment with a task id leaves its task READY, without a claim, a
  -- claimer, a session or a lease, whatever else the payload says.
  project_assignment_event-cleared :
      ((task_id_of payload) == "") ≡ false
      → clears_claim (event_type_of event) ≡ true
      → (t : Task) × (find_task (task_id_of payload) projected ≡ some t)
        × (t.status ≡ text "READY")
        × (t.claim_id ≡ null)
        × (t.claimed_by ≡ null)
        × (t.agent_session_id ≡ null)
        × (t.lease_expires_at_ts ≡ none)
  unfolding set_assignment
  project_assignment_event-cleared h ends =
      let (t, e) = projected-task h in
      (
        _,
        e,
        status_of-cleared (event_type_of event) (read "status" payload) ends,
        rw ends,
        rw ends,
        rw ends,
        rw ends,
      )

  -- A heartbeat with a recorded envelope and a task id that is not blank writes the payload's status
  -- on the task as it is, where that is a text and not empty. If it is neither CLAIMED nor RUNNING,
  -- as "running", no sweep of the expired leases gives the task back, at whatever time it comes and
  -- with or without a time of its own: the task stays exactly as the heartbeat left it.
  pub project_assignment_event-unswept :
      (s : String) (sweep : Option ℕ) (clock : ℕ)
      → ((task_id_of payload) == "") ≡ false
      → (event_type_of event) ≡ "assignment.heartbeat"
      → read "status" payload ≡ text s
      → ((s == "") || (s == "CLAIMED") || (s == "RUNNING")) ≡ false
      → (t : Task) × (find_task (task_id_of payload) projected ≡ some t)
        × (t.status ≡ text s)
        × (find_task (task_id_of payload) (release_expired_task_leases sweep clock projected).0
            ≡ some t)
  unfolding set_assignment
  project_assignment_event-unswept s sweep clock h beats reads other =
      let (t, e) = projected-task h in
      let u = set_assignment times now_ms (event_type_of event) event payload t in
      let later = now_or sweep clock in
      let status =
        status_of-heartbeat (event_type_of event) (read "status" payload) s beats reads
          (ground arith) in
      (
        u,
        e,
        status,
        ap (find_task (task_id_of payload)) (sweep_always sweep clock projected)
            ∙ find_task-map (has_lapsed later) (set_released clock) (task_id_of payload)
                (λ (v : Task). refl) projected u e
            ∙ ap some (if_false _ _ _ (has_lapsed-other later u s status other)),
      )
