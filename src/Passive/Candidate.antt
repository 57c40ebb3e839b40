-- ===== src/Passive/Candidate.antt =====
-- src/assistx/passive_agents.py: what a task looks like as passive work, whether it is safe,
-- whether an agent can do it, its rank, and the suggestions for an idle agent.
pub mod Safety
pub mod Ranking
use Prim.Native.String.{◌∷◌ as cons_char, [] as no_text}
use Prim.Native.Char.{Char, code}
use auto_assist.Prelude.{
  ℕ, suc, ◌+◌, ◌-◌, ◌*◌, ◌/◌, min, String, Bool, true, false, not, ◌&&◌, ◌||◌, Option, none, some,
  List, [], ◌∷◌, map, ◌==◌, eqb, leb, coalesce, get_or, any, all, keep, take, length, is_nonempty,
  or_default, lower, upper, strip, if◌then◌else◌,
}
use auto_assist.Passive.Graph.{Required, Extra, Details, Task, key, equals}
use auto_assist.Prelude.Int.{ℤ, pos}

pub record Candidate : Type 0 where
  pub task_id : String
  pub title : String
  pub status : String
  pub kind : Option String
  pub priority : Option String
  pub queue_class : String
  pub required_capabilities : List String
  pub privacy : String
  pub local_only : Bool
  pub sensitive : Bool
  pub created_at_ts : Option ℕ
  pub updated_at_ts : Option ℕ
  pub age_seconds : ℕ

-- Python's `a or b` on texts and on times, where an empty text and a zero are false
abbrev pub or_text : Option String → Option String → Option String
or_text none y = y
or_text (some s) y = if s == "" then y else some s

abbrev pub or_time : Option ℕ → Option ℕ → Option ℕ
or_time none y = y
or_time (some n) y = if eqb n 0 then y else some n

abbrev pub or_required : Required → Required → Required
or_required Required.absent y = y
or_required (Required.listed []) y = y
or_required (Required.listed (x ∷ xs)) y = Required.listed (x ∷ xs)
or_required (Required.text s) y = if s == "" then y else Required.text s
or_required Required.other y = Required.other

push_char : Char → List String → List String
push_char c [] = cons_char c no_text ∷ []
push_char c (s ∷ rest) = cons_char c s ∷ rest

-- s.split(",")
split_commas : String → List String
unfolding push_char
split_commas String.[] = "" ∷ []
split_commas (String.◌∷◌ c s) =
    let rest = split_commas s in if eqb (code c) b',' then "" ∷ rest else push_char c rest

-- a text is split at its commas; what is no list then counts as empty
names_of : Required → List String
unfolding split_commas
names_of Required.absent = []
names_of (Required.listed xs) = xs
names_of (Required.text s) = keep is_nonempty (map strip (split_commas s))
names_of Required.other = []

abbrev pub is_in : List String → String → Bool
is_in xs s = any (λ (x : String). x == s) xs

abbrev local_privacies : List String
local_privacies = "local_only" ∷ "private" ∷ "secret" ∷ []

abbrev sensitive_privacies : List String
sensitive_privacies = "private" ∷ "secret" ∷ "voice_auth" ∷ "enrollment" ∷ "enrollment_sample" ∷ []

-- now - (created or updated or now), in whole seconds and at least 0
abbrev age : ℕ → Option ℕ → Option ℕ → ℕ
age now_ms created updated =
    (now_ms - get_or (or_time created (or_time updated none)) now_ms) / 1000

unfoldable pub normalize_idle_candidate : Task → ℕ → Candidate
unfolding names_of
normalize_idle_candidate t now_ms =
    let own = t.details.own in
    let payload = t.details.payload in
    let metadata = t.details.metadata in
    let privacy = lower (
      get_or
        (or_text own.privacy
          (or_text t.details.privacy_label (or_text payload.privacy metadata.privacy)))
        "") in
    let title = or_default (or_text own.title (or_text payload.title t.id)) "AssistX task" in
    let created = or_time own.created_at_ts payload.created_at_ts in
    let updated = or_time own.updated_at_ts payload.updated_at_ts in
    record {
      task_id = or_default (or_text t.id t.task_id) title;
      title = title;
      status = or_default t.status "UNKNOWN";
      kind = or_text own.kind payload.kind;
      priority = or_text own.priority payload.priority;
      queue_class =
          or_default (or_text payload.queue_class (or_text own.queue_class metadata.queue_class))
            "background";
      required_capabilities = names_of (or_required own.required payload.required);
      privacy = privacy;
      local_only =
          own.local_only
          || payload.local_only
          || metadata.local_only
          || is_in local_privacies privacy;
      sensitive =
          own.sensitive
          || payload.sensitive
          || metadata.sensitive
          || is_in sensitive_privacies privacy;
      created_at_ts = created;
      updated_at_ts = updated;
      age_seconds = age now_ms created updated;
    }

-- status.upper() in {"READY", "REVIEW"}
unfoldable pub is_idle_status : String → Bool
is_idle_status s = let up = upper s in up == "READY" || up == "REVIEW"

unfoldable pub is_passive_safe : Candidate → Bool
is_passive_safe c =
    if c.sensitive || c.local_only
    then false
    else let queue = lower (if c.queue_class == "" then "background" else c.queue_class) in
      if queue == "critical" || queue == "interactive" then false else is_idle_status c.status

unfoldable pub capabilities_match : Candidate → List String → Bool
capabilities_match c capabilities =
    let available = map lower capabilities in
    all (is_in available) (map lower c.required_capabilities)

-- The scores that are taken from 1000; no sum of them passes it.
abbrev priority_bonus : String → ℕ
priority_bonus p =
    if p == "HIGH" then 250 else if p == "MEDIUM" then 150 else if p == "LOW" then 50 else 0

abbrev queue_bonus : String → ℕ
queue_bonus q =
    if q == "batch"
    then 70
    else if q == "backlog"
    then 60
    else if q == "background"
    then 40
    else if q == "docs"
    then 30
    else 0

abbrev status_bonus : String → ℕ
status_bonus s = if s == "REVIEW" then 30 else 0

unfoldable pub rank_candidate : Candidate → ℕ
rank_candidate c =
    1000
    - priority_bonus (upper (get_or c.priority ""))
    - queue_bonus (lower (if c.queue_class == "" then "background" else c.queue_class))
    - status_bonus (upper c.status)
    - min (c.age_seconds / 3600) 72
    + length c.required_capabilities * 5

-- the key of ORDER BY: the priority's place, then the age
abbrev priority_place : Option String → ℕ
priority_place p =
    if equals p "HIGH" then 0 else if equals p "MEDIUM" then 1 else if equals p "LOW" then 2 else 3

abbrev stamp : Task → ℕ
stamp t = get_or (coalesce t.details.own.created_at_ts t.details.own.updated_at_ts) 0

abbrev task_before : Task → Task → Bool
task_before t u =
    let p = priority_place t.details.own.priority in
    let q = priority_place u.details.own.priority in
    leb (suc p) q || (eqb p q && leb (stamp t) (stamp u))

insert_task : Task → List Task → List Task
insert_task t [] = t ∷ []
insert_task t (u ∷ us) = if task_before t u then t ∷ u ∷ us else u ∷ insert_task t us

pub order_tasks : List Task → List Task
unfolding insert_task
order_tasks [] = []
order_tasks (t ∷ ts) = insert_task t (order_tasks ts)

-- $current_task_id IS NULL OR t.id <> $current_task_id
abbrev differs : Option String → Option String → Bool
differs none id = true
differs (some k) none = false
differs (some k) (some j) = not (j == k)

-- t.status IN ['READY','REVIEW'] AND …
abbrev pub is_fetched : Option String → Task → Bool
is_fetched current t = (equals t.status "READY" || equals t.status "REVIEW") && differs current t.id

pub record Suggestion : Type 0 where
  pub candidate : Candidate
  pub rank_score : ℕ

-- the loop over the rows
unfoldable pub suggest_from : ℕ → List String → List Task → List Suggestion
suggest_from now_ms capabilities [] = []
suggest_from now_ms capabilities (t ∷ ts) =
    let item = normalize_idle_candidate t now_ms in
    let rest = suggest_from now_ms capabilities ts in
    if is_passive_safe item && capabilities_match item capabilities
    then record { candidate = item; rank_score = rank_candidate item } ∷ rest
    else rest

pub insert_ranked : Suggestion → List Suggestion → List Suggestion
insert_ranked s [] = s ∷ []
insert_ranked s (r ∷ rs) =
    if leb s.rank_score r.rank_score then s ∷ r ∷ rs else r ∷ insert_ranked s rs

-- out.sort(key=rank_score), a stable sort
unfoldable pub sort_ranked : List Suggestion → List Suggestion
unfolding insert_ranked
sort_ranked [] = []
sort_ranked (s ∷ ss) = insert_ranked s (sort_ranked ss)

unfoldable pub suggest_idle_work : List Task → List String → ℕ → Option String → ℕ → List Suggestion
unfolding order_tasks
suggest_idle_work tasks capabilities limit current now_ms = take limit (
    sort_ranked (
      suggest_from now_ms capabilities
        (take (limit * 5) (order_tasks (keep (is_fetched current) tasks)))))
