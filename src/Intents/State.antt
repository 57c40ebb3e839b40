-- ===== src/Intents/State.antt =====
-- The intents and their relationship CREATED_TASK: `get_unprocessed_intents` and
-- `mark_intent_orchestrated` of neo4j_client.py, and the routes of intent_orchestrator.py.
use auto_assist.Prelude.{
  ℕ, String, Bool, true, false, ◌&&◌, ◌||◌, Option, none, some, List, [], ◌∷◌, ◌==◌, keep, map,
  take, leb, get_or, strip, is_nonempty, update_if, if◌then◌else◌,
}
use auto_assist.Prelude.Sorting.{sort_by}
use auto_assist.Tasks.Graph.{Graph, Link}
use auto_assist.Tasks.Progress.{is_word}

-- `metadata_policy` is the `policy_action` of the metadata, if these can be read and have one.
pub record Intent : Type 0 where
  pub id : String
  pub text : String
  pub classification : Option String
  pub policy_action : Option String
  pub metadata_policy : Option String
  pub created_at_ts : Option ℕ
  pub orchestrated_at_ts : Option ℕ
  pub updated_at_ts : Option ℕ

pub record Store : Type 0 where
  pub queue : Graph
  pub intents : List Intent
  pub created_task : List Link

abbrev is_waiting : Option ℕ → Bool
is_waiting none = true
is_waiting (some ts) = false

-- ORDER BY i.created_at_ts ASC, where null comes last
abbrev comes_first : Intent → Intent → Bool
comes_first i j = elim j.created_at_ts [
  | none ↦ true
  | some b ↦ elim i.created_at_ts [ none ↦ false | some a ↦ leb a b ]
]

abbrev is_among : List String → String → Bool
is_among [] c = true
is_among (x ∷ xs) c = is_word (x ∷ xs) c

unfoldable pub get_unprocessed_intents : ℕ → List String → List Intent → List Intent
unfolding sort_by
get_unprocessed_intents limit classifications intents = take limit (
    sort_by comes_first (
      keep
        (λ (i : Intent).
          is_waiting i.orchestrated_at_ts
          && is_among classifications (get_or i.classification "unknown"))
        intents))

abbrev pub has_intent_id : String → Intent → Bool
has_intent_id id i = i.id == id

unfoldable pub mark_intent_orchestrated : ℕ → String → Store → Store
mark_intent_orchestrated now id s =
    let set =
      λ (i : Intent). record i { orchestrated_at_ts = some now; updated_at_ts = some now } in
    record s { intents = map (update_if (has_intent_id id) set) s.intents }

-- the first that is not blank
unfoldable pub intent_policy_action : Intent → String
unfolding strip
intent_policy_action i =
    let direct = strip (get_or i.policy_action "") in
    let policy = strip (get_or i.metadata_policy "") in
    if is_nonempty direct
    then direct
    else if is_nonempty policy
    then policy
    else "needs_clarification"

-- which handler `_process_intent` calls, if any; `reason` of a review is its text
pub data Route : Type 0 where
  nothing cancel query memory task : Route
  review : String → String → Route

-- `intent.get("classification") or CLASSIFICATION_UNKNOWN`
abbrev class_of : Intent → String
class_of i = let c = get_or i.classification "" in if c == "" then "unknown" else c

unfoldable pub route : Intent → Route
unfolding strip intent_policy_action
route i =
    let policy = intent_policy_action i in
    let class = class_of i in
    if strip i.text == ""
    then nothing
    else if class == "cancel"
    then (if policy == "review_cancel"
        then review policy "Cancellation intent below confidence threshold"
        else cancel)
    else if class == "query"
    then query
    else if class == "memory"
    then memory
    else if class == "task"
    then (if policy == "review_dispatch" || policy == "needs_clarification"
        then review policy "Task intent requires operator triage"
        else task)
    else if policy == "auto_dispatch_eligible"
    then task
    else review policy "Unknown intent classification requires review"
