-- ===== src/Examples/Spoken.antt =====
-- src/assistx/intent_orchestrator.py at concrete intents.
use auto_assist.Prelude.{
  String, ◌≡◌, refl, Option, some, none, List, [], ◌∷◌, length, strip, if◌then◌else◌,
}
use auto_assist.Examples.Queue.{queue}
use auto_assist.Intents.Format.{format}
use auto_assist.Intents.State.{Intent, Store, review, route, intent_policy_action}
use auto_assist.Intents.Gate.{
  Chat, complexity_gate, plan_task, has_created, linked, simple, complexity_gate-plan_task,
}
use auto_assist.Intents.Review.{queue_intent_review}
use auto_assist.Intents.Again.{queue_intent_review-again}

abbrev wish : Intent
wish = record {
  id = "i-1";
  text = "build a dashboard";
  classification = some "task";
  policy_action = none;
  metadata_policy = some "review_dispatch";
  created_at_ts = some 1000;
  orchestrated_at_ts = none;
  updated_at_ts = none;
}

abbrev store : Store
store = record { queue = queue; intents = wish ∷ []; created_task = [] }

-- doubled braces are kept, a brace that is not doubled raises
format_doubled : format "{{\"a\"}} {text}" "b" ≡ some "{\"a\"} b"
unfolding format
format_doubled = refl

format_single : format "{\"a\": 1} {text}" "b" ≡ none
unfolding format
format_single = refl

routed : route wish ≡ review "review_dispatch" "Task intent requires operator triage"
unfolding route intent_policy_action strip
routed = refl

-- a model that finds everything complex
abbrev cautious : Chat
cautious = λ prompt. some (some "complex")

complexity_gate-plan_task_example :
    (complexity_gate cautious "build a dashboard" ≡ "simple")
    × (plan_task cautious wish store ≡ (if has_created wish store then linked else simple))
complexity_gate-plan_task_example = complexity_gate-plan_task cautious wish store

abbrev dumps : List (String × Option String) → String
dumps = λ fields. "{}"

queue_intent_review-again_example :
    let (s, ticket_id) =
      queue_intent_review dumps 2000 "u-1" wish "review_dispatch" "triage" store in
    let (s', ticket_id') = queue_intent_review dumps 3000 "u-2" wish "review_dispatch" "again" s in
    (ticket_id' ≡ ticket_id)
    × (length s'.queue.tasks ≡ length s.queue.tasks)
    × (s'.created_task ≡ s.created_task)
queue_intent_review-again_example =
    queue_intent_review-again dumps 2000 3000 "u-1" "u-2" wish "review_dispatch" "triage"
      "review_dispatch" "again" store
