-- ===== src/Intents/Gate.antt =====
-- intent_orchestrator.py: the prompts, `_complexity_gate`, and `_handle_task` up to what it
-- creates.
use auto_assist.Prelude.{
  fstring, [], ◌∷◌, String, ◌≡◌, refl, ap, Bool, Option, none, some, ◌==◌, any, get_or,
  if◌then◌else◌,
}
use auto_assist.Tasks.Graph.{Task, is_link}
use auto_assist.Intents.State.{Intent, Store}
use auto_assist.Intents.Format.{format}

abbrev pub complexity_gate_prompt : String
complexity_gate_prompt = fstring (
    "You are a task complexity analyzer. Given a user's intent, determine if it's "
    ∷ "SIMPLE or COMPLEX.\n" ∷ "\n"
    ∷ "SIMPLE means: a single, well-defined action that can be completed as one task "
    ∷ "(e.g., \"send an email\", \"check the weather\", \"remind me to buy milk\", "
    ∷ "\"find a file\").\n" ∷ "\n"
    ∷ "COMPLEX means: requires research, planning, multiple steps, or involves building "
    ∷ "something substantial (e.g., \"build a dashboard\", \"create a project plan\", "
    ∷ "\"research and compare solutions\", \"design an architecture\", \"write a design "
    ∷ "doc\", anything with multiple deliverables or subtasks).\n" ∷ "\n"
    ∷ "Respond with JSON: {\"complexity\": \"simple\"|\"complex\", \"reason\": \"short "
    ∷ "explanation\"}\n" ∷ "\n" ∷ "Intent: {text}" ∷ [])

-- What the model answers to a prompt: `none` where the call raises, else its `complexity`, if any.
abbrev pub Chat : Type 0
Chat = String → Option (Option String)

abbrev answer : Option (Option String) → String
answer none = "simple"
answer (some complexity) = get_or complexity "complex"

abbrev ask : Chat → Option String → String
ask chat none = "simple"
ask chat (some prompt) = answer (chat prompt)

-- any exception gives "simple"
unfoldable pub complexity_gate : Chat → String → String
unfolding format
complexity_gate chat text = ask chat (format complexity_gate_prompt text)

-- MATCH (i:Intent {id:$id})-[:CREATED_TASK]->(t:Task)
abbrev pub has_created : Intent → Store → Bool
has_created i s = any (λ (t : Task). any (is_link i.id t.id) s.created_task) s.queue.tasks

-- what `_handle_task` goes on to: nothing where tasks are linked, or the creation of either kind
pub data Work : Type 0 where
  linked simple complex : Work

unfoldable pub plan_task : Chat → Intent → Store → Work
unfolding complexity_gate
plan_task chat i s =
    if has_created i s
    then linked
    else if complexity_gate chat i.text == "simple"
    then simple
    else complex

gate_simple : (chat : Chat) (text : String) → complexity_gate chat text ≡ "simple"
unfolding complexity_gate format
gate_simple chat text = refl

-- The complexity gate always answers "simple", whatever the language model would say: its prompt
-- has braces that `format` takes for a field that is not given, so that the model is never asked. A
-- task intent without linked tasks becomes a simple task, and the complex deliverable is never
-- made.
pub complexity_gate-plan_task :
    (chat : Chat) (i : Intent) (s : Store)
    → (complexity_gate chat i.text ≡ "simple")
      × (plan_task chat i s ≡ (if has_created i s then linked else simple))
unfolding plan_task
complexity_gate-plan_task chat i s = (
  gate_simple chat i.text,
  ap (λ (c : String). if has_created i s then linked else if c == "simple" then simple else complex)
      (gate_simple chat i.text),
)
