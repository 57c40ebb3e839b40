-- ===== src/Swarm/Approval.antt =====
-- swarm_core.py: which actions of a voice command wait for an approval.
use auto_assist.Prelude.{
  String, ◌≡◌, ◌↔◌, Bool, true, false, ◌&&◌, ◌||◌, Option, none, some, List, [], ◌∷◌, ◌==◌, any,
  arith, strip, lower, if◌then◌else◌,
}

abbrev pub low_risk_actions : List String
low_risk_actions =
    "create_note" ∷ "draft_text" ∷ "search_memory" ∷ "summarize_context" ∷ "list_tasks"
    ∷ "create_draft_task" ∷ "classify_file" ∷ "enqueue_ingest_review" ∷ "local_model_analysis" ∷ []

-- `(x or d).strip().lower()`
abbrev pub normalized : Option String → String → String
normalized none d = lower (strip d)
normalized (some s) d = lower (strip (if s == "" then d else s))

abbrev pub is_low_risk : String → Bool
is_low_risk action_name =
    action_name == "" || any (λ (a : String). a == action_name) low_risk_actions

abbrev pub is_scott : String → Bool
is_scott state = state == "authenticated_scott" || state == "admin_override"

unfoldable pub action_requires_approval : Option String → Option String → String → Bool
action_requires_approval auth_state action risk_level =
    let state = normalized auth_state "unknown_speaker" in
    let action_name = normalized action "" in
    if normalized (some risk_level) "low" == "high"
    then true
    else if is_scott state && is_low_risk action_name
    then false
    else true

decided :
    (high scott low : Bool)
    → ((if high then true else if scott && low then false else true) ≡ false)
      ↔ ((scott ≡ true) × (low ≡ true) × (high ≡ false))
decided high scott low =
    (λ h. (ground arith, ground arith, ground arith), λ (a, b, c). rw (c, a, b))

-- An action needs no approval exactly when the speaker is authenticated as Scott or an override,
-- the action is none or one of the low-risk ones, and the risk is not high, each read without its
-- case and outer spaces.
action_requires_approval_iff :
    (auth_state action : Option String) (risk_level : String)
    → (action_requires_approval auth_state action risk_level ≡ false) ↔ (
        (is_scott (normalized auth_state "unknown_speaker") ≡ true)
        × (is_low_risk (normalized action "") ≡ true)
        × ((normalized (some risk_level) "low" == "high") ≡ false))
unfolding action_requires_approval
action_requires_approval_iff auth_state action risk_level =
    decided (normalized (some risk_level) "low" == "high")
      (is_scott (normalized auth_state "unknown_speaker")) (is_low_risk (normalized action ""))
