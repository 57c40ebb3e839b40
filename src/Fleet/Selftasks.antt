-- ===== src/Fleet/Selftasks.antt =====
-- src/assistx/agents/hermes_agent_adapter.py: `_launch_selftasks`, which starts self-tasks in
-- threads, and the places where `process_self_task` takes and frees a slot of a node.
pub mod Slots
pub mod Overload
use auto_assist.Prelude.{
  ℕ, zero, suc, ◌+◌, ◌-◌, min, max, String, Bool, true, false, not, ◌&&◌, Option, none, some, List,
  [], ◌∷◌, ◌++◌, ◌==◌, any, keep, take, length, if◌then◌else◌,
}
use auto_assist.Fleet.Names.{strip_prefix, prefix, node_of}
use auto_assist.Fleet.State.{Fleet}
use auto_assist.Fleet.Outcome.{mark_selftask_dispatched, mark_selftask_done}

abbrev pub archetypes : List String
archetypes = "bulk_summarize" ∷ "session_compress" ∷ "corpus_extract" ∷ "triage" ∷ "ideation" ∷ []

abbrev pub effective_cap : ℕ → ℕ → ℕ → ℕ
effective_cap max_n concurrency healthy = max 1 (min max_n (min concurrency healthy))

-- `while len(free) < slots`: `n` more archetypes, in turn
unfoldable pub cycle : ℕ → List String → List String
cycle zero rest = []
cycle (suc n) [] =
    "bulk_summarize" ∷ cycle n ("session_compress" ∷ "corpus_extract" ∷ "triage" ∷ "ideation" ∷ [])
cycle (suc n) (a ∷ rest) = a ∷ cycle n rest

abbrev pub is_running : List String → String → Bool
is_running active a = any (λ (x : String). x == a) active

-- The archetypes of the self-tasks that are started, from those that run. The list of free ones is
-- shorter than the slots only where it is filled up.
unfoldable pub launch_selftasks : ℕ → ℕ → ℕ → List String → List String
unfolding cycle
launch_selftasks max_n concurrency healthy active =
    let slots = effective_cap max_n concurrency healthy - length active in
    let free = keep (λ (a : String). not (is_running active a)) archetypes in
    take slots (free ++ cycle (slots - length free) archetypes)

unfoldable pub is_routed : String → Bool
unfolding strip_prefix
is_routed full_id = elim (strip_prefix prefix full_id) [ none ↦ false | some rest ↦ true ]

-- before and after the call of the model
unfoldable pub take_slot : {W : Type 0} → String → Fleet W → Fleet W
unfolding mark_selftask_dispatched
take_slot full_id f = if is_routed full_id then mark_selftask_dispatched (node_of full_id) f else f

unfoldable pub free_slot : {W : Type 0} → String → Fleet W → Fleet W
unfolding mark_selftask_done
free_slot full_id f = if is_routed full_id then mark_selftask_done (node_of full_id) f else f
