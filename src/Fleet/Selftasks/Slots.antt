-- ===== src/Fleet/Selftasks/Slots.antt =====
-- hermes_agent_adapter.py: how many self-tasks are started.
use auto_assist.Prelude.{
  ℕ, zero, suc, ◌+◌, ◌-◌, min, max, String, ◌≡◌, refl, ap, not, List, [], ◌∷◌, ◌++◌, keep, length,
  length-take, length-append, arith,
}
use auto_assist.Fleet.Selftasks.{archetypes, effective_cap, cycle, is_running, launch_selftasks}

length-cycle : (n : ℕ) (rest : List String) → length (cycle n rest) ≡ n
unfolding cycle
length-cycle zero rest = refl
length-cycle (suc n) [] = ap suc (length-cycle n _)
length-cycle (suc n) (a ∷ rest) = ap suc (length-cycle n rest)

-- The self-tasks that are started fill the cap exactly, which is the least of what is asked for,
-- the configured concurrency and the number of healthy nodes, but at least one: with those that run
-- they are as many as the cap, or none are started where the cap is reached.
length-launch_selftasks :
    (max_n concurrency healthy : ℕ) (active : List String)
    → length (launch_selftasks max_n concurrency healthy active) + length active
      ≡ max (length active) (max 1 (min max_n (min concurrency healthy)))
unfolding launch_selftasks
length-launch_selftasks max_n concurrency healthy active =
    let slots = effective_cap max_n concurrency healthy - length active in
    let free = keep (λ (a : String). not (is_running active a)) archetypes in
    omega (
      arith,
      length-take slots (free ++ cycle (slots - length free) archetypes),
      length-append free (cycle (slots - length free) archetypes),
      length-cycle (slots - length free) archetypes,
    )
