-- ===== src/Examples.antt =====
-- Runs of the definitions on concrete inputs, and the theorems at such inputs.
mod Limits
pub mod Queue
mod Spoken
mod Fleets
mod Outboxes
pub mod Agents
pub mod Claiming
mod Statuses
mod Events
mod Projected
use auto_assist.Prelude.{String, ◌≡◌, ◌≢◌, false, arith, ◌==◌, eq_iff}

-- texts that the test tells apart
pub differ : (a b : String) → (a == b) ≡ false → a ≢ b
differ a b h e = ground (arith, (eq_iff a b).1 e, h)
