-- ===== src/Fleet.antt =====
-- src/assistx/fleet.py: the registry of nodes and models, what it learns of them, and the routing.
pub mod Names
pub mod Params
pub mod State
pub mod Discover
pub mod Outcome
pub mod Health
pub mod Value
pub mod Score
pub mod Select
pub mod Report
pub mod Selftasks
