-- ===== src/Passive.antt =====
-- The passive-agent coordination of src/assistx: passive_agents.py, passive_claims.py,
-- passive_control.py, passive_events.py and passive_status.py over one graph.
pub mod Graph
pub mod Candidate
pub mod Plan
pub mod Control
pub mod Claims
pub mod Status
