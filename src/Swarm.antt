-- ===== src/Swarm.antt =====
-- src/assistx/swarm_core.py: the events of the swarm, the tasks they project on and their traces.
pub mod Json
pub mod Envelope
pub mod Approval
pub mod Assignment
pub mod Trace
pub mod Registry
