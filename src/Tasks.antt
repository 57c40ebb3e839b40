-- ===== src/Tasks.antt =====
-- src/assistx/neo4j_client.py: the queue of tasks that agents claim, work on and complete.
pub mod Graph
pub mod Create
pub mod Claim
pub mod Progress
pub mod Listing
pub mod Taken
pub mod Exclusive
