-- ===== src/Passive/Claims.antt =====
-- src/assistx/passive_claims.py: a passive claim of a task, its renewal, its release, its expiry
-- and the rollback of a claim that turns out not to be safe; the proofs stand in the last children.
pub mod Base
pub mod Create
pub mod Renew
pub mod Release
pub mod Expire
pub mod Grant
pub mod Rollback
pub mod Lease
pub mod Holder
pub mod Expiry
pub mod Sweep
pub mod Coherent
pub mod Reachable
