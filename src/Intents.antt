-- ===== src/Intents.antt =====
-- src/assistx/intent_orchestrator.py: what becomes of an intent, on the queue of tasks.
pub mod Format
pub mod State
pub mod Gate
pub mod Review
pub mod Again
