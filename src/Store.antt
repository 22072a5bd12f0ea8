-- ===== src/Store.antt =====
-- store.py: the job and artifact store.
pub mod Records
pub mod State
pub mod Queue
pub mod Absence
pub mod Deletion
pub mod Sweep
pub mod Artifacts
pub mod Loading
pub mod Dicts
pub mod Steps
pub mod Calls
pub mod Promotion
pub mod Keeps
pub mod Creation
pub mod Wiping
pub mod Retries
pub mod Outcomes
