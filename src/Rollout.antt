-- ===== src/Rollout.antt =====
-- src/rollout.rs: the rollout of a Compose project.
pub mod Plan
pub mod Members
pub mod Decide
pub mod Report
pub mod Execute
pub mod Entry
pub mod Texts
pub mod Chosen
pub mod Values
pub mod Sound
pub mod Holds
pub mod Complete
pub mod Prefix
pub mod Ran
pub mod Claims
