-- ===== src/Recreate.antt =====
-- src/docker/recreate.rs: the update of one container.
pub mod Swap
pub mod Hooks
pub mod Dependents
pub mod Cycle
pub mod Gated
pub mod OneShot
pub mod Untouched
pub mod Reattached
pub mod Outcomes
pub mod Repair
pub mod Ends
pub mod Kept
