-- ===== src/Commands.antt =====
-- src/commands: what the commands do beside wiring the parts together. Recreate is
-- src/commands/recreate.rs, Check src/commands/check.rs; Gate and Probed are proofs.
pub mod Recreate
pub mod Gate
pub mod Check
pub mod Probed
