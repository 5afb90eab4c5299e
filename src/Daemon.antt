-- ===== src/Daemon.antt =====
-- What src/docker/recreate.rs, src/health.rs, src/probe.rs and src/scheduler.rs see of the outside:
-- the traits `DockerOps`, `DockerCheck`, `HealthProbe`, `Clock` and `Registry`, the dispatcher of
-- notifications and the shutdown flag. A daemon answers each call by any function of the calls
-- before it, so a theorem over all daemons holds whatever a real one answers, errors included.
pub mod Types
pub mod Calls
pub mod Actions
pub mod Laws
