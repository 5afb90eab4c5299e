-- ===== src/Tests.antt =====
-- Runs of the code on small inputs, and the theorems applied to them.
mod Samples
mod Gates
mod Updates
mod Rollouts
mod Plans
mod Archives
mod Orders
mod Probes
mod Crons
mod Schedules
mod Configs
mod Clients
mod Commands
mod Daemons
