-- ===== src/Health.antt =====
-- src/health.rs: the health gate and the one-shot gate. Their loops poll until a verdict, here on
-- fuel: a round of the loop takes one unit, and `none` says that the fuel ran out.
pub mod Exit
pub mod Verdict
pub mod Ends
pub mod OneShot
use freshdock.Prelude.{ℕ, zero, suc, ◌-◌, Option, none, some, Text, ok, err, leb, if◌then◌else◌}
use freshdock.Labels.Values.{Duration, from_secs}
use freshdock.Daemon.Types.{
  ContainerRuntimeState, health_starting, health_healthy, health_unhealthy, running_no_healthcheck,
  exited, Fallible,
}
use freshdock.Daemon.Calls.{Daemon}
use freshdock.Daemon.Actions.{Action, ◌>>◌, probe_state, sleep}

pub data HealthOutcome : Type 0 where
  healthy timeout crashed : HealthOutcome

pub record HealthConfig : Type 0 where
  pub health_timeout : Duration
  pub grace_period : Duration
  pub poll_interval : Duration

-- `HealthConfig::default()`.
abbrev pub default_config : HealthConfig
default_config = record {
  health_timeout = from_secs 120;
  grace_period = from_secs 10;
  poll_interval = from_secs 1;
}

-- What one round decides: a verdict, or another round with this deadline for failed probes.
pub data Round : Type 0 where
  verdict : HealthOutcome → Round
  again : (error_deadline : Duration) → Round

-- The `match` on the answer of a probe. `elapsed` is `now - start` as the branch reads it.
unfoldable pub judge :
    HealthConfig → (elapsed error_deadline : ℕ) → Fallible ContainerRuntimeState → Round
judge cfg elapsed error_deadline (ok health_healthy) = verdict healthy
judge cfg elapsed error_deadline (ok (exited exit_code)) = verdict crashed
judge cfg elapsed error_deadline (ok health_starting) =
    if leb cfg.health_timeout elapsed then verdict timeout else again cfg.health_timeout
judge cfg elapsed error_deadline (ok health_unhealthy) =
    if leb cfg.health_timeout elapsed then verdict timeout else again cfg.health_timeout
judge cfg elapsed error_deadline (ok running_no_healthcheck) =
    if leb cfg.grace_period elapsed then verdict healthy else again cfg.grace_period
judge cfg elapsed error_deadline (err e) =
    if leb error_deadline elapsed then verdict timeout else again error_deadline

module _ (d : Daemon) (id : Text) where
  module _ (cfg : HealthConfig) (begin : ℕ) where
    -- A round after the first: its probe, its verdict, and the sleep before the next round.
    unfoldable pub poll : ℕ → Duration → Action (Option HealthOutcome)
    unfolding judge
    poll zero error_deadline h = (none, h)
    poll (suc fuel) error_deadline h =
        let (state, h') = probe_state d id h in
        elim (judge cfg (d.now h' - begin) error_deadline state) [
          | verdict outcome ↦ (some outcome, h')
          | again deadline ↦ (sleep d cfg.poll_interval >> poll fuel deadline) h'
        ]

  unfoldable pub wait_for_health : ℕ → HealthConfig → Action (Option HealthOutcome)
  unfolding poll
  wait_for_health fuel cfg h = poll cfg (d.now h) fuel cfg.health_timeout h
