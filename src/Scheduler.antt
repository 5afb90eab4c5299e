-- ===== src/Scheduler.antt =====
-- src/scheduler.rs: the state of a container, and when it is due. Summary, Apply, Process, Tick and
-- Run hold what a tick does with it.
pub mod Summary
pub mod Apply
pub mod Process
pub mod Tick
pub mod Run
pub mod Calm
pub mod Fleet
pub mod Advances
pub mod Live
pub mod Memory
pub mod Later
pub mod Verdicts
pub mod Announce
use freshdock.Prelude.{
  ℕ, ◌*◌, ◌-◌, ◌^◌, ℤ, pos, negsuc, Bool, true, false, Option, none, some, Text, codes, ok, err,
  leb, if◌then◌else◌,
}
use freshdock.Labels.Values.{Mode, live, nightly, weekly, monthly, watch, off, Duration}
use freshdock.Labels.{Policy}
use freshdock.Daemon.Calls.{History}
use freshdock.Health.{HealthConfig}
use freshdock.Cron
use freshdock.Cron.{CronExpr, Calendar, next_after}

pub record SchedulerConfig : Type 0 where
  pub poll_interval : Duration
  pub tick : Duration
  pub health : HealthConfig
  pub own_id_prefix : Option Text

-- What the code uses of `DateTime<Local>`, with the wall clock that it is given: `>=`, the
-- nanoseconds between two instants, and the timestamp in seconds.
pub record LocalTime (Instant : Type 0) : Type 0 where
  pub calendar : Calendar Instant
  pub now_provider : History → Instant
  pub is_at_or_after : Instant → Instant → Bool
  pub signed_duration_since : Instant → Instant → ℤ
  pub timestamp : Instant → ℤ

unfoldable pub default_schedule : Mode → Option Text
default_schedule nightly = some (codes "0 4 * * *")
default_schedule weekly = some (codes "0 4 * * 0")
default_schedule monthly = some (codes "0 4 1 * *")
default_schedule _ = none

abbrev pub is_cron_mode : Mode → Bool
is_cron_mode nightly = true
is_cron_mode weekly = true
is_cron_mode monthly = true
is_cron_mode _ = false

abbrev pub or_default : Option Text → Mode → Option Text
or_default (some schedule) mode = some schedule
or_default none mode = default_schedule mode

unfoldable pub cron_for : Policy → Option CronExpr
unfolding default_schedule
cron_for policy =
    if is_cron_mode policy.mode
    then elim (or_default policy.schedule policy.mode) [
      | none ↦ none
      | some expr ↦ elim (Cron.parse expr) [ ok c ↦ some c | err e ↦ none ]
    ]
    else none

-- The longest `TimeDelta` is 2^63 - 1 milliseconds.
abbrev pub max_delta : ℕ
max_delta = (2 ^ 63 - 1) * 1000000

abbrev pub to_delta : Duration → ℕ
to_delta d = if leb d max_delta then d else max_delta

-- `delta >= limit`
abbrev pub reached : (delta : ℤ) (limit : ℕ) → Bool
reached (pos n) limit = leb limit n
reached (negsuc n) limit = false

pub record ContainerState (Instant : Type 0) : Type 0 where
  pub last_checked : Option Instant
  pub next_fire : Option Instant
  pub cron : Option CronExpr
  pub last_notified_digest : Option Text
  pub unknown_digest_warned : Bool

module _ {Instant : Type 0} (time : LocalTime Instant) where
  unfoldable pub fire_after : Option CronExpr → (now : Instant) → Option Instant
  fire_after none now = none
  fire_after (some c) now = next_after time.calendar c now

  unfoldable pub seed_state : Policy → (now : Instant) → ContainerState Instant
  unfolding cron_for fire_after
  seed_state policy now = record {
    last_checked = none;
    next_fire = fire_after (cron_for policy) now;
    cron = cron_for policy;
    last_notified_digest = none;
    unknown_digest_warned = false;
  }

  abbrev pub polled : Option Instant → (now : Instant) → Duration → Bool
  polled none now poll_interval = true
  polled (some t) now poll_interval =
      reached (time.signed_duration_since now t) (to_delta poll_interval)

  abbrev pub fired : Option Instant → (now : Instant) → Bool
  fired none now = false
  fired (some nf) now = time.is_at_or_after now nf

  abbrev pub due_in :
      Mode → ContainerState Instant → (now : Instant) (poll_interval : Duration) → Bool
  due_in live state now poll_interval = polled state.last_checked now poll_interval
  due_in watch state now poll_interval = polled state.last_checked now poll_interval
  due_in nightly state now poll_interval = fired state.next_fire now
  due_in weekly state now poll_interval = fired state.next_fire now
  due_in monthly state now poll_interval = fired state.next_fire now
  due_in off state now poll_interval = false

  unfoldable pub due :
      Policy → ContainerState Instant → (now : Instant) (poll_interval : Duration) → Bool
  due policy state now poll_interval = due_in policy.mode state now poll_interval
