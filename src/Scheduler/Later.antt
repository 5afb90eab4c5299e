-- ===== src/Scheduler/Later.antt =====
-- A container that was checked is not due again at once.
use freshdock.Prelude.{
  ℕ, zero, suc, ◌≤◌, ◌≡◌, refl, inl, inr, pos, false, Option, none, some, arith,
}
use freshdock.Labels.{Policy}
use freshdock.Labels.Values.{Mode, live, nightly, weekly, monthly, watch, off, Duration}
use freshdock.Cron.{CronExpr, floor_to_minute}
use freshdock.Cron.Next.{minutes_later, next_after-FirstFires}
use freshdock.Scheduler.{LocalTime, ContainerState, fire_after, fired, polled, due_in, due}
use freshdock.Scheduler.Tick.{advance}

-- Documented behaviour of the calendar library: an instant lies before the minute after its own,
-- and before that minute's later ones; no time lies between an instant and itself.
pub record Orderly {Instant : Type 0} (time : LocalTime Instant) : Type 0 where
  pub next_minute :
      (t whole : Instant)
      → floor_to_minute time.calendar t ≡ some whole
      → time.is_at_or_after t (time.calendar.plus_minute whole) ≡ false
  pub later_minute :
      (t u : Instant)
      → time.is_at_or_after t u ≡ false
      → time.is_at_or_after t (time.calendar.plus_minute u) ≡ false
  pub same_instant : (t : Instant) → time.signed_duration_since t t ≡ pos 0

module _ {Instant : Type 0} (time : LocalTime Instant) (orderly : Orderly time) where
  minutes_later-after :
      (k : ℕ) (t u : Instant)
      → time.is_at_or_after t u ≡ false
      → time.is_at_or_after t (minutes_later time.calendar k u) ≡ false
  minutes_later-after zero t u e = e
  minutes_later-after (suc k) t u e =
      minutes_later-after k t (time.calendar.plus_minute u) (orderly.later_minute t u e)

  fire_after-after :
      (cron : Option CronExpr) (now : Instant) → fired time (fire_after time cron now) now ≡ false
  unfolding fire_after
  fire_after-after none now = refl
  fire_after-after (some c) now = elim (next_after-FirstFires time.calendar c now) [
    | inl (unknown, nothing) ↦ rw (nothing) refl
    | inr (whole, is, why) ↦ elim why [
      | inr (never, nothing) ↦ rw (nothing) refl
      | inl (k, first, found) ↦ rw (found) (
          minutes_later-after k now (minutes_later time.calendar 1 whole)
            (orderly.next_minute now whole is))
    ]
  ]

  -- The bookkeeping ahead of an update leaves the container not due at the same instant, whatever its
  -- mode, where the poll interval is not zero.
  pub due-advance :
      (policy : Policy) (state : ContainerState Instant) (now : Instant) (poll_interval : Duration)
      → 1 ≤ poll_interval
      → due time policy (advance time policy.mode now state) now poll_interval ≡ false
  unfolding due advance
  due-advance policy state now poll_interval positive = due_in_mode policy.mode
    where
      polled_now : polled time (some now) now poll_interval ≡ false
      polled_now = rw (orderly.same_instant now) (ground arith)

      due_in_mode :
          (mode : Mode) → due_in time mode (advance time mode now state) now poll_interval ≡ false
      due_in_mode live = polled_now
      due_in_mode watch = polled_now
      due_in_mode nightly = fire_after-after state.cron now
      due_in_mode weekly = fire_after-after state.cron now
      due_in_mode monthly = fire_after-after state.cron now
      due_in_mode off = refl
