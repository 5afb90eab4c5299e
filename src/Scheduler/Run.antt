-- ===== src/Scheduler/Run.antt =====
-- `run_tick` and `run_with`: the ticks one after the other, and the end of the loop.
use freshdock.Prelude.{
  ℕ, Bool, not, ◌||◌, Option, none, some, List, [], ◌∷◌, Text, ok, err, keep, if◌then◌else◌,
}
use freshdock.Compose.{elem}
use freshdock.Config.{ResolvedSettings}
use freshdock.Daemon.Types.{ContainerSummary}
use freshdock.Daemon.Calls.{Daemon}
use freshdock.Daemon.Actions.{Action, pure, ◌>>=◌, onwards, list_running, is_shutdown}
use freshdock.Scheduler.{SchedulerConfig, LocalTime}
use freshdock.Scheduler.Summary.{RunSummary, empty_summary}
use freshdock.Scheduler.Tick.{Book, Pass, visit_listed}

-- What ends the wait of the loop: its ticker, or a change of the shutdown flag, whose sender may be
-- gone.
pub data Wake : Type 0 where
  ticked : Wake
  changed : (is_sender_alive : Bool) → Wake

-- A pass that came to its end, and one that a shutdown cut short.
pub data Ending (Instant : Type 0) : Type 0 where
  complete interrupted : Pass Instant → Ending Instant

pub data Stage (Instant : Type 0) : Type 0 where
  running stopped : Book Instant → Stage Instant

abbrev pub live_entries : {V : Type 0} → List Text → List (Text × V) → List (Text × V)
live_entries live m = keep (λ (k, v). elem k live) m

module _ {Instant : Type 0} where
  -- The entries of containers that are gone are dropped.
  unfoldable pub prune : Pass Instant → Book Instant
  prune p = record {
    states = live_entries p.live p.book.states;
    warned = keep (λ k. elem k p.live) p.book.warned;
    failed = live_entries p.live p.book.failed;
  }

  abbrev pub fresh_pass : Book Instant → Pass Instant
  fresh_pass book = record { book = book; live = []; handled = []; summary = empty_summary }

  unfoldable pub finish_tick : Option (Ending Instant) → Option (Book Instant × RunSummary)
  unfolding prune
  finish_tick none = none
  finish_tick (some (complete p)) = some (prune p, p.summary)
  finish_tick (some (interrupted p)) = some (p.book, p.summary)

  module _ (time : LocalTime Instant) (d : Daemon) (fuel : ℕ) (cfg : SchedulerConfig)
      (settings : ResolvedSettings) where
    -- The containers in turn, unless a shutdown is signalled.
    unfoldable pub visit_running :
        (now : Instant) → List ContainerSummary → Pass Instant → Action (Option (Ending Instant))
    unfolding visit_listed
    visit_running now [] p = pure (some (complete p))
    visit_running now (c ∷ cs) p = is_shutdown d >>= λ stop.
        if stop
        then pure (some (interrupted p))
        else visit_listed time d fuel cfg settings now c p >>= onwards (visit_running now cs)

    unfoldable pub run_tick : Book Instant → Action (Option (Book Instant × RunSummary))
    unfolding visit_running finish_tick
    run_tick book = list_running d >>= λ answer. elim answer [
      | err e ↦ pure (some (book, empty_summary))
      | ok containers ↦ λ h.
          (visit_running (time.now_provider h) containers (fresh_pass book) >>= λ ending.
          pure (finish_tick ending))
            h
    ]

    unfoldable pub run_with : List Wake → Book Instant → Action (Option (Stage Instant))
    unfolding run_tick
    run_with [] book = pure (some (running book))
    run_with (ticked ∷ wakes) book = is_shutdown d >>= λ stop.
        if stop
        then pure (some (stopped book))
        else run_tick book >>= onwards (λ (book', summary). run_with wakes book')
    run_with (changed is_sender_alive ∷ wakes) book = is_shutdown d >>= λ stop.
        if not is_sender_alive || stop then pure (some (stopped book)) else run_with wakes book

  -- The book of a scheduler that has just started.
  abbrev pub empty_book : Book Instant
  empty_book = record { states = []; warned = []; failed = [] }
