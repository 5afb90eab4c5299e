-- ===== src/Scheduler/Tick.antt =====
-- `run_tick`: one pass over the running containers. The result is `none` where the fuel of a gate ran
-- out.
use freshdock.Prelude.{
  ℕ, Bool, true, false, not, ◌&&◌, ◌||◌, Option, none, some, List, [], ◌∷◌, ◌++◌, Text, ok, err,
  lookup, any, if◌then◌else◌, Result,
}
use freshdock.Prelude.Maps.{put, delete}
use freshdock.Compose.{Labels, elem}
use freshdock.Labels.{Policy, parse_policy}
use freshdock.Labels.Values.{Mode, live, nightly, weekly, monthly, watch, off, LabelError}
use freshdock.Names.{is_archive_name, is_own_container}
use freshdock.Config.{ResolvedSettings, policy_defaults}
use freshdock.Docker.{container_name}
use freshdock.Daemon.Types.{ContainerSummary, Fallible}
use freshdock.Daemon.Calls.{Daemon}
use freshdock.Daemon.Actions.{Action, pure, ◌>>=◌}
use freshdock.Probe.Outcome.{ProbeTarget, resolve_target}
use freshdock.Scheduler.{SchedulerConfig, LocalTime, ContainerState, fire_after, seed_state, due}
use freshdock.Scheduler.Summary.{Verdict, digest_known, is_unknown, RunSummary, record_verdict}
use freshdock.Scheduler.Apply.{UpdateOutcome, rejected, landed, Processed}
use freshdock.Scheduler.Process.{process_container}

-- `HashSet::insert`
abbrev pub include : Text → List Text → List Text
include k xs = if elem k xs then xs else k ∷ xs

-- What the loop over ticks keeps, and what one tick adds to it.
pub record Book (Instant : Type 0) : Type 0 where
  pub states : List (Text × ContainerState Instant)
  pub warned : List Text
  pub failed : List (Text × Text)

pub record Pass (Instant : Type 0) : Type 0 where
  pub book : Book Instant
  pub live : List Text
  pub handled : List Text
  pub summary : RunSummary

abbrev pub labels_of : ContainerSummary → Labels
labels_of c = elim c.labels [ none ↦ [] | some labels ↦ labels ]

abbrev pub put_all :
    (digest : Text) (containers : List Text) → List (Text × Text) → List (Text × Text)
put_all digest [] m = m
put_all digest (c ∷ cs) m = put_all digest cs (put c digest m)

abbrev pub delete_all : (containers : List Text) → List (Text × Text) → List (Text × Text)
delete_all [] m = m
delete_all (c ∷ cs) m = delete_all cs (delete c m)

-- What an update's outcome changes in the digests that failed.
unfoldable pub remember : Option UpdateOutcome → List (Text × Text) → List (Text × Text)
unfolding put delete
remember (some (rejected digest containers)) m = put_all digest containers m
remember (some (landed containers)) m = delete_all containers m
remember none m = m

unfoldable pub record_all : List Verdict → Mode → RunSummary → RunSummary
unfolding record_verdict
record_all [] mode s = s
record_all (v ∷ vs) mode s = record_all vs mode (record_verdict v mode s)

-- Whether the warning about an unknown digest has been logged.
abbrev pub warned_after : List Verdict → Bool → Bool
warned_after verdicts was =
    if any is_unknown verdicts then true else (if any digest_known verdicts then false else was)

abbrev pub is_off_mode : Mode → Bool
is_off_mode off = true
is_off_mode _ = false

module _ {Instant : Type 0} where
  abbrev pub with_live : Text → Pass Instant → Pass Instant
  with_live name p = record p { live = include name p.live }

  abbrev pub with_warned : Text → Pass Instant → Pass Instant
  with_warned name p = record p {
    book = record p.book { warned = include name p.book.warned };
    live = include name p.live;
  }

  abbrev pub with_state : Text → ContainerState Instant → Pass Instant → Pass Instant
  with_state name state p = record p {
    book = record p.book { states = put name state p.book.states };
  }

  -- Is the container one that polls, and not one with a calendar?
  abbrev pub checked_at : Mode → Instant → ContainerState Instant → ContainerState Instant
  checked_at live now state = record state { last_checked = some now }
  checked_at watch now state = record state { last_checked = some now }
  checked_at _ now state = state

module _ {Instant : Type 0} (time : LocalTime Instant) where
  -- The bookkeeping ahead of an update.
  unfoldable pub advance : Mode → Instant → ContainerState Instant → ContainerState Instant
  unfolding fire_after
  advance live now state = record state { last_checked = some now }
  advance watch now state = record state { last_checked = some now }
  advance nightly now state = record state { next_fire = fire_after time state.cron now }
  advance weekly now state = record state { next_fire = fire_after time state.cron now }
  advance monthly now state = record state { next_fire = fire_after time state.cron now }
  advance off now state = state

  abbrev pub state_or_seed :
      Option (ContainerState Instant) → Policy → Instant → ContainerState Instant
  state_or_seed (some state) policy now = state
  state_or_seed none policy now = seed_state time policy now

  module _ (d : Daemon) (fuel : ℕ) (cfg : SchedulerConfig) (settings : ResolvedSettings)
      (now : Instant) where
    -- What a processed container changes.
    unfoldable pub settle_processed :
        (name : Text)
        → Mode
        → ContainerState Instant
        → Pass Instant
        → Option Processed × Option Text
        → Option (Pass Instant)
    unfolding digest_known remember record_all
    settle_processed name mode state p (none, notified) = none
    settle_processed name mode state p (some processed, notified) =
        let state' = record state {
          last_notified_digest = notified;
          unknown_digest_warned = warned_after processed.verdicts state.unknown_digest_warned;
        } in
        some (record {
          book = record p.book {
            states = put name state' p.book.states;
            failed = remember processed.outcome p.book.failed;
          };
          live = p.live;
          handled = p.handled ++ processed.handled;
          summary = record_all processed.verdicts mode p.summary;
        })

    -- A due container, once its target is known or not.
    abbrev pub probe_due :
        (name : Text)
        → Policy
        → Labels
        → ContainerState Instant
        → Pass Instant
        → Fallible ProbeTarget
        → Action (Option (Pass Instant))
    probe_due name policy labels state p (err e) = pure (
        some (record (with_state name (checked_at policy.mode now state) p) {
          summary = record_verdict Verdict.failed policy.mode p.summary;
        }))
    probe_due name policy labels state p (ok target) =
        let state' = advance policy.mode now state in
        process_container d fuel cfg (time.timestamp now) name policy labels target
          (lookup name p.book.failed) state'.last_notified_digest settings
        >>= λ result. pure (settle_processed name policy.mode state' p result)

    -- An enabled container: its state is seeded at first sight.
    unfoldable pub visit_enabled :
        ContainerSummary → (name : Text) → Policy → Pass Instant → Action (Option (Pass Instant))
    unfolding seed_state due advance resolve_target process_container put
    visit_enabled c name policy p =
        let state = state_or_seed (lookup name p.book.states) policy now in
        if due time policy state now cfg.poll_interval
        then (resolve_target d c
            >>= probe_due name policy (labels_of c) state (with_state name state p))
        else pure (some (with_state name state p))

    abbrev pub visit_policy :
        ContainerSummary
        → (name : Text) → Pass Instant
        → Result Policy LabelError
        → Action (Option (Pass Instant))
    visit_policy c name p (err e) = pure (some (with_warned name p))
    visit_policy c name p (ok policy) =
        if not policy.enabled || is_off_mode policy.mode
        then pure (some p)
        else if policy.auto_enabled && is_own_container cfg.own_id_prefix c.id
        then pure (some (with_warned name p))
        else visit_enabled c name policy (with_live name p)

    unfoldable pub visit_listed : ContainerSummary → Pass Instant → Action (Option (Pass Instant))
    unfolding container_name is_archive_name parse_policy is_own_container visit_enabled
    visit_listed c p =
        let name = container_name c in
        if is_archive_name name
        then pure (some p)
        else if elem name p.handled
        then pure (some (with_live name p))
        else visit_policy c name p (parse_policy (labels_of c) (policy_defaults settings))
