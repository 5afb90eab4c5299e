-- ===== src/Scheduler/Process.antt =====
-- `process_container`: one due container is probed, and the mode of its policy acts on the answer.
-- The second part of the result is the digest that was last notified about.
use freshdock.Prelude.{
  ℕ, ℤ, Bool, true, false, not, ◌&&◌, Option, none, some, Text, ◌==◌, if◌then◌else◌,
}
use freshdock.Compose.{Labels}
use freshdock.Labels.{Policy}
use freshdock.Labels.Values.{Mode, live, nightly, weekly, monthly, watch, off}
use freshdock.Config.{ResolvedSettings}
use freshdock.Daemon.Types.{update_available}
use freshdock.Daemon.Calls.{Daemon}
use freshdock.Daemon.Actions.{Action, pure, ◌>>=◌, ◌>>◌, dispatch}
use freshdock.Probe
use freshdock.Probe.{LocalDigests, update_available_for}
use freshdock.Probe.Outcome.{ProbeOutcome, fetched, ProbeTarget, probe_image}
use freshdock.Scheduler.{SchedulerConfig}
use freshdock.Scheduler.Summary.{up_to_date, unknown_digest, available, not_updated, pinned, failed}
use freshdock.Scheduler.Apply.{Processed, probed, at_timestamp, apply_update}

-- `Option<&str>` against `Some(text)`.
abbrev pub is_text : Option Text → Text → Bool
is_text none text = false
is_text (some t) text = t == text

-- The image that the tag resolves to, meaningful only once the tag carries the registry's digest.
abbrev pub current_image : LocalDigests → (latest : Text) (tag_image_id : Option Text) → Option Text
current_image local latest tag_image_id = elim (Probe.update_available local latest) [
  | some false ↦ tag_image_id
  | some true ↦ none
  | none ↦ none
]

module _ (d : Daemon) (fuel : ℕ) (cfg : SchedulerConfig) (ts : ℤ) where
  module _ (name : Text) (policy : Policy) (container_labels : Labels) (target : ProbeTarget)
      (last_failed last_notified : Option Text) (settings : ResolvedSettings) where
    abbrev pub announce : (latest : Text) → Action (Option Processed × Option Text)
    announce latest =
        if policy.notify && not (is_text last_notified latest)
        then dispatch d (update_available name target.image latest)
          >> pure (some (probed available), some latest)
        else pure (some (probed available), last_notified)

    abbrev pub apply :
        LocalDigests → (latest : Text) → Option Text → Action (Option Processed × Option Text)
    apply local latest tag_image_id =
        if is_text last_failed latest
        then pure (some (probed not_updated), last_notified)
        else (apply_update (at_timestamp d ts) fuel cfg name policy container_labels target.image
              latest (current_image local latest tag_image_id) settings
            >>= λ processed. pure (processed, last_notified))

    abbrev pub by_mode :
        Mode
        → LocalDigests
        → (latest : Text) → Option Text
        → Action (Option Processed × Option Text)
    by_mode watch local latest tag_image_id = announce latest
    by_mode live local latest tag_image_id = apply local latest tag_image_id
    by_mode nightly local latest tag_image_id = apply local latest tag_image_id
    by_mode weekly local latest tag_image_id = apply local latest tag_image_id
    by_mode monthly local latest tag_image_id = apply local latest tag_image_id
    by_mode off local latest tag_image_id = pure (some (probed not_updated), last_notified)

    abbrev pub on_comparison :
        Option Bool
        → LocalDigests
        → (latest : Text) → Option Text
        → Action (Option Processed × Option Text)
    on_comparison none local latest tag_image_id =
        pure (some (probed unknown_digest), last_notified)
    on_comparison (some false) local latest tag_image_id =
        pure (some (probed up_to_date), last_notified)
    on_comparison (some true) local latest tag_image_id =
        by_mode policy.mode local latest tag_image_id

    abbrev pub on_outcome : ProbeOutcome → Action (Option Processed × Option Text)
    on_outcome (fetched local latest tag_image_id) =
        on_comparison (update_available_for local latest target.image_id tag_image_id) local latest
          tag_image_id
    on_outcome ProbeOutcome.pinned = pure (some (probed pinned), last_notified)
    on_outcome _ = pure (some (probed failed), last_notified)

    unfoldable pub process_container : Action (Option Processed × Option Text)
    unfolding probe_image update_available_for Probe.update_available apply_update
    process_container = probe_image d target.image >>= on_outcome
