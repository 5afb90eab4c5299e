-- ===== src/Scheduler/Apply.antt =====
-- `apply_update`, `rollout_verdicts` and `report_rollout`: an update that is due is applied. The
-- result is `none` where the fuel of a gate ran out.
use freshdock.Prelude.{
  ℕ, ℤ, Bool, true, false, Option, none, some, List, [], ◌∷◌, ◌++◌, map, Text, ◌==◌, ok, err,
  if◌then◌else◌,
}
use mathlib.Core.List.{filter_map}
use freshdock.Compose.{Labels}
use freshdock.Labels.{Policy}
use freshdock.Config.{ResolvedSettings, policy_defaults}
use freshdock.Daemon.Types.{NotifyEvent, update_succeeded, update_failed, rollout_aborted, Fallible}
use freshdock.Daemon.Calls.{Daemon}
use freshdock.Daemon.Actions.{Action, pure, ◌>>=◌, ◌>>◌, for_each, dispatch}
use freshdock.Recreate.Gated.{
  RecreateOutcome, recreated, rolled_back, skipped_by_hook, recreate_with_health,
}
use freshdock.Rollout.Report.{
  AbortReason, step_failed, rejected_the_image, RolloutStep, one_shot_completed, updated, restarted,
  RolloutReport, touched, claimed, image_targets,
}
use freshdock.Rollout.Entry.{Entry, plain, reported, waiting, for_container}
use freshdock.Rollout.Texts.{abort_text}
use freshdock.Scheduler.{SchedulerConfig}
use freshdock.Scheduler.Summary.{Verdict}

pub data UpdateOutcome : Type 0 where
  rejected : (digest : Text) (containers : List Text) → UpdateOutcome
  landed : (containers : List Text) → UpdateOutcome

pub record Processed : Type 0 where
  pub handled : List Text
  pub outcome : Option UpdateOutcome
  pub verdicts : List Verdict

-- `Processed::probed`
abbrev pub probed : Verdict → Processed
probed verdict = record { handled = []; outcome = none; verdicts = verdict ∷ [] }

abbrev pub failed_at : Option AbortReason → Option Text
failed_at (some (step_failed container error)) = some container
failed_at _ = none

abbrev pub step_verdict : RolloutStep → Option Verdict
step_verdict (updated container new_id notify) = some Verdict.updated
step_verdict (one_shot_completed container) = some Verdict.updated
step_verdict (restarted container) = none

abbrev pub is_at : Option Text → Text → Bool
is_at none c = false
is_at (some f) c = f == c

unfoldable pub rollout_verdicts : RolloutReport → List Verdict
rollout_verdicts report =
    filter_map step_verdict report.steps
    ++ map (λ c. if is_at (failed_at report.aborted) c then Verdict.failed else Verdict.not_updated)
        report.not_completed

-- What a rollout leaves to remember.
abbrev pub rollout_outcome : (latest : Text) → RolloutReport → Option UpdateOutcome
rollout_outcome latest report = elim report.aborted [
  | some reason ↦
      if rejected_the_image reason then some (rejected latest (image_targets report)) else none
  | none ↦ elim (touched report) [ [] ↦ none | x ∷ xs ↦ some (landed (image_targets report)) ]
]

module _ (d : Daemon) where
  abbrev pub dispatch_if : Bool → NotifyEvent → Action (Unit {0})
  dispatch_if true event = dispatch d event
  dispatch_if false event = pure tt

  abbrev report_step : (image : Text) → RolloutStep → Action (Unit {0})
  report_step image (one_shot_completed container) = pure tt
  report_step image (updated container new_id notify) =
      dispatch_if notify (update_succeeded container image new_id)
  report_step image (restarted container) = pure tt

  abbrev report_abort : RolloutReport → Policy → Option AbortReason → Action (Unit {0})
  report_abort report policy none = pure tt
  report_abort report policy (some reason) =
      dispatch_if policy.notify
        (rollout_aborted report.project (abort_text reason) (touched report) report.not_completed)

  unfoldable pub report_rollout : RolloutReport → Policy → (image : Text) → Action (List Text)
  unfolding claimed touched abort_text
  report_rollout report policy image =
      for_each report.steps (report_step image)
      >> report_abort report policy report.aborted
      >> pure (claimed report)

  -- The update of one container by itself: what its result is remembered as.
  abbrev pub report_recreated :
      (name image latest : Text)
      → Policy
      → Fallible (Option RecreateOutcome)
      → Action (Option (Option UpdateOutcome × Verdict))
  report_recreated name image latest policy (ok none) = pure none
  report_recreated name image latest policy (ok (some (recreated old_name new_id))) =
      dispatch_if policy.notify (update_succeeded name image new_id)
      >> pure (some (some (landed (name ∷ [])), Verdict.updated))
  report_recreated name image latest policy (ok (some (rolled_back ev))) =
      dispatch_if policy.notify
        (update_failed ev.container ev.reason ev.old_image_ref ev.new_image_ref ev.restored_from)
      >> pure (some (some (rejected latest (name ∷ [])), Verdict.not_updated))
  report_recreated name image latest policy (ok (some (skipped_by_hook reason))) =
      pure (some (none, Verdict.not_updated))
  report_recreated name image latest policy (err e) = pure (some (none, Verdict.failed))

abbrev alone : Text → Option (Option UpdateOutcome × Verdict) → Option Processed
alone name none = none
alone name (some (outcome, verdict)) =
    some (record { handled = name ∷ []; outcome = outcome; verdicts = verdict ∷ [] })

-- The daemon as the closure `|| ts` makes it: every rename carries the same timestamp.
abbrev pub at_timestamp : Daemon → ℤ → Daemon
at_timestamp d ts = record d { timestamp = λ h. ts }

module _ (d : Daemon) (fuel : ℕ) (cfg : SchedulerConfig) where
  unfoldable pub update_alone :
      (name : Text) → Policy → (image latest : Text) → ResolvedSettings → Action (Option Processed)
  unfolding recreate_with_health
  update_alone name policy image latest settings =
      recreate_with_health d fuel name cfg.health
        (record { remove_replaced = policy.cleanup; prune_dangling = settings.prune_dangling })
        policy.hooks
      >>= report_recreated d name image latest policy
      >>= λ result. pure (alone name result)

  abbrev pub after_entry :
      (name : Text)
      → Policy
      → (image latest : Text) → ResolvedSettings
      → Entry
      → Action (Option Processed)
  after_entry name policy image latest settings plain =
      update_alone name policy image latest settings
  after_entry name policy image latest settings (reported report) =
      report_rollout d report policy image >>= λ handled. pure (
        some (record {
          handled = handled;
          outcome = rollout_outcome latest report;
          verdicts = rollout_verdicts report;
        }))
  after_entry name policy image latest settings waiting = pure none

  unfoldable pub apply_update :
      (name : Text)
      → Policy
      → Labels
      → (image latest : Text) (tag_image_id : Option Text) → ResolvedSettings
      → Action (Option Processed)
  unfolding for_container update_alone report_rollout rollout_verdicts
  apply_update name policy container_labels image latest tag_image_id settings =
      if settings.compose_aware
      then (for_container d fuel name container_labels
            (record {
              health = cfg.health;
              prune_dangling = settings.prune_dangling;
              one_shot_timeout = settings.one_shot_timeout;
              tag_image_id = tag_image_id;
            })
            (policy_defaults settings) cfg.own_id_prefix
          >>= after_entry name policy image latest settings)
      else update_alone name policy image latest settings
