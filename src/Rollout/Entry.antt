-- ===== src/Rollout/Entry.antt =====
-- `plan_for` and `for_container`: whether an update becomes a rollout.
use freshdock.Prelude.{
  ℕ, Bool, true, false, not, Option, none, some, [], ◌∷◌, Text, ok, err, if◌then◌else◌,
}
use freshdock.Compose
use freshdock.Compose.{Labels, ComposeInfo}
use freshdock.Labels.{PolicyDefaults}
use freshdock.Daemon.Types.{Fallible}
use freshdock.Daemon.Calls.{Daemon}
use freshdock.Daemon.Actions.{Action, pure, ◌>>=◌, try, list_project}
use freshdock.Rollout.Decide.{SkipReason, one_shot_in_flight}
use freshdock.Rollout.Plan.{RolloutPlan, plan, covers, adds_nothing_for, skip_reason_for}
use freshdock.Rollout.Report.{step_failed, RolloutReport}
use freshdock.Rollout.Execute.{RolloutConfig, execute}

abbrev pub in_flight : Option SkipReason → Bool
in_flight (some one_shot_in_flight) = true
in_flight _ = false

-- Why there is no rollout, or what it came to.
pub data Entry : Type 0 where
  plain : Entry
  reported : RolloutReport → Entry
  waiting : Entry

module _ (d : Daemon) where
  unfoldable pub plan_for :
      (project trigger : Text) (tag_image_id : Option Text)
      → PolicyDefaults
      → Option Text
      → Action (Fallible RolloutPlan)
  plan_for project trigger tag_image_id defaults own_id_prefix =
      try (list_project d project)
        λ members. pure (ok (plan project members trigger tag_image_id defaults own_id_prefix))

  abbrev entry_of : Option RolloutReport → Entry
  entry_of none = waiting
  entry_of (some r) = reported r

  unfoldable pub with_plan : ℕ → Text → RolloutConfig → Text → RolloutPlan → Action Entry
  with_plan fuel container cfg project p =
      if not (covers p container)
      then (if in_flight (skip_reason_for p container)
          then pure (
              reported (record {
                project = project;
                steps = [];
                aborted = none;
                not_completed = container ∷ [];
                skipped = p.skipped;
              }))
          else pure plain)
      else (if adds_nothing_for p container
          then pure plain
          else (execute d fuel cfg p >>= λ r. pure (entry_of r)))

  abbrev unreadable : Text → Text → Text → RolloutReport
  unreadable project container error = record {
    project = project;
    steps = [];
    aborted = some (step_failed container error);
    not_completed = container ∷ [];
    skipped = [];
  }

  abbrev for_member :
      ℕ → Text → RolloutConfig → PolicyDefaults → Option Text → Option ComposeInfo → Action Entry
  for_member fuel container cfg defaults own_id_prefix none = pure plain
  for_member fuel container cfg defaults own_id_prefix (some info) =
      plan_for info.project container cfg.tag_image_id defaults own_id_prefix >>= λ answer.
      elim answer [
        | ok p ↦ with_plan fuel container cfg info.project p
        | err e ↦ pure (reported (unreadable info.project container (d.describe e)))
      ]

  unfoldable pub for_container :
      ℕ → Text → Labels → RolloutConfig → PolicyDefaults → Option Text → Action Entry
  for_container fuel container container_labels cfg defaults own_id_prefix =
      for_member fuel container cfg defaults own_id_prefix (Compose.parse container_labels)
