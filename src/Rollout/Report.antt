-- ===== src/Rollout/Report.antt =====
-- `AbortReason`, `RolloutStep`, `RolloutReport` and their methods.
use freshdock.Prelude.{ℤ, Bool, true, false, Option, none, some, List, ◌++◌, map, Text}
use mathlib.Core.List.{filter_map}
use freshdock.Daemon.Types.{HookSkipReason}
use freshdock.Rollout.Plan.{SkippedMember}

pub data AbortReason : Type 0 where
  one_shot_failed : (container : Text) (exit_code : ℤ) → AbortReason
  one_shot_timed_out rolled_back : (container : Text) → AbortReason
  deferred : (container : Text) (reason : HookSkipReason) → AbortReason
  step_failed : (container error : Text) → AbortReason

unfoldable pub rejected_the_image : AbortReason → Bool
rejected_the_image (rolled_back container) = true
rejected_the_image (one_shot_failed container exit_code) = true
rejected_the_image (one_shot_timed_out container) = true
rejected_the_image (deferred container reason) = false
rejected_the_image (step_failed container error) = false

pub data RolloutStep : Type 0 where
  one_shot_completed : (container : Text) → RolloutStep
  updated : (container new_id : Text) (notify : Bool) → RolloutStep
  restarted : (container : Text) → RolloutStep

pub record RolloutReport : Type 0 where
  pub project : Text
  pub steps : List RolloutStep
  pub aborted : Option AbortReason
  pub not_completed : List Text
  pub skipped : List SkippedMember

abbrev pub step_container : RolloutStep → Text
step_container (one_shot_completed container) = container
step_container (updated container new_id notify) = container
step_container (restarted container) = container

abbrev updated_container : RolloutStep → Option Text
updated_container (updated container new_id notify) = some container
updated_container _ = none

-- A restarted dependent keeps its image.
abbrev pub moved_container : RolloutStep → Option Text
moved_container (one_shot_completed container) = some container
moved_container (updated container new_id notify) = some container
moved_container (restarted container) = none

unfoldable pub updated_containers : RolloutReport → List Text
updated_containers r = filter_map updated_container r.steps

unfoldable pub touched : RolloutReport → List Text
touched r = map step_container r.steps

unfoldable pub claimed : RolloutReport → List Text
unfolding touched
claimed r = touched r ++ r.not_completed

unfoldable pub image_targets : RolloutReport → List Text
image_targets r = filter_map moved_container r.steps ++ r.not_completed
