-- ===== src/Rollout/Decide.antt =====
-- What a plan does with one member of a project: the body of the loop of `plan`.
use freshdock.Prelude.{
  Bool, true, false, not, ◌&&◌, ◌||◌, Option, none, some, Text, ◌==◌, Result, ok, err,
  if◌then◌else◌,
}
use freshdock.Image
use freshdock.Image.{ImageRef}
use freshdock.Compose.{ProjectMember}
use freshdock.Labels.Values.{Mode, watch, off, LabelError, error_text}
use freshdock.Labels.{Policy}
use freshdock.Names.{is_pinned}

pub data TargetKind : Type 0 where
  one_shot service : TargetKind

pub data SkipReason : Type 0 where
  opted_out not_enabled watch_only : SkipReason
  invalid_labels : Text → SkipReason
  stopped_service one_shot_in_flight self_container already_current : SkipReason

-- `PartialEq` of `ImageRef`, and of two optional texts that are both there.
abbrev pub image_eq : ImageRef → ImageRef → Bool
image_eq a b = a.repository == b.repository && a.tag == b.tag

abbrev pub both_eq : Option Text → Option Text → Bool
both_eq none b = false
both_eq (some x) none = false
both_eq (some x) (some y) = x == y

unfoldable pub same_image : ProjectMember → ImageRef → Option Text → Bool
same_image member image image_id =
    image_eq (Image.parse member.image_ref) image
    || (not (is_pinned member.image_ref) && both_eq member.image_id image_id)

abbrev pub is_watch : Mode → Bool
is_watch watch = true
is_watch _ = false

abbrev pub is_off : Mode → Bool
is_off off = true
is_off _ = false

-- Is the member a candidate for a restart that a dependency asks for?
abbrev pub watchless : Result Policy LabelError → Bool
watchless (ok policy) = not (is_watch policy.mode)
watchless (err e) = false

abbrev pub restartable : (running is_self opts_out : Bool) → Result Policy LabelError → Bool
restartable running is_self opts_out parsed =
    running && not is_self && not opts_out && watchless parsed

pub data Decision : Type 0 where
  left_out : SkipReason → Decision
  planned : TargetKind → Policy → Decision

unfoldable pub on_current : Option Text → Option Text → Bool
on_current none image_id = false
on_current (some current) none = false
on_current (some current) (some id) = id == current

-- The checks that follow the policy, in the order of the source.
unfoldable pub decide_policy :
    (awaited running : Bool) (tag_image_id image_id : Option Text) → Policy → Decision
decide_policy awaited running tag_image_id image_id policy =
    if is_watch policy.mode
    then left_out watch_only
    else (if not (policy.enabled && not (is_off policy.mode)) && not awaited
        then left_out not_enabled
        else (if not awaited && on_current tag_image_id image_id
            then left_out already_current
            else (if awaited
                then (if running then left_out one_shot_in_flight else planned one_shot policy)
                else (if not running then left_out stopped_service else planned service policy))))

unfoldable pub decide :
    (is_self opts_out awaited running : Bool) (tag_image_id image_id : Option Text)
    → Result Policy LabelError
    → Decision
decide is_self opts_out awaited running tag_image_id image_id parsed =
    if is_self
    then left_out self_container
    else (if opts_out then left_out opted_out else elim parsed [
      | ok policy ↦ decide_policy awaited running tag_image_id image_id policy
      | err e ↦ left_out (invalid_labels (error_text e))
    ])
