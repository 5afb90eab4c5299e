-- ===== src/Notify.antt =====
-- src/notify/mod.rs and src/format.rs: the triggers, and the text of each event. Backends has the
-- four backends, Dispatch the dispatcher; Delivered is proofs.
pub mod Backends
pub mod Dispatch
pub mod Delivered
use freshdock.Prelude.{
  ℕ, ◌-◌, ◌+◌, ◌≤◌, Bool, true, false, Option, none, some, List, [], ◌∷◌, ◌++◌, Text, codes, ◌==◌,
  Result, ok, err, leb, ltb, if◌then◌else◌,
}
use freshdock.Prelude.Chars.{trim, to_ascii_lowercase, len, len_utf8}
use freshdock.Prelude.Split.{strip_prefix}
use freshdock.Daemon.Types.{
  RollbackReason, health_timeout, crashed, NotifyEvent, update_available, update_succeeded,
  update_failed, rollout_aborted,
}

pub data Trigger : Type 0 where
  available succeeded failed : Trigger

unfoldable pub trigger_text : Trigger → Text
trigger_text available = codes "available"
trigger_text succeeded = codes "succeeded"
trigger_text failed = codes "failed"

-- `Trigger::parse`; the error is the token in lower case.
unfoldable pub parse_trigger : Text → Result Trigger Text
unfolding trim to_ascii_lowercase
parse_trigger token =
    let v = to_ascii_lowercase (trim token) in
    if v == codes "available"
    then ok available
    else (if v == codes "succeeded"
        then ok succeeded
        else (if v == codes "failed" then ok failed else err v))

abbrev pub same_trigger : Trigger → Trigger → Bool
same_trigger available available = true
same_trigger succeeded succeeded = true
same_trigger failed failed = true
same_trigger _ _ = false

-- A prefix of at most so many bytes. (The code panics where the cut is inside a character.)
abbrev take_bytes : ℕ → Text → Text
take_bytes n [] = []
take_bytes n (c ∷ s) =
    let more = c ∷ take_bytes (n - len_utf8 c) s in if leb (len_utf8 c) n then more else []

abbrev shortened : Option Text → Text → Text
shortened (some hex) d = codes "sha256:" ++ (take_bytes 12 hex ++ codes "…")
shortened none d = if ltb 19 (len d) then take_bytes 19 d ++ codes "…" else d

unfoldable pub short_digest : Text → Text
unfolding strip_prefix len
short_digest d = shortened (strip_prefix (codes "sha256:") d) d

unfoldable pub trigger_of : NotifyEvent → Trigger
trigger_of (update_available container image latest_digest) = available
trigger_of (update_succeeded container image new_id) = succeeded
trigger_of (update_failed container reason old_image_ref new_image_ref restored_from) = failed
trigger_of (rollout_aborted project reason completed remaining) = failed

unfoldable pub container_of : NotifyEvent → Text
container_of (update_available container image latest_digest) = container
container_of (update_succeeded container image new_id) = container
container_of (update_failed container reason old_image_ref new_image_ref restored_from) = container
container_of (rollout_aborted project reason completed remaining) = project

unfoldable pub reason_text : RollbackReason → Text
reason_text health_timeout = codes "health check timed out"
reason_text crashed = codes "the new container crashed"

abbrev joined : List Text → Text
joined [] = []
joined (x ∷ []) = x
joined (x ∷ y ∷ xs) = x ++ (codes ", " ++ joined (y ∷ xs))

unfoldable pub name_list : List Text → Text
name_list [] = codes "none"
name_list (x ∷ xs) = joined (x ∷ xs)

pub record RenderedMessage : Type 0 where
  pub title : Text
  pub body : Text
  pub trigger : Trigger
  pub container : Text

abbrev title_of : NotifyEvent → Text
title_of (update_available container image latest_digest) = codes "Update available: " ++ container
title_of (update_succeeded container image new_id) = codes "Updated: " ++ container
title_of (update_failed container reason old_image_ref new_image_ref restored_from) =
    codes "Update failed: " ++ container
title_of (rollout_aborted project reason completed remaining) = codes "Rollout aborted: " ++ project

abbrev body_of : NotifyEvent → Text
body_of (update_available container image latest_digest) =
    codes "A newer image is available for "
    ++ (image
        ++ (codes " ("
            ++ (short_digest latest_digest
                ++ codes "). Not applied — this container is in watch mode.")))
body_of (update_succeeded container image new_id) =
    container
    ++ (codes " was updated to "
        ++ (image
            ++ (codes " and passed its health check (new container "
                ++ (short_digest new_id ++ codes ")."))))
body_of (update_failed container reason old_image_ref new_image_ref restored_from) =
    codes "Updating "
    ++ (container
        ++ (codes " from "
            ++ (old_image_ref
                ++ (codes " to "
                    ++ (new_image_ref
                        ++ (codes " failed the health gate ("
                            ++ (reason_text reason
                                ++ (codes "); rolled back to the previous container ("
                                    ++ (restored_from ++ codes ").")))))))))
body_of (rollout_aborted project reason completed remaining) =
    codes "The compose project "
    ++ (project
        ++ (codes " was rolled out as one unit and stopped part-way: "
            ++ (reason
                ++ (codes ". Updated before stopping: "
                    ++ (name_list completed
                        ++ (codes ". Not updated, still serving the previous image: "
                            ++ (name_list remaining ++ codes ".")))))))

unfoldable pub render : NotifyEvent → RenderedMessage
unfolding short_digest reason_text name_list trigger_of container_of
render event = record {
  title = title_of event;
  body = body_of event;
  trigger = trigger_of event;
  container = container_of event;
}
