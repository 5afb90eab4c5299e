-- ===== src/Daemon/Calls.antt =====
-- The calls, and what a daemon is: the answers to them.
use freshdock.Prelude.{ℕ, ℤ, Bool, true, false, Option, List, Text, Result}
use freshdock.Image.{ImageRef}
use freshdock.Compose.{ProjectMember}
use freshdock.Labels.Values.{Duration}
use freshdock.Daemon.Types.{
  DockerError, ContainerSpec, ContainerRuntimeState, HookStatus, ContainerSummary, LocalImage,
  ContainerImage, RegistryError, NotifyEvent, Fallible,
}

pub data Call : Type 0 where
  inspect : (name : Text) → Call
  preflight_recreate : ContainerSpec → Call
  pull : ImageRef → Call
  stop : (name : Text) (signal : Option Text) (timeout_s : Option ℤ) → Call
  rename : (name : Text) (ts_unix : ℤ) → Call
  create_from_spec : (name : Text) (container : ContainerSpec) (image : Text) → Call
  start : (name_or_id : Text) → Call
  remove : (name_or_id : Text) (force : Bool) → Call
  rename_to : (from to : Text) → Call
  remove_image : (id : Text) (force : Bool) → Call
  prune_dangling_images : Call
  exec_hook : (name_or_id command : Text) (timeout : Option Duration) → Call
  list_network_dependents : (name : Text) → Call
  list_project : (project : Text) → Call
  local_image_id : (reference : Text) → Call
  probe_state : (name_or_id : Text) → Call
  sleep : Duration → Call
  list_running : Call
  inspect_image : (image : Text) → Call
  container_image : (id : Text) → Call
  fetch_digest : ImageRef → Call
  dispatch : NotifyEvent → Call

-- The calls made so far, the last one first.
abbrev pub History : Type 0
History = List Call

-- Does the call change which containers there are, what they are called, or whether they run?
abbrev pub swaps : Call → Bool
swaps (stop name signal timeout_s) = true
swaps (rename name ts_unix) = true
swaps (create_from_spec name container image) = true
swaps (start name_or_id) = true
swaps (remove name_or_id force) = true
swaps (rename_to from to) = true
swaps _ = false

-- The answer to each call after a history, whether a shutdown is signalled then, the time on the
-- clock, the timestamp that the caller hands to an update, and the text of an error.
pub record Daemon : Type 0 where
  pub inspect : History → Text → Fallible ContainerSpec
  pub preflight_recreate : History → ContainerSpec → Fallible (Unit {0})
  pub pull : History → ImageRef → Fallible (Unit {0})
  pub stop : History → Text → Option Text → Option ℤ → Fallible (Unit {0})
  pub rename : History → Text → ℤ → Fallible Text
  pub create_from_spec : History → Text → ContainerSpec → Text → Fallible Text
  pub start : History → Text → Fallible (Unit {0})
  pub remove : History → Text → Bool → Fallible (Unit {0})
  pub rename_to : History → Text → Text → Fallible (Unit {0})
  pub remove_image : History → Text → Bool → Fallible (Unit {0})
  pub prune_dangling_images : History → Fallible (Unit {0})
  pub exec_hook : History → Text → Text → Option Duration → Fallible HookStatus
  pub list_network_dependents : History → Text → Fallible (List Text)
  pub list_project : History → Text → Fallible (List ProjectMember)
  pub local_image_id : History → Text → Fallible (Option Text)
  pub probe_state : History → Text → Fallible ContainerRuntimeState
  pub list_running : History → Fallible (List ContainerSummary)
  pub inspect_image : History → Text → Fallible LocalImage
  pub container_image : History → Text → Fallible ContainerImage
  pub fetch_digest : History → ImageRef → Result Text RegistryError
  pub is_shutdown : History → Bool
  pub now : History → ℕ
  pub timestamp : History → ℤ
  pub describe : DockerError → Text
