-- ===== src/Daemon/Types.antt =====
-- What the daemon, the registry and the notifications are given and return: `DockerError` of
-- src/docker/mod.rs, `ContainerSpec` of src/docker/spec.rs, `ContainerRuntimeState` of
-- src/health.rs, `HookStatus` of src/docker/recreate.rs, `HookSkipReason` of src/updater.rs,
-- `RollbackReason` of src/rollback.rs, `LocalImage` and `ContainerImage` of src/docker/check.rs,
-- `RegistryError` of src/registry/mod.rs and `NotifyEvent` of src/notify/mod.rs.
use freshdock.Prelude.{ℕ, ℤ, Option, List, Text, Result}

-- Of an error of the client library the code reads the status and the message alone.
pub data ClientError : Type 0 where
  response_server_error : (status_code : ℕ) (message : Text) → ClientError
  stream_error other : (message : Text) → ClientError

pub data DockerError : Type 0 where
  bollard : ClientError → DockerError
  spec : (field : Text) → DockerError
  api_too_old_for_multi_network : (api_version : Text) (networks : ℕ) → DockerError

-- The fields that this code reads or writes; `other` stands for those that it passes on.
pub record ContainerConfig : Type 0 where
  pub hostname : Option Text
  pub domainname : Option Text
  pub exposed_ports : Option (List Text)
  pub stop_signal : Option Text
  pub stop_timeout : Option ℤ
  pub labels : Option (List (Text × Text))
  pub other : Text

pub record HostConfig : Type 0 where
  pub network_mode : Option Text
  pub other : Text

pub record ContainerSpec : Type 0 where
  pub name : Text
  pub image_ref : Text
  pub image_id : Option Text
  pub config : ContainerConfig
  pub host_config : Option HostConfig
  pub network_endpoints : Option (List (Text × Text))

pub data ContainerRuntimeState : Type 0 where
  health_starting health_healthy health_unhealthy running_no_healthcheck : ContainerRuntimeState
  exited : (exit_code : ℤ) → ContainerRuntimeState

pub data HookStatus : Type 0 where
  completed : (exit_code : ℤ) → HookStatus
  timed_out : HookStatus

pub data HookSkipReason : Type 0 where
  non_zero_exit : ℤ → HookSkipReason
  timed_out : HookSkipReason
  exec_failed : Text → HookSkipReason

abbrev pub Fallible : Type 0 → Type 0
Fallible A = Result A DockerError

pub data RollbackReason : Type 0 where
  health_timeout crashed : RollbackReason

-- The fields of the client library's summary of a container that the code reads.
pub record ContainerSummary : Type 0 where
  pub id : Option Text
  pub names : Option (List Text)
  pub image : Option Text
  pub image_id : Option Text
  pub labels : Option (List (Text × Text))

pub record LocalImage : Type 0 where
  pub id : Option Text
  pub repo_digests : List Text

pub record ContainerImage : Type 0 where
  pub reference : Text
  pub image_id : Option Text

-- An error of the HTTP client stands for its message.
pub data RegistryError : Type 0 where
  network_unavailable http auth credentials_rejected : (reason : Text) → RegistryError
  missing_digest : RegistryError
  invalid_endpoint : (reason : Text) → RegistryError

pub data NotifyEvent : Type 0 where
  update_available : (container image latest_digest : Text) → NotifyEvent
  update_succeeded : (container image new_id : Text) → NotifyEvent
  update_failed :
      (container : Text) (reason : RollbackReason)
      (old_image_ref new_image_ref restored_from : Text)
      → NotifyEvent
  rollout_aborted : (project reason : Text) (completed remaining : List Text) → NotifyEvent
