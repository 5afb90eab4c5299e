-- ===== src/Config.antt =====
-- The settings of src/config.rs that the scheduler reads, as they are once resolved.
pub mod Env
pub mod Credentials
pub mod Merged
pub mod Settings
pub mod Layers
pub mod Smtp
pub mod Redact
pub mod Targets
pub mod Load
use freshdock.Prelude.{Bool, true, false, Option, none}
use freshdock.Labels.Values.{Mode, Duration}
use freshdock.Labels.{PolicyDefaults}
use freshdock.Rollout.Execute.{default_one_shot_timeout}

pub record ResolvedSettings : Type 0 where
  pub default_mode : Option Mode
  pub cleanup : Bool
  pub prune_dangling : Bool
  pub watch_all : Bool
  pub compose_aware : Bool
  pub one_shot_timeout : Duration

-- `ResolvedSettings::default()`
abbrev pub default_settings : ResolvedSettings
default_settings = record {
  default_mode = none;
  cleanup = false;
  prune_dangling = false;
  watch_all = false;
  compose_aware = true;
  one_shot_timeout = default_one_shot_timeout;
}

abbrev pub policy_defaults : ResolvedSettings → PolicyDefaults
policy_defaults settings = record {
  mode = settings.default_mode;
  cleanup = settings.cleanup;
  watch_all = settings.watch_all;
}
