-- ===== src/Labels.antt =====
-- src/labels.rs: the policy that a container's labels state, with the fleet's defaults.
pub mod Values
pub mod Hooks
pub mod Enabled
pub mod OptOut
pub mod Diagnostics
use freshdock.Prelude.{
  Bool, true, false, not, ◌&&◌, ◌||◌, Option, none, some, Text, codes, ◌==◌, lookup, Result, ok,
  if◌then◌else◌,
}
use freshdock.Prelude.Results.{◌>>=◌}
use freshdock.Prelude.Chars.{trim, to_ascii_lowercase}
use freshdock.Compose.{Labels}
use Values.{Mode, watch, off, LabelError, parse_bool, parse_mode, wt_enable, wt_monitor_only}
use Hooks.{LifecycleHooks, no_hooks, parse_hooks}

pub record Policy : Type 0 where
  pub enabled : Bool
  pub mode : Mode
  pub notify : Bool
  pub schedule : Option Text
  pub cleanup : Bool
  pub hooks : LifecycleHooks
  pub auto_enabled : Bool

pub record PolicyDefaults : Type 0 where
  pub mode : Option Mode
  pub cleanup : Bool
  pub watch_all : Bool

abbrev pub enable_key : Text
enable_key = codes "freshdock.enable"

abbrev pub mode_key : Text
mode_key = codes "freshdock.mode"

abbrev pub notify_key : Text
notify_key = codes "freshdock.notify"

abbrev pub schedule_key : Text
schedule_key = codes "freshdock.schedule"

abbrev pub cleanup_key : Text
cleanup_key = codes "freshdock.cleanup"

-- A label that is a Boolean where it is there.
abbrev pub bool_label : Text → Option Text → Result (Option Bool) LabelError
bool_label key none = ok none
bool_label key (some v) = do b ← parse_bool key v; ok (some b)

-- Either enable label states intent: the freshdock one first.
abbrev pub explicit_enable : Option Text → Option Text → Result (Option Bool) LabelError
explicit_enable none wt = bool_label wt_enable wt
explicit_enable (some v) wt = bool_label enable_key (some v)

abbrev pub bool_or : Bool → Option Bool → Bool
bool_or d none = d
bool_or d (some b) = b

abbrev is_none : Option Bool → Bool
is_none none = true
is_none (some b) = false

abbrev pub mode_or_watch : Option Mode → Mode
mode_or_watch none = watch
mode_or_watch (some m) = m

abbrev pub mode_of : Option Text → Bool → Option Mode → Result Mode LabelError
mode_of (some v) monitor_only default = parse_mode v
mode_of none true default = ok watch
mode_of none false default = ok (mode_or_watch default)

abbrev pub disabled : Policy
disabled = record {
  enabled = false;
  mode = off;
  notify = false;
  schedule = none;
  cleanup = false;
  hooks = no_hooks;
  auto_enabled = false;
}

-- The part of `parse_policy` behind the enablement check.
unfoldable pub enabled_policy : Labels → PolicyDefaults → Bool → Result Policy LabelError
enabled_policy labels defaults auto_enabled = do
  monitor_only ← bool_label wt_monitor_only (lookup wt_monitor_only labels)
  mode ← mode_of (lookup mode_key labels) (bool_or false monitor_only) defaults.mode
  notify ← bool_label notify_key (lookup notify_key labels)
  cleanup ← bool_label cleanup_key (lookup cleanup_key labels)
  hooks ← parse_hooks labels
  ok (record {
    enabled = true;
    mode = mode;
    notify = bool_or false notify;
    schedule = lookup schedule_key labels;
    cleanup = bool_or defaults.cleanup cleanup;
    hooks = hooks;
    auto_enabled = auto_enabled;
  })

unfoldable pub parse_policy : Labels → PolicyDefaults → Result Policy LabelError
parse_policy labels defaults = do
  explicit ← explicit_enable (lookup enable_key labels) (lookup wt_enable labels)
  let enabled = bool_or defaults.watch_all explicit
  let auto_enabled = is_none explicit && enabled
  if enabled then enabled_policy labels defaults auto_enabled else ok disabled

-- `labels.get(key)` trimmed and in lower case, empty where it is missing.
abbrev pub value_of : Option Text → Text
value_of none = codes ""
value_of (some v) = to_ascii_lowercase (trim v)

unfoldable pub explicitly_opts_out : Labels → Bool
explicitly_opts_out labels =
    value_of (lookup enable_key labels) == codes "false"
    || value_of (lookup wt_enable labels) == codes "false"
    || value_of (lookup mode_key labels) == codes "off"
