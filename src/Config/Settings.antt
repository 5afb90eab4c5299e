-- ===== src/Config/Settings.antt =====
-- `resolve_settings`: the fleet-wide settings of the file, with the environment laid over them.
use freshdock.Prelude.{
  ℕ, ◌||◌, Bool, true, false, Option, none, some, List, [], ◌∷◌, Text, codes, ◌==◌, ok, err, Result,
  if◌then◌else◌,
}
use mathlib.Core.Option
use freshdock.Prelude.Chars.{trim, to_ascii_lowercase, parse_uint}
use freshdock.Labels.Values.{Mode, LabelError, parse_mode, from_secs}
use freshdock.Rollout.Execute.{default_one_shot_timeout}
use freshdock.Config.{ResolvedSettings}
use freshdock.Config.Env.{Var}

pub record Settings : Type 0 where
  pub default_mode : Option Text
  pub cleanup : Bool
  pub prune_dangling : Bool
  pub watch_all : Bool
  pub compose_aware : Option Bool
  pub one_shot_timeout : Option ℕ

unfoldable pub parse_env_bool : Text → Option Bool
unfolding trim to_ascii_lowercase
parse_env_bool raw =
    let v = to_ascii_lowercase (trim raw) in
    if v == codes "true" || v == codes "1"
    then some true
    else (if v == codes "false" || v == codes "0" then some false else none)

-- The variables that the loop matches on, and any other.
pub data Setting : Type 0 where
  default_mode cleanup prune_dangling watch_all compose_aware one_shot_timeout other : Setting

unfoldable pub setting_named : Text → Setting
setting_named key =
    if key == codes "FRESHDOCK_DEFAULT_MODE"
    then Setting.default_mode
    else (if key == codes "FRESHDOCK_CLEANUP"
        then Setting.cleanup
        else (if key == codes "FRESHDOCK_PRUNE_DANGLING"
            then Setting.prune_dangling
            else (if key == codes "FRESHDOCK_WATCH_ALL"
                then Setting.watch_all
                else (if key == codes "FRESHDOCK_COMPOSE_AWARE"
                    then Setting.compose_aware
                    else (if key == codes "FRESHDOCK_ONE_SHOT_TIMEOUT"
                        then Setting.one_shot_timeout
                        else other)))))

abbrev pub mode_ok : Result Mode LabelError → Option Mode
mode_ok (ok mode) = some mode
mode_ok (err e) = none

-- `u64::from_str` on the trimmed value.
abbrev pub seconds_of : Text → Option ℕ
seconds_of value = parse_uint 64 (trim value)

abbrev pub set_mode : Result Mode LabelError → (value : Text) → Settings → Settings
set_mode (ok mode) value s = record s { default_mode = some value }
set_mode (err e) value s = s

abbrev pub overlay_setting : Setting → (value : Text) → Settings → Settings
overlay_setting Setting.default_mode value s = set_mode (parse_mode value) value s
overlay_setting Setting.cleanup value s = record s {
  cleanup = Option.get_or (parse_env_bool value) s.cleanup;
}
overlay_setting Setting.prune_dangling value s = record s {
  prune_dangling = Option.get_or (parse_env_bool value) s.prune_dangling;
}
overlay_setting Setting.watch_all value s = record s {
  watch_all = Option.get_or (parse_env_bool value) s.watch_all;
}
overlay_setting Setting.compose_aware value s = record s {
  compose_aware = Option.get_or (Option.map some (parse_env_bool value)) s.compose_aware;
}
overlay_setting Setting.one_shot_timeout value s = record s {
  one_shot_timeout = Option.get_or (Option.map some (seconds_of value)) s.one_shot_timeout;
}
overlay_setting other value s = s

unfoldable pub overlay_settings : List Var → Settings → Settings
unfolding setting_named parse_mode parse_env_bool parse_uint trim
overlay_settings [] s = s
overlay_settings ((key, value) ∷ vars) s =
    overlay_settings vars (overlay_setting (setting_named key) value s)

abbrev pub mode_of_text : Option Text → Option Mode
mode_of_text none = none
mode_of_text (some raw) = mode_ok (parse_mode raw)

abbrev pub timeout_or_default : Option ℕ → ℕ
timeout_or_default none = default_one_shot_timeout
timeout_or_default (some secs) = from_secs secs

abbrev pub validated : Settings → ResolvedSettings
validated s = record {
  default_mode = mode_of_text s.default_mode;
  cleanup = s.cleanup;
  prune_dangling = s.prune_dangling;
  watch_all = s.watch_all;
  compose_aware = Option.get_or s.compose_aware true;
  one_shot_timeout = timeout_or_default s.one_shot_timeout;
}

unfoldable pub resolve_settings : Settings → List Var → ResolvedSettings
unfolding overlay_settings
resolve_settings settings env_vars = validated (overlay_settings env_vars settings)
