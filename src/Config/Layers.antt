-- ===== src/Config/Layers.antt =====
-- Which layer each setting comes from: the environment, the file, or the default.
use freshdock.Prelude.{
  ℕ, ◌≡◌, refl, ◌≢◌, sym, ap, ◌∙◌, Bool, true, false, Option, none, some, List, [], ◌∷◌, Text,
  codes, ◌==◌, eq_iff, Result-cases, Option-cases, Bool-cases, inl, inr, if◌then◌else◌,
}
use mathlib.Core.Option
use freshdock.Prelude.Maps.{last_or}
use freshdock.Labels.Values.{Mode, parse_mode, from_secs}
use freshdock.Config.{ResolvedSettings}
use freshdock.Config.Env.{Var}
use freshdock.Config.Settings.{
  Settings, parse_env_bool, Setting, setting_named, other, mode_ok, seconds_of, set_mode,
  overlay_setting, overlay_settings, validated, resolve_settings,
}

-- What a variable gives for the setting of that name, if it is valid.
abbrev pub given {ℓ} : {B : Type ℓ} → (name : Text) → (Text → Option B) → Var → Option B
given name read (key, value) = if key == name then read value else none

abbrev pub mode_in : Text → Option (Option Mode)
mode_in value = Option.map some (mode_ok (parse_mode value))

abbrev pub timeout_in : Text → Option ℕ
timeout_in value = Option.map from_secs (seconds_of value)

-- Settings under the variables: each is what the last valid variable of its name gives.
abbrev pub laid_over : List Var → ResolvedSettings → ResolvedSettings
laid_over vars r = record {
  default_mode = last_or (given (codes "FRESHDOCK_DEFAULT_MODE") mode_in) r.default_mode vars;
  cleanup = last_or (given (codes "FRESHDOCK_CLEANUP") parse_env_bool) r.cleanup vars;
  prune_dangling =
      last_or (given (codes "FRESHDOCK_PRUNE_DANGLING") parse_env_bool) r.prune_dangling vars;
  watch_all = last_or (given (codes "FRESHDOCK_WATCH_ALL") parse_env_bool) r.watch_all vars;
  compose_aware =
      last_or (given (codes "FRESHDOCK_COMPOSE_AWARE") parse_env_bool) r.compose_aware vars;
  one_shot_timeout =
      last_or (given (codes "FRESHDOCK_ONE_SHOT_TIMEOUT") timeout_in) r.one_shot_timeout vars;
}

abbrev same : Setting → Setting → Bool
same Setting.default_mode Setting.default_mode = true
same Setting.cleanup Setting.cleanup = true
same Setting.prune_dangling Setting.prune_dangling = true
same Setting.watch_all Setting.watch_all = true
same Setting.compose_aware Setting.compose_aware = true
same Setting.one_shot_timeout Setting.one_shot_timeout = true
same Setting.other Setting.other = true
same _ _ = false

abbrev only {ℓ} : {B : Type ℓ} → Bool → Option B → Option B
only true b = b
only false b = none

-- The settings after a variable of that kind.
abbrev stepped : (is : Setting → Bool) (value : Text) → ResolvedSettings → ResolvedSettings
stepped is value r = record {
  default_mode =
      Option.get_or (if is Setting.default_mode then mode_in value else none) r.default_mode;
  cleanup = Option.get_or (if is Setting.cleanup then parse_env_bool value else none) r.cleanup;
  prune_dangling =
      Option.get_or (if is Setting.prune_dangling then parse_env_bool value else none)
        r.prune_dangling;
  watch_all =
      Option.get_or (if is Setting.watch_all then parse_env_bool value else none) r.watch_all;
  compose_aware =
      Option.get_or (if is Setting.compose_aware then parse_env_bool value else none)
        r.compose_aware;
  one_shot_timeout =
      Option.get_or (if is Setting.one_shot_timeout then timeout_in value else none)
        r.one_shot_timeout;
}

validated-overlay_setting :
    (named : Setting) (value : Text) (s : Settings)
    → validated (overlay_setting named value s) ≡ stepped (same named) value (validated s)
validated-overlay_setting Setting.default_mode value s = elim (Result-cases (parse_mode value)) [
  | inl (mode, e) ↦ rw (e, set_mode) (rw e refl)
  | inr (x, e) ↦ rw e refl
]
validated-overlay_setting Setting.cleanup value s = refl
validated-overlay_setting Setting.prune_dangling value s = refl
validated-overlay_setting Setting.watch_all value s = refl
validated-overlay_setting Setting.compose_aware value s =
    elim (Option-cases (parse_env_bool value)) [ inl e ↦ rw e refl | inr (b, e) ↦ rw e refl ]
validated-overlay_setting Setting.one_shot_timeout value s =
    elim (Option-cases (seconds_of value)) [ inl e ↦ rw e refl | inr (b, e) ↦ rw e refl ]
validated-overlay_setting Setting.other value s = refl

abbrev name_of : Setting → Text
name_of Setting.default_mode = codes "FRESHDOCK_DEFAULT_MODE"
name_of Setting.cleanup = codes "FRESHDOCK_CLEANUP"
name_of Setting.prune_dangling = codes "FRESHDOCK_PRUNE_DANGLING"
name_of Setting.watch_all = codes "FRESHDOCK_WATCH_ALL"
name_of Setting.compose_aware = codes "FRESHDOCK_COMPOSE_AWARE"
name_of Setting.one_shot_timeout = codes "FRESHDOCK_ONE_SHOT_TIMEOUT"
name_of Setting.other = []

name_of-same : (a b : Setting) → (name_of a == name_of b) ≡ same a b
unfolding codes ◌==◌
name_of-same Setting.default_mode Setting.default_mode = refl
name_of-same Setting.cleanup Setting.cleanup = refl
name_of-same Setting.prune_dangling Setting.prune_dangling = refl
name_of-same Setting.watch_all Setting.watch_all = refl
name_of-same Setting.compose_aware Setting.compose_aware = refl
name_of-same Setting.one_shot_timeout Setting.one_shot_timeout = refl
name_of-same Setting.other Setting.other = refl
name_of-same _ _ = refl

-- A key that is equal to one name is equal to no other.
same-name : (key : Text) (a b : Setting) → (key == name_of a) ≡ true → same a b ≡ (key == name_of b)
same-name key a b is =
    let e : key ≡ name_of a = (eq_iff key (name_of a)).0 is in
    sym (ap (λ k. k == name_of b) e ∙ name_of-same a b)

none_of :
    (key : Text)
    → (key == name_of Setting.default_mode) ≡ false
    → (key == name_of Setting.cleanup) ≡ false
    → (key == name_of Setting.prune_dangling) ≡ false
    → (key == name_of Setting.watch_all) ≡ false
    → (key == name_of Setting.compose_aware) ≡ false
    → (key == name_of Setting.one_shot_timeout) ≡ false
    → (s : Setting) → s ≢ other
    → same other s ≡ (key == name_of s)
none_of key a b c d e f Setting.default_mode listed = sym a
none_of key a b c d e f Setting.cleanup listed = sym b
none_of key a b c d e f Setting.prune_dangling listed = sym c
none_of key a b c d e f Setting.watch_all listed = sym d
none_of key a b c d e f Setting.compose_aware listed = sym e
none_of key a b c d e f Setting.one_shot_timeout listed = sym f
none_of key a b c d e f Setting.other listed = absurd (listed refl)

-- The first name of the chain that a key is equal to is the only one.
same-setting_named :
    (key : Text) (s : Setting) → s ≢ other → same (setting_named key) s ≡ (key == name_of s)
unfolding setting_named
same-setting_named key s listed = elim (Bool-cases (key == name_of Setting.default_mode)) [
  | inl is ↦ rw (is, setting_named) (same-name key Setting.default_mode s is)
  | inr not0 ↦
      rw (not0, setting_named)
        (elim (Bool-cases (key == name_of Setting.cleanup)) [
          | inl is ↦ rw (is, setting_named) (same-name key Setting.cleanup s is)
          | inr not1 ↦
              rw (not1, setting_named)
                (elim (Bool-cases (key == name_of Setting.prune_dangling)) [
                  | inl is ↦ rw (is, setting_named) (same-name key Setting.prune_dangling s is)
                  | inr not2 ↦
                      rw (not2, setting_named)
                        (elim (Bool-cases (key == name_of Setting.watch_all)) [
                          | inl is ↦ rw (is, setting_named) (same-name key Setting.watch_all s is)
                          | inr not3 ↦
                              rw (not3, setting_named)
                                (elim (Bool-cases (key == name_of Setting.compose_aware)) [
                                  | inl is ↦
                                      rw (is, setting_named)
                                        (same-name key Setting.compose_aware s is)
                                  | inr not4 ↦
                                      rw (not4, setting_named)
                                        (elim (Bool-cases
                                          (key == name_of Setting.one_shot_timeout)) [
                                            | inl is ↦
                                                rw (is, setting_named)
                                                  (same-name key Setting.one_shot_timeout s is)
                                            | inr not5 ↦
                                                rw (not5, setting_named)
                                                  (none_of key not0 not1 not2 not3 not4 not5 s
                                                    listed)
                                          ])
                                ])
                        ])
                ])
        ])
]

stepped-setting_named :
    (key value : Text) (r : ResolvedSettings)
    → stepped (same (setting_named key)) value r ≡ stepped (λ s. key == name_of s) value r
stepped-setting_named key value r = rw (
  same-setting_named key Setting.default_mode (λ e. cc),
  same-setting_named key Setting.cleanup (λ e. cc),
  same-setting_named key Setting.prune_dangling (λ e. cc),
  same-setting_named key Setting.watch_all (λ e. cc),
  same-setting_named key Setting.compose_aware (λ e. cc),
  same-setting_named key Setting.one_shot_timeout (λ e. cc),
)

validated-overlay_settings :
    (vars : List Var) (s : Settings)
    → validated (overlay_settings vars s) ≡ laid_over vars (validated s)
unfolding overlay_settings
validated-overlay_settings [] s = refl
validated-overlay_settings ((key, value) ∷ vars) s =
    validated-overlay_settings vars (overlay_setting (setting_named key) value s)
    ∙ ap (laid_over vars) (
        validated-overlay_setting (setting_named key) value s
        ∙ stepped-setting_named key value (validated s))

-- Each setting is what the last variable of its name with a valid value gives, and without one what
-- the file gives, if that is valid, or the default; an invalid value never replaces a valid one.
pub resolve_settings-laid_over :
    (settings : Settings) (vars : List Var)
    → resolve_settings settings vars ≡ laid_over vars (validated settings)
unfolding resolve_settings
resolve_settings-laid_over settings vars = validated-overlay_settings vars settings
