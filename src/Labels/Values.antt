-- ===== src/Labels/Values.antt =====
-- The values of labels: `Mode`, `LabelError`, `parse_bool`, `parse_mode` and `parse_timeout`.
use freshdock.Prelude.{
  ℕ, ◌*◌, Bool, true, false, Option, none, some, Text, codes, ◌==◌, ◌++◌, Result, ok, err, eqb, leb,
  if◌then◌else◌, ◌^◌, ◌-◌,
}
use freshdock.Prelude.Chars.{trim, to_ascii_lowercase, parse_uint}

pub data Mode : Type 0 where
  live nightly weekly monthly watch off : Mode

-- `Display`.
unfoldable pub mode_text : Mode → Text
mode_text live = codes "live"
mode_text nightly = codes "nightly"
mode_text weekly = codes "weekly"
mode_text monthly = codes "monthly"
mode_text watch = codes "watch"
mode_text off = codes "off"

pub data LabelError : Type 0 where
  invalid_bool invalid_timeout : (key value : Text) → LabelError
  invalid_mode : (value : Text) → LabelError

-- The message of each error.
unfoldable pub error_text : LabelError → Text
error_text (invalid_bool key value) =
    codes "invalid value for label `"
    ++ (key ++ (codes "`: `" ++ (value ++ codes "` (expected true/false)")))
error_text (invalid_timeout key value) =
    codes "invalid value for label `"
    ++ (key
        ++ (codes "`: `"
            ++ (value ++ codes "` (expected a whole number of seconds, 0 for no timeout)")))
error_text (invalid_mode value) =
    codes "invalid value for label `freshdock.mode`: `"
    ++ (value ++ codes "` (expected one of live, nightly, weekly, monthly, watch, off)")

unfoldable pub parse_bool : Text → Text → Result Bool LabelError
unfolding trim to_ascii_lowercase
parse_bool key value =
    let v = to_ascii_lowercase (trim value) in
    if v == codes "true"
    then ok true
    else (if v == codes "false" then ok false else err (invalid_bool key value))

-- The first name that the text is equal to.
abbrev pub first_of_modes : Text → Text → Result Mode LabelError
first_of_modes value v =
    if v == codes "live"
    then ok live
    else (if v == codes "nightly"
        then ok nightly
        else (if v == codes "weekly"
            then ok weekly
            else (if v == codes "monthly"
                then ok monthly
                else (if v == codes "watch"
                    then ok watch
                    else (if v == codes "off" then ok off else err (invalid_mode value))))))

unfoldable pub parse_mode : Text → Result Mode LabelError
unfolding trim to_ascii_lowercase
parse_mode value = first_of_modes value (to_ascii_lowercase (trim value))

-- A `Duration` is its number of nanoseconds.
abbrev pub Duration : Type 0
Duration = ℕ

abbrev pub from_secs : ℕ → Duration
from_secs n = n * 1_000_000_000

-- `u64::saturating_mul`.
unfoldable pub saturating_mul : ℕ → ℕ → ℕ
saturating_mul n m = if leb (2 ^ 64) (n * m) then 2 ^ 64 - 1 else n * m

abbrev timeout_of : Text → Text → ℕ → Option ℕ → Result (Option Duration) LabelError
timeout_of key value unit_secs none = err (invalid_timeout key value)
timeout_of key value unit_secs (some n) =
    if eqb n 0 then ok none else ok (some (from_secs (saturating_mul n unit_secs)))

unfoldable pub parse_timeout : Text → Text → ℕ → Result (Option Duration) LabelError
unfolding trim parse_uint saturating_mul
parse_timeout key value unit_secs = timeout_of key value unit_secs (parse_uint 64 (trim value))

abbrev pub wt_enable : Text
wt_enable = codes "com.centurylinklabs.watchtower.enable"

abbrev pub wt_monitor_only : Text
wt_monitor_only = codes "com.centurylinklabs.watchtower.monitor-only"

abbrev pub wt_pre_update : Text
wt_pre_update = codes "com.centurylinklabs.watchtower.lifecycle.pre-update"

abbrev pub wt_pre_update_timeout : Text
wt_pre_update_timeout = codes "com.centurylinklabs.watchtower.lifecycle.pre-update-timeout"

abbrev pub wt_post_update : Text
wt_post_update = codes "com.centurylinklabs.watchtower.lifecycle.post-update"

abbrev pub wt_post_update_timeout : Text
wt_post_update_timeout = codes "com.centurylinklabs.watchtower.lifecycle.post-update-timeout"
