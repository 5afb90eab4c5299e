-- ===== src/Labels/Diagnostics.antt =====
-- `watchtower_diagnostics`: notes about Watchtower labels that are overridden or unknown.
use freshdock.Prelude.{
  Bool, true, false, not, ◌&&◌, ◌||◌, Option, none, some, List, [], ◌∷◌, ◌++◌, Text, codes, ◌==◌,
  lookup, Result, ok, err, eqb, if◌then◌else◌,
}
use freshdock.Prelude.Split.{strip_prefix}
use freshdock.Prelude.Sort.{sort}
use freshdock.Compose.{Labels}
use freshdock.Labels.{enable_key, mode_key}
use freshdock.Labels.Values.{
  Mode, watch, Duration, LabelError, parse_bool, parse_mode, parse_timeout,
}

abbrev pub watchtower_prefix : Text
watchtower_prefix = codes "com.centurylinklabs.watchtower."

abbrev same_bool : Bool → Bool → Bool
same_bool true b = b
same_bool false b = not b

-- `a.ok() == b.ok()`
abbrev agree : Result Bool LabelError → Result Bool LabelError → Bool
agree (ok a) (ok b) = same_bool a b
agree (err x) (err y) = true
agree _ _ = false

abbrev same_timeout : Option Duration → Option Duration → Bool
same_timeout none none = true
same_timeout (some a) (some b) = eqb a b
same_timeout _ _ = false

abbrev agree_timeout :
    Result (Option Duration) LabelError → Result (Option Duration) LabelError → Bool
agree_timeout (ok a) (ok b) = same_timeout a b
agree_timeout (err x) (err y) = true
agree_timeout _ _ = false

abbrev is_watch : Result Mode LabelError → Bool
is_watch (ok watch) = true
is_watch _ = false

abbrev ok_true : Result Bool LabelError → Bool
ok_true (ok b) = b
ok_true (err e) = false

abbrev quoted : Text → Text
quoted s = b'`' ∷ (s ++ codes "`")

abbrev when : Bool → Text → Option Text
when true note = some note
when false note = none

-- The note where the freshdock label is there and the test says so.
abbrev against : Option Text → (Text → Bool) → (Text → Text) → Option Text
against none conflicts note = none
against (some fd) conflicts note = when (conflicts fd) (note fd)

abbrev wins : Text
wins = codes "; the freshdock label wins"

abbrev enable_note : Labels → (key value : Text) → Option Text
enable_note labels key value =
    against (lookup enable_key labels)
      (λ fd. not (agree (parse_bool enable_key fd) (parse_bool key value)))
      (λ fd.
        quoted (key ++ b'=' ∷ value)
        ++ (codes " conflicts with " ++ (quoted (enable_key ++ b'=' ∷ fd) ++ wins)))

abbrev monitor_note : Labels → (key value : Text) → Option Text
monitor_note labels key value =
    against (lookup mode_key labels)
      (λ mode. ok_true (parse_bool key value) && not (is_watch (parse_mode mode)))
      (λ mode.
        quoted (key ++ codes "=true")
        ++ (codes " conflicts with " ++ (quoted (mode_key ++ b'=' ∷ mode) ++ wins)))

abbrev hook_note : Labels → (key value fd_key : Text) → Option Text
hook_note labels key value fd_key =
    against (lookup fd_key labels) (λ fd. not (fd == value))
      (λ fd. quoted key ++ (codes " is overridden by " ++ quoted fd_key))

abbrev timeout_note : Labels → (key value fd_key : Text) → Option Text
timeout_note labels key value fd_key =
    against (lookup fd_key labels)
      (λ fd. not (agree_timeout (parse_timeout fd_key fd 1) (parse_timeout key value 60)))
      (λ fd.
        quoted key
        ++ (codes " (minutes) is overridden by " ++ (quoted fd_key ++ codes " (seconds)")))

abbrev note_for : Labels → (key value suffix : Text) → Option Text
note_for labels key value suffix =
    let fd_key = codes "freshdock." ++ suffix in
    if suffix == codes "enable"
    then enable_note labels key value
    else (if suffix == codes "monitor-only"
        then monitor_note labels key value
        else (if suffix == codes "lifecycle.pre-update" || suffix == codes "lifecycle.post-update"
            then hook_note labels key value fd_key
            else (if suffix == codes "lifecycle.pre-update-timeout"
                  || suffix == codes "lifecycle.post-update-timeout"
                then timeout_note labels key value fd_key
                else some (
                    codes "unsupported watchtower label "
                    ++ (quoted key ++ codes " ignored (no freshdock equivalent)")))))

abbrev of_suffix : Labels → (key value : Text) → Option Text → Option Text
of_suffix labels key value none = none
of_suffix labels key value (some suffix) = note_for labels key value suffix

abbrev cons_note : Option Text → List Text → List Text
cons_note none notes = notes
cons_note (some note) notes = note ∷ notes

unfoldable pub notes_of : (all rest : Labels) → List Text
unfolding strip_prefix lookup parse_bool parse_mode parse_timeout
notes_of all [] = []
notes_of all ((key, value) ∷ rest) =
    cons_note (of_suffix all key value (strip_prefix watchtower_prefix key)) (notes_of all rest)

unfoldable pub watchtower_diagnostics : Labels → List Text
unfolding notes_of sort
watchtower_diagnostics labels = sort (notes_of labels labels)
