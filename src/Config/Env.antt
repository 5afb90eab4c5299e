-- ===== src/Config/Env.antt =====
-- Which environment variables the configuration reads: `named_suffix`, `is_recognised_env_name` and
-- `unrecognised_env_names`.
use freshdock.Prelude.{
  Bool, true, false, not, ◌&&◌, Option, none, some, List, [], ◌∷◌, Text, codes, any, if◌then◌else◌,
}
use freshdock.Prelude.Split.{strip_prefix, strip_suffix, starts_with}
use freshdock.Compose.{elem}

-- A variable and its value.
abbrev pub Var : Type 0
Var = Text × Text

abbrev pub nonempty : Option Text → Option Text
nonempty none = none
nonempty (some []) = none
nonempty (some (c ∷ s)) = some (c ∷ s)

-- The `<NAME>` in a `<NAME><suffix>` tail, unless it is empty.
unfoldable pub named_suffix : (tail suffix : Text) → Option Text
unfolding strip_suffix
named_suffix tail suffix = nonempty (strip_suffix suffix tail)

abbrev is_there : Option Text → Bool
is_there none = false
is_there (some name) = true

unfoldable pub has_named_suffix : (tail : Text) (suffixes : List Text) → Bool
unfolding named_suffix
has_named_suffix tail suffixes = any (λ suffix. is_there (named_suffix tail suffix)) suffixes

abbrev pub plain_env_names : List Text
plain_env_names =
    codes "CONFIG"
    ∷ codes "INTERVAL"
    ∷ codes "TICK"
    ∷ codes "STOP_TIMEOUT"
    ∷ codes "DEFAULT_MODE"
    ∷ codes "CLEANUP"
    ∷ codes "PRUNE_DANGLING"
    ∷ codes "WATCH_ALL"
    ∷ codes "COMPOSE_AWARE"
    ∷ codes "ONE_SHOT_TIMEOUT"
    ∷ codes "LIVE_REQUIRED"
    ∷ []

abbrev pub registry_env_suffixes : List Text
registry_env_suffixes = codes "_USERNAME" ∷ codes "_TOKEN" ∷ []

abbrev pub notify_env_suffixes : List Text
notify_env_suffixes = codes "_URL" ∷ codes "_TRIGGERS" ∷ codes "_BOT_TOKEN" ∷ codes "_PASSWORD" ∷ []

abbrev notify_tail : Option Text → Bool
notify_tail none = false
notify_tail (some tail) = has_named_suffix tail notify_env_suffixes

abbrev registry_tail : Option Text → (rest : Text) → Bool
registry_tail (some tail) rest = has_named_suffix tail registry_env_suffixes
registry_tail none rest = notify_tail (strip_prefix (codes "NOTIFY_") rest)

abbrev recognised_rest : Option Text → Bool
recognised_rest none = false
recognised_rest (some rest) =
    if elem rest plain_env_names
    then true
    else registry_tail (strip_prefix (codes "REGISTRY_") rest) rest

unfoldable pub is_recognised_env_name : Text → Bool
unfolding strip_prefix has_named_suffix
is_recognised_env_name name = recognised_rest (strip_prefix (codes "FRESHDOCK_") name)

-- The variables that are reported as unknown, in the order of the environment.
unfoldable pub unrecognised_env_names : List Var → List Text
unfolding is_recognised_env_name starts_with
unrecognised_env_names [] = []
unrecognised_env_names ((name, value) ∷ vars) =
    if starts_with (codes "FRESHDOCK_") name && not (is_recognised_env_name name)
    then name ∷ unrecognised_env_names vars
    else unrecognised_env_names vars
