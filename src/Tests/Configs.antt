-- ===== src/Tests/Configs.antt =====
-- Configurations: registries, targets, settings and messages of a file, under an environment.
use freshdock.Prelude.{
  ◌≡◌, ◌≢◌, ℕ, arith, inl, inr, refl, sym, ap, Option, ◌∙◌, true, false, none, some, List, [], ◌∷◌,
  ◌++◌, Text, codes, ◌==◌, Result, ok, lookup,
}
use freshdock.Prelude.Chars.{trim, to_ascii_lowercase}
use freshdock.Prelude.Split.{strip_prefix, strip_suffix, contains}
use freshdock.Prelude.Maps.{last_or}
use freshdock.Config.Env.{Var, named_suffix}
use freshdock.Config.Credentials.{
  RegistryCredentials, canonicalize_host, build_store, get, file_store, env_partials, overlay,
}
use freshdock.Config.Merged.{merged, table_for, username_for, token_for, get-build_store}
use freshdock.Config.Settings.{Settings, resolve_settings, validated}
use freshdock.Config.Layers.{laid_over, resolve_settings-laid_over}
use freshdock.Config.Redact.{
  IsQuote, IsNoKeyMessage, same_end, shown, quoted, redact_parse_message,
  redact_parse_message-DiffersInQuotes,
}
use freshdock.Config.Targets.{notify_env_name, Targets, declare_env_targets}
use freshdock.Config.Targets.Parse.{NotificationTarget, Url, parse_notify_url}
use freshdock.Config.Targets.Kept.{declare_env_targets-kept}

abbrev registry : List (Text × RegistryCredentials)
registry =
    (codes "GHCR", record { username = some (codes "me"); token = codes "old" })
    ∷ (codes "quay", record { username = none; token = codes "q" })
    ∷ []

abbrev vars : List Var
vars =
    (codes "FRESHDOCK_REGISTRY_GHCR_TOKEN", codes "first")
    ∷ (codes "FRESHDOCK_REGISTRY_GHCR_IO_TOKEN", codes "other")
    ∷ (codes "FRESHDOCK_REGISTRY_GHCR_TOKEN", codes "new")
    ∷ []

-- The token of the environment, with the user name of the file.
overlaid :
    get (build_store registry vars) (codes "ghcr.io")
    ≡ some (record { username = some (codes "me"); token = codes "new" })
unfolding get build_store lookup canonicalize_host file_store env_partials overlay trim
    to_ascii_lowercase codes ◌==◌ strip_prefix strip_suffix
overlaid = refl

get-build_store_example :
    get (build_store registry vars) (codes "ghcr.io")
    ≡ merged (last_or (table_for (canonicalize_host (codes "ghcr.io"))) none registry) (
      last_or (username_for (canonicalize_host (codes "ghcr.io"))) none vars,
      last_or (token_for (canonicalize_host (codes "ghcr.io"))) none vars,
    )
get-build_store_example = get-build_store registry vars (codes "ghcr.io")

-- A parser that takes every address for one of a webhook.
abbrev url_parse : Text → Result Url Text
url_parse raw = ok (record {
  scheme = codes "https";
  username = [];
  password = none;
  host_str = some (codes "hooks");
  port = none;
  query_pairs = [];
})

abbrev plain : Text → Text
plain s = s

abbrev ops : NotificationTarget
ops = NotificationTarget.webhook (codes "https://hooks/file") none

abbrev targets : Targets
targets = (codes "ops", ops) ∷ []

abbrev urls : List Var
urls =
    (codes "FRESHDOCK_NOTIFY_OPS_URL", codes "https://hooks/env")
    ∷ (codes "FRESHDOCK_NOTIFY_DEV_URL", codes "https://hooks/env")
    ∷ []

abbrev lower_url : List Var
lower_url = (codes "FRESHDOCK_NOTIFY_ops_URL", codes "https://hooks/env") ∷ []

-- The target of the file stays behind its form in a variable, and another name is added behind it.
kept : lookup (codes "ops") (declare_env_targets url_parse plain targets urls) ≡ some ops
unfolding declare_env_targets lookup codes ◌==◌ strip_prefix named_suffix to_ascii_lowercase
    parse_notify_url
kept = refl

-- A variable that spells the same name in lower case replaces the file's target.
clobbered :
    lookup (codes "ops") (declare_env_targets url_parse plain targets lower_url)
    ≡ some (NotificationTarget.webhook (codes "https://hooks/env") none)
unfolding declare_env_targets lookup codes ◌==◌ strip_prefix named_suffix to_ascii_lowercase
    parse_notify_url
clobbered = refl

not_ops : ◌≢◌ {A = Text} (codes "dev") (codes "ops")
unfolding codes ◌==◌
not_ops e = let read : false ≡ true = ap (λ name. name == codes "ops") e in cc

upper_form :
    (n : Text)
    → ◌≡◌ {A = Option Text} (some (codes "OPS")) (some n)
    → to_ascii_lowercase n ≡ codes "ops"
    → n ≡ notify_env_name (codes "ops")
unfolding codes notify_env_name
upper_form n e low = let same : codes "OPS" ≡ n = cc in sym same

no_form :
    (n : Text)
    → ◌≡◌ {A = Option Text} (some (codes "DEV")) (some n)
    → to_ascii_lowercase n ≡ codes "ops"
    → n ≡ notify_env_name (codes "ops")
unfolding codes to_ascii_lowercase
no_form n e low =
    let same : codes "DEV" ≡ n = cc in absurd (not_ops (ap to_ascii_lowercase same ∙ low))

declare_env_targets-kept_example :
    lookup (codes "ops") (declare_env_targets url_parse plain targets urls) ≡ some ops
unfolding lookup codes ◌==◌ strip_prefix named_suffix strip_suffix to_ascii_lowercase
    notify_env_name
declare_env_targets-kept_example =
    declare_env_targets-kept url_parse plain targets urls (codes "ops") ops refl
      (upper_form, (no_form, tt))

abbrev file_settings : Settings
file_settings = record {
  default_mode = some (codes "weekly");
  cleanup = true;
  prune_dangling = false;
  watch_all = false;
  compose_aware = none;
  one_shot_timeout = some 30;
}

abbrev set_vars : List Var
set_vars =
    (codes "FRESHDOCK_DEFAULT_MODE", codes "sometimes")
    ∷ (codes "FRESHDOCK_CLEANUP", codes "0")
    ∷ (codes "FRESHDOCK_WATCH_ALL", codes "TRUE")
    ∷ (codes "FRESHDOCK_WATCH_ALL", codes "maybe")
    ∷ (codes "FRESHDOCK_ONE_SHOT_TIMEOUT", codes " 7 ")
    ∷ []

resolve_settings-laid_over_example :
    resolve_settings file_settings set_vars ≡ laid_over set_vars (validated file_settings)
resolve_settings-laid_over_example = resolve_settings-laid_over file_settings set_vars

-- Two messages of a parser that quote two secrets.
abbrev quoting : Text → Text
quoting secret = codes "bad " ++ 0x22 ∷ secret ++ 0x22 ∷ codes "!"

no-IsQuote : (c : ℕ) → c ≢ 96 → c ≢ 34 → ¬ (IsQuote c)
no-IsQuote c first second (inl is) = first is
no-IsQuote c first second (inr is) = second is

first_or_zero : Text → ℕ
first_or_zero [] = 0
first_or_zero (c ∷ s) = c

-- It begins with a `b`.
quoting-IsNoKeyMessage : (secret : Text) → IsNoKeyMessage (quoting secret)
unfolding codes first_or_zero
quoting-IsNoKeyMessage secret rest = (
  λ is. let same : 98 ≡ 117 = ap first_or_zero is in absurd (omega (arith, same)),
  λ is. let same : 98 ≡ 109 = ap first_or_zero is in absurd (omega (arith, same)),
)

redact_parse_message-DiffersInQuotes_example :
    redact_parse_message (quoting (codes "s3")) ≡ redact_parse_message (quoting (codes "t"))
unfolding codes contains
redact_parse_message-DiffersInQuotes_example =
    redact_parse_message-DiffersInQuotes
      (shown 98 (no-IsQuote 98 (omega arith) (omega arith)) (
        shown 97 (no-IsQuote 97 (omega arith) (omega arith)) (
          shown 100 (no-IsQuote 100 (omega arith) (omega arith)) (
            shown 32 (no-IsQuote 32 (omega arith) (omega arith)) (
              quoted 34 (codes "s3") (codes "t") (inr refl) refl refl
                (shown 33 (no-IsQuote 33 (omega arith) (omega arith)) same_end) refl refl)))))
      (quoting-IsNoKeyMessage (codes "s3")) (quoting-IsNoKeyMessage (codes "t"))
