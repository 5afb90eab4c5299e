-- ===== src/Config/Load.antt =====
-- `Config::load`: the file, with the environment laid over it. The file system and the parser of the
-- file's format are those of libraries: parameters.
use freshdock.Prelude.{
  ℕ, ◌+◌, ◌-◌, Bool, true, false, Option, none, some, List, [], ◌∷◌, Text, codes, Result, ok, err,
  eqb, leb, if◌then◌else◌,
}
use freshdock.Prelude.Results.{◌>>=◌}
use freshdock.Prelude.Chars.{len_utf8}
use freshdock.Config.{ResolvedSettings}
use freshdock.Config.Env.{Var, unrecognised_env_names}
use freshdock.Config.Credentials.{RegistryCredentials, CredentialStore, build_store}
use freshdock.Config.Settings.{Settings, resolve_settings}
use freshdock.Config.Redact.{redact_parse_message}
use freshdock.Config.Targets.{Targets, build_notifications}
use freshdock.Config.Targets.Parse.{Url}

-- A parsed file.
pub record Config : Type 0 where
  pub registry : List (Text × RegistryCredentials)
  pub notifications : Targets
  pub settings : Settings

-- What the code reads of a parse error: where it starts, in bytes, and the message.
pub record TomlError : Type 0 where
  pub start : Option ℕ
  pub message : Text

pub record LoadedConfig : Type 0 where
  pub credentials : CredentialStore
  pub notifications : Targets
  pub settings : ResolvedSettings
  -- The names that are warned about.
  pub unrecognised : List Text

pub data ConfigError : Type 0 where
  read : (path source : Text) → ConfigError
  parse : (path : Text) (line : Option ℕ) (message : Text) → ConfigError

-- What the libraries do: whether a path is there, its text, the parsers, and the environment.
pub record System : Type 0 where
  pub try_exists : Text → Result Bool Text
  pub read_to_string : Text → Result Text Text
  pub from_toml : Text → Result Config TomlError
  pub url_parse : Text → Result Url Text
  pub pct_decode : Text → Text
  pub vars : List Var

abbrev plus : Bool → Option ℕ → Option ℕ
plus b none = none
plus true (some k) = some (k + 1)
plus false (some k) = some k

-- The newlines in the first so many bytes; none where that is no boundary of a character.
abbrev newlines : ℕ → Text → Option ℕ
newlines n [] = if eqb n 0 then some 0 else none
newlines n (c ∷ s) =
    let rest = newlines (n - len_utf8 c) s in
    if eqb n 0 then some 0 else (if leb (len_utf8 c) n then plus (eqb c 10) rest else none)

abbrev line_of : Text → Option ℕ → Option ℕ
line_of text none = none
line_of text (some start) = elim (newlines start text) [ none ↦ none | some k ↦ some (k + 1) ]

unfoldable pub describe_parse_error : Text → TomlError → Option ℕ × Text
unfolding redact_parse_message
describe_parse_error text e = (line_of text e.start, redact_parse_message e.message)

abbrev default_config_file : Text
default_config_file = codes "freshdock.toml"

abbrev empty_config : Config
empty_config = record {
  registry = [];
  notifications = [];
  settings = record {
    default_mode = none;
    cleanup = false;
    prune_dangling = false;
    watch_all = false;
    compose_aware = none;
    one_shot_timeout = none;
  };
}

module _ (sys : System) where
  abbrev parsed : (path body : Text) → Result Config TomlError → Result Config ConfigError
  parsed path body (ok config) = ok config
  parsed path body (err e) =
      let (line, message) = describe_parse_error body e in err (parse path line message)

  abbrev of_read : (path : Text) → Result Text Text → Result Config ConfigError
  of_read path (err source) = err (read path source)
  of_read path (ok body) = parsed path body (sys.from_toml body)

  unfoldable pub read_file : (path : Text) → Result Config ConfigError
  unfolding describe_parse_error
  read_file path = of_read path (sys.read_to_string path)

  abbrev read_default : Result Bool Text → Result Config ConfigError
  read_default (ok true) = read_file default_config_file
  read_default (ok false) = ok empty_config
  read_default (err source) = err (read default_config_file source)

  -- A path that is given has to be there, the default one need not.
  abbrev read_config : Option Text → Result Config ConfigError
  read_config (some path) = read_file path
  read_config none = read_default (sys.try_exists default_config_file)

  unfoldable pub load : (path : Option Text) → Result LoadedConfig ConfigError
  unfolding read_file build_store resolve_settings build_notifications unrecognised_env_names
  load path = do
    config ← read_config path
    ok (record {
      credentials = build_store config.registry sys.vars;
      notifications =
          build_notifications sys.url_parse sys.pct_decode config.notifications sys.vars;
      settings = resolve_settings config.settings sys.vars;
      unrecognised = unrecognised_env_names sys.vars;
    })
