-- ===== src/Config/Targets.antt =====
-- The notification targets: `NotificationTarget`, `set_triggers`, `declare_env_targets` and
-- `build_notifications`. Parse has `parse_notify_url`.
pub mod Parse
pub mod Kept
use freshdock.Prelude.{
  Bool, true, false, not, Option, none, some, List, [], ◌∷◌, map, Text, codes, ◌==◌, Result, ok,
  err, lookup, eqb, if◌then◌else◌, leb, ◌-◌, ◌&&◌, ℕ,
}
use freshdock.Prelude.Chars.{to_ascii_lowercase}
use freshdock.Prelude.Split.{strip_prefix}
use freshdock.Prelude.Maps.{put, keys}
use freshdock.Compose.{elem}
use freshdock.Config.Env.{Var, named_suffix}
use Parse.{
  NotificationTarget, webhook, discord, telegram, smtp, Url, split_triggers, parse_notify_url,
}

abbrev upper : ℕ → ℕ
upper c = if leb b'a' c && leb c b'z' then c - 32 else c

abbrev underscore : ℕ → ℕ
underscore c = if eqb c b'-' then b'_' else c

-- The form of a name in a variable: upper case, and `_` for `-`.
unfoldable pub notify_env_name : Text → Text
notify_env_name key = map underscore (map upper key)

unfoldable pub set_triggers : NotificationTarget → Option (List Text) → NotificationTarget
set_triggers (webhook url old) triggers = webhook url triggers
set_triggers (discord webhook_url old) triggers = discord webhook_url triggers
set_triggers (telegram bot_token chat_id old) triggers = telegram bot_token chat_id triggers
set_triggers (smtp host port username password from to tls starttls old) triggers =
    smtp host port username password from to tls starttls triggers

abbrev pub Targets : Type 0
Targets = List (Text × NotificationTarget)

-- The URL and the triggers that the environment declares for a name.
abbrev pub Declaration : Type 0
Declaration = Option Text × Option Text

abbrev pub decl_or_default : Option Declaration → Declaration
decl_or_default none = (none, none)
decl_or_default (some d) = d

abbrev pub add_triggers :
    Option Text → (value : Text) → List (Text × Declaration) → List (Text × Declaration)
add_triggers none value decls = decls
add_triggers (some name) value decls =
    let d = decl_or_default (lookup name decls) in put name (d.0, some value) decls

abbrev pub add_url :
    Option Text → (rest value : Text) → List (Text × Declaration) → List (Text × Declaration)
add_url (some name) rest value decls =
    let d = decl_or_default (lookup name decls) in put name (some value, d.1) decls
add_url none rest value decls = add_triggers (named_suffix rest (codes "_TRIGGERS")) value decls

abbrev pub add_decl :
    Option Text → (value : Text) → List (Text × Declaration) → List (Text × Declaration)
add_decl none value decls = decls
add_decl (some rest) value decls = add_url (named_suffix rest (codes "_URL")) rest value decls

unfoldable pub gather : List Var → List (Text × Declaration) → List (Text × Declaration)
unfolding strip_prefix named_suffix put lookup
gather [] decls = decls
gather ((key, value) ∷ env) decls =
    gather env (add_decl (strip_prefix (codes "FRESHDOCK_NOTIFY_") key) value decls)

abbrev pub triggers_of : Option Text → Option (List Text)
triggers_of none = none
triggers_of (some raw) = split_triggers raw

-- A slot to overwrite in the target under a name.
abbrev with_token : (k value : Text) → Option NotificationTarget → Targets → Targets
with_token k value (some (telegram bot_token chat_id triggers)) targets =
    put k (telegram value chat_id triggers) targets
with_token k value found targets = targets

abbrev with_password : (k value : Text) → Option NotificationTarget → Targets → Targets
with_password k value (some (smtp host port username password from to tls starttls triggers))
      targets =
    put k (smtp host port username (some value) from to tls starttls triggers) targets
with_password k value found targets = targets

-- From the form of a name in a variable to the target's name.
abbrev index_of : List Text → List (Text × Text) → List (Text × Text)
index_of [] index = index
index_of (k ∷ ks) index = index_of ks (put (notify_env_name k) k index)

abbrev at_index :
    Option Text → ((k : Text) → Option NotificationTarget → Targets → Targets) → Targets → Targets
at_index none change targets = targets
at_index (some k) change targets = change k (lookup k targets) targets

abbrev overlay_password :
    (index : List (Text × Text)) → Option Text → (value : Text) → Targets → Targets
overlay_password index none value targets = targets
overlay_password index (some name) value targets =
    at_index (lookup name index) (λ k found. with_password k value found) targets

abbrev overlay_token :
    (index : List (Text × Text)) → Option Text → (rest value : Text) → Targets → Targets
overlay_token index (some name) rest value targets =
    at_index (lookup name index) (λ k found. with_token k value found) targets
overlay_token index none rest value targets =
    overlay_password index (named_suffix rest (codes "_PASSWORD")) value targets

abbrev overlay_rest :
    (index : List (Text × Text)) → Option Text → (value : Text) → Targets → Targets
overlay_rest index none value targets = targets
overlay_rest index (some rest) value targets =
    overlay_token index (named_suffix rest (codes "_BOT_TOKEN")) rest value targets

unfoldable pub overlay_secrets : (index : List (Text × Text)) → List Var → Targets → Targets
unfolding strip_prefix named_suffix put lookup
overlay_secrets index [] targets = targets
overlay_secrets index ((key, value) ∷ env) targets =
    overlay_secrets index env
      (overlay_rest index (strip_prefix (codes "FRESHDOCK_NOTIFY_") key) value targets)

module _ (url_parse : Text → Result Url Text) (pct_decode : Text → Text) where
  abbrev pub insert_parsed :
      (env_name : Text) (triggers : Option Text)
      → Result NotificationTarget Text
      → Targets
      → Targets
  insert_parsed env_name triggers (ok target) targets =
      put (to_ascii_lowercase env_name) (set_triggers target (triggers_of triggers)) targets
  insert_parsed env_name triggers (err reason) targets = targets

  abbrev pub declare_one :
      (file_names : List Text) (env_name : Text) → Declaration → Targets → Targets
  declare_one file_names env_name (none, triggers) targets = targets
  declare_one file_names env_name (some url, triggers) targets =
      if elem env_name file_names
      then targets
      else insert_parsed env_name triggers (parse_notify_url url_parse pct_decode url) targets

  unfoldable pub declare_all :
      (file_names : List Text) → List (Text × Declaration) → Targets → Targets
  unfolding put to_ascii_lowercase set_triggers
  declare_all file_names [] targets = targets
  declare_all file_names ((env_name, d) ∷ decls) targets =
      declare_all file_names decls (declare_one file_names env_name d targets)

  unfoldable pub declare_env_targets : Targets → List Var → Targets
  unfolding notify_env_name gather declare_all
  declare_env_targets targets env =
      declare_all (map notify_env_name (keys targets)) (gather env []) targets

  unfoldable pub build_notifications : Targets → List Var → Targets
  unfolding declare_env_targets overlay_secrets
  build_notifications targets env =
      let declared = declare_env_targets targets env in
      overlay_secrets (index_of (keys declared) []) env declared
