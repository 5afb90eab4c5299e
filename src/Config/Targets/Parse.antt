-- ===== src/Config/Targets/Parse.antt =====
-- `NotificationTarget` and `parse_notify_url`: a target from one URL. The parser of URLs and the
-- decoder of percent escapes are those of libraries: parameters.
use freshdock.Prelude.{
  ℕ, Bool, not, ◌||◌, Option, none, some, List, [], ◌∷◌, map, ◌++◌, Text, codes, ◌==◌, Result, ok,
  err, if◌then◌else◌, keep,
}
use freshdock.Prelude.Chars.{trim, is_empty}
use freshdock.Prelude.Split.{split}
use freshdock.Config.Settings.{parse_env_bool}
use freshdock.Config.Smtp.{SmtpTls, parse_tls, resolve_smtp_tls}

pub data NotificationTarget : Type 0 where
  webhook : (url : Text) (triggers : Option (List Text)) → NotificationTarget
  discord : (webhook_url : Text) (triggers : Option (List Text)) → NotificationTarget
  telegram : (bot_token chat_id : Text) (triggers : Option (List Text)) → NotificationTarget
  smtp :
      (host : Text) (port : Option ℕ) (username password : Option Text) (from : Text)
      (to : List Text) (tls : Option SmtpTls) (starttls : Option Bool)
      (triggers : Option (List Text))
      → NotificationTarget

-- What the code reads of a parsed URL.
pub record Url : Type 0 where
  pub scheme : Text
  pub username : Text
  pub password : Option Text
  pub host_str : Option Text
  pub port : Option ℕ
  pub query_pairs : List (Text × Text)

unfoldable pub split_csv : Text → List Text
unfolding split trim
split_csv raw = keep (λ s. not (is_empty s)) (map trim (split b',' raw))

abbrev unless_empty : List Text → Option (List Text)
unless_empty [] = none
unless_empty (x ∷ xs) = some (x ∷ xs)

unfoldable pub split_triggers : Text → Option (List Text)
unfolding split_csv
split_triggers raw = unless_empty (split_csv raw)

abbrev or_empty : Option Text → Text
or_empty none = []
or_empty (some s) = s

pub record SmtpQuery : Type 0 where
  pub from : Option Text
  pub to : List Text
  pub tls : Option SmtpTls
  pub starttls : Option Bool

abbrev flag_or : Option Bool → Option Bool → Option Bool
flag_or none old = old
flag_or (some flag) old = some flag

abbrev no_query : SmtpQuery
no_query = record { from = none; to = []; tls = none; starttls = none }

abbrev set_tls : SmtpQuery → Result SmtpTls Text → Result SmtpQuery Text
set_tls q (ok tls) = ok (record q { tls = some tls })
set_tls q (err reason) = err reason

abbrev on_pair : (key value : Text) → SmtpQuery → Result SmtpQuery Text
on_pair key value q =
    if key == codes "from"
    then ok (record q { from = some value })
    else (if key == codes "to"
        then ok (record q { to = q.to ++ split_csv value })
        else (if key == codes "tls"
            then set_tls q (parse_tls value)
            else (if key == codes "starttls"
                then ok (record q { starttls = flag_or (parse_env_bool value) q.starttls })
                else ok q)))

-- The loop over the pairs of the query; a bad `tls` ends it.
unfoldable pub smtp_query : List (Text × Text) → SmtpQuery → Result SmtpQuery Text
unfolding split_csv parse_tls parse_env_bool
smtp_query [] q = ok q
smtp_query ((key, value) ∷ pairs) q = elim (on_pair key value q) [
  | ok q' ↦ smtp_query pairs q'
  | err reason ↦ err reason
]

abbrev chats_of : List (Text × Text) → List Text
chats_of [] = []
chats_of ((key, value) ∷ pairs) =
    if key == codes "chats" || key == codes "chat_id"
    then split_csv value ++ chats_of pairs
    else chats_of pairs

module _ (pct_decode : Text → Text) where
  abbrev joined_token : (id : Text) → Option Text → Text
  joined_token id none = id
  joined_token id (some pass) = id ++ b':' ∷ pct_decode pass

  abbrev with_chats : (bot_token : Text) → List Text → Result NotificationTarget Text
  with_chats bot_token [] = err (codes "telegram:// requires ?chats=<id>")
  with_chats bot_token (chat_id ∷ more) = ok (telegram bot_token chat_id none)

  abbrev telegram_of : Url → Result NotificationTarget Text
  telegram_of url =
      if is_empty url.username
      then err (codes "expected telegram://BOT_TOKEN@telegram?chats=CHAT_ID")
      else with_chats (joined_token (pct_decode url.username) url.password)
          (chats_of url.query_pairs)

  abbrev discord_of : Url → Result NotificationTarget Text
  discord_of url =
      if is_empty url.username || is_empty (or_empty url.host_str)
      then err (codes "expected discord://TOKEN@WEBHOOK_ID")
      else ok (
          discord
            (codes "https://discord.com/api/webhooks/"
              ++ (or_empty url.host_str ++ b'/' ∷ url.username))
            none)

  abbrev username_of : Text → Option Text
  username_of [] = none
  username_of (c ∷ s) = some (pct_decode (c ∷ s))

  abbrev password_of : Option Text → Option Text
  password_of none = none
  password_of (some p) = some (pct_decode p)

  abbrev smtp_to : Url → (host from : Text) → SmtpQuery → List Text → Result NotificationTarget Text
  smtp_to url host from q [] = err (codes "smtp:// requires ?to=<addr>[,<addr>…]")
  smtp_to url host from q (addr ∷ more) = elim (resolve_smtp_tls q.tls q.starttls) [
    | err reason ↦ err reason
    | ok tls ↦ ok (
        smtp host url.port (username_of url.username) (password_of url.password) from (addr ∷ more)
          (some tls) none none)
  ]

  abbrev smtp_from : Url → (host : Text) → SmtpQuery → Option Text → Result NotificationTarget Text
  smtp_from url host q none = err (codes "smtp:// requires ?from=<addr>")
  smtp_from url host q (some from) = smtp_to url host from q q.to

  abbrev smtp_host : Url → Option Text → Result NotificationTarget Text
  smtp_host url none = err (codes "smtp:// requires a host")
  smtp_host url (some []) = err (codes "smtp:// requires a host")
  smtp_host url (some (c ∷ s)) = elim (smtp_query url.query_pairs no_query) [
    | err reason ↦ err reason
    | ok q ↦ smtp_from url (c ∷ s) q q.from
  ]

  abbrev by_scheme : (raw : Text) → Url → Result NotificationTarget Text
  by_scheme raw url =
      if url.scheme == codes "http" || url.scheme == codes "https"
      then ok (webhook raw none)
      else (if url.scheme == codes "discord"
          then discord_of url
          else (if url.scheme == codes "telegram"
              then telegram_of url
              else (if url.scheme == codes "smtp"
                  then smtp_host url url.host_str
                  else err (
                      codes "unknown scheme `"
                      ++ (url.scheme
                          ++ codes "` (expected discord, telegram, smtp, http, or https)")))))

-- The parsers of the libraries come first, in each call.
unfoldable pub parse_notify_url :
    (url_parse : Text → Result Url Text) (pct_decode : Text → Text)
    → (raw : Text) → Result NotificationTarget Text
unfolding smtp_query resolve_smtp_tls split_csv
parse_notify_url url_parse pct_decode raw = elim (url_parse raw) [
  | err e ↦ err (codes "not a valid URL: " ++ e)
  | ok url ↦ by_scheme pct_decode raw url
]
