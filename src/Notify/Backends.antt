-- ===== src/Notify/Backends.antt =====
-- The backends of src/notify/webhook.rs, discord.rs, telegram.rs and smtp.rs: how a target is built,
-- and what each sends. The parser of addresses and the relay of the mail library are parameters.
use freshdock.Prelude.{
  ℕ, Bool, Option, none, some, List, [], ◌∷◌, ◌++◌, Text, codes, Result, ok, err,
}
use freshdock.Prelude.Results.{◌>>=◌}
use freshdock.Config.Smtp.{SmtpTls, starttls, implicit, plaintext, resolve_smtp_tls}
use freshdock.Config.Targets.Parse.{NotificationTarget}
use freshdock.Notify.{Trigger, available, succeeded, failed, trigger_text, RenderedMessage}

-- An error of the HTTP client or of the mail library stands for its message.
pub data NotifyError : Type 0 where
  http smtp_failed : (reason : Text) → NotifyError
  status : ℕ → NotifyError
  config : (name reason : Text) → NotifyError

-- What the mail library makes of a relay's host, and of an address.
pub record Mail : Type 0 where
  pub mailbox : Text → Result Text Text
  pub relay : SmtpTls → (host : Text) → Result (Unit {0}) Text

pub data Notifier : Type 0 where
  webhook : (name url : Text) → Notifier
  discord : (name webhook_url : Text) → Notifier
  telegram : (name bot_token chat_id base_url : Text) → Notifier
  smtp :
      (name host : Text) (port : ℕ) (tls : SmtpTls) (credentials : Option (Text × Text))
      (from : Text) (to : List Text)
      → Notifier

-- What goes out: a JSON object to a URL, or an email through a notifier's transport.
pub data Outgoing : Type 0 where
  webhook_json : (url event container title body : Text) → Outgoing
  discord_json : (url title description : Text) (color : ℕ) → Outgoing
  telegram_json : (url chat_id text : Text) → Outgoing
  email :
      (host : Text) (port : ℕ) (tls : SmtpTls) (credentials : Option (Text × Text)) (from : Text)
      (to : List Text) (subject body : Text)
      → Outgoing

unfoldable pub color : Trigger → ℕ
color available = 0x00F1C40F
color succeeded = 0x002ECC71
color failed = 0x00E74C3C

abbrev webhook_payload : (url : Text) → RenderedMessage → Outgoing
webhook_payload url msg =
    webhook_json url (trigger_text msg.trigger) msg.container msg.title msg.body

abbrev discord_payload : (webhook_url : Text) → RenderedMessage → Outgoing
discord_payload webhook_url msg = discord_json webhook_url msg.title msg.body (color msg.trigger)

abbrev telegram_payload : (bot_token chat_id base_url : Text) → RenderedMessage → Outgoing
telegram_payload bot_token chat_id base_url msg =
    telegram_json (base_url ++ (codes "/bot" ++ (bot_token ++ codes "/sendMessage"))) chat_id
      (msg.title ++ 10 ∷ 10 ∷ msg.body)

-- `send` of each backend, up to the answer.
unfoldable pub outgoing : Notifier → RenderedMessage → Outgoing
unfolding color trigger_text
outgoing (Notifier.webhook name url) msg = webhook_payload url msg
outgoing (Notifier.discord name webhook_url) msg = discord_payload webhook_url msg
outgoing (Notifier.telegram name bot_token chat_id base_url) msg =
    telegram_payload bot_token chat_id base_url msg
outgoing (Notifier.smtp name host port tls credentials from to) msg =
    email host port tls credentials from to msg.title msg.body

unfoldable pub default_smtp_port : SmtpTls → ℕ
default_smtp_port starttls = 587
default_smtp_port implicit = 465
default_smtp_port plaintext = 25

abbrev pub map_err {ℓ} : {A : Type ℓ} → (Text → NotifyError) → Result A Text → Result A NotifyError
map_err f (ok a) = ok a
map_err f (err e) = err (f e)

abbrev port_or : Option ℕ → SmtpTls → ℕ
port_or (some port) tls = port
port_or none tls = default_smtp_port tls

unfoldable pub smtp_transport :
    (name : Text) → Option SmtpTls → Option Bool → Option ℕ → Result (SmtpTls × ℕ) NotifyError
unfolding resolve_smtp_tls default_smtp_port
smtp_transport name tls legacy port = do
  mode ← map_err (config name) (resolve_smtp_tls tls legacy)
  ok (mode, port_or port mode)

-- A user name and a password are set together.
abbrev credentials_of :
    (name : Text) → Option Text → Option Text → Result (Option (Text × Text)) NotifyError
credentials_of name (some user) (some pass) = ok (some (user, pass))
credentials_of name none none = ok none
credentials_of name _ _ =
    err (config name (codes "smtp `username` and `password` must be set together"))

module _ (m : Mail) where
  unfoldable pub mailbox : (name addr : Text) → Result Text NotifyError
  mailbox name addr =
      map_err (λ e. config name (codes "invalid email address `" ++ (addr ++ (codes "`: " ++ e))))
        (m.mailbox addr)

  abbrev mailboxes : (name : Text) → List Text → Result (List Text) NotifyError
  mailboxes name [] = ok []
  mailboxes name (addr ∷ addrs) = do
    box ← mailbox name addr
    boxes ← mailboxes name addrs
    ok (box ∷ boxes)

  abbrev recipients : (name : Text) → List Text → Result (List Text) NotifyError
  recipients name [] = err (config name (codes "smtp target has no `to` recipients"))
  recipients name (box ∷ boxes) = ok (box ∷ boxes)

  -- `SmtpNotifier::new`
  unfoldable pub new_smtp :
      (name host : Text) (port : ℕ) (username password : Option Text) (from : Text) (to : List Text)
      (tls : SmtpTls)
      → Result Notifier NotifyError
  unfolding mailbox
  new_smtp name host port username password from to tls = do
    from' ← mailbox name from
    boxes ← mailboxes name to
    to' ← recipients name boxes
    relay ←
        map_err (λ e. config name (codes "invalid smtp relay `" ++ (host ++ (codes "`: " ++ e))))
          (m.relay tls host)
    credentials ← credentials_of name username password
    ok (Notifier.smtp name host port tls credentials from' to')

  -- The notifier of a target, by its kind.
  unfoldable pub build_notifier : (name : Text) → NotificationTarget → Result Notifier NotifyError
  unfolding smtp_transport new_smtp
  build_notifier name (NotificationTarget.webhook url triggers) = ok (Notifier.webhook name url)
  build_notifier name (NotificationTarget.discord webhook_url triggers) =
      ok (Notifier.discord name webhook_url)
  build_notifier name (NotificationTarget.telegram bot_token chat_id triggers) =
      ok (Notifier.telegram name bot_token chat_id (codes "https://api.telegram.org"))
  build_notifier name
        (NotificationTarget.smtp host port username password from to tls legacy triggers) =
      do
        transport ← smtp_transport name tls legacy port
        new_smtp name host transport.1 username password from to transport.0
