-- ===== src/Notify/Dispatch.antt =====
-- The dispatcher: `parse_triggers`, `build_target`, `from_config` and `dispatch`.
use freshdock.Prelude.{
  Bool, true, false, Option, none, some, List, [], ◌∷◌, ◌++◌, Text, codes, Result, ok, err, any,
}
use freshdock.Prelude.Results.{◌>>=◌}
use freshdock.Daemon.Types.{NotifyEvent}
use freshdock.Config.Targets.{Targets}
use freshdock.Config.Targets.Parse.{NotificationTarget, webhook, discord, telegram, smtp}
use freshdock.Notify.{
  Trigger, available, succeeded, failed, parse_trigger, same_trigger, trigger_of, RenderedMessage,
  render,
}
use freshdock.Notify.Backends.{
  NotifyError, config, Mail, Notifier, Outgoing, outgoing, map_err, build_notifier,
}

abbrev pub all_triggers : List Trigger
all_triggers = available ∷ succeeded ∷ failed ∷ []

abbrev pub triggers_of : NotificationTarget → Option (List Text)
triggers_of (webhook url triggers) = triggers
triggers_of (discord webhook_url triggers) = triggers
triggers_of (telegram bot_token chat_id triggers) = triggers
triggers_of (smtp host port username password from to tls starttls triggers) = triggers

abbrev pub unknown_trigger : (name bad : Text) → NotifyError
unknown_trigger name bad =
    config name
      (codes "unknown trigger `" ++ (bad ++ codes "` (expected available, succeeded, or failed)"))

-- The set as a list; the first bad token is the error.
abbrev pub parse_list : (name : Text) → List Text → Result (List Trigger) NotifyError
parse_list name [] = ok []
parse_list name (token ∷ tokens) = do
  t ← map_err (unknown_trigger name) (parse_trigger token)
  ts ← parse_list name tokens
  ok (t ∷ ts)

unfoldable pub parse_triggers :
    (name : Text) → Option (List Text) → Result (List Trigger) NotifyError
unfolding parse_trigger
parse_triggers name none = ok all_triggers
parse_triggers name (some list) = parse_list name list

pub record Target : Type 0 where
  pub triggers : List Trigger
  pub notifier : Notifier

-- What the receivers answer, from what was sent before; answers are only logged.
abbrev pub Receivers : Type 0
Receivers = List Outgoing → Outgoing → Result (Unit {0}) NotifyError

-- A line of the log.
pub data Line : Type 0 where
  sent : Notifier → Line
  not_sent : Notifier → NotifyError → Line
  nobody_subscribes : Line

abbrev pub subscribes : Target → Trigger → Bool
subscribes t trigger = any (same_trigger trigger) t.triggers

module _ (m : Mail) where
  unfoldable pub build_target : (name : Text) → NotificationTarget → Result Target NotifyError
  unfolding build_notifier parse_triggers
  build_target name target = do
    notifier ← build_notifier m name target
    triggers ← parse_triggers name (triggers_of target)
    ok (record { triggers = triggers; notifier = notifier })

  abbrev pub push_built : Result Target NotifyError → List Target → List Target
  push_built (ok t) targets = t ∷ targets
  push_built (err e) targets = targets

  -- Targets that cannot be built are skipped.
  unfoldable pub from_config : Targets → List Target
  unfolding build_target
  from_config [] = []
  from_config ((name, target) ∷ rest) = push_built (build_target name target) (from_config rest)

module _ (answers : Receivers) where
  abbrev pub logged : Notifier → Result (Unit {0}) NotifyError → Line
  logged notifier (ok u) = sent notifier
  logged notifier (err e) = not_sent notifier e

  -- One target, subscribed or not.
  abbrev pub send_one :
      (subscribed : Bool)
      → Notifier
      → Outgoing
      → List Outgoing × List Line
      → List Outgoing × List Line
  send_one true notifier o (out, lines) = (o ∷ out, logged notifier (answers out o) ∷ lines)
  send_one false notifier o s = s

  -- The loop over the targets, with what was sent and logged so far, the last first.
  abbrev pub send_all :
      (trigger : Trigger) (msg : RenderedMessage)
      → List Target
      → List Outgoing × List Line
      → List Outgoing × List Line
  send_all trigger msg [] s = s
  send_all trigger msg (t ∷ targets) s =
      send_all trigger msg targets
        (send_one (subscribes t trigger) t.notifier (outgoing t.notifier msg) s)

  abbrev pub quiet : List Outgoing × List Line → List Outgoing × List Line
  quiet (out, []) = (out, nobody_subscribes ∷ [])
  quiet (out, line ∷ lines) = (out, line ∷ lines)

  unfoldable pub dispatch : List Target → NotifyEvent → List Outgoing → List Outgoing × List Line
  unfolding render trigger_of outgoing
  dispatch [] event out = (out, [])
  dispatch (t ∷ targets) event out =
      quiet (send_all (trigger_of event) (render event) (t ∷ targets) (out, []))
