-- ===== src/Notify/Delivered.antt =====
-- What a dispatch sends.
use freshdock.Prelude.{
  ◌≡◌, refl, sym, ap, ◌∙◌, inl, inr, Bool, true, false, ◌||◌, Option, none, some, List, [], ◌∷◌,
  ◌++◌, Text, Result, ok, err, Result-cases, any, if◌then◌else◌,
}
use mathlib.Core.List.{reverse, reverse_aux, reverse_aux-eq, reverse_aux-append}
use freshdock.Prelude.Results.{>>=-eq-ok}
use freshdock.Daemon.Types.{NotifyEvent}
use freshdock.Config.Targets.{Targets}
use freshdock.Config.Targets.Parse.{NotificationTarget}
use freshdock.Notify.{
  Trigger, available, succeeded, failed, parse_trigger, same_trigger, trigger_of, render,
}
use freshdock.Notify.Backends.{
  NotifyError, Mail, Notifier, Outgoing, outgoing, map_err, build_notifier,
}
use freshdock.Notify.Dispatch.{
  all_triggers, triggers_of, parse_list, parse_triggers, Target, Receivers, subscribes,
  build_target, from_config, send_all, send_one, quiet, dispatch, Line, unknown_trigger,
}

-- Does a list of triggers in the configuration name this one? Without a list all are meant.
abbrev pub names : Trigger → Result Trigger Text → Bool
names trigger (ok t) = same_trigger trigger t
names trigger (err bad) = false

abbrev pub wants : Trigger → Option (List Text) → Bool
wants trigger none = true
wants trigger (some tokens) = any (λ token. names trigger (parse_trigger token)) tokens

-- What a configured target is sent about an event: nothing where it cannot be built, and nothing
-- where its triggers leave the event out.
abbrev pub addressed_to :
    NotifyEvent → NotificationTarget → Result Target NotifyError → List Outgoing
addressed_to event target (err e) = []
addressed_to event target (ok t) =
    if wants (trigger_of event) (triggers_of target)
    then outgoing t.notifier (render event) ∷ []
    else []

abbrev pub addressed : Mail → NotifyEvent → Targets → List Outgoing
addressed m event [] = []
addressed m event ((name, target) ∷ rest) =
    addressed_to event target (build_target m name target) ++ addressed m event rest

map_err-ok :
    {A : Type 0} (f : Text → NotifyError) (r : Result A Text) {a : A}
    → map_err f r ≡ ok a
    → r ≡ ok a
map_err-ok f (ok x) e = cc
map_err-ok f (err x) e = cc

ok-injective : {A : Type 0} {x y : A} → ◌≡◌ {A = Result A NotifyError} (ok x) (ok y) → x ≡ y
ok-injective e = cc

parse_list-names :
    (name : Text) (trigger : Trigger) (tokens : List Text) {set : List Trigger}
    → parse_list name tokens ≡ ok set
    → any (same_trigger trigger) set ≡ any (λ token. names trigger (parse_trigger token)) tokens
parse_list-names name trigger [] e = ap (any (same_trigger trigger)) (sym (ok-injective e))
parse_list-names name trigger (token ∷ tokens) e =
    let (t, is, rest) = >>=-eq-ok (map_err (unknown_trigger name) (parse_trigger token)) _ e in
    let (ts, are, whole) = >>=-eq-ok (parse_list name tokens) _ rest in
    let read = map_err-ok (unknown_trigger name) (parse_trigger token) is in
    ap (any (same_trigger trigger)) (sym (ok-injective whole))
    ∙ rw (read) (ap (λ b. same_trigger trigger t || b) (parse_list-names name trigger tokens are))

all_triggers-any : (trigger : Trigger) → any (same_trigger trigger) all_triggers ≡ true
all_triggers-any available = refl
all_triggers-any succeeded = refl
all_triggers-any failed = refl

parse_triggers-wants :
    (name : Text) (trigger : Trigger) (raw : Option (List Text)) {set : List Trigger}
    → parse_triggers name raw ≡ ok set
    → any (same_trigger trigger) set ≡ wants trigger raw
unfolding parse_triggers
parse_triggers-wants name trigger none e =
    ap (any (same_trigger trigger)) (sym (ok-injective e)) ∙ all_triggers-any trigger
parse_triggers-wants name trigger (some tokens) e = parse_list-names name trigger tokens e

subscribes-wants :
    (m : Mail) (name : Text) (target : NotificationTarget) (trigger : Trigger) {t : Target}
    → build_target m name target ≡ ok t
    → subscribes t trigger ≡ wants trigger (triggers_of target)
unfolding build_target
subscribes-wants m name target trigger e =
    let (notifier, built, rest) = >>=-eq-ok (build_notifier m name target) _ e in
    let (set, are, whole) = >>=-eq-ok (parse_triggers name (triggers_of target)) _ rest in
    ap (λ (t : Target). subscribes t trigger) (sym (ok-injective whole))
    ∙ parse_triggers-wants name trigger (triggers_of target) are

-- What the loop sends to built targets.
abbrev sent_to : NotifyEvent → List Target → List Outgoing
sent_to event [] = []
sent_to event (t ∷ targets) =
    (if subscribes t (trigger_of event) then outgoing t.notifier (render event) ∷ [] else [])
    ++ sent_to event targets

module _ (answers : Receivers) where
  send_one-out :
      (subscribed : Bool) (notifier : Notifier) (o : Outgoing) (s : List Outgoing × List Line)
      → (send_one answers subscribed notifier o s).0
        ≡ reverse_aux (if subscribed then o ∷ [] else []) s.0
  send_one-out true notifier o s = refl
  send_one-out false notifier o s = refl

  send_all-sent_to :
      (event : NotifyEvent) (targets : List Target) (s : List Outgoing × List Line)
      → (send_all answers (trigger_of event) (render event) targets s).0
        ≡ reverse_aux (sent_to event targets) s.0
  send_all-sent_to event [] s = refl
  send_all-sent_to event (t ∷ targets) s =
      let subscribed = subscribes t (trigger_of event) in
      let o = outgoing t.notifier (render event) in
      send_all-sent_to event targets (send_one answers subscribed t.notifier o s)
      ∙ ap (reverse_aux (sent_to event targets)) (send_one-out subscribed t.notifier o s)
      ∙ sym (reverse_aux-append (if subscribed then o ∷ [] else []) (sent_to event targets) s.0)

  quiet-out : (s : List Outgoing × List Line) → (quiet answers s).0 ≡ s.0
  quiet-out (out, []) = refl
  quiet-out (out, line ∷ lines) = refl

  dispatch-sent_to :
      (targets : List Target) (event : NotifyEvent) (out : List Outgoing)
      → (dispatch answers targets event out).0 ≡ reverse_aux (sent_to event targets) out
  unfolding dispatch
  dispatch-sent_to [] event out = refl
  dispatch-sent_to (t ∷ targets) event out =
      quiet-out (send_all answers (trigger_of event) (render event) (t ∷ targets) (out, []))
      ∙ send_all-sent_to event (t ∷ targets) (out, [])

sent_to-from_config :
    (m : Mail) (event : NotifyEvent) (config : Targets)
    → sent_to event (from_config m config) ≡ addressed m event config
unfolding from_config
sent_to-from_config m event [] = refl
sent_to-from_config m event ((name, target) ∷ rest) =
    elim (Result-cases (build_target m name target)) [
      | inr (e, bad) ↦ rw (bad) (sent_to-from_config m event rest)
      | inl (t, good) ↦ rw (good) (
          ap
            (λ b.
              (if b then outgoing t.notifier (render event) ∷ [] else [])
              ++ sent_to event (from_config m rest))
            (subscribes-wants m name target (trigger_of event) good)
          ∙ ap
              (λ l.
                (if wants (trigger_of event) (triggers_of target)
                  then outgoing t.notifier (render event) ∷ []
                  else [])
                ++ l)
              (sent_to-from_config m event rest))
    ]

-- Whatever the receivers answer, an event is sent once, in the order of the configuration, to each
-- target that could be built and whose triggers name the event's or are left out, and to no other.
pub dispatch-addressed :
    (m : Mail) (answers : Receivers) (targets : Targets) (event : NotifyEvent) (out : List Outgoing)
    → (dispatch answers (from_config m targets) event out).0
      ≡ reverse (addressed m event targets) ++ out
dispatch-addressed m answers targets event out =
    dispatch-sent_to answers (from_config m targets) event out
    ∙ ap (λ l. reverse_aux l out) (sent_to-from_config m event targets)
    ∙ reverse_aux-eq (addressed m event targets) out
