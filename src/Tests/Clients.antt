-- ===== src/Tests/Clients.antt =====
-- The registry's client, the pull, the dispatcher and image references, on small inputs.
use freshdock.Prelude.{
  ℕ, ◌+◌, ◌≡◌, ◌≢◌, refl, none, some, [], ◌∷◌, ◌++◌, Text, codes, ok, err, lookup, ltb,
  if◌then◌else◌, arith,
}
use mathlib.Core.List.{reverse}
use freshdock.Labels.Values.{from_secs}
use freshdock.Image.{ImageRef, split_repository}
use freshdock.Config.Credentials.{CredentialStore}
use freshdock.Config.Targets.{Targets}
use freshdock.Config.Targets.Parse.{NotificationTarget}
use freshdock.Daemon.Types.{stream_error, bollard, NotifyEvent, update_available}
use freshdock.Registry.Wire.{Response, connected, Requests, Request, Wire, Session}
use freshdock.Registry.Fetch.{base_for_host, manifest_url, fetch_digest, store_token, cached_token}
use freshdock.Registry.Rejected.{Ensures, Served, fetch_digest-Ensures}
use freshdock.Registry.Lifetime.{cached_token-store_token}
use freshdock.Docker.Retry.{Pull, LastAnswer, Gives, retry_rate_limited, retry_rate_limited-Gives}
use freshdock.Notify.Backends.{Mail}
use freshdock.Notify.Dispatch.{Receivers, from_config, dispatch}
use freshdock.Notify.Delivered.{addressed, dispatch-addressed}

abbrev challenge : Text
challenge = codes "Bearer realm=\"https://auth\",service=\"registry\""

abbrev answer : ℕ → Response
answer status = record {
  status = status;
  www_authenticate = some challenge;
  docker_content_digest = some (codes "sha256:d");
  ratelimit_limit = none;
  ratelimit_remaining = none;
}

abbrev length : Requests → ℕ
length [] = 0
length (r ∷ rs) = length rs + 1

-- A registry that wants a token, and whose token endpoint denies all.
abbrev locked : Wire
locked = record {
  connect = λ h authority. connected;
  head = λ h url bearer. ok (answer 401);
  exchange = λ h realm query basic. ok (answer 403);
  token_body = λ h. err (codes "no body");
  now = length;
  last_instant = from_secs 1000;
  status_text = λ status. codes "denied";
  status_error = λ status. codes "denied";
  authority_of = λ base. codes "ghcr.io:443";
}

abbrev store : CredentialStore
store = (codes "ghcr.io", record { username = some (codes "me"); token = codes "t" }) ∷ []

abbrev image : ImageRef
image = record { repository = codes "ghcr.io/me/app"; tag = codes "1" }

abbrev start : Session
start = record { requests = []; tokens = []; low_budget = [] }

fetch_digest-Ensures_example :
    Ensures locked store
      (split_repository image.repository).0
      (Served locked store (split_repository image.repository).0 (
        manifest_url locked
          (base_for_host (split_repository image.repository).0)
          (split_repository image.repository).1
          image.tag))
      (fetch_digest locked store image start).0
fetch_digest-Ensures_example = fetch_digest-Ensures locked store image start

abbrev key : Text
key = codes "ghcr.io|repository:me/app:pull"

abbrev stored : Session
stored = store_token locked key (codes "t") (some 60) start

-- The session after another request.
abbrev next : Session
next = record stored { requests = Request.connect (codes "ghcr.io:443") ∷ [] }

cached_token-store_token_example :
    (cached_token locked key next ≡ (
      if ltb (locked.now next.requests + from_secs 5) (locked.now start.requests + from_secs 60)
      then some (codes "t")
      else none))
    × ((other : Text) → other ≢ key → lookup other next.tokens ≡ lookup other start.tokens)
cached_token-store_token_example =
    cached_token-store_token locked key (codes "t") 60 start next refl (omega arith) (omega arith)

-- A daemon that is always over its limit.
abbrev limited : Pull
limited h = err (bollard (stream_error (codes "toomanyrequests")))

retry_rate_limited-Gives_example :
    LastAnswer limited (retry_rate_limited limited [])
    × Gives 4 (from_secs 17) [] (retry_rate_limited limited [])
retry_rate_limited-Gives_example = retry_rate_limited-Gives limited []

abbrev mail : Mail
mail = record { mailbox = λ addr. ok addr; relay = λ tls host. ok tt }

abbrev answers : Receivers
answers sent o = ok tt

-- A target for all events, one for failures, and one whose trigger is unknown.
abbrev targets : Targets
targets =
    (codes "all", NotificationTarget.webhook (codes "https://a") none)
    ∷ (codes "bad", NotificationTarget.webhook (codes "https://b") (some (codes "failed" ∷ [])))
    ∷ (codes "odd", NotificationTarget.webhook (codes "https://c") (some (codes "often" ∷ [])))
    ∷ []

abbrev event : NotifyEvent
event = update_available (codes "app") (codes "redis:7") (codes "sha256:b")

dispatch-addressed_example :
    (dispatch answers (from_config mail targets) event []).0
    ≡ reverse (addressed mail event targets) ++ []
dispatch-addressed_example = dispatch-addressed mail answers targets event []

abbrev reference : Text
reference = codes "docker.io/library/redis:7@sha256:d"
