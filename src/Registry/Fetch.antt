-- ===== src/Registry/Fetch.antt =====
-- src/registry/digest.rs: `request_token`, `fetch_digest` and their helpers. Log lines are left out.
use freshdock.Prelude.{
  ℕ, Bool, true, false, not, ◌||◌, ◌&&◌, Option, none, some, List, [], ◌∷◌, ◌++◌, Text, codes, ◌==◌,
  Result, ok, err, lookup, keep, leb, ltb, eqb, if◌then◌else◌,
}
use freshdock.Prelude.Chars.{trim, parse_uint}
use freshdock.Prelude.Split.{split_once}
use freshdock.Prelude.Maps.{put}
use freshdock.Compose.{elem}
use freshdock.Image.{ImageRef, split_repository}
use freshdock.Labels.Values.{saturating_mul}
use freshdock.Config.Credentials.{RegistryCredentials, CredentialStore, canonicalize_host, get}
use freshdock.Daemon.Types.{
  RegistryError, network_unavailable, http, auth, credentials_rejected, missing_digest,
}
use freshdock.Registry.Auth.{Challenge, CachedToken, parse_www_authenticate, new, valid_token}
use freshdock.Registry.Wire.{
  SendError, Response, TokenResponse, Connection, connected, timed_out, refused, BasicAuth, Request,
  Wire, Session,
}

unfoldable pub base_for_host : Text → Text
unfolding canonicalize_host
base_for_host host =
    if canonicalize_host host == codes "docker.io"
    then codes "https://registry-1.docker.io"
    else codes "https://" ++ host

unfoldable pub classify_send_error : SendError → RegistryError
classify_send_error e =
    if e.is_connect_or_timeout then network_unavailable e.message else http e.message

unfoldable pub is_denied : Response → Bool
is_denied resp = eqb resp.status 401 || eqb resp.status 403

-- The number before the `;`, if it is one.
abbrev before_window : Option (Text × Text) → Text → Text
before_window none v = v
before_window (some (count, window)) v = count

abbrev count : Text → Option ℕ
count v = parse_uint 64 (trim (before_window (split_once b';' v) v))

abbrev low : Option ℕ → Option ℕ → Bool
low (some l) (some r) = ltb (saturating_mul r 10) l
low _ _ = false

unfoldable pub budget_low : (limit remaining : Text) → Bool
unfolding parse_uint trim split_once saturating_mul
budget_low limit remaining = low (count limit) (count remaining)

abbrev header_or : Text → Option Text → Text
header_or missing none = missing
header_or missing (some v) = v

-- `first_low_budget`: the hosts that were warned about, and whether this one is new among them.
unfoldable pub first_low_budget : (host : Text) → Bool → List Text → List Text × Bool
first_low_budget host true warned =
    if elem host warned then (warned, false) else (host ∷ warned, true)
first_low_budget host false warned = (keep (λ w. not (w == host)) warned, false)

abbrev note_budget : (host : Text) → Option Text → Option Text → List Text → List Text
note_budget host none remaining warned = warned
note_budget host (some limit) remaining warned =
    (first_low_budget host (budget_low limit (header_or (codes "-") remaining)) warned).0

-- `log_rate_limit`
unfoldable pub log_rate_limit : (host : Text) → Response → Session → Session
unfolding first_low_budget budget_low
log_rate_limit host resp s = record s {
  low_budget = note_budget host resp.ratelimit_limit resp.ratelimit_remaining s.low_budget;
}

abbrev pub into_token : TokenResponse → Option Text
into_token body = elim body.token [ some t ↦ some t | none ↦ body.access_token ]

-- `error_for_status` fails on the client's and the server's errors.
abbrev pub is_error_status : ℕ → Bool
is_error_status status = leb 400 status && ltb status 600

abbrev pub query_of : Option Text → (scope : Text) → List (Text × Text)
query_of none scope = (codes "scope", scope) ∷ []
query_of (some service) scope = (codes "service", service) ∷ (codes "scope", scope) ∷ []

abbrev pub username_or_empty : Option Text → Text
username_or_empty none = []
username_or_empty (some u) = u

-- The credentials as they are sent.
abbrev pub basic_auth : Option RegistryCredentials → Option BasicAuth
basic_auth none = none
basic_auth (some creds) = some (username_or_empty creds.username, creds.token)

module _ (w : Wire) where
  -- A step returns its result with the session after it.
  abbrev pub Step : Type 0 → Type 0
  Step A = Session → Result A RegistryError × Session

  -- Goes on with the value of a step, in the session after it.
  abbrev pub follow :
      {A B : Type 0}
      → (A → Step B)
      → Result A RegistryError × Session
      → Result B RegistryError × Session
  follow next (ok a, s) = next a s
  follow next (err e, s) = (err e, s)

  infixl 5 ◌>>=◌
  abbrev pub ◌>>=◌ : {A B : Type 0} → Step A → (A → Step B) → Step B
  ◌>>=◌ m next s = follow next (m s)

  abbrev pub fail : {A : Type 0} → RegistryError → Step A
  fail e s = (err e, s)

  abbrev pub pure : {A : Type 0} → A → Step A
  pure a s = (ok a, s)

  abbrev asked : Request → Session → Session
  asked r s = record s { requests = r ∷ s.requests }

  abbrev pub sent : Result Response SendError → Result Response RegistryError
  sent (ok resp) = ok resp
  sent (err e) = err (classify_send_error e)

  abbrev pub connect_error : (authority : Text) → Connection → Result (Unit {0}) RegistryError
  connect_error authority connected = ok tt
  connect_error authority (refused message) =
      err (network_unavailable (authority ++ (codes ": " ++ message)))
  connect_error authority timed_out =
      err (network_unavailable (authority ++ codes ": connect timeout"))

  unfoldable pub probe : (authority : Text) → Step (Unit {0})
  probe authority s = (
    connect_error authority (w.connect s.requests authority),
    asked (Request.connect authority) s,
  )

  abbrev pub manifest_url : (base path tag : Text) → Text
  manifest_url base path tag = base ++ (codes "/v2/" ++ (path ++ (codes "/manifests/" ++ tag)))

  unfoldable pub head_manifest : (base path tag : Text) (token : Option Text) → Step Response
  unfolding classify_send_error
  head_manifest base path tag token s =
      let url = manifest_url base path tag in
      (sent (w.head s.requests url token), asked (Request.head url token) s)

  unfoldable pub send_exchange :
      (realm : Text) (query : List (Text × Text)) → Option BasicAuth → Step Response
  unfolding classify_send_error
  send_exchange realm query basic s =
      (sent (w.exchange s.requests realm query basic), asked (Request.exchange realm query basic) s)

  abbrev pub token_or_auth : Option ℕ → Option Text → Result (Text × Option ℕ) RegistryError
  token_or_auth expires_in (some token) = ok (token, expires_in)
  token_or_auth expires_in none = err (auth (codes "token response had no token field"))

  abbrev pub of_body : Result TokenResponse Text → Result (Text × Option ℕ) RegistryError
  of_body (err message) = err (http message)
  of_body (ok body) = token_or_auth body.expires_in (into_token body)

  unfoldable pub finish_token : Response → Step (Text × Option ℕ)
  finish_token resp s =
      if is_error_status resp.status
      then (err (http (w.status_error resp.status)), s)
      else (of_body (w.token_body s.requests), s)

  -- Behind a denied exchange: anonymous, if it was made with credentials.
  abbrev pub denied_anonymously : (host : Text) → Response → Step (Text × Option ℕ)
  denied_anonymously host anon =
      if is_denied anon then fail (credentials_rejected host) else finish_token anon

  abbrev pub on_denied :
      (realm : Text) (query : List (Text × Text)) (host : Text)
      → Option RegistryCredentials
      → (resp : Response) → Step (Text × Option ℕ)
  on_denied realm query host none resp = fail (
      auth
        (codes "token endpoint denied access (status " ++ (w.status_text resp.status ++ codes ")")))
  on_denied realm query host (some creds) resp =
      send_exchange realm query none >>= denied_anonymously host

  abbrev pub on_answer :
      (realm : Text) (query : List (Text × Text)) (host : Text)
      → Option RegistryCredentials
      → (resp : Response) → Step (Text × Option ℕ)
  on_answer realm query host creds resp =
      if is_denied resp then on_denied realm query host creds resp else finish_token resp

  unfoldable pub request_token :
      CredentialStore
      → (realm : Text) (service : Option Text) (scope host : Text) → Step (Text × Option ℕ)
  unfolding get send_exchange is_denied finish_token
  request_token store realm service scope host =
      let query = query_of service scope in
      let creds = get store host in
      send_exchange realm query (basic_auth creds) >>= on_answer realm query host creds

  abbrev pub cached : Option CachedToken → (now : ℕ) → Option Text
  cached none now = none
  cached (some t) now = valid_token t now

  unfoldable pub cached_token : (key : Text) → Session → Option Text
  unfolding valid_token lookup
  cached_token key s = cached (lookup key s.tokens) (w.now s.requests)

  unfoldable pub store_token : (key token : Text) (expires_in : Option ℕ) → Session → Session
  unfolding put new
  store_token key token expires_in s = record s {
    tokens = put key (new w.last_instant token expires_in (w.now s.requests)) s.tokens;
  }

  abbrev pub parsed : Option Text → Option Challenge
  parsed none = none
  parsed (some header) = parse_www_authenticate header

  abbrev pub scope_or : Option Text → Text → Text
  scope_or none scope = scope
  scope_or (some pinned) scope = pinned

  abbrev pub head_again : (base path tag cache_key : Text) → Text × Option ℕ → Step Response
  head_again base path tag cache_key (token, expires_in) s =
      head_manifest base path tag (some token) (store_token cache_key token expires_in s)

  -- A 401 on the first request: the challenge, the token and the request again.
  abbrev pub on_challenge :
      CredentialStore
      → (host path base tag scope cache_key : Text) → Option Challenge
      → Step Response
  on_challenge store host path base tag scope cache_key none =
      fail (auth (codes "registry returned 401 without a Bearer challenge"))
  on_challenge store host path base tag scope cache_key (some challenge) =
      request_token store challenge.realm challenge.service (scope_or challenge.scope scope) host
      >>= head_again base path tag cache_key

  abbrev pub on_first :
      CredentialStore → (host path base tag scope cache_key : Text) → Response → Step Response
  on_first store host path base tag scope cache_key resp =
      if eqb resp.status 401
      then on_challenge store host path base tag scope cache_key (parsed resp.www_authenticate)
      else pure resp

  abbrev pub digest_of : Option Text → Result Text RegistryError
  digest_of none = err missing_digest
  digest_of (some digest) = ok digest

  -- The end of `fetch_digest`, on the last response.
  unfoldable pub read_digest : (host path : Text) → Response → Step Text
  unfolding is_denied log_rate_limit
  read_digest host path resp s =
      if is_denied resp
      then (
        err (
            auth (
              codes "registry denied access to "
              ++ (host
                  ++ b'/'
                    ∷ (path ++ (codes " (status " ++ (w.status_text resp.status ++ codes ")")))))),
        s,
      )
      else (let s' = log_rate_limit host resp s in
          if is_error_status resp.status
          then (err (http (w.status_error resp.status)), s')
          else (digest_of resp.docker_content_digest, s'))

  -- The first request goes out with a cached token, if there is a valid one.
  abbrev pub head_cached : (base path tag cache_key : Text) → Unit {0} → Step Response
  head_cached base path tag cache_key u s = head_manifest base path tag (cached_token cache_key s) s

  unfoldable pub fetch_digest : CredentialStore → ImageRef → Step Text
  unfolding split_repository base_for_host probe cached_token head_manifest request_token
      store_token read_digest parse_www_authenticate
  fetch_digest store image =
      let (host, path) = split_repository image.repository in
      let base = base_for_host host in
      let scope = codes "repository:" ++ (path ++ codes ":pull") in
      let cache_key = host ++ b'|' ∷ scope in
      probe (w.authority_of base)
      >>= head_cached base path image.tag cache_key
      >>= on_first store host path base image.tag scope cache_key
      >>= read_digest host path
