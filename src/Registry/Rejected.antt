-- ===== src/Registry/Rejected.antt =====
-- What the results of `fetch_digest` rest on.
use freshdock.Prelude.{
  ◌≡◌, refl, inl, inr, true, false, Option, none, some, List, ◌∷◌, ◌++◌, Text, codes, Result, ok,
  err, Result-cases, Option-cases, Bool-cases, eqb,
}
use freshdock.Image.{ImageRef, split_repository}
use freshdock.Config.Credentials.{RegistryCredentials, CredentialStore, get}
use freshdock.Daemon.Types.{RegistryError, network_unavailable, http, auth, credentials_rejected}
use freshdock.Registry.Auth.{Challenge}
use freshdock.Registry.Wire.{
  SendError, Response, TokenResponse, Connection, connected, timed_out, refused, BasicAuth,
  Requests, Wire, Session,
}
use freshdock.Registry.Fetch.{
  base_for_host, classify_send_error, is_denied, is_error_status, basic_auth, Step, probe,
  manifest_url, head_manifest, send_exchange, finish_token, on_denied, denied_anonymously,
  request_token, cached_token, store_token, parsed, scope_or, on_challenge, read_digest,
  fetch_digest, query_of, follow, head_again, head_cached, on_first, on_answer, into_token,
  connect_error, of_body,
}

module _ (w : Wire) (store : CredentialStore) (host : Text) where
  -- The host's configured credentials were sent to a token endpoint and denied, and so was the same
  -- exchange without them.
  abbrev pub BothDenied : Type 0
  BothDenied =
      (creds : RegistryCredentials) × (realm : Text) × (query : List (Text × Text))
      × (first : Response) × (second : Response) × (before : Requests) × (after : Requests) × (get
            store host
          ≡ some creds)
      × (w.exchange before realm query (basic_auth (some creds)) ≡ ok first)
      × (is_denied first ≡ true)
      × (w.exchange after realm query none ≡ ok second)
      × (is_denied second ≡ true)

  abbrev pub ErrorHolds : RegistryError → Type 0
  ErrorHolds (credentials_rejected name) = (name ≡ host) × BothDenied
  ErrorHolds (network_unavailable reason) = Unit
  ErrorHolds (http reason) = Unit
  ErrorHolds (auth reason) = Unit
  ErrorHolds _ = Unit

  abbrev pub Ensures : {A : Type 0} → (A → Type 0) → Result A RegistryError → Type 0
  Ensures P (ok a) = P a
  Ensures P (err e) = ErrorHolds e

  -- The manifest at that URL was served with this response.
  abbrev pub ServedAt : (url : Text) → Response → Type 0
  ServedAt url resp =
      (before : Requests) × (bearer : Option Text) × (w.head before url bearer ≡ ok resp)

  -- The digest is the header of a successful response.
  abbrev pub Served : (url digest : Text) → Type 0
  Served url digest =
      (resp : Response) × ServedAt url resp
      × (is_denied resp ≡ false)
      × (is_error_status resp.status ≡ false)
      × (resp.docker_content_digest ≡ some digest)

  Ensures-follow :
      {A B : Type 0} (P : A → Type 0) (Q : B → Type 0) (next : A → Step w B)
      (r : Result A RegistryError × Session)
      → Ensures P r.0
      → ((a : A) (s : Session) → P a → Ensures Q (next a s).0)
      → Ensures Q (follow w next r).0
  Ensures-follow P Q next (ok a, s) p rest = rest a s p
  Ensures-follow P Q next (err e, s) p rest = p

  ErrorHolds-classify : (e : SendError) → ErrorHolds (classify_send_error e)
  unfolding classify_send_error
  ErrorHolds-classify e = elim (Bool-cases e.is_connect_or_timeout) [
    | inl lost ↦ rw lost tt
    | inr other ↦ rw other tt
  ]

  Ensures-probe : (authority : Text) (s : Session) → Ensures (λ u. Unit {0}) (probe w authority s).0
  unfolding probe
  Ensures-probe authority s = go (w.connect s.requests authority)
    where
      go : (c : Connection) → Ensures (λ u. Unit {0}) (connect_error w authority c)
      go connected = tt
      go timed_out = tt
      go (refused message) = tt

  Ensures-head_manifest :
      (base path tag : Text) (token : Option Text) (s : Session)
      → Ensures (ServedAt (manifest_url w base path tag)) (head_manifest w base path tag token s).0
  unfolding head_manifest
  Ensures-head_manifest base path tag token s =
      elim (Result-cases (w.head s.requests (manifest_url w base path tag) token)) [
        | inl (resp, e) ↦ rw e (s.requests, token, e)
        | inr (x, e) ↦ rw e (ErrorHolds-classify x)
      ]

  Ensures-send_exchange :
      (realm : Text) (query : List (Text × Text)) (basic : Option BasicAuth) (s : Session)
      → Ensures
          (λ resp. (before : Requests) × (w.exchange before realm query basic ≡ ok resp))
          (send_exchange w realm query basic s).0
  unfolding send_exchange
  Ensures-send_exchange realm query basic s =
      elim (Result-cases (w.exchange s.requests realm query basic)) [
        | inl (resp, e) ↦ rw e (s.requests, e)
        | inr (x, e) ↦ rw e (ErrorHolds-classify x)
      ]

  Ensures-of_body : (body : Result TokenResponse Text) → Ensures (λ got. Unit {0}) (of_body w body)
  Ensures-of_body (err message) = tt
  Ensures-of_body (ok body) = elim (Option-cases (into_token body)) [
    | inl e ↦ rw e tt
    | inr (token, e) ↦ rw e tt
  ]

  Ensures-finish_token :
      (resp : Response) (s : Session) → Ensures (λ got. Unit {0}) (finish_token w resp s).0
  unfolding finish_token
  Ensures-finish_token resp s = elim (Bool-cases (is_error_status resp.status)) [
    | inl e ↦ rw e tt
    | inr e ↦ rw e (Ensures-of_body (w.token_body s.requests))
  ]

  Ensures-denied_anonymously :
      (realm : Text) (query : List (Text × Text)) (creds : RegistryCredentials) (resp : Response)
      (before : Requests)
      → get store host ≡ some creds
      → w.exchange before realm query (basic_auth (some creds)) ≡ ok resp
      → is_denied resp ≡ true
      → (anon : Response) (s : Session)
      → ((after : Requests) × (w.exchange after realm query none ≡ ok anon))
      → Ensures (λ got. Unit {0}) (denied_anonymously w host anon s).0
  Ensures-denied_anonymously realm query creds resp before has first denied anon s (after, second) =
      elim (Bool-cases (is_denied anon)) [
        | inl again ↦ rw again (
          refl,
          (creds, realm, query, resp, anon, before, after, has, first, denied, second, again),
        )
        | inr fine ↦ rw fine (Ensures-finish_token anon s)
      ]

  Ensures-on_denied :
      (realm : Text) (query : List (Text × Text)) (creds : Option RegistryCredentials)
      (resp : Response) (before : Requests) (s : Session)
      → get store host ≡ creds
      → w.exchange before realm query (basic_auth creds) ≡ ok resp
      → is_denied resp ≡ true
      → Ensures (λ got. Unit {0}) (on_denied w realm query host creds resp s).0
  Ensures-on_denied realm query none resp before s has first denied = tt
  Ensures-on_denied realm query (some creds) resp before s has first denied =
      Ensures-follow (λ anon. (after : Requests) × (w.exchange after realm query none ≡ ok anon))
        (λ got. Unit {0}) (denied_anonymously w host) (send_exchange w realm query none s)
        (Ensures-send_exchange realm query none s)
        (Ensures-denied_anonymously realm query creds resp before has first denied)

  Ensures-on_answer :
      (realm : Text) (query : List (Text × Text)) (resp : Response) (s : Session)
      → ((before : Requests) × (w.exchange before realm query (basic_auth (get store host))
            ≡ ok resp))
      → Ensures (λ got. Unit {0}) (on_answer w realm query host (get store host) resp s).0
  Ensures-on_answer realm query resp s (before, first) = elim (Bool-cases (is_denied resp)) [
    | inl denied ↦
        rw denied (Ensures-on_denied realm query (get store host) resp before s refl first denied)
    | inr fine ↦ rw fine (Ensures-finish_token resp s)
  ]

  Ensures-request_token :
      (realm : Text) (service : Option Text) (scope : Text) (s : Session)
      → Ensures (λ got. Unit {0}) (request_token w store realm service scope host s).0
  unfolding request_token
  Ensures-request_token realm service scope s =
      let query = query_of service scope in
      let creds = get store host in
      Ensures-follow
        (λ resp. (before : Requests) × (w.exchange before realm query (basic_auth creds) ≡ ok resp))
        (λ got. Unit {0}) (on_answer w realm query host creds)
        (send_exchange w realm query (basic_auth creds) s)
        (Ensures-send_exchange realm query (basic_auth creds) s) (Ensures-on_answer realm query)

  module _ (path base tag scope key : Text) where
    Ensures-on_challenge :
        (challenge : Option Challenge) (s : Session)
        → Ensures
            (ServedAt (manifest_url w base path tag))
            (on_challenge w store host path base tag scope key challenge s).0
    Ensures-on_challenge none s = tt
    Ensures-on_challenge (some challenge) s =
        Ensures-follow (λ got. Unit {0}) (ServedAt (manifest_url w base path tag))
          (head_again w base path tag key)
          (request_token w store challenge.realm challenge.service
            (scope_or w challenge.scope scope) host s)
          (Ensures-request_token challenge.realm challenge.service
            (scope_or w challenge.scope scope) s)
          (λ got s' u.
            Ensures-head_manifest base path tag (some got.0) (store_token w key got.0 got.1 s'))

    Ensures-on_first :
        (resp : Response) (s : Session)
        → ServedAt (manifest_url w base path tag) resp
        → Ensures
            (ServedAt (manifest_url w base path tag))
            (on_first w store host path base tag scope key resp s).0
    Ensures-on_first resp s at = elim (Bool-cases (eqb resp.status 401)) [
      | inl unauthorized ↦ rw unauthorized (Ensures-on_challenge (parsed w resp.www_authenticate) s)
      | inr other ↦ rw other at
    ]

  Ensures-read_digest :
      (url path : Text) (resp : Response) (s : Session)
      → ServedAt url resp
      → Ensures (Served url) (read_digest w host path resp s).0
  unfolding read_digest
  Ensures-read_digest url path resp s at = elim (Bool-cases (is_denied resp)) [
    | inl denied ↦ rw denied tt
    | inr fine ↦ rw fine (elim (Bool-cases (is_error_status resp.status)) [
      | inl bad ↦ rw bad tt
      | inr good ↦ rw good (elim (Option-cases resp.docker_content_digest) [
        | inl e ↦ rw e tt
        | inr (digest, e) ↦ rw e (resp, at, fine, good, e)
      ])
    ])
  ]

-- A digest comes from the header of a successful response for the manifest of the image's tag at its
-- registry. Credentials count as rejected only for the image's own host, where its configured
-- credentials were sent and denied, and the same exchange without them was denied as well.
pub fetch_digest-Ensures :
    (w : Wire) (store : CredentialStore) (image : ImageRef) (s : Session)
    → Ensures w store
        (split_repository image.repository).0
        (Served w store (split_repository image.repository).0 (
          manifest_url w
            (base_for_host (split_repository image.repository).0)
            (split_repository image.repository).1
            image.tag))
        (fetch_digest w store image s).0
unfolding fetch_digest
fetch_digest-Ensures w store image s =
    let host = (split_repository image.repository).0 in
    let path = (split_repository image.repository).1 in
    let base = base_for_host host in
    let scope = codes "repository:" ++ (path ++ codes ":pull") in
    let key = host ++ b'|' ∷ scope in
    let url = manifest_url w base path image.tag in
    let connected = probe w (w.authority_of base) s in
    let first = follow w (head_cached w base path image.tag key) connected in
    let last = follow w (on_first w store host path base image.tag scope key) first in
    Ensures-follow w store host (ServedAt w store host url) (Served w store host url)
      (read_digest w host path) last
      (Ensures-follow w store host (ServedAt w store host url) (ServedAt w store host url)
        (on_first w store host path base image.tag scope key) first
        (Ensures-follow w store host (λ u. Unit {0}) (ServedAt w store host url)
          (head_cached w base path image.tag key) connected
          (Ensures-probe w store host (w.authority_of base) s)
          (λ u s'.
            λ t. Ensures-head_manifest w store host base path image.tag (cached_token w key s') s'))
        (Ensures-on_first w store host path base image.tag scope key))
      (Ensures-read_digest w store host url path)
