-- ===== src/Registry/Wire.antt =====
-- What `OciRegistry` sees of the HTTP client, the network and the clock: a wire answers each request
-- from the requests before it.
use freshdock.Prelude.{ℕ, Bool, Option, List, Text, Result}
use freshdock.Registry.Auth.{CachedToken}

-- An error of `send`: whether it is a connection error or a timeout, and its text.
pub record SendError : Type 0 where
  pub is_connect_or_timeout : Bool
  pub message : Text

-- Of a response the code reads the status and these headers, where they are text; a limit that is
-- not text stands as `?`.
pub record Response : Type 0 where
  pub status : ℕ
  pub www_authenticate : Option Text
  pub docker_content_digest : Option Text
  pub ratelimit_limit : Option Text
  pub ratelimit_remaining : Option Text

-- The body of a token endpoint.
pub record TokenResponse : Type 0 where
  pub token : Option Text
  pub access_token : Option Text
  pub expires_in : Option ℕ

pub data Connection : Type 0 where
  connected timed_out : Connection
  refused : (message : Text) → Connection

-- A user name and a password.
abbrev pub BasicAuth : Type 0
BasicAuth = Text × Text

pub data Request : Type 0 where
  connect : (authority : Text) → Request
  head : (url : Text) (bearer : Option Text) → Request
  exchange : (realm : Text) (query : List (Text × Text)) (basic_auth : Option BasicAuth) → Request

-- The requests so far, the last one first.
abbrev pub Requests : Type 0
Requests = List Request

pub record Wire : Type 0 where
  pub connect : Requests → Text → Connection
  pub head : Requests → Text → Option Text → Result Response SendError
  pub exchange : Requests → Text → List (Text × Text) → Option BasicAuth → Result Response SendError
  -- The body of the response to the last request, or the text of the client's error.
  pub token_body : Requests → Result TokenResponse Text
  pub now : Requests → ℕ
  pub last_instant : ℕ
  -- `Display` of a status, the text of `error_for_status`, and the authority of a base URL.
  pub status_text : ℕ → Text
  pub status_error : ℕ → Text
  pub authority_of : Text → Text

-- What the registry's client keeps, with the requests that it made.
pub record Session : Type 0 where
  pub requests : Requests
  pub tokens : List (Text × CachedToken)
  pub low_budget : List Text
