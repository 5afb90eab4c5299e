-- ===== src/Config/Credentials.antt =====
-- `canonicalize_host`, `build_store` and the lookups of `CredentialStore`.
use freshdock.Prelude.{
  ◌||◌, Option, none, some, List, [], ◌∷◌, Text, codes, ◌==◌, lookup, if◌then◌else◌,
}
use freshdock.Prelude.Chars.{trim, to_ascii_lowercase}
use freshdock.Prelude.Split.{strip_prefix}
use freshdock.Prelude.Sort.{sort}
use freshdock.Prelude.Maps.{put, keys}
use freshdock.Config.Env.{Var, named_suffix}

-- A `Secret` is its text: what hides it from the logs is no part of the model.
pub record RegistryCredentials : Type 0 where
  pub username : Option Text
  pub token : Text

abbrev canonical_name : Text → Text
canonical_name v =
    if v == codes "dockerhub"
      || v == codes "docker"
      || v == codes "docker.io"
      || v == codes "registry-1.docker.io"
      || v == codes "index.docker.io"
    then codes "docker.io"
    else (if v == codes "ghcr" || v == codes "ghcr.io"
        then codes "ghcr.io"
        else (if v == codes "quay" || v == codes "quay.io"
            then codes "quay.io"
            else (if v == codes "lscr" || v == codes "lscr.io" then codes "lscr.io" else v)))

unfoldable pub canonicalize_host : Text → Text
unfolding trim to_ascii_lowercase
canonicalize_host key = canonical_name (to_ascii_lowercase (trim key))

-- `CredentialStore`: credentials by canonical host.
abbrev pub CredentialStore : Type 0
CredentialStore = List (Text × RegistryCredentials)

-- The user name and the token that the environment gives for a host.
abbrev pub Partial : Type 0
Partial = Option Text × Option Text

abbrev pub or_default : Option Partial → Partial
or_default none = (none, none)
or_default (some p) = p

-- The tables of the file, in the order in which the map is iterated.
unfoldable pub file_store : List (Text × RegistryCredentials) → CredentialStore → CredentialStore
unfolding canonicalize_host put
file_store [] by_host = by_host
file_store ((key, creds) ∷ registry) by_host =
    file_store registry (put (canonicalize_host key) creds by_host)

-- What a variable adds: `(host, username or token)`.
unfoldable pub host_of : Text → Text
unfolding canonicalize_host to_ascii_lowercase
host_of name = canonicalize_host (to_ascii_lowercase name)

abbrev pub add_token : Option Text → (value : Text) → List (Text × Partial) → List (Text × Partial)
add_token none value env = env
add_token (some name) value env =
    let p = or_default (lookup (host_of name) env) in put (host_of name) (p.0, some value) env

abbrev pub add_partial :
    Option Text → (rest value : Text) → List (Text × Partial) → List (Text × Partial)
add_partial (some name) rest value env =
    let p = or_default (lookup (host_of name) env) in put (host_of name) (some value, p.1) env
add_partial none rest value env = add_token (named_suffix rest (codes "_TOKEN")) value env

abbrev pub add_rest : Option Text → (value : Text) → List (Text × Partial) → List (Text × Partial)
add_rest none value env = env
add_rest (some rest) value env = add_partial (named_suffix rest (codes "_USERNAME")) rest value env

unfoldable pub add_var : Var → List (Text × Partial) → List (Text × Partial)
unfolding strip_prefix named_suffix host_of put lookup
add_var (key, value) env = add_rest (strip_prefix (codes "FRESHDOCK_REGISTRY_") key) value env

unfoldable pub env_partials : List Var → List (Text × Partial) → List (Text × Partial)
unfolding add_var
env_partials [] env = env
env_partials (var ∷ vars) env = env_partials vars (add_var var env)

abbrev pub or_else : Option Text → Option Text → Option Text
or_else (some a) b = some a
or_else none b = b

abbrev pub token_or : Option Text → Text → Text
token_or none token = token
token_or (some token) old = token

-- One host of the environment, onto what the file says of it.
abbrev pub overlay_host :
    (host : Text) → Partial → Option RegistryCredentials → CredentialStore → CredentialStore
overlay_host host (username, token) (some existing) by_host =
    put host
      (record {
        username = or_else username existing.username;
        token = token_or token existing.token;
      })
      by_host
overlay_host host (username, some token) none by_host =
    put host (record { username = username; token = token }) by_host
overlay_host host (username, none) none by_host = by_host

unfoldable pub overlay : List (Text × Partial) → CredentialStore → CredentialStore
unfolding put lookup
overlay [] by_host = by_host
overlay ((host, p) ∷ env) by_host = overlay env (overlay_host host p (lookup host by_host) by_host)

unfoldable pub build_store : List (Text × RegistryCredentials) → List Var → CredentialStore
unfolding file_store env_partials overlay
build_store registry env_vars = overlay (env_partials env_vars []) (file_store registry [])

-- `CredentialStore::get`
unfoldable pub get : CredentialStore → Text → Option RegistryCredentials
unfolding canonicalize_host lookup
get by_host host = lookup (canonicalize_host host) by_host

-- `CredentialStore::hosts`
unfoldable pub hosts : CredentialStore → List Text
unfolding sort
hosts by_host = sort (keys by_host)
