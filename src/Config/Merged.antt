-- ===== src/Config/Merged.antt =====
-- Which credentials `build_store` leaves for a host.
use freshdock.Prelude.{
  ◌≡◌, refl, sym, ap, ◌∙◌, inl, inr, Option, none, some, List, [], ◌∷◌, Text, codes, ◌==◌, eq_iff,
  lookup, Bool-cases, if◌then◌else◌,
}
use freshdock.Prelude.Split.{strip_prefix}
use freshdock.Prelude.Maps.{put, lookup-put, HasDistinctKeys, put-HasDistinctKeys, last_or}
use mathlib.Core.Option
use freshdock.Config.Env.{Var, named_suffix}
use freshdock.Config.Credentials.{
  RegistryCredentials, canonicalize_host, CredentialStore, Partial, or_default, file_store, host_of,
  add_token, add_partial, add_rest, add_var, env_partials, or_else, token_or, overlay_host, overlay,
  build_store, get,
}

-- The value, if the name stands for the host.
abbrev pub for_host : (host name value : Text) → Option (Option Text)
for_host host name value = if host_of name == host then some (some value) else none

abbrev pub token_rest : (host : Text) → Option Text → (value : Text) → Option (Option Text)
token_rest host none value = none
token_rest host (some name) value = for_host host name value

abbrev pub token_unless :
    (host : Text) → (user : Option Text) (rest value : Text) → Option (Option Text)
token_unless host (some name) rest value = none
token_unless host none rest value = token_rest host (named_suffix rest (codes "_TOKEN")) value

-- The user name that a variable `FRESHDOCK_REGISTRY_<NAME>_USERNAME` gives for the host, and the
-- token that `FRESHDOCK_REGISTRY_<NAME>_TOKEN` gives.
abbrev pub username_in : (host : Text) → Option Text → (value : Text) → Option (Option Text)
username_in host none value = none
username_in host (some rest) value = token_rest host (named_suffix rest (codes "_USERNAME")) value

abbrev pub token_in : (host : Text) → Option Text → (value : Text) → Option (Option Text)
token_in host none value = none
token_in host (some rest) value =
    token_unless host (named_suffix rest (codes "_USERNAME")) rest value

abbrev pub username_for : (host : Text) → Var → Option (Option Text)
username_for host (key, value) =
    username_in host (strip_prefix (codes "FRESHDOCK_REGISTRY_") key) value

abbrev pub token_for : (host : Text) → Var → Option (Option Text)
token_for host (key, value) = token_in host (strip_prefix (codes "FRESHDOCK_REGISTRY_") key) value

-- The credentials that a table of the file gives for the host.
abbrev pub table_for :
    (host : Text) → Text × RegistryCredentials → Option (Option RegistryCredentials)
table_for host (key, creds) = if canonicalize_host key == host then some (some creds) else none

-- The environment's fields onto the file's, where there is a token at all.
abbrev pub merged : Option RegistryCredentials → Partial → Option RegistryCredentials
merged (some file) (username, token) =
    some (record { username = or_else username file.username; token = token_or token file.token })
merged none (username, some token) = some (record { username = username; token = token })
merged none (username, none) = none

lookup-file_store :
    (host : Text) (registry : List (Text × RegistryCredentials)) (m : CredentialStore)
    → lookup host (file_store registry m) ≡ last_or (table_for host) (lookup host m) registry
unfolding file_store
lookup-file_store host [] m = refl
lookup-file_store host ((key, creds) ∷ registry) m =
    lookup-file_store host registry (put (canonicalize_host key) creds m)
    ∙ rw (lookup-put host (canonicalize_host key) creds m)
        (elim (Bool-cases (canonicalize_host key == host)) [ inl is ↦ rw is | inr not ↦ rw not ])

-- What one variable leaves for a host.
put_field :
    (host name : Text) (env : List (Text × Partial)) (q : Partial → Partial)
    → or_default (lookup host (put (host_of name) (q (or_default (lookup (host_of name) env))) env))
      ≡ (if host_of name == host
          then q (or_default (lookup host env))
          else or_default (lookup host env))
put_field host name env q =
    ap or_default (lookup-put host (host_of name) (q (or_default (lookup (host_of name) env))) env)
    ∙ elim (Bool-cases (host_of name == host)) [
      | inl is ↦
          let same = (eq_iff (host_of name) host).0 is in
          rw is (ap (λ k. q (or_default (lookup k env))) same)
      | inr not ↦ rw not
    ]

lookup-add_token :
    (host : Text) (found : Option Text) (value : Text) (env : List (Text × Partial))
    → or_default (lookup host (add_token found value env)) ≡ (
      (or_default (lookup host env)).0,
      Option.get_or (token_rest host found value) (or_default (lookup host env)).1,
    )
lookup-add_token host none value env = refl
lookup-add_token host (some name) value env =
    put_field host name env (λ p. (p.0, some value))
    ∙ elim (Bool-cases (host_of name == host)) [ inl is ↦ rw is | inr not ↦ rw not ]

lookup-add_partial :
    (host : Text) (user : Option Text) (rest value : Text) (env : List (Text × Partial))
    → or_default (lookup host (add_partial user rest value env)) ≡ (
      Option.get_or (token_rest host user value) (or_default (lookup host env)).0,
      Option.get_or (token_unless host user rest value) (or_default (lookup host env)).1,
    )
lookup-add_partial host none rest value env =
    lookup-add_token host (named_suffix rest (codes "_TOKEN")) value env
lookup-add_partial host (some name) rest value env =
    put_field host name env (λ p. (some value, p.1))
    ∙ elim (Bool-cases (host_of name == host)) [ inl is ↦ rw is | inr not ↦ rw not ]

lookup-add_rest :
    (host : Text) (rest : Option Text) (value : Text) (env : List (Text × Partial))
    → or_default (lookup host (add_rest rest value env)) ≡ (
      Option.get_or (username_in host rest value) (or_default (lookup host env)).0,
      Option.get_or (token_in host rest value) (or_default (lookup host env)).1,
    )
lookup-add_rest host none value env = refl
lookup-add_rest host (some rest) value env =
    lookup-add_partial host (named_suffix rest (codes "_USERNAME")) rest value env

lookup-env_partials :
    (host : Text) (vars : List Var) (env : List (Text × Partial))
    → or_default (lookup host (env_partials vars env)) ≡ (
      last_or (username_for host) (or_default (lookup host env)).0 vars,
      last_or (token_for host) (or_default (lookup host env)).1 vars,
    )
unfolding env_partials add_var
lookup-env_partials host [] env = refl
lookup-env_partials host ((key, value) ∷ vars) env =
    let rest = strip_prefix (codes "FRESHDOCK_REGISTRY_") key in
    lookup-env_partials host vars (add_rest rest value env)
    ∙ ap
        (λ (p : Partial).
          let q : Partial =
            (last_or (username_for host) p.0 vars, last_or (token_for host) p.1 vars) in
          q)
        (lookup-add_rest host rest value env)

add_var-HasDistinctKeys :
    (rest : Option Text) (value : Text) (env : List (Text × Partial))
    → HasDistinctKeys env
    → HasDistinctKeys (add_rest rest value env)
add_var-HasDistinctKeys none value env u = u
add_var-HasDistinctKeys (some rest) value env u =
    partial (named_suffix rest (codes "_USERNAME")) (named_suffix rest (codes "_TOKEN"))
  where
    token : (found : Option Text) → HasDistinctKeys (add_token found value env)
    token none = u
    token (some name) = put-HasDistinctKeys (host_of name) _ env u

    partial : (user found : Option Text) → HasDistinctKeys (add_partial user rest value env)
    partial none found = token (named_suffix rest (codes "_TOKEN"))
    partial (some name) found = put-HasDistinctKeys (host_of name) _ env u

env_partials-HasDistinctKeys :
    (vars : List Var) (env : List (Text × Partial))
    → HasDistinctKeys env
    → HasDistinctKeys (env_partials vars env)
unfolding env_partials add_var
env_partials-HasDistinctKeys [] env u = u
env_partials-HasDistinctKeys ((key, value) ∷ vars) env u =
    env_partials-HasDistinctKeys vars _
      (add_var-HasDistinctKeys (strip_prefix (codes "FRESHDOCK_REGISTRY_") key) value env u)

lookup-overlay_host :
    (k host : Text) (p : Partial) (found : Option RegistryCredentials) (m : CredentialStore)
    → lookup host m ≡ found
    → lookup k (overlay_host host p found m) ≡ (if host == k then merged found p else lookup k m)
lookup-overlay_host k host (username, token) (some file) m e = lookup-put k host _ m
lookup-overlay_host k host (username, some token) none m e = lookup-put k host _ m
lookup-overlay_host k host (username, none) none m e = elim (Bool-cases (host == k)) [
  | inl is ↦ let same = (eq_iff host k).0 is in rw is (rw (same) at e)
  | inr not ↦ rw not
]

merged-nothing : (file : Option RegistryCredentials) → merged file (none, none) ≡ file
merged-nothing none = refl
merged-nothing (some file) = refl

lookup-overlay :
    (k : Text) (env : List (Text × Partial)) (m : CredentialStore)
    → HasDistinctKeys env
    → lookup k (overlay env m) ≡ merged (lookup k m) (or_default (lookup k env))
unfolding overlay lookup
lookup-overlay k [] m u = sym (merged-nothing (lookup k m))
lookup-overlay k ((host, p) ∷ env) m (fresh, u) =
    lookup-overlay k env (overlay_host host p (lookup host m) m) u
    ∙ rw (lookup-overlay_host k host p (lookup host m) m refl) (elim (Bool-cases (host == k)) [
      | inl is ↦
          let same = (eq_iff host k).0 is in
          let gone = ap (λ t. lookup t env) (sym same) ∙ fresh in
          rw is (rw gone (merged-nothing _ ∙ ap (λ t. merged (lookup t m) p) same))
      | inr not ↦ rw not
    ])

-- The credentials for a host, under any of its names: those of the last table of the file that folds
-- onto the same host, with the user name and the token that the last variables for that host give in
-- place of the file's, each by itself; without a token from either there are none.
pub get-build_store :
    (registry : List (Text × RegistryCredentials)) (vars : List Var) (host : Text)
    → get (build_store registry vars) host
      ≡ merged (last_or (table_for (canonicalize_host host)) none registry) (
        last_or (username_for (canonicalize_host host)) none vars,
        last_or (token_for (canonicalize_host host)) none vars,
      )
unfolding get build_store lookup
get-build_store registry vars host =
    let c = canonicalize_host host in
    lookup-overlay c (env_partials vars []) (file_store registry [])
      (env_partials-HasDistinctKeys vars [] tt)
    ∙ rw (lookup-file_store c registry [], lookup-env_partials c vars []) refl
