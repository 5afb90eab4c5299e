-- ===== src/Registry/Auth.antt =====
-- src/registry/auth.rs: `parse_www_authenticate` and `CachedToken`.
use freshdock.Prelude.{
  ℕ, ◌+◌, ◌-◌, Option, none, some, List, [], ◌∷◌, Text, codes, ◌==◌, leb, ltb, eqb, if◌then◌else◌,
}
use freshdock.Prelude.Chars.{trim, to_ascii_lowercase, eq_ignore_ascii_case, is_whitespace}
use freshdock.Prelude.Split.{split, split_once}
use freshdock.Labels.Values.{Duration, from_secs}

pub record Challenge : Type 0 where
  pub realm : Text
  pub service : Option Text
  pub scope : Option Text

-- `trim_matches('"')`
abbrev drop_quotes : Text → Text
drop_quotes [] = []
drop_quotes (c ∷ s) = if eqb c 0x22 then drop_quotes s else c ∷ s

abbrev cons_unquoted : ℕ → Text → Text
cons_unquoted c [] = if eqb c 0x22 then [] else c ∷ []
cons_unquoted c (d ∷ s) = c ∷ d ∷ s

abbrev drop_last_quotes : Text → Text
drop_last_quotes [] = []
drop_last_quotes (c ∷ s) = cons_unquoted c (drop_last_quotes s)

unfoldable pub trim_quotes : Text → Text
trim_quotes s = drop_last_quotes (drop_quotes s)

-- What the parts of a challenge have given so far.
pub record Fields : Type 0 where
  pub realm : Option Text
  pub service : Option Text
  pub scope : Option Text

abbrev set_field : (key value : Text) → Fields → Fields
set_field key value f =
    if key == codes "realm"
    then record f { realm = some value }
    else (if key == codes "service"
        then record f { service = some value }
        else (if key == codes "scope" then record f { scope = some value } else f))

abbrev on_part : Option (Text × Text) → Fields → Fields
on_part none f = f
on_part (some (key, value)) f =
    set_field (to_ascii_lowercase (trim key)) (trim_quotes (trim value)) f

unfoldable pub read_parts : List Text → Fields → Fields
unfolding split_once to_ascii_lowercase trim trim_quotes
read_parts [] f = f
read_parts (part ∷ parts) f = read_parts parts (on_part (split_once b'=' part) f)

abbrev challenge_of : Fields → Option Text → Option Challenge
challenge_of f none = none
challenge_of f (some realm) = some (record { realm = realm; service = f.service; scope = f.scope })

abbrev no_fields : Fields
no_fields = record { realm = none; service = none; scope = none }

abbrev parts_of : (rest : Text) → Option Challenge
parts_of rest = let f = read_parts (split b',' rest) no_fields in challenge_of f f.realm

-- The rest behind a scheme, which whitespace has to follow.
abbrev after_scheme : Text → Option Challenge
after_scheme [] = parts_of []
after_scheme (c ∷ s) = if is_whitespace c then parts_of (c ∷ s) else none

-- The first six characters, which are six bytes where they spell a scheme.
abbrev scheme : Text → Option Challenge
scheme (a ∷ b ∷ c ∷ d ∷ e ∷ f ∷ rest) =
    if eq_ignore_ascii_case (a ∷ b ∷ c ∷ d ∷ e ∷ f ∷ []) (codes "Bearer")
    then after_scheme rest
    else none
scheme s = none

unfoldable pub parse_www_authenticate : Text → Option Challenge
unfolding trim read_parts is_whitespace eq_ignore_ascii_case split
parse_www_authenticate header = scheme (trim header)

-- An `Instant` is its number of nanoseconds since some origin.
pub record CachedToken : Type 0 where
  pub token : Text
  pub expires_at : ℕ

abbrev pub default_ttl : Duration
default_ttl = from_secs 60

abbrev pub expiry_skew : Duration
expiry_skew = from_secs 5

abbrev pub ttl_of : Option ℕ → Duration
ttl_of none = default_ttl
ttl_of (some secs) = from_secs secs

-- `saturating_sub(EXPIRY_SKEW).max(1 s)`
abbrev pub effective : Duration → Duration
effective ttl = if leb (from_secs 1) (ttl - expiry_skew) then ttl - expiry_skew else from_secs 1

-- `Instant::checked_add`, with the last instant of the clock.
abbrev pub expires : (last now : ℕ) → Duration → ℕ
expires last now d = if leb (now + d) last then now + d else now + default_ttl

unfoldable pub new : (last : ℕ) → Text → (expires_in_secs : Option ℕ) → (now : ℕ) → CachedToken
new last token expires_in_secs now = record {
  token = token;
  expires_at = expires last now (effective (ttl_of expires_in_secs));
}

unfoldable pub valid_token : CachedToken → (now : ℕ) → Option Text
valid_token t now = if ltb now t.expires_at then some t.token else none
