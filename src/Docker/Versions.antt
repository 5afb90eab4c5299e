-- ===== src/Docker/Versions.antt =====
-- `parse_api_version` and `multi_network_guard`.
use freshdock.Prelude.{
  ℕ, Bool, false, ◌&&◌, ◌||◌, Option, none, some, [], ◌∷◌, Text, ok, err, leb, ltb, eqb,
  if◌then◌else◌,
}
use freshdock.Prelude.Chars.{trim, is_digit, parse_uint}
use freshdock.Prelude.Split.{split_once}
use freshdock.Daemon.Types.{api_too_old_for_multi_network, Fallible}

abbrev drop_v : Text → Text
drop_v [] = []
drop_v (c ∷ s) = if eqb c b'v' || eqb c b'V' then drop_v s else c ∷ s

-- The digits up to the first other character.
abbrev leading_digits : Text → Text
leading_digits [] = []
leading_digits (c ∷ s) = if is_digit c then c ∷ leading_digits s else []

abbrev pair_of : Option ℕ → Option ℕ → Option (ℕ × ℕ)
pair_of (some major) (some minor) = some (major, minor)
pair_of _ _ = none

abbrev numbers : Option (Text × Text) → Option (ℕ × ℕ)
numbers none = none
numbers (some (major, rest)) = pair_of (parse_uint 32 major) (parse_uint 32 (leading_digits rest))

unfoldable pub parse_api_version : Text → Option (ℕ × ℕ)
unfolding trim is_digit parse_uint split_once
parse_api_version raw = numbers (split_once b'.' (drop_v (trim raw)))

-- Is the version below 1.44?
abbrev pub is_too_old : Option (ℕ × ℕ) → Bool
is_too_old none = false
is_too_old (some (major, minor)) = ltb major 1 || (eqb major 1 && ltb minor 44)

unfoldable pub multi_network_guard : (api_version : Text) (networks : ℕ) → Fallible (Unit {0})
unfolding parse_api_version
multi_network_guard api_version networks =
    if leb networks 1
    then ok tt
    else (if is_too_old (parse_api_version api_version)
        then err (api_too_old_for_multi_network api_version networks)
        else ok tt)
