-- ===== src/Prelude/Chars.antt =====
-- The methods of `str` that look at characters: `trim`, `to_ascii_lowercase`, digits, `parse`.
use Prim.Native.Nat.{ℕ, ◌+◌, ◌-◌, ◌*◌, ◌^◌, ◌<◌}
use mathlib.Core.Path.{◌≡◌}
use mathlib.Core.Logic.{inl, inr}
use native.Mathlib.Omega.{arith}
use mathlib.Core.Bool.{Bool, true, false, ◌&&◌, ◌||◌}
use mathlib.Core.List.{[], ◌∷◌, map}
use mathlib.Core.Option.{Option, none, some}
use freshdock.Prelude.Tests.{leb, ltb, eqb, if◌then◌else◌, Option-cases}
use freshdock.Prelude.Lists.{all}
use freshdock.Prelude.Texts.{Text, ◌==◌}

-- The code points with the Unicode property White_Space, as `char::is_whitespace`.
unfoldable pub is_whitespace : ℕ → Bool
is_whitespace c =
    (leb 9 c && leb c 13)
    || eqb c 32
    || eqb c 0x85
    || eqb c 0xa0
    || eqb c 0x1680
    || (leb 0x2000 c && leb c 0x200a)
    || eqb c 0x2028
    || eqb c 0x2029
    || eqb c 0x202f
    || eqb c 0x205f
    || eqb c 0x3000

unfoldable pub trim_start : Text → Text
unfolding is_whitespace
trim_start [] = []
trim_start (c ∷ s) = if is_whitespace c then trim_start s else c ∷ s

-- Puts a character before a text whose end is trimmed.
abbrev pub cons_trimmed : ℕ → Text → Text
cons_trimmed c [] = if is_whitespace c then [] else c ∷ []
cons_trimmed c (d ∷ s) = c ∷ d ∷ s

unfoldable pub trim_end : Text → Text
unfolding is_whitespace
trim_end [] = []
trim_end (c ∷ s) = cons_trimmed c (trim_end s)

unfoldable pub trim : Text → Text
unfolding trim_start trim_end
trim s = trim_end (trim_start s)

unfoldable pub lower : ℕ → ℕ
lower c = if leb b'A' c && leb c b'Z' then c + 32 else c

unfoldable pub to_ascii_lowercase : Text → Text
unfolding lower
to_ascii_lowercase s = map lower s

unfoldable pub eq_ignore_ascii_case : Text → Text → Bool
unfolding to_ascii_lowercase
eq_ignore_ascii_case a b = to_ascii_lowercase a == to_ascii_lowercase b

abbrev pub is_empty : Text → Bool
is_empty [] = true
is_empty (c ∷ s) = false

unfoldable pub is_digit : ℕ → Bool
is_digit c = leb b'0' c && leb c b'9'

unfoldable pub is_hexdigit : ℕ → Bool
unfolding is_digit
is_hexdigit c = is_digit c || (leb b'a' c && leb c b'f') || (leb b'A' c && leb c b'F')

-- `char::len_utf8`, and `str::len`.
abbrev pub len_utf8 : ℕ → ℕ
len_utf8 c = if ltb c 0x80 then 1 else (if ltb c 0x800 then 2 else (if ltb c 0x10000 then 3 else 4))

unfoldable pub len : Text → ℕ
len [] = 0
len (c ∷ s) = len_utf8 c + len s

-- The value of a run of decimal digits.
abbrev value_from : ℕ → Text → ℕ
value_from acc [] = acc
value_from acc (c ∷ s) = value_from (10 * acc + (c - 48)) s

unfoldable pub parse_digits : Text → Option ℕ
unfolding is_digit
parse_digits [] = none
parse_digits (c ∷ s) = if all is_digit (c ∷ s) then some (value_from 0 (c ∷ s)) else none

-- One leading `+` is accepted in front of digits.
abbrev drop_plus : Text → Text
drop_plus [] = []
drop_plus (c ∷ s) = if eqb c b'+' then s else c ∷ s

abbrev within : ℕ → Option ℕ → Option ℕ
within width none = none
within width (some n) = if ltb n (2 ^ width) then some n else none

-- `str::parse` for an unsigned integer of that width; `none` is any parse error.
unfoldable pub parse_uint : ℕ → Text → Option ℕ
unfolding parse_digits
parse_uint width s = within width (parse_digits (drop_plus s))

pub parse_uint-bound : (width : ℕ) (s : Text) (n : ℕ) → parse_uint width s ≡ some n → n < 2 ^ width
unfolding parse_uint
parse_uint-bound width s n e = elim (Option-cases (parse_digits (drop_plus s))) [
  | inl bad ↦ let h = rw (bad, parse_uint) at e in cc
  | inr (m, good) ↦ let h = rw (good, parse_uint) at e in ground arith
]
