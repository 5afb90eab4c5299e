-- ===== src/Prelude/Split.antt =====
-- The methods of `str` that cut a text at a character or at a prefix.
use Prim.Native.Nat.{ℕ}
use mathlib.Core.Bool.{Bool, true, false}
use mathlib.Core.List.{List, [], ◌∷◌}
use mathlib.Core.Option
use mathlib.Core.Option.{Option, none, some, IsSome}
use freshdock.Prelude.Tests.{eqb, if◌then◌else◌}
use freshdock.Prelude.Lists.{any}
use freshdock.Prelude.Texts.{Text, ◌==◌}
use freshdock.Prelude.Chars.{is_whitespace}

abbrev is_some {ℓ} : {A : Type ℓ} → Option A → Bool
is_some none = false
is_some (some a) = true

unfoldable pub strip_prefix : Text → Text → Option Text
strip_prefix [] s = some s
strip_prefix (p ∷ ps) [] = none
strip_prefix (p ∷ ps) (c ∷ s) = if eqb p c then strip_prefix ps s else none

unfoldable pub starts_with : Text → Text → Bool
unfolding strip_prefix
starts_with prefix s = is_some (strip_prefix prefix s)

unfoldable pub strip_suffix : Text → Text → Option Text
unfolding ◌==◌
strip_suffix suffix [] = if [] == suffix then some [] else none
strip_suffix suffix (c ∷ s) =
    let shorter = strip_suffix suffix s in
    if (c ∷ s) == suffix then some [] else Option.map (λ t. c ∷ t) shorter

unfoldable pub contains : ℕ → Text → Bool
contains c s = any (eqb c) s

-- Puts a character before the first part of a cut.
abbrev pub before : ℕ → Text × Text → Text × Text
before x (a, b) = (x ∷ a, b)

-- Cuts at the first occurrence of the character.
unfoldable pub split_once : ℕ → Text → Option (Text × Text)
split_once c [] = none
split_once c (x ∷ s) = if eqb x c then some ([], s) else Option.map (before x) (split_once c s)

-- The earlier cut, unless there is a later one.
abbrev pub or_later : {A : Type 0} → Option A → Option A → Option A
or_later (some a) earlier = some a
or_later none earlier = earlier

-- Cuts at the last occurrence of the character.
unfoldable pub rsplit_once : ℕ → Text → Option (Text × Text)
rsplit_once c [] = none
rsplit_once c (x ∷ s) =
    or_later (Option.map (before x) (rsplit_once c s)) (if eqb x c then some ([], s) else none)

-- Cuts at the last occurrence of a text that is not empty.
unfoldable pub rsplit_text : Text → Text → Option (Text × Text)
unfolding strip_prefix
rsplit_text sep [] = none
rsplit_text sep (x ∷ s) =
    or_later (Option.map (before x) (rsplit_text sep s))
      (Option.map (λ rest. ([], rest)) (strip_prefix sep (x ∷ s)))

abbrev cons_head : ℕ → List Text → List Text
cons_head x [] = (x ∷ []) ∷ []
cons_head x (part ∷ parts) = (x ∷ part) ∷ parts

-- All parts between the occurrences of the character.
unfoldable pub split : ℕ → Text → List Text
split c [] = [] ∷ []
split c (x ∷ s) = let parts = split c s in if eqb x c then [] ∷ parts else cons_head x parts

-- Puts a character before the first word, where no whitespace follows it.
abbrev cons_word : ℕ → Text → List Text → List Text
cons_word c [] words = (c ∷ []) ∷ words
cons_word c (d ∷ s) words = if is_whitespace d then (c ∷ []) ∷ words else cons_head c words

-- The words between the runs of whitespace.
unfoldable pub split_whitespace : Text → List Text
unfolding is_whitespace
split_whitespace [] = []
split_whitespace (c ∷ s) =
    let words = split_whitespace s in if is_whitespace c then words else cons_word c s words
