-- ===== src/Names.antt =====
-- Container names: the archive names of src/docker/rename.rs, freshdock's own container of
-- src/selfid.rs, and the references of src/docker/mod.rs and src/probe.rs.
pub mod Fresh
pub mod Archive
pub mod Own
use freshdock.Prelude.{
  ℕ, zero, suc, ◌+◌, ◌/◌, ◌%◌, ℤ, pos, negsuc, Bool, false, not, ◌&&◌, ◌||◌, Option, none, some, [],
  ◌∷◌, ◌++◌, Text, codes, ◌==◌, leb, eqb, if◌then◌else◌, all,
}
use freshdock.Prelude.Chars.{is_empty, is_digit, is_hexdigit, to_ascii_lowercase, len}
use freshdock.Prelude.Split.{split_once, rsplit_text, starts_with, strip_prefix, contains}

-- The decimal digits of a number, by recursion on fuel: a number has fewer digits than its value
-- plus two.
abbrev digits_from : ℕ → ℕ → Text → Text
digits_from zero n acc = acc
digits_from (suc fuel) n acc =
    let acc' = (48 + n % 10) ∷ acc in
    let more = digits_from fuel (n / 10) acc' in if eqb (n / 10) 0 then acc' else more

-- `Display` of an unsigned and of a signed integer.
unfoldable pub decimal : ℕ → Text
decimal n = digits_from (suc n) n []

unfoldable pub decimal_ℤ : ℤ → Text
unfolding decimal
decimal_ℤ (pos n) = decimal n
decimal_ℤ (negsuc n) = b'-' ∷ decimal (suc n)

abbrev pub old_infix : Text
old_infix = codes "-old-"

unfoldable pub old_name_for : Text → ℤ → Text
unfolding decimal_ℤ
old_name_for original ts_unix = original ++ (old_infix ++ decimal_ℤ ts_unix)

unfoldable pub is_all_digits : Text → Bool
unfolding is_digit
is_all_digits s = not (is_empty s) && all is_digit s

abbrev pub archive_cut : Option (Text × Text) → Text → Bool
archive_cut none tail = is_all_digits tail
archive_cut (some (ts, seq)) tail = is_all_digits ts && is_all_digits seq

abbrev pub archive_tail : Option (Text × Text) → Bool
archive_tail none = false
archive_tail (some (original, tail)) = archive_cut (split_once b'-' tail) tail

unfoldable pub is_archive_name : Text → Bool
unfolding rsplit_text split_once is_all_digits
is_archive_name name = archive_tail (rsplit_text old_infix name)

abbrev pub max_collision_attempts : ℕ
max_collision_attempts = 64

abbrev pub numbered : Text → ℕ → Text
numbered base n = base ++ b'-' ∷ decimal n

-- The candidates from `n` on, `left` of them, and the last one of all where each is taken.
unfoldable pub first_free : (Text → Bool) → Text → (left n : ℕ) → Text
unfolding decimal
first_free exists base zero n = numbered base max_collision_attempts
first_free exists base (suc left) n =
    let later = first_free exists base left (n + 1) in
    if not (exists (numbered base n)) then numbered base n else later

unfoldable pub next_available_old_name : Text → ℤ → (Text → Bool) → Text
unfolding old_name_for first_free
next_available_old_name original ts_unix exists =
    let base = old_name_for original ts_unix in
    if not (exists base) then base else first_free exists base max_collision_attempts 1

unfoldable pub looks_like_container_id : Text → Bool
unfolding len is_hexdigit
looks_like_container_id name = leb 12 (len name) && all is_hexdigit name

unfoldable pub is_own_container : Option Text → Option Text → Bool
unfolding looks_like_container_id starts_with to_ascii_lowercase
is_own_container none id = false
is_own_container (some p) none = false
is_own_container (some p) (some i) =
    looks_like_container_id p && starts_with (to_ascii_lowercase p) i

unfoldable pub container_reference : Text → Option Text
unfolding strip_prefix
container_reference mode = strip_prefix (codes "container:") mode

abbrev references : Option Text → Text → Text → Bool
references none name full_id = false
references (some reference) name full_id =
    reference == name
    || (not (is_empty full_id)
        && (reference == full_id || (leb 12 (len reference) && starts_with reference full_id)))

unfoldable pub network_mode_references : Text → Text → Text → Bool
unfolding container_reference len starts_with
network_mode_references mode name full_id = references (container_reference mode) name full_id

-- A reference that names fixed bits: `is_pinned` of src/probe.rs.
unfoldable pub is_pinned : Text → Bool
unfolding starts_with contains
is_pinned image = starts_with (codes "sha256:") image || contains b'@' image

abbrev sixty_four_hex : Option Text → Bool
sixty_four_hex none = false
sixty_four_hex (some hex) = eqb (len hex) 64 && all is_hexdigit hex

unfoldable pub is_image_id : Text → Bool
unfolding strip_prefix len is_hexdigit
is_image_id image = sixty_four_hex (strip_prefix (codes "sha256:") image)

-- `behind_tag` of src/probe.rs.
unfoldable pub behind_tag : Option Text → Option Text → Bool
behind_tag none tag_image_id = false
behind_tag (some c) none = false
behind_tag (some c) (some t) = not (c == t)
