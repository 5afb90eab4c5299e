-- ===== src/Names/Archive.antt =====
-- Archive names are recognised as such.
use freshdock.Prelude.{
  ℕ, zero, suc, ◌+◌, ◌/◌, ◌%◌, ◌≡◌, refl, ap, ◌∙◌, ◌⊎◌, inl, inr, pos, Bool, true, false, none,
  some, [], ◌∷◌, ◌++◌, Text, codes, eqb, arith, Bool-cases, all,
}
use mathlib.Core.List.{append_assoc}
use freshdock.Prelude.Chars.{is_empty, is_digit}
use freshdock.Prelude.Split.{split_once, rsplit_text, contains, strip_prefix}
use freshdock.Prelude.Cuts.{split_once-none, split_once-append}
use freshdock.Names.Fresh.{Taken, next_available_old_name-Taken}
use freshdock.Names.{
  digits_from, decimal, decimal_ℤ, old_infix, old_name_for, is_all_digits, archive_cut,
  is_archive_name, max_collision_attempts, numbered, first_free, next_available_old_name,
}

-- A text of digits, with one at least.
is_digit-last : (n : ℕ) → is_digit (48 + n % 10) ≡ true
unfolding is_digit
is_digit-last n = ground arith

digits_from-all :
    (fuel n : ℕ) (acc : Text)
    → all is_digit acc ≡ true
    → all is_digit (digits_from fuel n acc) ≡ true
digits_from-all zero n acc digits = digits
digits_from-all (suc fuel) n acc digits =
    let more : all is_digit ((48 + n % 10) ∷ acc) ≡ true = rw (is_digit-last n) digits in
    elim (Bool-cases (eqb (n / 10) 0)) [
      | inl done ↦ rw done more
      | inr left ↦ rw left (digits_from-all fuel (n / 10) ((48 + n % 10) ∷ acc) more)
    ]

digits_from-is_empty :
    (fuel n : ℕ) (acc : Text) → is_empty acc ≡ false → is_empty (digits_from fuel n acc) ≡ false
digits_from-is_empty zero n acc there = there
digits_from-is_empty (suc fuel) n acc there = elim (Bool-cases (eqb (n / 10) 0)) [
  | inl done ↦ rw done refl
  | inr left ↦ rw left (digits_from-is_empty fuel (n / 10) ((48 + n % 10) ∷ acc) refl)
]

decimal-digits : (n : ℕ) → all is_digit (decimal n) ≡ true
unfolding decimal
decimal-digits n = digits_from-all (suc n) n [] refl

decimal-is_empty : (n : ℕ) → is_empty (decimal n) ≡ false
unfolding decimal
decimal-is_empty n = elim (Bool-cases (eqb (n / 10) 0)) [
  | inl done ↦ rw done refl
  | inr left ↦ rw left (digits_from-is_empty n (n / 10) ((48 + n % 10) ∷ []) refl)
]

is_all_digits-decimal : (n : ℕ) → is_all_digits (decimal n) ≡ true
unfolding is_all_digits
is_all_digits-decimal n = rw (decimal-is_empty n, decimal-digits n) refl

other_than_digit :
    (c : ℕ) (t : Text) → is_digit c ≡ false → all is_digit t ≡ true → contains c t ≡ false
unfolding contains is_digit
other_than_digit c [] differs digits = refl
other_than_digit c (x ∷ t) differs digits = ground (arith, other_than_digit c t differs)

-- Without an `o` there is no infix.
rsplit_text-none : (t : Text) → contains b'o' t ≡ false → rsplit_text old_infix t ≡ none
unfolding rsplit_text contains strip_prefix codes
rsplit_text-none [] out = refl
rsplit_text-none (x ∷ []) out = ground arith
rsplit_text-none (x ∷ y ∷ t) out = rw (rsplit_text-none (y ∷ t) (ground arith)) (ground arith)

rsplit_text-infix :
    (t : Text) → contains b'o' t ≡ false → rsplit_text old_infix (old_infix ++ t) ≡ some ([], t)
unfolding rsplit_text strip_prefix codes contains
rsplit_text-infix t out = rw (rsplit_text-none (b'-' ∷ t) out) refl

rsplit_text-append :
    (a r : Text) {n t : Text}
    → rsplit_text old_infix r ≡ some (n, t)
    → rsplit_text old_infix (a ++ r) ≡ some (a ++ n, t)
unfolding rsplit_text
rsplit_text-append [] r e = e
rsplit_text-append (x ∷ a) r e = rw (rsplit_text-append a r e) refl

-- What stands behind the last infix decides.
is_archive_name-tail :
    (original t : Text)
    → contains b'o' t ≡ false
    → archive_cut (split_once b'-' t) t ≡ true
    → is_archive_name (original ++ (old_infix ++ t)) ≡ true
unfolding is_archive_name
is_archive_name-tail original t out cut =
    rw (rsplit_text-append original (old_infix ++ t) (rsplit_text-infix t out)) cut

not_in_decimal : (c n : ℕ) → is_digit c ≡ false → contains c (decimal n) ≡ false
not_in_decimal c n differs = other_than_digit c (decimal n) differs (decimal-digits n)

plain-IsArchive :
    (original : Text) (ts : ℕ) → is_archive_name (old_name_for original (pos ts)) ≡ true
unfolding old_name_for decimal_ℤ is_digit
plain-IsArchive original ts =
    is_archive_name-tail original (decimal ts) (not_in_decimal b'o' ts refl) (
      rw (split_once-none b'-' (decimal ts) (not_in_decimal b'-' ts refl))
        (is_all_digits-decimal ts))

contains-numbered :
    (a b : Text)
    → contains b'o' a ≡ false
    → contains b'o' b ≡ false
    → contains b'o' (a ++ b'-' ∷ b) ≡ false
unfolding contains
contains-numbered [] b no_a no_b = no_b
contains-numbered (x ∷ a) b no_a no_b = ground (arith, contains-numbered a b)

numbered-IsArchive :
    (original : Text) (ts n : ℕ)
    → is_archive_name (numbered (old_name_for original (pos ts)) n) ≡ true
unfolding old_name_for decimal_ℤ is_digit
numbered-IsArchive original ts n =
    let tail = decimal ts ++ b'-' ∷ decimal n in
    let regroup : numbered (original ++ (old_infix ++ decimal ts)) n
        ≡ original ++ (old_infix ++ tail) =
      append_assoc original (old_infix ++ decimal ts) (b'-' ∷ decimal n)
      ∙ ap (λ t. original ++ t) (append_assoc old_infix (decimal ts) (b'-' ∷ decimal n)) in
    ap is_archive_name regroup
    ∙ is_archive_name-tail original tail
        (contains-numbered (decimal ts) (decimal n) (not_in_decimal b'o' ts refl)
          (not_in_decimal b'o' n refl))
        (rw
          (
            split_once-append b'-' (decimal ts) (decimal n) (not_in_decimal b'-' ts refl),
            is_all_digits-decimal ts,
            is_all_digits-decimal n,
          )
          refl)

first_free-IsArchive :
    (exists : Text → Bool) (original : Text) (ts left n : ℕ)
    → is_archive_name (first_free exists (old_name_for original (pos ts)) left n) ≡ true
unfolding first_free
first_free-IsArchive exists original ts zero n =
    numbered-IsArchive original ts max_collision_attempts
first_free-IsArchive exists original ts (suc left) n =
    elim (Bool-cases (exists (numbered (old_name_for original (pos ts)) n))) [
      | inr free ↦ rw free (numbered-IsArchive original ts n)
      | inl taken ↦ rw taken (first_free-IsArchive exists original ts left (n + 1))
    ]

next_available_old_name-IsArchive :
    (original : Text) (ts : ℕ) (exists : Text → Bool)
    → is_archive_name (next_available_old_name original (pos ts) exists) ≡ true
unfolding next_available_old_name
next_available_old_name-IsArchive original ts exists =
    elim (Bool-cases (exists (old_name_for original (pos ts)))) [
      | inr free ↦ rw free (plain-IsArchive original ts)
      | inl taken ↦ rw taken (first_free-IsArchive exists original ts max_collision_attempts 1)
    ]

-- The name that a rename picks at a time that is not negative is recognised as an archive's, and it
-- is free, unless the archive name without a number and all the numbered ones from 1 to the limit are
-- taken.
pub next_available_old_name-picked :
    (original : Text) (ts : ℕ) (exists : Text → Bool)
    → (is_archive_name (next_available_old_name original (pos ts) exists) ≡ true)
      × ((exists (next_available_old_name original (pos ts) exists) ≡ false)
          ⊎ (exists (old_name_for original (pos ts)) ≡ true)
            × Taken exists (old_name_for original (pos ts)) max_collision_attempts 1)
next_available_old_name-picked original ts exists = (
  next_available_old_name-IsArchive original ts exists,
  next_available_old_name-Taken original (pos ts) exists,
)
