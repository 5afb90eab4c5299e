-- ===== src/Cron/Bits.antt =====
-- The bits of a mask: what `|` with one bit changes, and how large it gets.
use freshdock.Prelude.{
  ℕ, zero, suc, ◌+◌, ◌*◌, ◌/◌, ◌%◌, ◌^◌, ◌<◌, ◌≡◌, refl, false, ◌||◌, eqb, if◌then◌else◌, arith,
}
use freshdock.Cron.{bit, set_bit}

pub bit-zero : (j : ℕ) → bit j 0 ≡ false
unfolding bit
bit-zero zero = refl
bit-zero (suc j) = bit-zero j

half_double : (a m : ℕ) → (2 * a + m % 2) / 2 ≡ a
half_double a m = omega arith

half_mark : (m : ℕ) → (if eqb (m % 2) 1 then m else m + 1) / 2 ≡ m / 2
half_mark m = ground arith

pub bit-set_bit : (j i mask : ℕ) → bit j (set_bit i mask) ≡ (eqb j i || bit j mask)
unfolding bit set_bit
bit-set_bit zero zero m = ground arith
bit-set_bit (suc j) zero m = rw (half_mark m) ground arith
bit-set_bit zero (suc i) m = ground arith
bit-set_bit (suc j) (suc i) m =
    rw (half_double (set_bit i (m / 2)) m) ground (arith, bit-set_bit j i (m / 2))

pub set_bit-bound : (i w mask : ℕ) → i < w → mask < 2 ^ w → set_bit i mask < 2 ^ w
unfolding set_bit
set_bit-bound i zero m lt small = absurd (omega arith)
set_bit-bound zero (suc w) m lt small = ground arith
set_bit-bound (suc i) (suc w) m lt small =
    let half = set_bit-bound i w (m / 2) (omega arith) (omega arith) in omega arith
