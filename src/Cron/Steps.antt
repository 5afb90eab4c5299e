-- ===== src/Cron/Steps.antt =====
-- The loop that marks the values of a part.
use freshdock.Prelude.{
  ℕ, zero, suc, ◌+◌, ◌-◌, ◌*◌, ◌%◌, ◌^◌, ◌≤◌, ◌<◌, ◌≡◌, ◌↔◌, ◌⊎◌, inl, inr, refl, true, leb, ltb,
  eqb, Bool-cases, arith,
}
use native.Mathlib.Nat.{suc-mul}
use freshdock.Cron.{bit, set_bit, mark}
use freshdock.Cron.Bits.{bit-set_bit}

-- The value is one of `i`, `i + step`, ... up to `end`.
abbrev pub IsStep : (i end step value : ℕ) → Type 0
IsStep i end step value = (k : ℕ) × (value ≡ i + k * step) × (value ≤ end)

bit-set_bit_iff :
    (value i mask : ℕ)
    → (bit value (set_bit i mask) ≡ true) ↔ ((value ≡ i) ⊎ (bit value mask ≡ true))
bit-set_bit_iff value i mask = rw (bit-set_bit value i mask) (
  λ e. elim (Bool-cases (eqb value i)) [
    | inl same ↦ inl (ground arith)
    | inr other ↦ inr (ground arith)
  ],
  λ why. elim why [ inl same ↦ ground arith | inr e ↦ ground arith ],
)

module _ (end step value : ℕ) (positive : 1 ≤ step) (short : step + end < 2 ^ 32) where
  -- From a start past the end nothing is a step.
  past : (i : ℕ) → end < i → IsStep i end step value → ⊥
  past i lt (k, e, le) = omega arith

  -- The steps from `i` are `i` itself and those from `i + step`.
  here_or_later :
      (i : ℕ) → i ≤ end → IsStep i end step value ↔ ((value ≡ i) ⊎ IsStep (i + step) end step value)
  here_or_later i le = (there, back)
    where
      there : IsStep i end step value → (value ≡ i) ⊎ IsStep (i + step) end step value
      there (zero, e, b) = inl (omega arith)
      there (suc k, e, b) = inr (k, omega (arith, suc-mul k step), b)

      back : (value ≡ i) ⊎ IsStep (i + step) end step value → IsStep i end step value
      back (inl same) = (zero, omega arith, omega arith)
      back (inr (k, e, b)) = (suc k, omega (arith, suc-mul k step), b)

  pub bit-mark :
      (fuel i mask : ℕ)
      → end + 1 - i ≤ fuel
      → (bit value (mark fuel i end step mask) ≡ true)
        ↔ (IsStep i end step value ⊎ (bit value mask ≡ true))
  unfolding mark
  bit-mark zero i mask enough =
      (λ e. inr e, λ why. elim why [ inl k ↦ absurd (past i (omega arith) k) | inr e ↦ e ])
  bit-mark (suc fuel) i mask enough = elim (Bool-cases (leb i end)) [
    | inr out ↦
        rw (out, mark)
          (λ e. inr e, λ why. elim why [ inl k ↦ absurd (past i (ground arith) k) | inr e ↦ e ])
    | inl le ↦
        let inside : i ≤ end = ground arith in
        let no_wrap : (i + step) % 2 ^ 32 ≡ i + step = omega arith in
        let (out, back) = bit-mark fuel (i + step) (set_bit i mask) (omega arith) in
        let (marked, unmarked) = bit-set_bit_iff value i mask in
        let (split, join) = here_or_later i inside in
        rw (le, mark, no_wrap)
          (
            λ e. elim (out e) [
              | inl k ↦ inl (join (inr k))
              | inr b ↦ elim (marked b) [ inl same ↦ inl (join (inl same)) | inr old ↦ inr old ]
            ],
            λ why. elim why [
              | inr old ↦ back (inr (unmarked (inr old)))
              | inl k ↦ elim (split k) [
                | inl same ↦ back (inr (unmarked (inl same)))
                | inr later ↦ back (inl later)
              ]
            ],
          )
  ]

-- Rounds enough for a counter that only rises, and for one whose additions wrap to lower values.
module _ (end step : ℕ) where
  rising_fuel :
      (m n i mask : ℕ)
      → step + end < 2 ^ 32
      → 1 ≤ step
      → end + 1 - i ≤ m
      → end + 1 - i ≤ n
      → mark m i end step mask ≡ mark n i end step mask
  unfolding mark
  rising_fuel zero zero i mask short positive hm hn = refl
  rising_fuel zero (suc n) i mask short positive hm hn = ground arith
  rising_fuel (suc m) zero i mask short positive hm hn = ground arith
  rising_fuel (suc m) (suc n) i mask short positive hm hn = elim (Bool-cases (leb i end)) [
    | inr out ↦ rw (out, mark) refl
    | inl le ↦
        let inside : i ≤ end = ground arith in
        let no_wrap : (i + step) % 2 ^ 32 ≡ i + step = omega arith in
        rw (le, mark, no_wrap)
          (rising_fuel m n (i + step) (set_bit i mask) short positive (omega arith) (omega arith))
  ]

  falling_fuel :
      (m n i mask : ℕ)
      → 2 ^ 32 ≤ step + end
      → step < 2 ^ 32
      → end < 2 ^ 31
      → (i < m) ⊎ (end < i)
      → (i < n) ⊎ (end < i)
      → mark m i end step mask ≡ mark n i end step mask
  unfolding mark
  falling_fuel zero zero i mask long word low hm hn = refl
  falling_fuel zero (suc n) i mask long word low hm hn = ground arith
  falling_fuel (suc m) zero i mask long word low hm hn = ground arith
  falling_fuel (suc m) (suc n) i mask long word low hm hn = elim (Bool-cases (leb i end)) [
    | inr out ↦ rw (out, mark) refl
    | inl le ↦
        rw (le, mark)
          (falling_fuel m n ((i + step) % 2 ^ 32) (set_bit i mask) long word low ground arith ground
            arith)
  ]

-- The loop ends within the rounds it is given, though a large step wraps the counter.
pub mark-ends :
    (start end step mask extra : ℕ)
    → start ≤ end
    → end < 2 ^ 31
    → 1 ≤ step
    → step < 2 ^ 32
    → mark (end + 1) start end step mask ≡ mark (end + 1 + extra) start end step mask
mark-ends start end step mask extra le low positive word =
    elim (Bool-cases (ltb (step + end) (2 ^ 32))) [
      | inl short ↦
          rising_fuel end step (end + 1) (end + 1 + extra) start mask ground arith positive
            (omega arith) (omega arith)
      | inr long ↦
          falling_fuel end step (end + 1) (end + 1 + extra) start mask ground arith word low
            (inl (omega arith)) (inl (omega arith))
    ]
