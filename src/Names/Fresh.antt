-- ===== src/Names/Fresh.antt =====
-- The archive name that a rename picks is free.
use freshdock.Prelude.{
  ℕ, zero, suc, ◌+◌, ◌≤◌, ◌<◌, ◌≡◌, subst, ◌⊎◌, inl, inr, ℤ, Bool, true, false, Text, arith,
  Bool-cases,
}
use freshdock.Names.{
  old_name_for, max_collision_attempts, numbered, first_free, next_available_old_name,
}

module _ (exists : Text → Bool) (base : Text) where
  -- The numbered candidates from `n` on, `left` of them, are all taken.
  abbrev pub Taken : (left n : ℕ) → Type 0
  Taken left n = (k : ℕ) → n ≤ k → k < n + left → exists (numbered base k) ≡ true

  Taken-suc :
      (left n : ℕ) → exists (numbered base n) ≡ true → Taken left (n + 1) → Taken (suc left) n
  Taken-suc left n here later k from to = elim (compare_cases n k from) [
    | inl same ↦ subst (λ j. exists (numbered base j) ≡ true) same here
    | inr after ↦ later k after (omega arith)
  ]
    where
      compare_cases : (n k : ℕ) → n ≤ k → (n ≡ k) ⊎ (n + 1 ≤ k)
      compare_cases n k from = ground arith

  first_free-Taken : (left n : ℕ) → (exists (first_free exists base left n) ≡ false) ⊎ Taken left n
  unfolding first_free
  first_free-Taken zero n = inr (λ k from to. absurd (omega arith))
  first_free-Taken (suc left) n = elim (Bool-cases (exists (numbered base n))) [
    | inr free ↦ inl (rw (free, first_free) free)
    | inl taken ↦ elim (first_free-Taken left (n + 1)) [
      | inl free ↦ inl (rw (taken, first_free) free)
      | inr all ↦ inr (Taken-suc left n taken all)
    ]
  ]

-- The name that a rename picks is free, unless the archive name without a number and all the
-- numbered ones from 1 to the limit are taken.
pub next_available_old_name-Taken :
    (original : Text) (ts_unix : ℤ) (exists : Text → Bool)
    → (exists (next_available_old_name original ts_unix exists) ≡ false)
      ⊎ (exists (old_name_for original ts_unix) ≡ true)
        × Taken exists (old_name_for original ts_unix) max_collision_attempts 1
unfolding next_available_old_name
next_available_old_name-Taken original ts_unix exists =
    let base = old_name_for original ts_unix in
    elim (Bool-cases (exists base)) [
      | inr free ↦ inl (rw (free, next_available_old_name) free)
      | inl taken ↦ elim (first_free-Taken exists base max_collision_attempts 1) [
        | inl free ↦ inl (rw (taken, next_available_old_name) free)
        | inr all ↦ inr (taken, all)
      ]
    ]
