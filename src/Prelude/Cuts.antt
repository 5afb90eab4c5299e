-- ===== src/Prelude/Cuts.antt =====
-- What the cuts of a text at a character find.
use freshdock.Prelude.{
  ℕ, ◌≡◌, refl, ap, inl, inr, false, none, some, [], ◌∷◌, ◌++◌, Text, eqb, Option-cases, Bool-cases,
  arith,
}
use freshdock.Prelude.Split.{split_once, contains}

pub split_once-none : (c : ℕ) (s : Text) → contains c s ≡ false → split_once c s ≡ none
unfolding split_once contains
split_once-none c [] out = refl
split_once-none c (x ∷ s) out = rw (split_once-none c s (ground arith)) (ground arith)

pub split_once-append :
    (c : ℕ) (a t : Text) → contains c a ≡ false → split_once c (a ++ c ∷ t) ≡ some (a, t)
unfolding split_once contains
split_once-append c [] t out = ground arith
split_once-append c (x ∷ a) t out = rw (split_once-append c a t (ground arith)) (ground arith)

-- The first occurrence of the character stands between the two parts.
abbrev pub IsCut : (c : ℕ) (s a b : Text) → Type 0
IsCut c s a b = (s ≡ a ++ c ∷ b) × (contains c a ≡ false)

pub none-contains : (c : ℕ) (s : Text) → split_once c s ≡ none → contains c s ≡ false
unfolding split_once contains
none-contains c [] e = refl
none-contains c (x ∷ s) e = elim (Bool-cases (eqb x c)) [
  | inl is ↦ let e' = rw (is, split_once) at e in cc
  | inr other ↦ elim (Option-cases (split_once c s)) [
    | inl gone ↦ ground (arith, none-contains c s gone)
    | inr (cut, is) ↦ let e' = rw (other, is, split_once) at e in cc
  ]
]

pub split_once-IsCut : (c : ℕ) (s a b : Text) → split_once c s ≡ some (a, b) → IsCut c s a b
unfolding split_once contains
split_once-IsCut c [] a b e = cc
split_once-IsCut c (x ∷ s) a b e = elim (Bool-cases (eqb x c)) [
  | inl is ↦
      let e' = rw (is, split_once) at e in
      let first : [] ≡ a = cc in
      let second : s ≡ b = cc in
      let same : x ≡ c = ground arith in rw (← first, ← second, same) (refl, refl)
  | inr other ↦ elim (Option-cases (split_once c s)) [
    | inl gone ↦ let e' = rw (other, gone, split_once) at e in cc
    | inr ((a', b'), is) ↦
        let e' = rw (other, is, split_once) at e in
        let first : x ∷ a' ≡ a = cc in
        let second : b' ≡ b = cc in
        let (whole, lacks) = split_once-IsCut c s a' b' is in
        rw (← first, ← second) (ap (λ l. x ∷ l) whole, ground (arith, lacks))
  ]
]

pub IsCut-split_once :
    (c : ℕ) (whole a b : Text) → IsCut c whole a b → split_once c whole ≡ some (a, b)
IsCut-split_once c whole a b (is, lacks) = rw is (split_once-append c a b lacks)
