-- ===== src/Prelude/Maps.antt =====
-- `HashMap` as an association list: `insert`, `remove`, and what a lookup finds after them; and the
-- last value that a loop over a list assigns.
use mathlib.Core.Path.{◌≡◌, refl, sym, ◌∙◌}
use mathlib.Core.Logic.{inl, inr}
use mathlib.Core.Bool.{true, false}
use mathlib.Core.List.{List, [], ◌∷◌}
use mathlib.Core.Option
use mathlib.Core.Option.{Option, none, some}
use native.Mathlib.Omega.{arith}
use freshdock.Prelude.Tests.{if◌then◌else◌, Bool-cases}
use freshdock.Prelude.Texts.{Text, ◌==◌, eq_iff, lookup}

unfoldable pub put {ℓ} : {V : Type ℓ} → Text → V → List (Text × V) → List (Text × V)
put k v [] = (k, v) ∷ []
put k v ((j, w) ∷ m) = if j == k then (k, v) ∷ m else (j, w) ∷ put k v m

unfoldable pub delete {ℓ} : {V : Type ℓ} → Text → List (Text × V) → List (Text × V)
delete k [] = []
delete k ((j, w) ∷ m) = if j == k then delete k m else (j, w) ∷ delete k m

abbrev pub keys {ℓ} : {V : Type ℓ} → List (Text × V) → List Text
keys [] = []
keys ((k, v) ∷ m) = k ∷ keys m

-- What is equal to one of two different names is different from the other.
apart : (i j k : Text) → (i == j) ≡ false → (i == k) ≡ true → (j == k) ≡ false
apart i j k differ here = elim (Bool-cases (j == k)) [
  | inr other ↦ other
  | inl same ↦
      let i_eq : i ≡ k = (eq_iff i k).0 here in
      let j_eq : j ≡ k = (eq_iff j k).0 same in let equal = (eq_iff i j).1 (i_eq ∙ sym j_eq) in cc
]

module _ {ℓ} {V : Type ℓ} where
  pub lookup-put :
      (k j : Text) (v : V) (m : List (Text × V))
      → lookup k (put j v m) ≡ (if j == k then some v else lookup k m)
  unfolding lookup put
  lookup-put k j v [] = refl
  lookup-put k j v ((i, w) ∷ m) = elim (Bool-cases (i == j)) [
    | inl same ↦ let is : i ≡ j = (eq_iff i j).0 same in rw (same, put) (rw (is) (ground arith))
    | inr other ↦
        rw (other, put)
          (elim (Bool-cases (i == k)) [
            | inl here ↦ rw (here, apart i j k other here) refl
            | inr elsewhere ↦ rw (elsewhere) (lookup-put k j v m)
          ])
  ]

  pub lookup-delete :
      (k j : Text) (m : List (Text × V))
      → lookup k (delete j m) ≡ (if j == k then none else lookup k m)
  unfolding lookup delete
  lookup-delete k j [] = ground arith
  lookup-delete k j ((i, w) ∷ m) = elim (Bool-cases (i == j)) [
    | inl same ↦
        let is : i ≡ j = (eq_iff i j).0 same in
        rw (same, delete) (rw (is) (ground (arith, lookup-delete k j m)))
    | inr other ↦
        rw (other, delete)
          (elim (Bool-cases (i == k)) [
            | inl here ↦ rw (here, apart i j k other here) refl
            | inr elsewhere ↦ rw (elsewhere) (lookup-delete k j m)
          ])
  ]

  -- No key stands twice.
  abbrev pub HasDistinctKeys : List (Text × V) → Type ℓ
  HasDistinctKeys [] = Unit
  HasDistinctKeys ((k, v) ∷ m) = (lookup k m ≡ none) × HasDistinctKeys m

  pub put-HasDistinctKeys :
      (k : Text) (v : V) (m : List (Text × V)) → HasDistinctKeys m → HasDistinctKeys (put k v m)
  unfolding put lookup
  put-HasDistinctKeys k v [] u = (refl, tt)
  put-HasDistinctKeys k v ((j, w) ∷ m) (fresh, u) = elim (Bool-cases (j == k)) [
    | inl same ↦ let is : j ≡ k = (eq_iff j k).0 same in rw (same, put) (subst_key j k is fresh, u)
    | inr other ↦
        rw (other, put)
          (
            lookup-put j k v m ∙ ground (arith, other, fresh, eq_iff k j, eq_iff j k),
            put-HasDistinctKeys k v m u,
          )
  ]
    where
      subst_key : (j k : Text) → j ≡ k → lookup j m ≡ none → lookup k m ≡ none
      subst_key j k e f = rw (← e) f

-- The value after `for x in xs { if let Some(b) = f(x) { slot = b } }`.
abbrev pub last_or {ℓ κ} : {A : Type ℓ} {B : Type κ} → (A → Option B) → B → List A → B
last_or f b [] = b
last_or f b (x ∷ xs) = last_or f (Option.get_or (f x) b) xs
