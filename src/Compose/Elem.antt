-- ===== src/Compose/Elem.antt =====
-- Membership of texts in lists, as the sets of the source test it.
use freshdock.Prelude.{
  ◌≡◌, refl, inl, inr, true, false, not, ◌||◌, List, [], ◌∷◌, ◌++◌, Text, ◌==◌, eq_iff, eq_refl,
  keep, arith, Bool-cases,
}
use freshdock.Compose.{elem}

pub elem-append : (c : Text) (xs ys : List Text) → elem c (xs ++ ys) ≡ (elem c xs || elem c ys)
elem-append c [] ys = refl
elem-append c (x ∷ xs) ys = ground (arith, elem-append c xs ys)

pub elem-append_left : (c : Text) (xs ys : List Text) → elem c xs ≡ true → elem c (xs ++ ys) ≡ true
elem-append_left c xs ys e = rw (elem-append c xs ys, e) refl

pub elem-append_right : (c : Text) (xs ys : List Text) → elem c ys ≡ true → elem c (xs ++ ys) ≡ true
elem-append_right c xs ys e = ground (arith, elem-append c xs ys)

pub elem_self : (c : Text) (xs : List Text) → elem c (c ∷ xs) ≡ true
elem_self c xs = ground (arith, eq_refl c)

pub elem-cons : (c x : Text) (xs : List Text) → elem c xs ≡ true → elem c (x ∷ xs) ≡ true
elem-cons c x xs e = ground arith

-- What is listed and not in `done` is among those that are not.
pub elem-keep-not :
    (c : Text) (done xs : List Text)
    → elem c xs ≡ true
    → elem c done ≡ false
    → elem c (keep (λ x. not (elem x done)) xs) ≡ true
elem-keep-not c done [] e out = e
elem-keep-not c done (x ∷ xs) e out = elim (Bool-cases (x == c)) [
  | inl same ↦ let x-eq : x ≡ c = (eq_iff x c).0 same in rw (x-eq, out) (elem_self c _)
  | inr other ↦ ground (arith, elem-keep-not c done xs)
]
