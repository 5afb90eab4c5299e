-- ===== src/Rollout/Holds.antt =====
-- Lists that have an element, and maps that hold one under a key.
use freshdock.Prelude.{
  ◌≡◌, refl, inl, inr, true, false, Option, some, List, [], ◌∷◌, ◌++◌, map, Text, ◌==◌, eq_iff,
  eq_refl, Any, Bool-cases, lookup,
}
use freshdock.Prelude.Sort.{text_leb, insert_by, sort_by}
use freshdock.Compose.{elem}
use freshdock.Rollout.Plan.{push, remove}

module _ {A : Type 0} (x : A) where
  abbrev pub Has : List A → Type 0
  Has xs = Any (λ y. y ≡ x) xs

  pub Has-append_left : (xs ys : List A) → Has xs → Has (xs ++ ys)
  Has-append_left [] ys h = absurd h
  Has-append_left (y ∷ xs) ys (inl e) = inl e
  Has-append_left (y ∷ xs) ys (inr h) = inr (Has-append_left xs ys h)

  pub Has-append_right : (xs ys : List A) → Has ys → Has (xs ++ ys)
  Has-append_right [] ys h = h
  Has-append_right (y ∷ xs) ys h = inr (Has-append_right xs ys h)

  module _ (key : A → Text) where
    Has-insert_by_new : (xs : List A) → Has (insert_by key x xs)
    unfolding insert_by
    Has-insert_by_new [] = inl refl
    Has-insert_by_new (y ∷ ys) = elim (Bool-cases (text_leb (key x) (key y))) [
      | inl first ↦ rw first (inl refl)
      | inr later ↦ rw later (inr (Has-insert_by_new ys))
    ]

    Has-insert_by_old : (z : A) (xs : List A) → Has xs → Has (insert_by key z xs)
    unfolding insert_by
    Has-insert_by_old z [] h = absurd h
    Has-insert_by_old z (y ∷ ys) h = elim (Bool-cases (text_leb (key z) (key y))) [
      | inl first ↦ rw first (inr h)
      | inr later ↦
          rw later (elim h [ inl e ↦ inl e | inr rest ↦ inr (Has-insert_by_old z ys rest) ])
    ]

    pub Has-sort_by : (xs : List A) → Has xs → Has (sort_by key xs)
    unfolding sort_by
    Has-sort_by [] h = absurd h
    Has-sort_by (y ∷ ys) (inl e) = rw e (Has-insert_by_new (sort_by key ys))
    Has-sort_by (y ∷ ys) (inr h) = Has-insert_by_old y (sort_by key ys) (Has-sort_by ys h)

  -- A map holds it under a key.
  abbrev pub Holds : Text → List (Text × List A) → Type 0
  Holds k m = (xs : List A) × (lookup k m ≡ some xs) × Has xs

  pub Holds-push_new : (k : Text) (m : List (Text × List A)) → Holds k (push k x m)
  unfolding push lookup
  Holds-push_new k [] = (x ∷ [], rw (eq_refl k), inl refl)
  Holds-push_new k ((j, xs) ∷ m) = elim (Bool-cases (j == k)) [
    | inl same ↦ (xs ++ x ∷ [], rw (same, same), Has-append_right xs (x ∷ []) (inl refl))
    | inr other ↦ let (ys, found, h) = Holds-push_new k m in (ys, rw (other, other) found, h)
  ]

  pub Holds-push_old :
      (k j : Text) (y : A) (m : List (Text × List A)) → Holds k m → Holds k (push j y m)
  unfolding push lookup
  Holds-push_old k j y [] (xs, found, h) = cc
  Holds-push_old k j y ((i, ys) ∷ m) (xs, found, h) = elim (Bool-cases (i == k)) [
    | inl here ↦
        let first : ◌≡◌ {A = Option (List A)} (some ys) (some xs) = rw here at found in
        let is : ys ≡ xs = cc in
        elim (Bool-cases (i == j)) [
          | inl same ↦ (ys ++ y ∷ [], rw (same, here), Has-append_left ys (y ∷ []) (rw is h))
          | inr other ↦ (ys, rw (other, here), rw is h)
        ]
    | inr later ↦
        let rest = Holds-push_old k j y m (xs, rw later at found, h) in
        elim (Bool-cases (i == j)) [
          | inl same ↦ (xs, rw (same, later) (rw later at found), h)
          | inr other ↦ (rest.0, rw (other, later) rest.1, rest.2)
        ]
  ]

  differs : (a b : Text) → (a == b) ≡ false → (b == a) ≡ false
  differs a b e = elim (Bool-cases (b == a)) [
    | inl same ↦ let is : b ≡ a = (eq_iff b a).0 same in let never = rw (is, eq_refl a) at e in cc
    | inr other ↦ other
  ]

  pub Holds-remove :
      (k s : Text) (m : List (Text × List A)) → (s == k) ≡ false → Holds k m → Holds k (remove s m)
  unfolding remove lookup
  Holds-remove k s [] e (xs, found, h) = cc
  Holds-remove k s ((i, ys) ∷ m) e (xs, found, h) = elim (Bool-cases (i == s)) [
    | inl gone ↦
        let is : i ≡ s = (eq_iff i s).0 gone in
        let passed : (i == k) ≡ false = rw is e in
        rw gone (Holds-remove k s m e (xs, rw passed at found, h))
    | inr stays ↦ elim (Bool-cases (i == k)) [
      | inl here ↦ rw stays (xs, rw here (rw here at found), h)
      | inr later ↦
          let (zs, found', h') = Holds-remove k s m e (xs, rw later at found, h) in
          rw stays (zs, rw later found', h')
    ]
  ]

  pub Holds-elem :
      (k : Text) (m : List (Text × List A)) → Holds k m → elem k (map (λ e. e.0) m) ≡ true
  unfolding lookup
  Holds-elem k [] (xs, found, h) = cc
  Holds-elem k ((i, ys) ∷ m) (xs, found, h) = elim (Bool-cases (i == k)) [
    | inl here ↦ rw here refl
    | inr later ↦ rw later (Holds-elem k m (xs, rw later at found, h))
  ]
