-- ===== src/Rollout/Values.antt =====
-- What holds of every target that the draft of a plan holds goes over to the plan.
use freshdock.Prelude.{
  ◌≡◌, inl, inr, Bool, Option, some, List, [], ◌∷◌, ◌++◌, Text, ◌==◌, All, Bool-cases, Option-cases,
  keep, lookup,
}
use freshdock.Prelude.Sort.{text_leb, insert_by, sort_by}
use freshdock.Rollout.Plan.{PlannedTarget, push, remove, replicas, in_order}

module _ {A : Type 0} (P : A → Type 0) where
  All-append : (xs ys : List A) → All P xs → All P ys → All P (xs ++ ys)
  All-append [] ys a b = b
  All-append (x ∷ xs) ys (p, a) b = (p, All-append xs ys a b)

  All-keep : (test : A → Bool) (xs : List A) → All P xs → All P (keep test xs)
  All-keep test [] a = tt
  All-keep test (x ∷ xs) (p, a) = elim (Bool-cases (test x)) [
    | inl passes ↦ rw passes (p, All-keep test xs a)
    | inr fails ↦ rw fails (All-keep test xs a)
  ]

  module _ (key : A → Text) where
    All-insert_by : (x : A) (xs : List A) → P x → All P xs → All P (insert_by key x xs)
    unfolding insert_by
    All-insert_by x [] p a = (p, tt)
    All-insert_by x (y ∷ ys) p (q, a) = elim (Bool-cases (text_leb (key x) (key y))) [
      | inl first ↦ rw first (p, (q, a))
      | inr later ↦ rw later (q, All-insert_by x ys p a)
    ]

    All-sort_by : (xs : List A) → All P xs → All P (sort_by key xs)
    unfolding sort_by
    All-sort_by [] a = tt
    All-sort_by (x ∷ xs) (p, a) = All-insert_by x (sort_by key xs) p (All-sort_by xs a)

  -- Of the values of a map.
  abbrev pub Values : List (Text × List A) → Type 0
  Values m = All (λ e. All P e.1) m

  pub Values-push :
      (k : Text) (x : A) (m : List (Text × List A)) → P x → Values m → Values (push k x m)
  unfolding push
  Values-push k x [] p a = ((p, tt), tt)
  Values-push k x ((j, xs) ∷ m) p (q, a) = elim (Bool-cases (j == k)) [
    | inl same ↦ rw same (All-append xs (x ∷ []) q (p, tt), a)
    | inr other ↦ rw other (q, Values-push k x m p a)
  ]

  Values-lookup :
      (k : Text) (m : List (Text × List A)) (xs : List A)
      → Values m
      → lookup k m ≡ some xs
      → All P xs
  unfolding lookup
  Values-lookup k [] xs a e = cc
  Values-lookup k ((j, ys) ∷ m) xs (q, a) e = elim (Bool-cases (j == k)) [
    | inl same ↦
        let found : ◌≡◌ {A = Option (List A)} (some ys) (some xs) = rw same at e in
        let is : ys ≡ xs = cc in rw is at q
    | inr other ↦ Values-lookup k m xs a (rw other at e)
  ]

module _ (P : PlannedTarget → Type 0) where
  pub All-in_order :
      (order : List Text) (m : List (Text × List PlannedTarget))
      → Values P m
      → All P (in_order order m)
  unfolding in_order remove
  All-in_order [] m a = tt
  All-in_order (s ∷ order) m a =
      All-append P (replicas (lookup s m)) (in_order order (remove s m))
        (elim (Option-cases (lookup s m)) [
          | inl missing ↦ rw missing tt
          | inr (ts, found) ↦ rw found (All-sort_by P _ ts (Values-lookup P s m ts a found))
        ])
        (All-in_order order (remove s m) (All-keep _ _ m a))
