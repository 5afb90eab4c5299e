-- ===== src/Prelude/Sort.antt =====
-- `sort`, `sort_by` and `cmp` on texts. Rust compares the bytes of two texts, which for UTF-8 is
-- the order of their code points.
use mathlib.Core.Bool.{Bool, true, false}
use mathlib.Core.List.{List, [], ◌∷◌}
use freshdock.Prelude.Tests.{ltb, eqb, if◌then◌else◌}
use freshdock.Prelude.Texts.{Text}

unfoldable pub text_leb : Text → Text → Bool
text_leb [] t = true
text_leb (c ∷ s) [] = false
text_leb (c ∷ s) (d ∷ t) = if eqb c d then text_leb s t else ltb c d

-- A stable sort by a key.
module _ {ℓ} {A : Type ℓ} (key : A → Text) where
  unfoldable pub insert_by : A → List A → List A
  unfolding text_leb
  insert_by x [] = x ∷ []
  insert_by x (y ∷ ys) = if text_leb (key x) (key y) then x ∷ y ∷ ys else y ∷ insert_by x ys

  unfoldable pub sort_by : List A → List A
  unfolding insert_by
  sort_by [] = []
  sort_by (x ∷ xs) = insert_by x (sort_by xs)

unfoldable pub sort : List Text → List Text
unfolding sort_by
sort xs = sort_by (λ x. x) xs
