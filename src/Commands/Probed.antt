-- ===== src/Commands/Probed.antt =====
-- What the table shows of the probes.
use freshdock.Prelude.{
  ◌≡◌, refl, sym, subst, ap, ◌∙◌, inl, inr, true, false, none, some, List, [], ◌∷◌, ◌++◌, Text,
  codes, ◌==◌, eq_iff, eq_refl, lookup, Result, ok, err, Bool-cases, arith,
}
use freshdock.Prelude.Maps.{keys}
use freshdock.Compose.{elem}
use freshdock.Daemon.Calls.{History, Daemon}
use freshdock.Probe.Outcome.{ProbeOutcome, error, ProbeTarget, probe_image}
use freshdock.Commands.Check.{
  RowPrep, Cells, unique_images, include_target, add_image, outcome_or_missing, cells_with,
  shown_by, all_cells, probe_all, table,
}

-- No image stands twice.
abbrev pub IsDistinct : List Text → Type 0
IsDistinct [] = Unit
IsDistinct (x ∷ xs) = (elem x xs ≡ false) × IsDistinct xs

-- A row shows what the probe of its own image answered, or why its container could not be inspected.
abbrev pub RowShows :
    List (Text × ProbeOutcome) → RowPrep → Result ProbeTarget Text → Cells → Type 0
RowShows probes row (ok t) cells =
    (outcome : ProbeOutcome) × (lookup t.image probes ≡ some outcome)
    × (cells ≡ cells_with row t.image t.image_id outcome)
RowShows probes row (err e) cells =
    cells ≡ cells_with row row.listed_image none (error (codes "container inspect failed: " ++ e))

abbrev pub TableShows : List (Text × ProbeOutcome) → List RowPrep → List Cells → Type 0
TableShows probes [] [] = Unit
TableShows probes (row ∷ rows) (cells ∷ table) =
    RowShows probes row row.target cells × TableShows probes rows table
TableShows probes _ _ = ⊥

module _ (d : Daemon) where
  -- Between the two histories these images were probed, each once and in this order, with these
  -- outcomes, and nothing else was done.
  abbrev pub Probed : List (Text × ProbeOutcome) → (before after : History) → Type 0
  Probed [] before after = after ≡ before
  Probed ((image, outcome) ∷ probes) before after =
      (outcome ≡ (probe_image d image before).0)
      × Probed probes (probe_image d image before).1 after

  probe_all-Probed :
      (images : List Text) (h : History)
      → Probed (probe_all d images h).0 h (probe_all d images h).1
  unfolding probe_all
  probe_all-Probed [] h = refl
  probe_all-Probed (i ∷ images) h = (refl, probe_all-Probed images (probe_image d i h).1)

  probe_all-keys : (images : List Text) (h : History) → keys (probe_all d images h).0 ≡ images
  unfolding probe_all
  probe_all-keys [] h = refl
  probe_all-keys (i ∷ images) h = ap (λ l. i ∷ l) (probe_all-keys images (probe_image d i h).1)

abbrev pub images_from : Result ProbeTarget Text → List Text → List Text
images_from (ok t) images = t.image ∷ images
images_from (err e) images = images

-- The images of the rows whose containers could be inspected.
abbrev pub images_of : List RowPrep → List Text
images_of [] = []
images_of (row ∷ rows) = images_from row.target (images_of rows)

-- A rest of the images, for whatever was seen before.
abbrev Rest : Type 0
Rest = List Text → List Text

differs_from_seen :
    (image other : Text) (seen : List Text)
    → elem image seen ≡ false
    → elem other seen ≡ true
    → (other == image) ≡ false
differs_from_seen image other seen new old = elim (Bool-cases (other == image)) [
  | inr different ↦ different
  | inl is ↦ let same = ap (λ k. elem k seen) ((eq_iff other image).0 is) in cc
]

add_image-elem :
    (image : Text) (target : Result ProbeTarget Text) (rest : Rest) (images seen : List Text)
    → ((seen : List Text) → elem image seen ≡ false → elem image (rest seen) ≡ elem image images)
    → elem image seen ≡ false
    → elem image (add_image (include_target seen target) rest seen)
      ≡ elem image (images_from target images)
add_image-elem image (err e) rest images seen ih new = ih seen new
add_image-elem image (ok t) rest images seen ih new = elim (Bool-cases (elem t.image seen)) [
  | inl old ↦ rw (old, differs_from_seen image t.image seen new old) (ih seen new)
  | inr fresh ↦ rw fresh (elim (Bool-cases (t.image == image)) [
    | inl is ↦ rw is refl
    | inr other ↦ rw other (ih (t.image ∷ seen) (rw other new))
  ])
]

unique_images-elem :
    (image : Text) (rows : List RowPrep) (seen : List Text)
    → elem image seen ≡ false
    → elem image (unique_images rows seen) ≡ elem image (images_of rows)
unfolding unique_images
unique_images-elem image [] seen new = refl
unique_images-elem image (row ∷ rows) seen new =
    add_image-elem image row.target (unique_images rows) (images_of rows) seen
      (unique_images-elem image rows) new

add_image-unseen :
    (image : Text) (target : Result ProbeTarget Text) (rest : Rest) (seen : List Text)
    → ((seen : List Text) → elem image seen ≡ true → elem image (rest seen) ≡ false)
    → elem image seen ≡ true
    → elem image (add_image (include_target seen target) rest seen) ≡ false
add_image-unseen image (err e) rest seen ih old = ih seen old
add_image-unseen image (ok t) rest seen ih old = elim (Bool-cases (elem t.image seen)) [
  | inl in_seen ↦ rw in_seen (ih seen old)
  | inr fresh ↦
      let differs : (t.image == image) ≡ false = elim (Bool-cases (t.image == image)) [
        | inr different ↦ different
        | inl is ↦ let same = ap (λ k. elem k seen) ((eq_iff t.image image).0 is) in cc
      ] in
      rw (fresh, differs) (ih (t.image ∷ seen) (rw differs old))
]

unique_images-unseen :
    (image : Text) (rows : List RowPrep) (seen : List Text)
    → elem image seen ≡ true
    → elem image (unique_images rows seen) ≡ false
unfolding unique_images
unique_images-unseen image [] seen old = refl
unique_images-unseen image (row ∷ rows) seen old =
    add_image-unseen image row.target (unique_images rows) seen (unique_images-unseen image rows)
      old

add_image-IsDistinct :
    (target : Result ProbeTarget Text) (rest : Rest) (seen : List Text)
    → ((seen : List Text) → IsDistinct (rest seen))
    → ((image : Text) (seen : List Text) → elem image seen ≡ true → elem image (rest seen) ≡ false)
    → IsDistinct (add_image (include_target seen target) rest seen)
add_image-IsDistinct (err e) rest seen distinct unseen = distinct seen
add_image-IsDistinct (ok t) rest seen distinct unseen = elim (Bool-cases (elem t.image seen)) [
  | inl old ↦ rw old (distinct seen)
  | inr fresh ↦
      rw fresh
        (unseen t.image (t.image ∷ seen) (rw (eq_refl t.image) refl), distinct (t.image ∷ seen))
]

unique_images-IsDistinct :
    (rows : List RowPrep) (seen : List Text) → IsDistinct (unique_images rows seen)
unfolding unique_images
unique_images-IsDistinct [] seen = tt
unique_images-IsDistinct (row ∷ rows) seen =
    add_image-IsDistinct row.target (unique_images rows) seen (unique_images-IsDistinct rows)
      (λ image. unique_images-unseen image rows)

lookup-elem :
    (image : Text) (probes : List (Text × ProbeOutcome))
    → elem image (keys probes) ≡ true
    → (outcome : ProbeOutcome) × (lookup image probes ≡ some outcome)
unfolding lookup
lookup-elem image [] e = cc
lookup-elem image ((i, outcome) ∷ probes) e = elim (Bool-cases (i == image)) [
  | inl is ↦ (outcome, rw is refl)
  | inr other ↦
      let (found, there) = lookup-elem image probes (rw other at e) in (found, rw other there)
]

module _ (by_image : List (Text × ProbeOutcome)) where
  -- Every image of the rows has an outcome.
  abbrev HasProbes : List RowPrep → Type 0
  HasProbes rows =
      (image : Text)
      → elem image (images_of rows) ≡ true
      → (outcome : ProbeOutcome) × (lookup image by_image ≡ some outcome)

  cells_of-RowShows :
      (row : RowPrep) (target : Result ProbeTarget Text) (images : List Text)
      → ((image : Text)
          → elem image (images_from target images) ≡ true
          → (outcome : ProbeOutcome) × (lookup image by_image ≡ some outcome))
      → RowShows by_image row target (
          let (image, image_id, outcome) = shown_by by_image row.listed_image target in
          cells_with row image image_id outcome)
  cells_of-RowShows row (err e) images probes = refl
  cells_of-RowShows row (ok t) images probes =
      let (outcome, found) = probes t.image (rw (eq_refl t.image) refl) in
      (outcome, found, ap (λ o. cells_with row t.image t.image_id (outcome_or_missing o)) found)

  later_images :
      (target : Result ProbeTarget Text) (images : List Text) (image : Text)
      → elem image images ≡ true
      → elem image (images_from target images) ≡ true
  later_images (err e) images image is = is
  later_images (ok t) images image is = ground (arith, is)

  all_cells-TableShows :
      (rows : List RowPrep) → HasProbes rows → TableShows by_image rows (all_cells by_image rows)
  all_cells-TableShows [] probes = tt
  all_cells-TableShows (row ∷ rows) probes = (
    cells_of-RowShows row row.target (images_of rows) probes,
    all_cells-TableShows rows
        (λ image is. probes image (later_images row.target (images_of rows) image is)),
  )

-- The table makes one probe for each image of its rows and no other call, and each of its rows shows
-- what the probe of its own image answered, or why its container could not be inspected.
pub table-TableShows :
    (d : Daemon) (rows : List RowPrep) (h : History)
    → (probes : List (Text × ProbeOutcome)) × Probed d probes h (table d rows h).1
      × IsDistinct (keys probes)
      × ((image : Text) → elem image (keys probes) ≡ elem image (images_of rows))
      × TableShows probes rows (table d rows h).0
unfolding table
table-TableShows d rows h =
    let images = unique_images rows [] in
    let probes = (probe_all d images h).0 in
    let all_keys = probe_all-keys d images h in
    (
      probes,
      probe_all-Probed d images h,
      subst IsDistinct (sym all_keys) (unique_images-IsDistinct rows []),
      (λ image. ap (elem image) all_keys ∙ unique_images-elem image rows [] refl),
      all_cells-TableShows probes rows (λ image is.
          lookup-elem image probes
            (ap (elem image) all_keys ∙ unique_images-elem image rows [] refl ∙ is)),
    )
