-- ===== src/Image/Hosts.antt =====
-- The registry that the name of an image stands on, before and after the Hub host is taken off.
use freshdock.Prelude.{
  ◌≡◌, refl, ap, ◌∙◌, ◌⊎◌, inl, inr, true, false, not, ◌&&◌, none, some, ◌∷◌, ◌++◌, Text, codes,
  ◌==◌, eq_iff, Option-cases, Bool-cases, if◌then◌else◌, arith,
}
use freshdock.Prelude.Chars.{is_empty}
use freshdock.Prelude.Split.{split_once, contains}
use freshdock.Prelude.Cuts.{split_once-none, split_once-IsCut}
use freshdock.Image.{is_host, split_repository, is_docker_hub_host, strip_docker_hub_host}

-- The same host, or two spellings of Docker Hub.
abbrev pub IsSameRegistry : Text → Text → Type 0
IsSameRegistry a b = (a ≡ b) ⊎ (is_docker_hub_host a ≡ true) × (is_docker_hub_host b ≡ true)

-- A name with a path keeps its registry, and one without is on Docker Hub.
abbrev pub KeepsRegistry : (name repository : Text) → Type 0
KeepsRegistry name repository =
    ((contains b'/' name ≡ true)
      × IsSameRegistry (split_repository name).0 (split_repository repository).0)
    ⊎ (contains b'/' name ≡ false) × ((split_repository repository).0 ≡ codes "docker.io")

-- The repository begins with a host of Docker Hub.
abbrev pub HasHubHost : Text → Type 0
HasHubHost repository =
    (path : Text) × ((repository ≡ codes "docker.io" ++ b'/' ∷ path)
      ⊎ (repository ≡ codes "index.docker.io" ++ b'/' ∷ path))

split_repository-host :
    (name first rest : Text)
    → split_once b'/' name ≡ some (first, rest)
    → is_host first ≡ true
    → split_repository name ≡ (first, rest)
unfolding split_repository
split_repository-host name first rest cut host = rw (cut, host) refl

split_repository-path :
    (name first rest : Text)
    → split_once b'/' name ≡ some (first, rest)
    → is_host first ≡ false
    → split_repository name ≡ (codes "docker.io", name)
unfolding split_repository
split_repository-path name first rest cut path = rw (cut, path) refl

strip-split_repository :
    (name host rest : Text)
    → split_repository name ≡ (host, rest)
    → strip_docker_hub_host name ≡ (
        if is_docker_hub_host host
          && (not (is_empty rest) && is_docker_hub_host (split_repository rest).0)
        then rest
        else name)
unfolding strip_docker_hub_host
strip-split_repository name host rest e = rw e refl

hub_hosts :
    (host : Text)
    → is_docker_hub_host host ≡ true
    → (host ≡ codes "docker.io") ⊎ (host ≡ codes "index.docker.io")
unfolding is_docker_hub_host
hub_hosts host hub = elim (Bool-cases (host == codes "docker.io")) [
  | inl is ↦ inl ((eq_iff host (codes "docker.io")).0 is)
  | inr other ↦ inr ((eq_iff host (codes "index.docker.io")).0 (ground (arith, hub, other)))
]

strip-whole :
    (name : Text)
    → split_repository name ≡ (codes "docker.io", name)
    → strip_docker_hub_host name ≡ name
strip-whole name e =
    let same = strip-split_repository name (codes "docker.io") name e in
    elim (Bool-cases (
      is_docker_hub_host (codes "docker.io")
      && (not (is_empty name) && is_docker_hub_host (split_repository name).0))) [
        | inl is ↦ same ∙ rw is refl
        | inr other ↦ same ∙ rw other refl
      ]

-- A name without a slash stays as it is.
strip-bare : (name : Text) → split_once b'/' name ≡ none → strip_docker_hub_host name ≡ name
unfolding strip_docker_hub_host split_repository
strip-bare name gone = elim (Bool-cases (is_host name)) [
  | inl host ↦ elim (Bool-cases (is_docker_hub_host name)) [
    | inl hub ↦ rw (gone, host, hub) refl
    | inr other ↦ rw (gone, host, other) refl
  ]
  | inr path ↦ strip-whole name (rw (gone, path) refl)
]

-- Either nothing is taken off, or a Hub host in front of a path on the Hub.
strip_docker_hub_host-cases :
    (name : Text)
    → (strip_docker_hub_host name ≡ name)
      ⊎ (first : Text) × (rest : Text) × (strip_docker_hub_host name ≡ rest)
        × (split_once b'/' name ≡ some (first, rest))
        × (split_repository name ≡ (first, rest))
        × (is_docker_hub_host first ≡ true)
        × (is_docker_hub_host (split_repository rest).0 ≡ true)
strip_docker_hub_host-cases name = elim (Option-cases (split_once b'/' name)) [
  | inl gone ↦ inl (strip-bare name gone)
  | inr ((first, rest), cut) ↦ elim (Bool-cases (is_host first)) [
    | inr path ↦ inl (strip-whole name (split_repository-path name first rest cut path))
    | inl host ↦
        let parts = split_repository-host name first rest cut host in
        let same = strip-split_repository name first rest parts in
        elim (Bool-cases (is_docker_hub_host first)) [
          | inr other ↦ inl (same ∙ rw other refl)
          | inl hub ↦ elim (Bool-cases (is_docker_hub_host (split_repository rest).0)) [
            | inr elsewhere ↦ inl (same ∙ rw (hub, elsewhere) (ground arith))
            | inl stays ↦ elim (Bool-cases (is_empty rest)) [
              | inl empty ↦ inl (same ∙ rw (hub, empty) refl)
              | inr path ↦
                  inr (first, rest, same ∙ rw (hub, path, stays) refl, cut, parts, hub, stays)
            ]
          ]
        ]
  ]
]

docker_io-hub : is_docker_hub_host (codes "docker.io") ≡ true
unfolding is_docker_hub_host codes ◌==◌
docker_io-hub = refl

library-docker_io :
    (name : Text) → (split_repository (codes "library/" ++ name)).0 ≡ codes "docker.io"
unfolding split_repository split_once codes ◌==◌
library-docker_io name = refl

split_once-contains :
    (name : Text) (cut : Text × Text) → split_once b'/' name ≡ some cut → contains b'/' name ≡ true
split_once-contains name cut is = elim (Bool-cases (contains b'/' name)) [
  | inl has ↦ has
  | inr lacks ↦ let gone = split_once-none b'/' name lacks in cc
]

-- Only a Hub host in front of a repository is taken off.
pub strip-HasHubHost :
    (repository : Text) → (strip_docker_hub_host repository ≡ repository) ⊎ HasHubHost repository
strip-HasHubHost repository = elim (strip_docker_hub_host-cases repository) [
  | inl same ↦ inl same
  | inr (first, rest, is, cut, parts, hub, stays) ↦
      let (whole, lacks) = split_once-IsCut b'/' repository first rest cut in
      elim (hub_hosts first hub) [
        | inl io ↦ inr (rest, inl (whole ∙ ap (λ h. h ++ b'/' ∷ rest) io))
        | inr index ↦ inr (rest, inr (whole ∙ ap (λ h. h ++ b'/' ∷ rest) index))
      ]
]

-- What `parse` makes of the name.
pub strip-KeepsRegistry :
    (name : Text)
    → KeepsRegistry name (
        if contains b'/' (strip_docker_hub_host name)
        then strip_docker_hub_host name
        else codes "library/" ++ strip_docker_hub_host name)
strip-KeepsRegistry name = elim (strip_docker_hub_host-cases name) [
  | inl same ↦ elim (Bool-cases (contains b'/' name)) [
    | inl has ↦ rw (same, has) (inl (refl, inl refl))
    | inr lacks ↦ rw (same, lacks) (inr (refl, library-docker_io name))
  ]
  | inr (first, rest, is, cut, parts, hub, stays) ↦
      let has = split_once-contains name (first, rest) cut in
      elim (Bool-cases (contains b'/' rest)) [
        | inl path ↦ rw (is, path, has, parts) (inl (refl, inr (hub, stays)))
        | inr lacks ↦
            rw (is, lacks, has, parts, library-docker_io rest)
              (inl (refl, inr (hub, docker_io-hub)))
      ]
]
