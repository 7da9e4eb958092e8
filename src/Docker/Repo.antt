-- ===== src/Docker/Repo.antt =====
-- internal/docker/labels.go: `InferRepoURL`, the link from a container to its repository.
pub mod Laws
use Prim.Native.Nat.{ℕ}
use wingstation.Prelude.{
  Str, bytes, str_eq, Bool, not, ◌&&◌, List, [], ◌∷◌, ◌++◌, Option, none, some, if◌then◌else◌,
  length, ◌==◌,
}
use wingstation.Go.Strings.{
  has_prefix, trim_prefix, contains_byte, before_first, before_last, split_n,
}
use wingstation.Go.Map.{lookup}

abbrev pub oci_keys : List Str
oci_keys =
    bytes "org.opencontainers.image.source"
    ∷ bytes "org.opencontainers.image.url"
    ∷ bytes "org.label-schema.vcs-url"
    ∷ []

-- The loop over the OCI labels: the first that is there and not empty.
unfoldable pub first_set : List Str → List (Str × Str) → Option Str
first_set [] labels = none
first_set (key ∷ keys) labels = elim (lookup key labels) [
  | none ↦ first_set keys labels
  | some v ↦ if str_eq v [] then first_set keys labels else some v
]

-- The image with its digest, its tag and a leading `sha256:` stripped.
unfoldable pub strip_image : Str → Str
strip_image image = trim_prefix (before_last b':' (before_first b'@' image)) (bytes "sha256:")

abbrev is_digest : Str → Bool
is_digest img = length img == 64 && not (contains_byte img b'/')

-- `parts[0]` and `parts[1]` under `len(parts) >= 2`
abbrev with_two : Str → List Str → Option Str
with_two base (p ∷ q ∷ ps) = some (base ++ (p ++ (b'/' ∷ q)))
with_two base _ = none

unfoldable pub ghcr_url : Str → Option Str
ghcr_url img =
    if has_prefix img (bytes "ghcr.io/")
    then with_two (bytes "https://github.com/")
        (split_n b'/' 2 (trim_prefix img (bytes "ghcr.io/")))
    else none

unfoldable pub hub_url : Str → Str
hub_url img =
    if not (contains_byte img b'/') && not (contains_byte img b'.')
    then bytes "https://hub.docker.com/_/" ++ img
    else if not (contains_byte img b'.')
    then elim (with_two (bytes "https://hub.docker.com/r/") (split_n b'/' 1 img)) [
      | none ↦ []
      | some url ↦ url
    ]
    else []

unfoldable pub linuxserver_url : Str → Option Str
linuxserver_url img =
    let cleaned = trim_prefix img (bytes "lscr.io/") in
    if has_prefix cleaned (bytes "linuxserver/")
    then some (
        bytes "https://github.com/linuxserver/docker-"
        ++ trim_prefix cleaned (bytes "linuxserver/"))
    else none

-- The heuristic on the stripped image.
unfoldable pub image_url : Str → Str
image_url img = if is_digest img then [] else elim (ghcr_url img) [
  | some url ↦ url
  | none ↦ elim (linuxserver_url img) [ some url ↦ url | none ↦ hub_url img ]
]

unfoldable pub infer_repo_url : List (Str × Str) → Str → Str
infer_repo_url labels image = elim (first_set oci_keys labels) [
  | some v ↦ v
  | none ↦ image_url (strip_image image)
]
