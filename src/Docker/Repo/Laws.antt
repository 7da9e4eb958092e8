-- ===== src/Docker/Repo/Laws.antt =====
-- Where the inferred link leads.
use Prim.Native.Nat.{ℕ}
use mathlib.Core.Option.{some-injective}
use wingstation.Prelude.{
  subst, Str, bytes, Bool, true, false, not, ◌&&◌, List, [], ◌∷◌, ◌++◌, none, some, ◌≡◌, ◌≢◌, refl,
  ◌⊎◌, inl, inr, if◌then◌else◌, length, ◌==◌, arith, Bool-cases, Option-cases, All-append,
}
use wingstation.Go.Strings.{has_prefix, trim_prefix, contains_byte}
use wingstation.Go.Strings.Cut.{
  Lacks, contains_byte-Lacks, before_first-Lacks, before_last-append, has_prefix-Lacks,
  trim_prefix-Lacks, contains_byte-middle, split_n-append, split_n_of_Lacks,
}
use wingstation.Docker.Repo.{
  oci_keys, first_set, strip_image, ghcr_url, hub_url, linuxserver_url, image_url, infer_repo_url,
}

-- An absent link, or one to a page of the two sites.
abbrev pub IsKnown : Str → Type 0
IsKnown url =
    (url ≡ [])
    ⊎ (has_prefix url (bytes "https://github.com/") ≡ true)
    ⊎ (has_prefix url (bytes "https://hub.docker.com/") ≡ true)

hub_url-IsKnown : (img : Str) → IsKnown (hub_url img)
unfolding hub_url has_prefix
hub_url-IsKnown img = ground arith

-- A link that is one text or none.
option-IsKnown :
    (b : Bool) (x url : Str) → IsKnown x → (if b then some x else none) ≡ some url → IsKnown url
option-IsKnown true x url k h = subst IsKnown (some-injective _ _ h) k
option-IsKnown false x url k h = cc

linuxserver_page-IsKnown : (x : Str) → IsKnown (bytes "https://github.com/linuxserver/docker-" ++ x)
unfolding has_prefix
linuxserver_page-IsKnown x = inr (inl refl)

linuxserver_url-IsKnown : (img url : Str) → linuxserver_url img ≡ some url → IsKnown url
unfolding linuxserver_url
linuxserver_url-IsKnown img url h = option-IsKnown _ _ url (linuxserver_page-IsKnown _) h

ghcr_url-IsKnown : (img url : Str) → ghcr_url img ≡ some url → IsKnown url
unfolding ghcr_url has_prefix
ghcr_url-IsKnown img url h = ground arith

image_url-IsKnown : (img : Str) → IsKnown (image_url img)
unfolding image_url
image_url-IsKnown img = elim (Bool-cases (length img == 64 && not (contains_byte img b'/'))) [
  | inl e ↦ rw e (inl refl)
  | inr e ↦ elim (Option-cases (ghcr_url img)) [
    | inr (url, f) ↦ rw (e, f) (ghcr_url-IsKnown img url f)
    | inl f ↦ elim (Option-cases (linuxserver_url img)) [
      | inr (url, g) ↦ rw (e, f, g) (linuxserver_url-IsKnown img url g)
      | inl g ↦ rw (e, f, g) (hub_url-IsKnown img)
    ]
  ]
]

-- With no OCI label the link is empty or leads to github.com or hub.docker.com, for every image.
pub infer_repo_url-IsKnown :
    (labels : List (Str × Str)) (image : Str)
    → first_set oci_keys labels ≡ none
    → IsKnown (infer_repo_url labels image)
unfolding infer_repo_url
infer_repo_url-IsKnown labels image h =
    rw (h, infer_repo_url) (image_url-IsKnown (strip_image image))

-- An image with a tag and without a digest loses its tag.
strip_image-tag :
    (name tag : Str)
    → Lacks b'@' name
    → Lacks b'@' tag
    → Lacks b':' tag
    → strip_image (name ++ b':' ∷ tag) ≡ trim_prefix name (bytes "sha256:")
unfolding strip_image
strip_image-tag name tag hn ht ct =
    let clean = All-append (λ c. c ≢ b'@') name (b':' ∷ tag) hn (omega arith, ht) in
    rw (before_first-Lacks b'@' (name ++ b':' ∷ tag) clean, before_last-append b':' name tag ct)

abbrev ghcr_path : Str → Str → Str
ghcr_path owner repo = bytes "ghcr.io/" ++ (owner ++ b'/' ∷ repo)

ghcr_url-path :
    (owner repo : Str)
    → Lacks b'/' owner
    → Lacks b'/' repo
    → ghcr_url (ghcr_path owner repo) ≡ some (bytes "https://github.com/" ++ (owner ++ b'/' ∷ repo))
unfolding ghcr_url trim_prefix has_prefix
ghcr_url-path owner repo so sr =
    rw (split_n-append b'/' 1 owner repo so, split_n_of_Lacks b'/' 1 repo sr)

-- A digest holds no slash.
digest_has_no_slash :
    (n : ℕ) (s : Str)
    → contains_byte s b'/' ≡ true
    → (n == 64 && not (contains_byte s b'/')) ≡ false
digest_has_no_slash n s h = ground arith

ghcr-page :
    (owner repo : Str)
    → Lacks b'/' owner
    → Lacks b'/' repo
    → image_url (ghcr_path owner repo) ≡ bytes "https://github.com/" ++ (owner ++ b'/' ∷ repo)
unfolding image_url
ghcr-page owner repo so sr =
    let path = ghcr_path owner repo in
    rw (
      digest_has_no_slash (length path) path
          (contains_byte-middle b'/' (bytes "ghcr.io") (owner ++ b'/' ∷ repo)),
      ghcr_url-path owner repo so sr,
    )

ghcr_path-trim :
    (owner repo : Str) → trim_prefix (ghcr_path owner repo) (bytes "sha256:") ≡ ghcr_path owner repo
unfolding trim_prefix has_prefix
ghcr_path-trim owner repo = refl

official-page :
    (name : Str)
    → Lacks b'/' name
    → Lacks b'.' name
    → length name ≢ 64
    → image_url name ≡ bytes "https://hub.docker.com/_/" ++ name
unfolding image_url ghcr_url linuxserver_url hub_url
official-page name sn dn short = ground (
  arith,
  has_prefix-Lacks b'/' name (bytes "ghcr.io") [] sn,
  has_prefix-Lacks b'/' name (bytes "linuxserver") [] sn,
  trim_prefix-Lacks b'/' name (bytes "lscr.io") [] sn,
  contains_byte-Lacks b'/' name sn,
  contains_byte-Lacks b'.' name dn,
)

module _ (labels : List (Str × Str)) (unset : first_set oci_keys labels ≡ none) where
  -- With no OCI label, an image of the GitHub registry, `ghcr.io/owner/repo:tag`, leads to
  -- `owner/repo` on GitHub, where the owner and the repository hold no slash, nothing holds an `@`,
  -- and the tag holds no colon.
  pub infer_repo_url-ghcr :
      (owner repo tag : Str)
      → Lacks b'/' owner
      → Lacks b'/' repo
      → Lacks b'@' (owner ++ b'/' ∷ repo)
      → Lacks b'@' tag
      → Lacks b':' tag
      → infer_repo_url labels ((bytes "ghcr.io/" ++ (owner ++ b'/' ∷ repo)) ++ b':' ∷ tag)
        ≡ bytes "https://github.com/" ++ (owner ++ b'/' ∷ repo)
  unfolding infer_repo_url
  infer_repo_url-ghcr owner repo tag so sr an at ct =
      let path = ghcr_path owner repo in
      let clean : Lacks b'@' path = All-append _ (bytes "ghcr.io/") _ (omega arith) an in
      rw (unset, infer_repo_url, strip_image-tag path tag clean at ct, ghcr_path-trim owner repo)
        (ghcr-page owner repo so sr)

  -- With no OCI label and no `@`, an image whose part before its last colon holds no slash, no dot
  -- and no colon, and is not 64 bytes long, leads to the page of that part among the official
  -- images: so does `name:tag`, and so does `host:port/path` without a tag.
  pub infer_repo_url-official :
      (name tag : Str)
      → Lacks b'/' name
      → Lacks b'.' name
      → Lacks b':' name
      → Lacks b'@' name
      → length name ≢ 64
      → Lacks b'@' tag
      → Lacks b':' tag
      → infer_repo_url labels (name ++ b':' ∷ tag) ≡ bytes "https://hub.docker.com/_/" ++ name
  unfolding infer_repo_url
  infer_repo_url-official name tag sn dn cn an short at ct =
      rw
        (
          unset,
          infer_repo_url,
          strip_image-tag name tag an at ct,
          trim_prefix-Lacks b':' name (bytes "sha256") [] cn,
        )
        (official-page name sn dn short)
