-- ===== src/Docker/Labels/Tags.antt =====
-- The tags of a container.
use wingstation.Prelude.{
  Str, bytes, str_eq, str_eq_iff, true, List, [], ◌∷◌, some, ◌≡◌, ◌≢◌, refl, arith, All, filter,
  All-imp, map, any, any-cong, ◌∙◌, Bool-cases, inl, inr,
}
use wingstation.Go.Strings.{Unicode, is_ascii, split, join, trim_space, to_lower}
use wingstation.Go.Strings.Cut.{Lacks, split-All, split-Lacks, split-join}
use wingstation.Go.Strings.Trim.{IsAscii, trim_space_idempotent, All-trim_space}
use wingstation.Go.Strings.Fold.{equal_fold-to_lower}
use wingstation.Go.Map.{HasDistinctKeys}
use wingstation.Docker.Labels.{WingStationLabels, clean_tags, is_present, parse_labels, has_tag}
use wingstation.Docker.Labels.Laws.{label, labels_by_key, parse_labels-by_key}

-- A tag as the labels can carry it: not empty, without space around it, without a comma.
pub record IsTag (u : Unicode) (t : Str) : Type 0 where
  pub present : t ≢ []
  pub trimmed : trim_space u t ≡ t
  pub whole : Lacks b',' t

abbrev IsPart : Str → Type 0
IsPart t = IsAscii t × Lacks b',' t

map_trim-IsTag :
    (u : Unicode) (ps : List Str)
    → All IsPart ps
    → All (IsTag u) (filter is_present (map (trim_space u) ps))
unfolding filter
map_trim-IsTag u [] h = tt
map_trim-IsTag u (p ∷ ps) ((a, l), h) = elim (Bool-cases (is_present (trim_space u p))) [
  | inl e ↦ rw e (
    record {
      present = ground (arith, str_eq_iff (trim_space u p) []);
      trimmed = trim_space_idempotent u p a;
      whole = All-trim_space _ u p a l;
    },
    map_trim-IsTag u ps h,
  )
  | inr e ↦ rw e (map_trim-IsTag u ps h)
]

All-and {ℓ κ μ} :
    {A : Type ℓ} (P : A → Type κ) (Q : A → Type μ) (xs : List A)
    → All P xs
    → All Q xs
    → All (λ x. P x × Q x) xs
All-and P Q [] h k = tt
All-and P Q (x ∷ xs) (p, h) (q, k) = ((p, q), All-and P Q xs h k)

clean_tags-IsTag : (u : Unicode) (v : Str) → IsAscii v → All (IsTag u) (clean_tags u v)
unfolding clean_tags
clean_tags-IsTag u v h =
    map_trim-IsTag u (split b',' v) (All-and _ _ _ (split-All _ b',' v h) (split-Lacks b',' v))

map_trim_of_IsTag :
    (u : Unicode) (ts : List Str)
    → All (IsTag u) ts
    → filter is_present (map (trim_space u) ts) ≡ ts
unfolding filter
map_trim_of_IsTag u [] h = refl
map_trim_of_IsTag u (t ∷ ts) (p, h) =
    rw p.trimmed (ground (arith, p.present, str_eq_iff t [], map_trim_of_IsTag u ts h))

-- Tags written with commas between them are read back.
clean_tags-join :
    (u : Unicode) (ts : List Str) → All (IsTag u) ts → clean_tags u (join (b',' ∷ []) ts) ≡ ts
unfolding clean_tags
clean_tags-join u [] h = unfold split join filter trim_space str_eq in refl
clean_tags-join u (t ∷ ts) h =
    rw (split-join b',' t ts (All-imp (IsTag u) (Lacks b',') (λ x p. p.whole) (t ∷ ts) h))
      (map_trim_of_IsTag u (t ∷ ts) h)

module _ (u : Unicode) (m : List (Str × Str)) (distinct : HasDistinctKeys m) (v : Str)
    (given : label (bytes "tags") m ≡ some v) where
  parse_labels-tags : (parse_labels u m).tags ≡ clean_tags u v
  unfolding labels_by_key
  parse_labels-tags = rw (parse_labels-by_key u m distinct, given)

  -- What `ParseLabels` keeps of the ASCII tags label of a map with distinct keys are tags: none is
  -- empty, none has space around it, none holds a comma.
  pub parse_labels-IsTag : IsAscii v → All (IsTag u) (parse_labels u m).tags
  parse_labels-IsTag h = rw parse_labels-tags (clean_tags-IsTag u v h)

-- Tags, written into the tags label of a map with distinct keys with commas between them, are read
-- back in their order.
pub parse_labels-join :
    (u : Unicode) (m : List (Str × Str)) (ts : List Str)
    → HasDistinctKeys m
    → All (IsTag u) ts
    → label (bytes "tags") m ≡ some (join (b',' ∷ []) ts)
    → (parse_labels u m).tags ≡ ts
parse_labels-join u m ts distinct h given =
    parse_labels-tags u m distinct _ given ∙ clean_tags-join u ts h

IsAscii→is_ascii : (s : Str) → IsAscii s → is_ascii s ≡ true
unfolding is_ascii
IsAscii→is_ascii [] h = refl
IsAscii→is_ascii (c ∷ s) (p, h) = rw p (IsAscii→is_ascii s h)

-- `HasTag` looks for a tag whatever the case of its letters, where all is ASCII: it holds exactly
-- if some tag has the same lower case form.
pub has_tag-to_lower :
    (u : Unicode) (w : WingStationLabels) (tag : Str)
    → All IsAscii w.tags
    → IsAscii tag
    → has_tag u w tag ≡ any (λ t. str_eq (to_lower u t) (to_lower u tag)) w.tags
unfolding has_tag
has_tag-to_lower u w tag h k = any-cong _ _ w.tags (
    All-imp IsAscii _
      (λ t a. equal_fold-to_lower u t tag (IsAscii→is_ascii t a) (IsAscii→is_ascii tag k)) w.tags h)
