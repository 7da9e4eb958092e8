-- ===== src/Docker/Labels/Laws.antt =====
-- `ParseLabels` against a reading of the map by key.
use mathlib.Core.List.{foldl, Perm}
use mathlib.Core.Path.{fun_ext}
use wingstation.Prelude.{
  Str, bytes, str_eq, str_eq_iff, Bool, false, List, [], ◌∷◌, ◌++◌, Option, none, some, ◌≡◌, refl,
  ◌∙◌, sym, ap, if◌then◌else◌, arith, Bool-cases, inl, inr, ◌&&◌,
}
use wingstation.Prelude.Int.{pos}
use wingstation.Go.Strings.{Unicode, has_prefix, trim_prefix}
use wingstation.Go.Strings.Cut.{prefix_then_eq}
use wingstation.Go.Map.{lookup, HasDistinctKeys}
use wingstation.Go.Map.Order.{lookup-perm, HasDistinctKeys-perm}
use wingstation.Docker.Labels.{
  label_prefix, WingStationLabels, no_labels, priority_or, is_yes, clean_tags, set_label,
  read_label, parse_labels,
}

-- The value of one of the program's labels.
abbrev pub label : Str → List (Str × Str) → Option Str
label name = lookup (label_prefix ++ name)

-- What is said by a label over the value at hand.
abbrev pub said {ℓ} : {A : Type ℓ} → (A → Str → A) → A → Option Str → A
said read old none = old
said read old (some v) = read old v

abbrev set_text : Str → Str → Str
set_text old v = v

abbrev set_hide : Bool → Str → Bool
set_hide old v = is_yes v

abbrev add_tags : Unicode → List Str → Str → List Str
add_tags u old v = old ++ clean_tags u v

-- The labels read by key, each over what was there.
overlay : Unicode → WingStationLabels → List (Str × Str) → WingStationLabels
overlay u ws m = record {
  group = said set_text ws.group (label (bytes "group") m);
  name = said set_text ws.name (label (bytes "name") m);
  icon = said set_text ws.icon (label (bytes "icon") m);
  description = said set_text ws.description (label (bytes "description") m);
  url = said set_text ws.url (label (bytes "url") m);
  priority = said priority_or ws.priority (label (bytes "priority") m);
  hide = said set_hide ws.hide (label (bytes "hide") m);
  tags = said (add_tags u) ws.tags (label (bytes "tags") m);
}

-- What the labels say, read by key: the defaults where a label is absent.
unfoldable pub labels_by_key : Unicode → List (Str × Str) → WingStationLabels
unfolding overlay
labels_by_key u = overlay u no_labels

-- The key of a label of the program: the prefix is there and the rest is the name.
key_test :
    (k n : Str)
    → (has_prefix k label_prefix && str_eq (trim_prefix k label_prefix) n)
      ≡ str_eq k (label_prefix ++ n)
unfolding trim_prefix
key_test k n = elim (Bool-cases (has_prefix k label_prefix)) [
  | inl e ↦ rw e (rw (e) at (prefix_then_eq k label_prefix n))
  | inr e ↦ rw e (rw (e) at (prefix_then_eq k label_prefix n))
]

-- The fields, each tested on its own: what the switch does, with no order among its cases.
by_name : Unicode → WingStationLabels → (Str → Bool) → Str → WingStationLabels
by_name u ws is v = record {
  group = if is (bytes "group") then v else ws.group;
  name = if is (bytes "name") then v else ws.name;
  icon = if is (bytes "icon") then v else ws.icon;
  description = if is (bytes "description") then v else ws.description;
  url = if is (bytes "url") then v else ws.url;
  priority = if is (bytes "priority") then priority_or ws.priority v else ws.priority;
  hide = if is (bytes "hide") then is_yes v else ws.hide;
  tags = if is (bytes "tags") then ws.tags ++ clean_tags u v else ws.tags;
}

set_label-by_name :
    (u : Unicode) (ws : WingStationLabels) (key v : Str)
    → set_label u ws key v ≡ by_name u ws (str_eq key) v
unfolding set_label by_name
set_label-by_name u ws key v = ground (
  arith,
  str_eq_iff key (bytes "group"),
  str_eq_iff key (bytes "name"),
  str_eq_iff key (bytes "icon"),
  str_eq_iff key (bytes "description"),
  str_eq_iff key (bytes "url"),
  str_eq_iff key (bytes "priority"),
  str_eq_iff key (bytes "hide"),
  str_eq_iff key (bytes "tags"),
)

by_name_none : (u : Unicode) (ws : WingStationLabels) (v : Str) → by_name u ws (λ n. false) v ≡ ws
unfolding by_name
by_name_none u ws v = refl

-- A round sets a field exactly if the key is the prefix with the name of the field.
read_label-by_name :
    (u : Unicode) (ws : WingStationLabels) (k v : Str)
    → read_label u ws (k, v) ≡ by_name u ws (λ n. str_eq k (label_prefix ++ n)) v
unfolding read_label
read_label-by_name u ws k v = elim (Bool-cases (has_prefix k label_prefix)) [
  | inl e ↦
      rw (e, set_label-by_name)
        (ap (λ is. by_name u ws is v) (fun_ext (λ n. rw (e) at (key_test k n))))
  | inr e ↦ rw e (
      sym (by_name_none u ws v)
      ∙ ap (λ is. by_name u ws is v) (fun_ext (λ n. rw (e) at (key_test k n))))
]

-- A label under a new key is seen by its name alone.
said-step {ℓ} :
    {A : Type ℓ} (read : A → Str → A) (old : A) (k l v : Str) (m : List (Str × Str))
    → lookup k m ≡ none
    → said read (if str_eq k l then read old v else old) (lookup l m)
      ≡ said read old (lookup l ((k, v) ∷ m))
unfolding lookup
said-step read old k l v m absent = elim (Bool-cases (str_eq k l)) [
  | inl e ↦ let gone : lookup l m ≡ none = rw ((str_eq_iff k l).0 e) at absent in rw (e, gone)
  | inr e ↦ rw e
]

overlay-read_label :
    (u : Unicode) (ws : WingStationLabels) (k v : Str) (m : List (Str × Str))
    → lookup k m ≡ none
    → overlay u (read_label u ws (k, v)) m ≡ overlay u ws ((k, v) ∷ m)
unfolding overlay by_name
overlay-read_label u ws k v m absent = rw (read_label-by_name u ws k v) (λ i. record {
  group = said-step set_text ws.group k (label_prefix ++ bytes "group") v m absent i;
  name = said-step set_text ws.name k (label_prefix ++ bytes "name") v m absent i;
  icon = said-step set_text ws.icon k (label_prefix ++ bytes "icon") v m absent i;
  description =
      said-step set_text ws.description k (label_prefix ++ bytes "description") v m absent i;
  url = said-step set_text ws.url k (label_prefix ++ bytes "url") v m absent i;
  priority = said-step priority_or ws.priority k (label_prefix ++ bytes "priority") v m absent i;
  hide = said-step set_hide ws.hide k (label_prefix ++ bytes "hide") v m absent i;
  tags = said-step (add_tags u) ws.tags k (label_prefix ++ bytes "tags") v m absent i;
})

foldl-overlay :
    (u : Unicode) (ws : WingStationLabels) (m : List (Str × Str))
    → HasDistinctKeys m
    → foldl (read_label u) ws m ≡ overlay u ws m
unfolding overlay lookup
foldl-overlay u ws [] h = refl
foldl-overlay u ws ((k, v) ∷ m) (absent, h) =
    foldl-overlay u (read_label u ws (k, v)) m h ∙ overlay-read_label u ws k v m absent

-- For a map, in which no key stands twice, `ParseLabels` reads each label of the program by its
-- key, whatever the other keys are.
pub parse_labels-by_key :
    (u : Unicode) (m : List (Str × Str)) → HasDistinctKeys m → parse_labels u m ≡ labels_by_key u m
unfolding parse_labels labels_by_key
parse_labels-by_key u m h = foldl-overlay u no_labels m h

labels_by_key-cong :
    (u : Unicode) (m n : List (Str × Str))
    → ((k : Str) → lookup k m ≡ lookup k n)
    → labels_by_key u m ≡ labels_by_key u n
unfolding labels_by_key
labels_by_key-cong u m n h = λ i. record {
  group = said set_text [] (h (label_prefix ++ bytes "group") i);
  name = said set_text [] (h (label_prefix ++ bytes "name") i);
  icon = said set_text [] (h (label_prefix ++ bytes "icon") i);
  description = said set_text [] (h (label_prefix ++ bytes "description") i);
  url = said set_text [] (h (label_prefix ++ bytes "url") i);
  priority = said priority_or (pos 50) (h (label_prefix ++ bytes "priority") i);
  hide = said set_hide false (h (label_prefix ++ bytes "hide") i);
  tags = said (add_tags u) [] (h (label_prefix ++ bytes "tags") i);
}

Option-Str-set : IsSet (Option Str)
Option-Str-set = hlevel

-- Go visits a map in any order, and `ParseLabels` gives the same labels in each: for two orders
-- of one map with distinct keys the results are equal.
pub parse_labels-perm :
    (u : Unicode) (m n : List (Str × Str))
    → HasDistinctKeys m
    → Perm m n
    → parse_labels u m ≡ parse_labels u n
parse_labels-perm u m n h p =
    rw
      (parse_labels-by_key u m h, parse_labels-by_key u n (HasDistinctKeys-perm Option-Str-set p h))
      (labels_by_key-cong u m n (λ k. lookup-perm Option-Str-set k m n p h))
