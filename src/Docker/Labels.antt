-- ===== src/Docker/Labels.antt =====
-- internal/docker/labels.go: the wingstation.* labels of a container.
pub mod Laws
pub mod Tags
pub mod Priority
use mathlib.Core.List.{foldl}
use wingstation.Prelude.{
  Str, bytes, str_eq, Bool, true, false, not, ◌||◌, List, [], ◌∷◌, ◌++◌, Option, none, some,
  if◌then◌else◌, filter, map, any,
}
use wingstation.Prelude.Int.{ℤ, pos}
use wingstation.Go.Strings.{Unicode, has_prefix, trim_prefix, split, trim_space, equal_fold}
use wingstation.Go.Strconv.{atoi}

abbrev pub label_prefix : Str
label_prefix = bytes "wingstation."

pub record WingStationLabels : Type 0 where
  pub group : Str
  pub name : Str
  pub icon : Str
  pub description : Str
  pub url : Str
  pub priority : ℤ
  pub hide : Bool
  pub tags : List Str

-- What the labels are before the first one is read.
abbrev pub no_labels : WingStationLabels
no_labels = record {
  group = [];
  name = [];
  icon = [];
  description = [];
  url = [];
  priority = pos 50;
  hide = false;
  tags = [];
}

-- `strconv.Atoi`, with the value at hand kept on an error
abbrev pub priority_or : ℤ → Str → ℤ
priority_or old v = elim (atoi v) [ none ↦ old | some n ↦ n ]

abbrev pub is_yes : Str → Bool
is_yes v = str_eq v (bytes "true") || str_eq v (bytes "1") || str_eq v (bytes "yes")

abbrev is_present : Str → Bool
is_present t = not (str_eq t [])

-- The loop over the parts of a tags label.
unfoldable pub clean_tags : Unicode → Str → List Str
clean_tags u v = filter is_present (map (trim_space u) (split b',' v))

-- The `switch` on the key behind the prefix.
unfoldable pub set_label : Unicode → WingStationLabels → Str → Str → WingStationLabels
unfolding clean_tags
set_label u ws key v =
    if str_eq key (bytes "group")
    then record ws { group = v }
    else if str_eq key (bytes "name")
    then record ws { name = v }
    else if str_eq key (bytes "icon")
    then record ws { icon = v }
    else if str_eq key (bytes "description")
    then record ws { description = v }
    else if str_eq key (bytes "url")
    then record ws { url = v }
    else if str_eq key (bytes "priority")
    then record ws { priority = priority_or ws.priority v }
    else if str_eq key (bytes "hide")
    then record ws { hide = is_yes v }
    else if str_eq key (bytes "tags")
    then record ws { tags = ws.tags ++ clean_tags u v }
    else ws

-- One round of the loop of `ParseLabels`.
unfoldable pub read_label : Unicode → WingStationLabels → Str × Str → WingStationLabels
read_label u ws (k, v) =
    if has_prefix k label_prefix then set_label u ws (trim_prefix k label_prefix) v else ws

-- `ParseLabels`, visiting the map in the order of the list.
unfoldable pub parse_labels : Unicode → List (Str × Str) → WingStationLabels
unfolding read_label set_label
parse_labels u = foldl (read_label u) no_labels

unfoldable pub display_name : WingStationLabels → Str → Str
display_name w container_name = if not (str_eq w.name []) then w.name else container_name

unfoldable pub group_name : WingStationLabels → Str
group_name w = if not (str_eq w.group []) then w.group else bytes "Ungrouped"

unfoldable pub has_tag : Unicode → WingStationLabels → Str → Bool
has_tag u w tag = any (λ t. equal_fold u t tag) w.tags
