-- ===== src/Service/Search/Spec.antt =====
-- What `Search` (internal/service/container.go) ought to give, in terms of the fields of the
-- containers and of the parameters of the request.
use wingstation.Prelude.{
  Str, bytes, str_eq, str_eq_iff, str_lt, Bool, true, false, not, ◌&&◌, ◌||◌, sym, ◌∙◌, ap, [], ◌≡◌,
  ◌≢◌, refl, ◌⊎◌, inl, inr, Bool-cases, not_both, if◌then◌else◌, arith,
}
use wingstation.Prelude.Int.{ltb_ℤ}
use wingstation.Go.Strings.{Unicode, equal_fold, to_lower, contains}
use wingstation.Docker.Labels.{group_name, display_name, has_tag}
use wingstation.Docker.Models.{Container}
use wingstation.Service.Groups.{ranks, container_less}
use wingstation.Service.Search.{SearchParams, query_hits, matches_search, sort_less}

-- A container answers a search: its state, its group and one of its tags are those that are asked
-- for, but for the case, and its name, its image or its short id has the query in it, in lower
-- case; a parameter that is empty asks for nothing.
pub record Fits (u : Unicode) (query status group tag : Str) (c : Container) : Type 0 where
  pub by_status : (status ≡ []) ⊎ (equal_fold u c.state status ≡ true)
  pub by_group : (group ≡ []) ⊎ (equal_fold u (group_name c.labels) group ≡ true)
  pub by_tag : (tag ≡ []) ⊎ (has_tag u c.labels tag ≡ true)
  pub by_query :
      (query ≡ [])
      ⊎ ((contains (to_lower u (display_name c.labels c.name)) (to_lower u query) ≡ true)
          ⊎ ((contains (to_lower u c.image) (to_lower u query) ≡ true)
              ⊎ (contains c.short_id (to_lower u query) ≡ true)))

-- A smaller priority, or the same one and a name that is not after the other.
abbrev pub RanksBefore : Container → Container → Type 0
RanksBefore x y =
    (ltb_ℤ x.labels.priority y.labels.priority ≡ true)
    ⊎ ((x.labels.priority ≡ y.labels.priority) × (str_lt y.name x.name ≡ false))

-- The first may stand before the second: by name, by state, by the newest, or else by priority and
-- name.
abbrev pub MayPrecede : Str → Container → Container → Type 0
MayPrecede sort x y =
    ((sort ≡ bytes "name") × (str_lt y.name x.name ≡ false))
    ⊎ (((sort ≡ bytes "status") × (str_lt y.state x.state ≡ false))
        ⊎ (((sort ≡ bytes "created") × (ltb_ℤ x.created y.created ≡ false))
            ⊎ ((sort ≢ bytes "name")
                × (sort ≢ bytes "status")
                × (sort ≢ bytes "created")
                × RanksBefore x y)))

container_less-RanksBefore : (x y : Container) → container_less y x ≡ false → RanksBefore x y
unfolding container_less ranks
container_less-RanksBefore x y h = elim (Bool-cases (ltb_ℤ x.labels.priority y.labels.priority)) [
  | inl e ↦ inl e
  | inr e ↦
      let same : x.labels.priority ≡ y.labels.priority = ground (arith, h, e) in
      inr (same, ground (arith, h, e))
]

differs : (s t : Str) → str_eq s t ≡ false → s ≢ t
differs s t e q = not_both (str_eq s t) ((str_eq_iff s t).1 q) e

pub sort_less-MayPrecede :
    (sort : Str) (x y : Container) → sort_less sort y x ≡ false → MayPrecede sort x y
unfolding sort_less
sort_less-MayPrecede sort x y h =
    chosen (str_eq sort (bytes "name")) (str_eq sort (bytes "status"))
      (str_eq sort (bytes "created")) refl refl refl h
  where
    chosen :
        (n s c : Bool)
        → str_eq sort (bytes "name") ≡ n
        → str_eq sort (bytes "status") ≡ s
        → str_eq sort (bytes "created") ≡ c
        → (if n
            then str_lt y.name x.name
            else if s
            then str_lt y.state x.state
            else if c
            then ltb_ℤ x.created y.created
            else container_less y x)
          ≡ false
        → MayPrecede sort x y
    chosen true s c d e f h = inl ((str_eq_iff sort (bytes "name")).0 d, h)
    chosen false true c d e f h = inr (inl ((str_eq_iff sort (bytes "status")).0 e, h))
    chosen false false true d e f h = inr (inr (inl ((str_eq_iff sort (bytes "created")).0 f, h)))
    chosen false false false d e f h = inr (
        inr (
          inr (
            differs sort (bytes "name") d,
            differs sort (bytes "status") e,
            differs sort (bytes "created") f,
            container_less-RanksBefore x y h,
          )))

abbrev AsksFor : Str → Bool → Type 0
AsksFor s b = (s ≡ []) ⊎ (b ≡ true)

-- A test that lets a container through.
passes : (s : Str) (b : Bool) → (not (str_eq s []) && not b) ≡ false → AsksFor s b
passes s b h = elim (Bool-cases (str_eq s [])) [
  | inl e ↦ inl ((str_eq_iff s []).0 e)
  | inr e ↦ inr (ground (arith, h, e))
]

passed : (s : Str) (b : Bool) → AsksFor s b → (not (str_eq s []) && not b) ≡ false
passed s b (inl e) = let same = (str_eq_iff s []).1 e in ground (arith, same)
passed s b (inr e) = ground (arith, e)

one_hits : (a b c : Bool) → (a || (b || c)) ≡ true → (a ≡ true) ⊎ ((b ≡ true) ⊎ (c ≡ true))
one_hits true b c h = inl refl
one_hits false true c h = inr (inl refl)
one_hits false false true h = inr (inr refl)
one_hits false false false h = cc

hits_one : (a b c : Bool) → (a ≡ true) ⊎ ((b ≡ true) ⊎ (c ≡ true)) → (a || (b || c)) ≡ true
hits_one true b c h = refl
hits_one false true c h = refl
hits_one false false true h = refl
hits_one false false false (inl e) = e
hits_one false false false (inr (inl e)) = e
hits_one false false false (inr (inr e)) = e

-- No test of the four stops the container.
abbrev through : Bool → Bool → Bool → Bool → Bool
through a b c d = if a then false else if b then false else if c then false else not d

all_let_through :
    (a b c d : Bool)
    → through a b c d ≡ true
    → (a ≡ false) × (b ≡ false) × (c ≡ false) × (d ≡ false)
all_let_through false false false false h = (refl, refl, refl, refl)
all_let_through false false false true h = cc
all_let_through false false true d h = cc
all_let_through false true c d h = cc
all_let_through true b c d h = cc

let_through :
    (a b c d : Bool) → a ≡ false → b ≡ false → c ≡ false → d ≡ false → through a b c d ≡ true
let_through a b c d h k l m = rw (h, k, l, m) refl

module _ (u : Unicode) (p : SearchParams) (c : Container) where
  abbrev misses_status : Bool
  misses_status = not (str_eq p.status []) && not (equal_fold u c.state p.status)

  abbrev misses_group : Bool
  misses_group = not (str_eq p.group []) && not (equal_fold u (group_name c.labels) p.group)

  abbrev misses_tag : Bool
  misses_tag = not (str_eq p.tag []) && not (has_tag u c.labels p.tag)

  abbrev misses_query : Bool
  misses_query = not (str_eq p.query []) && not (query_hits u c (to_lower u p.query))

  matches_search-through :
      matches_search u p c ≡ through misses_status misses_group misses_tag misses_query
  unfolding matches_search
  matches_search-through =
      ap
        (λ b.
          if misses_status
          then false
          else if misses_group
          then false
          else if misses_tag
          then false
          else b)
        (last misses_query)
    where
      last : (b : Bool) → (if b then false else true) ≡ not b
      last true = refl
      last false = refl

  pub matches_search-Fits : matches_search u p c ≡ true → Fits u p.query p.status p.group p.tag c
  unfolding query_hits
  matches_search-Fits h =
      let (a, b, d, e) = all_let_through _ _ _ _ (sym matches_search-through ∙ h) in
      record {
        by_status = passes p.status _ a;
        by_group = passes p.group _ b;
        by_tag = passes p.tag _ d;
        by_query = elim (passes p.query _ e) [ inl x ↦ inl x | inr x ↦ inr (one_hits _ _ _ x) ];
      }

  pub Fits-matches_search : Fits u p.query p.status p.group p.tag c → matches_search u p c ≡ true
  unfolding query_hits
  Fits-matches_search f =
      matches_search-through
      ∙ let_through misses_status misses_group misses_tag misses_query
          (passed p.status _ f.by_status) (passed p.group _ f.by_group) (passed p.tag _ f.by_tag)
          (passed p.query _ (elim f.by_query [ inl x ↦ inl x | inr x ↦ inr (hits_one _ _ _ x) ]))
