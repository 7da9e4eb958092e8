-- ===== src/Service/Search/Case.antt =====
-- `matchesSearch` (internal/service/container.go) and the case of ASCII letters.
use wingstation.Prelude.{Str, true, ◌≡◌, sym, ◌∙◌, any-cong, All, All-imp}
use wingstation.Go.Strings.{Unicode, is_ascii, to_lower, equal_fold}
use wingstation.Go.Strings.Fold.{
  equal_fold-to_lower, to_lower_idempotent, to_lower-ascii, to_lower-eq_nil,
}
use wingstation.Docker.Labels.{group_name, has_tag}
use wingstation.Docker.Models.{Container}
use wingstation.Service.Search.{SearchParams, matches_search}

-- The texts that a search compares are ASCII.
pub record IsPlain (c : Container) : Type 0 where
  pub state : is_ascii c.state ≡ true
  pub group : is_ascii (group_name c.labels) ≡ true
  pub tags : All (λ t. is_ascii t ≡ true) c.labels.tags

pub record AreAscii (p : SearchParams) : Type 0 where
  pub query : is_ascii p.query ≡ true
  pub status : is_ascii p.status ≡ true
  pub group : is_ascii p.group ≡ true
  pub tag : is_ascii p.tag ≡ true

-- The criteria in lower case.
abbrev pub lowered : Unicode → SearchParams → SearchParams
lowered u p = record p {
  query = to_lower u p.query;
  status = to_lower u p.status;
  group = to_lower u p.group;
  tag = to_lower u p.tag;
}

module _ (u : Unicode) where
  equal_fold-lowered :
      (s t : Str)
      → is_ascii s ≡ true
      → is_ascii t ≡ true
      → equal_fold u s (to_lower u t) ≡ equal_fold u s t
  equal_fold-lowered s t h k =
      equal_fold-to_lower u s (to_lower u t) h (to_lower-ascii u t k)
      ∙ rw (to_lower_idempotent u t k) (sym (equal_fold-to_lower u s t h k))

  has_tag-lowered :
      (c : Container) (t : Str)
      → All (λ s. is_ascii s ≡ true) c.labels.tags
      → is_ascii t ≡ true
      → has_tag u c.labels (to_lower u t) ≡ has_tag u c.labels t
  unfolding has_tag
  has_tag-lowered c t h k =
      any-cong _ _ c.labels.tags (All-imp _ _ (λ s a. equal_fold-lowered s t a k) c.labels.tags h)

  -- A container matches the criteria in lower case exactly if it matches them as they are, if
  -- the criteria, the state, the group and the tags are ASCII.
  pub matches_search-lowered :
      (p : SearchParams) (c : Container)
      → AreAscii p
      → IsPlain c
      → matches_search u (lowered u p) c ≡ matches_search u p c
  unfolding matches_search
  matches_search-lowered p c a i = rw (
    to_lower-eq_nil u p.query a.query,
    to_lower-eq_nil u p.status a.status,
    to_lower-eq_nil u p.group a.group,
    to_lower-eq_nil u p.tag a.tag,
    to_lower_idempotent u p.query a.query,
    equal_fold-lowered c.state p.status i.state a.status,
    equal_fold-lowered (group_name c.labels) p.group i.group a.group,
    has_tag-lowered c p.tag i.tags a.tag,
  )
