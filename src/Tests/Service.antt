-- ===== src/Tests/Service.antt =====
-- Groups, searches and details at concrete containers.
use mathlib.Core.List.{Perm, Pairwise}
use mathlib.Core.Path.{fun_ext}
use wingstation.Prelude.{List, ◌++◌, bytes, str_eq, str_eq_iff, not_both, false, ◌≡◌, refl, All}
use wingstation.Prelude.Perm.{All-mem, All-prop}
use wingstation.Go.Runtime.Insertion.{forward, backward}
use wingstation.Docker.Models.{Container}
use wingstation.Service.Groups.{group_containers}
use wingstation.Service.Groups.Collect.{members}
use wingstation.Service.Groups.Sorted.{IsShown, group_containers-IsShown, group_containers-members}
use wingstation.Service.Groups.Determined.{NamesDiffer, Container-set, group_containers_determined}
use wingstation.Service.Search.{SearchParams, search_containers}
use wingstation.Service.Search.Order.{search_containers_correct}
use wingstation.Service.Search.Spec.{Fits, MayPrecede}
use wingstation.Tests.Data.{plain, web, db, tv, listed}

different : (a b : Container) → str_eq a.name b.name ≡ false → a.name ≡ b.name → a ≡ b
different a b h e = absurd (not_both (str_eq a.name b.name) ((str_eq_iff a.name b.name).1 e) h)

abbrev SameIfNamed : Container → Container → Type 0
SameIfNamed a b = a.name ≡ b.name → a ≡ b

SameIfNamed-prop : (a b : Container) → IsProp (SameIfNamed a b)
SameIfNamed-prop a b p q = fun_ext (λ e. Container-set a b (p e) (q e))

listed-NamesDiffer : NamesDiffer listed
unfolding str_eq
listed-NamesDiffer a b ma mb =
    All-mem (SameIfNamed a) (SameIfNamed-prop a) listed b
      (All-mem (λ y. All (SameIfNamed y) listed)
        (λ y. All-prop (SameIfNamed y) (SameIfNamed-prop y) listed) listed a
        (
          (λ e. refl, (different web tv refl, (different web db refl, tt))),
          (
            (different tv web refl, (λ e. refl, (different tv db refl, tt))),
            ((different db web refl, (different db tv refl, (λ e. refl, tt))), tt),
          ),
        )
        ma)
      mb

group_containers_determined_example :
    group_containers forward listed ≡ group_containers backward listed
group_containers_determined_example =
    group_containers_determined forward backward listed listed-NamesDiffer

group_containers-IsShown_example : All IsShown (group_containers backward listed)
group_containers-IsShown_example = group_containers-IsShown backward listed

group_containers-members_example : Perm (members (group_containers backward listed)) listed
group_containers-members_example = group_containers-members backward listed

abbrev criteria : SearchParams
criteria = record {
  query = bytes "NGINX";
  status = bytes "Running";
  group = bytes "apps";
  tag = bytes "HOME";
  sort = bytes "name";
}

search_containers_correct_example :
    (others : List Container) × Perm listed
      (search_containers forward plain listed criteria ++ others)
    × All
        (Fits plain (bytes "NGINX") (bytes "Running") (bytes "apps") (bytes "HOME"))
        (search_containers forward plain listed criteria)
    × All
        (λ c. ¬ Fits plain (bytes "NGINX") (bytes "Running") (bytes "apps") (bytes "HOME") c)
        others
    × Pairwise (MayPrecede (bytes "name")) (search_containers forward plain listed criteria)
search_containers_correct_example = search_containers_correct forward plain listed criteria
