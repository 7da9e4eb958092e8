-- ===== src/Server/Watch/Whole.antt =====
-- The calls of the goroutine of the Docker events (internal/server/sse.go) part by part.
use mathlib.Core.List.{foldl}
use wingstation.Prelude.{
  List, [], ◌∷◌, Option, none, some, ◌≡◌, refl, sym, ap, ◌∙◌, ℕ, suc, ◌≤◌, arith,
}
use wingstation.Prelude.Int.{ℤ}
use wingstation.Go.Result.{Result, ok, err, panic, and_then, and_then-ok}
use wingstation.Go.Map.{lookup}
use wingstation.Cache.{get, invalidate_all}
use wingstation.Docker.Models.{Container}
use wingstation.Service.Groups.{group_containers}
use wingstation.Service.Listing.{
  Cached, ListInput, containers_key, as_containers, finish_list, list_grouped, invalidate_cache,
}
use wingstation.Service.Listing.Race.{finish_list-list_containers}
use wingstation.Server.Site.{Site}
use wingstation.Server.Watch.{
  Hub, DockerMessage, broadcast_groups, broadcast_container_list, targeted_update,
  handle_docker_event, message, goes_on, Phase, connecting, selecting, refreshing, awaiting,
  sending, updating, returned, dead, after_call, after_listing, on_get, on_listed, go_on,
  watch_step, to_end,
}

-- How many parts of a call may follow.
left : Phase → ℕ
left connecting = 0
left selecting = 0
left (refreshing o) = 4
left (awaiting o) = 3
left (sending groups o) = 2
left (updating m) = 1
left returned = 0
left dead = 0

-- Outside of every call.
abbrev pub IsBetween : Phase → Type 0
IsBetween connecting = Unit
IsBetween selecting = Unit
IsBetween (refreshing o) = ⊥
IsBetween (awaiting o) = ⊥
IsBetween (sending groups o) = ⊥
IsBetween (updating m) = ⊥
IsBetween returned = Unit
IsBetween dead = Unit

none-left : (p : Phase) → left p ≤ 0 → IsBetween p
unfolding left
none-left connecting l = tt
none-left selecting l = tt
none-left (refreshing o) l = omega (arith, l)
none-left (awaiting o) l = omega (arith, l)
none-left (sending groups o) l = omega (arith, l)
none-left (updating m) l = omega (arith, l)
none-left returned l = tt
none-left dead l = tt

left-after_listing : (o : Option DockerMessage) → left (after_listing o) ≤ 1
unfolding left
left-after_listing none = omega arith
left-after_listing (some m) = omega arith

left-after_call :
    (s : Site) (n : ℕ) (p : Phase) (h : Hub) (r : Result Hub)
    → left p ≤ n
    → left (after_call s p h r).0 ≤ n
unfolding left
left-after_call s n p h (ok d) l = l
left-after_call s n p h (err e) l = omega arith
left-after_call s n p h panic l = omega arith

module _ (s : Site) where
  left-on_listed :
      (o : Option DockerMessage) (h : Hub) (r : Result (List Container))
      → left (on_listed s o h r).0 ≤ 2
  unfolding left
  left-on_listed o h (ok cs) = omega arith
  left-on_listed o h (err e) = let l = left-after_listing o in omega (arith, l)
  left-on_listed o h panic = omega arith

  left-on_get :
      (o : Option DockerMessage) (h : Hub) (v : Option Cached) → left (on_get s o h v).0 ≤ 3
  unfolding left
  left-on_get o h none = omega arith
  left-on_get o h (some v) = let l = left-on_listed o h (as_containers v) in omega (arith, l)

  left-go_on :
      (n : ℕ) (p : Phase) (h : Hub) (i : ListInput) → left p ≤ suc n → left (go_on s p h i).0 ≤ n
  unfolding left go_on
  left-go_on n connecting h i l = omega arith
  left-go_on n selecting h i l = omega arith
  left-go_on n (refreshing o) h i l =
      let k = left-on_get o h (get h.cache i.asked containers_key) in omega (arith, l, k)
  left-go_on n (awaiting o) h i l =
      let after = finish_list s.unicode h.cache i in
      let k = left-on_listed o (record h { cache = after.1 }) after.0 in omega (arith, l, k)
  left-go_on n (sending groups o) h i l =
      let k = left-after_listing o in
      left-after_call s n (after_listing o) h (broadcast_groups s h groups) (omega (arith, l, k))
  left-go_on n (updating m) h i l =
      left-after_call s n selecting h (targeted_update s m h) (omega arith)
  left-go_on n returned h i l = omega arith
  left-go_on n dead h i l = omega arith

  left-four : (p : Phase) → left p ≤ 4
  unfolding left
  left-four connecting = omega arith
  left-four selecting = omega arith
  left-four (refreshing o) = omega arith
  left-four (awaiting o) = omega arith
  left-four (sending groups o) = omega arith
  left-four (updating m) = omega arith
  left-four returned = omega arith
  left-four dead = omega arith

  step-go_on :
      (ms : ℤ) (p : Phase) (h : Hub) (i : ListInput)
      → watch_step s ms (p, h) (goes_on i) ≡ go_on s p h i
  unfolding watch_step go_on
  step-go_on ms connecting h i = refl
  step-go_on ms selecting h i = refl
  step-go_on ms (refreshing o) h i = refl
  step-go_on ms (awaiting o) h i = refl
  step-go_on ms (sending groups o) h i = refl
  step-go_on ms (updating m) h i = refl
  step-go_on ms returned h i = refl
  step-go_on ms dead h i = refl

  left-step :
      (ms : ℤ) (n : ℕ) (x : Phase × Hub) (i : ListInput)
      → left x.0 ≤ suc n
      → left (watch_step s ms x (goes_on i)).0 ≤ n
  left-step ms n (p, h) i l = rw (step-go_on ms p h i) (left-go_on n p h i l)

  -- A call is at its end after four parts.
  pub to_end-IsBetween :
      (ms : ℤ) (x : Phase × Hub) (i : ListInput)
      → IsBetween (foldl (watch_step s ms) x (to_end i)).0
  to_end-IsBetween ms (p, h) i =
      let first = watch_step s ms (p, h) (goes_on i) in
      let second = watch_step s ms first (goes_on i) in
      let third = watch_step s ms second (goes_on i) in
      none-left (watch_step s ms third (goes_on i)).0 (
        left-step ms 0 third i (
          left-step ms 1 second i (left-step ms 2 first i (left-step ms 3 (p, h) i (left-four p)))))

  -- From a listing on.
  listed_to_end :
      (ms : ℤ) (m : DockerMessage) (h d : Hub) (i : ListInput) (r : Result (List Container))
      → and_then
          (and_then
            (and_then r (λ cs. ok (group_containers s.runtime cs)) err)
            (broadcast_groups s h)
            (λ e. ok h))
          (targeted_update s m)
          err
        ≡ ok d
      → foldl (watch_step s ms) (on_listed s (some m) h r) (goes_on i ∷ goes_on i ∷ [])
        ≡ (selecting, d)
  unfolding watch_step go_on
  listed_to_end ms m h d i (ok cs) e =
      let groups = group_containers s.runtime cs in
      let (k, sent, updated) =
        and_then-ok (broadcast_groups s h groups) (targeted_update s m) (λ e. e) d e in
      ap (λ x. watch_step s ms (after_call s (updating m) h x) (goes_on i)) sent
      ∙ ap (after_call s selecting k) updated
  listed_to_end ms m h d i (err x) e =
      ap (λ y. watch_step s ms (after_call s selecting h y) (goes_on i)) e
  listed_to_end ms m h d i panic e = cc

  -- An event that is handled without interruption: all its parts in a row are
  -- `handle_docker_event`.
  pub message-to_end :
      (ms : ℤ) (m : DockerMessage) (h d : Hub) (i : ListInput)
      → handle_docker_event s m h i ≡ ok d
      → foldl (watch_step s ms) (selecting, h) (message m ∷ to_end i) ≡ (selecting, d)
  unfolding watch_step go_on handle_docker_event broadcast_container_list list_grouped get lookup
      invalidate_cache invalidate_all
  message-to_end ms m h d i e =
      let empty = invalidate_cache h.cache in
      let after = finish_list s.unicode empty i in
      let same = finish_list-list_containers s.unicode empty i refl in
      listed_to_end ms m (record h { cache = after.1 }) d i after.0
        (ap
            (λ x.
              and_then
                (and_then (and_then x.0 (λ cs. ok (group_containers s.runtime cs)) err)
                  (broadcast_groups s (record h { cache = x.1 }))
                  (λ e. ok (record h { cache = x.1 })))
                (targeted_update s m) err)
            (sym same)
          ∙ e)
