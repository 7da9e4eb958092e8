-- ===== src/Docker/Labels/Priority.antt =====
-- The priority label of a container.
use wingstation.Prelude.{Str, bytes, List, some, none, ◌≡◌, true, ap}
use wingstation.Prelude.Int.{ℤ, pos}
use wingstation.Go.Strings.{Unicode}
use wingstation.Go.Strconv.{itoa_ℤ}
use wingstation.Go.Strconv.RoundTrip.{in_range, atoi-itoa_ℤ}
use wingstation.Go.Map.{HasDistinctKeys}
use wingstation.Docker.Labels.{parse_labels}
use wingstation.Docker.Labels.Laws.{label, labels_by_key, parse_labels-by_key}

-- For a map with distinct keys whose priority label is the decimal text of a number of 64 bits,
-- with a sign if it is negative, `ParseLabels` gives this priority.
pub parse_labels-itoa_ℤ :
    (u : Unicode) (m : List (Str × Str)) (z : ℤ)
    → HasDistinctKeys m
    → label (bytes "priority") m ≡ some (itoa_ℤ z)
    → in_range z ≡ true
    → (parse_labels u m).priority ≡ z
unfolding labels_by_key
parse_labels-itoa_ℤ u m z distinct given h =
    rw (parse_labels-by_key u m distinct, given)
      (ap (λ o. elim o [ none ↦ pos 50 | some n ↦ n ]) (atoi-itoa_ℤ z h))
