-- ===== src/Service/Listing/Visible.antt =====
-- What the daemon's answer to a listing becomes.
use wingstation.Prelude.{
  Bool, false, not, List, [], ◌∷◌, ◌≡◌, subst, ◌∙◌, refl, sym, ap, ap₂, map, if◌then◌else◌, ℕ,
  filter, All, length, ltb, arith, ◌≤◌, Bool-cases, inl, inr,
}
use wingstation.Prelude.Int.{ℤ}
use wingstation.Go.Strings.{Unicode}
use wingstation.Go.Result.{ok, ok-injective, and_then-ok}
use wingstation.Docker.Labels.{parse_labels}
use wingstation.Docker.Models.{Container, ApiContainer, container_from_api}
use wingstation.Service.Listing.{visible}

abbrev pub IsVisible : Container → Type 0
IsVisible c = c.labels.hide ≡ false

-- The id is long enough to be cut.
abbrev pub HasLongId : ℤ × ApiContainer → Type 0
HasLongId (now, c) = 12 ≤ length c.id

abbrev pub is_shown : Unicode → ℤ × ApiContainer → Bool
is_shown u (now, c) = not (parse_labels u c.labels).hide

-- What the listing ought to be: none is hidden, and the ids are those of the containers whose
-- labels do not hide them, in the order of the daemon.
pub record IsListing (u : Unicode) (cs : List (ℤ × ApiContainer)) (ds : List Container)
    : Type 0 where
  pub all_visible : All IsVisible ds
  pub same_ids : map (λ d. d.id) ds ≡ map (λ c. c.1.id) (filter (is_shown u) cs)

not_short : (n : ℕ) → 12 ≤ n → ltb n 12 ≡ false
not_short n h = ground arith

converted :
    (u : Unicode) (now : ℤ) (c : ApiContainer)
    → 12 ≤ length c.id
    → (d : Container) × (container_from_api u now c ≡ ok d)
      × (d.id ≡ c.id)
      × (d.labels ≡ parse_labels u c.labels)
unfolding container_from_api
converted u now c h = rw (not_short (length c.id) h) (_, refl, refl, refl)

-- One more container in front of a listing.
IsListing-cons :
    (u : Unicode) (now : ℤ) (c : ApiContainer) (cs : List (ℤ × ApiContainer)) (d : Container)
    (ds : List Container)
    → d.id ≡ c.id
    → d.labels ≡ parse_labels u c.labels
    → IsListing u cs ds
    → (es : List Container) × ((if not d.labels.hide then ok (d ∷ ds) else ok ds) ≡ ok es)
      × IsListing u ((now, c) ∷ cs) es
unfolding filter
IsListing-cons u now c cs d ds ei el p = elim (Bool-cases d.labels.hide) [
  | inl hidden ↦ (
    ds,
    ap (λ b. if not b then ok (d ∷ ds) else ok ds) hidden,
    record {
      all_visible = p.all_visible;
      same_ids = rw (sym (ap (λ w. w.hide) el), hidden) p.same_ids;
    },
  )
  | inr shown ↦ (
    d ∷ ds,
    ap (λ b. if not b then ok (d ∷ ds) else ok ds) shown,
    record {
      all_visible = (shown, p.all_visible);
      same_ids = rw (sym (ap (λ w. w.hide) el), shown) (ap₂ ◌∷◌ ei p.same_ids);
    },
  )
]

-- Where all ids have at least twelve bytes, the conversion of an answer succeeds, and gives
-- containers of which none is hidden, with the ids of the answer's containers whose labels do not
-- hide them, in the order of the daemon.
pub visible-IsListing :
    (u : Unicode) (cs : List (ℤ × ApiContainer))
    → All HasLongId cs
    → (ds : List Container) × (visible u cs ≡ ok ds) × IsListing u cs ds
unfolding visible filter
visible-IsListing u [] h = ([], refl, record { all_visible = tt; same_ids = refl })
visible-IsListing u ((now, c) ∷ cs) (l, h) =
    let (d, e, ei, el) = converted u now c l in
    let (ds, es, p) = visible-IsListing u cs h in
    rw (e, es) (IsListing-cons u now c cs d ds ei el p)

IsVisible-cons :
    (d : Container) (rest ds : List Container)
    → All IsVisible rest
    → (if not d.labels.hide then ok (d ∷ rest) else ok rest) ≡ ok ds
    → All IsVisible ds
IsVisible-cons d rest ds v h = elim (Bool-cases d.labels.hide) [
  | inl hidden ↦
      subst (All IsVisible)
        (ok-injective rest ds (sym (ap (λ b. if not b then ok (d ∷ rest) else ok rest) hidden) ∙ h))
        v
  | inr shown ↦
      subst (All IsVisible)
        (ok-injective (d ∷ rest) ds
          (sym (ap (λ b. if not b then ok (d ∷ rest) else ok rest) shown) ∙ h))
        (shown, v)
]

-- Whatever the ids, no hidden container comes out of an answer.
pub visible-IsVisible :
    (u : Unicode) (cs : List (ℤ × ApiContainer)) (ds : List Container)
    → visible u cs ≡ ok ds
    → All IsVisible ds
unfolding visible
visible-IsVisible u [] ds h = subst (All IsVisible) (ok-injective [] ds h) tt
visible-IsVisible u ((now, c) ∷ cs) ds h =
    let (d, converts, more) = and_then-ok (container_from_api u now c) _ (λ e. e) ds h in
    let (rest, follows, chosen) = and_then-ok (visible u cs) _ (λ e. e) ds more in
    IsVisible-cons d rest ds (visible-IsVisible u cs rest follows) chosen
