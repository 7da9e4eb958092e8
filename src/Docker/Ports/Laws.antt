-- ===== src/Docker/Ports/Laws.antt =====
-- The loop over the ports (internal/docker/models.go) against a filter of the first ports.
use wingstation.Prelude.{
  subst, Str, str_eq, str_eq_iff, Bool, true, false, not, ◌&&◌, List, [], ◌∷◌, ◌≡◌, refl, sym, ◌∙◌,
  ap, ◌==◌, arith, any, filter, filter-filter, filter-cong, filter_all, map, Bool-cases, inl, inr,
  All, All-filter, if◌then◌else◌,
}
use wingstation.Go.Strings.Cut.{Lacks}
use wingstation.Docker.Ports.Key.{same_port, str_eq-port_key}
use wingstation.Docker.Ports.{ApiPort, port_key, port_mapping, port_mappings}

-- The first of the ports with each key.
first_keys : List ApiPort → List ApiPort
first_keys [] = []
first_keys (p ∷ ps) = p ∷ filter (λ q. not (str_eq (port_key q) (port_key p))) (first_keys ps)

abbrev pub is_exposed : ApiPort → Bool
is_exposed p = not (p.public_port == 0)

abbrev is_new : List Str → ApiPort → Bool
is_new seen q = not (any (str_eq (port_key q)) seen)

-- A port whose key was seen takes nothing more away with it.
is_new-seen :
    (seen : List Str) (p q : ApiPort)
    → any (str_eq (port_key p)) seen ≡ true
    → (not (str_eq (port_key q) (port_key p)) && is_new seen q) ≡ is_new seen q
is_new-seen seen p q h = elim (Bool-cases (str_eq (port_key q) (port_key p))) [
  | inl e ↦
      let same : any (str_eq (port_key q)) seen ≡ true =
        subst (λ k. any (str_eq k) seen ≡ true) (sym ((str_eq_iff (port_key q) (port_key p)).0 e))
          h in
      rw (e, same)
  | inr e ↦ rw e
]

is_new-cons :
    (seen : List Str) (p q : ApiPort)
    → is_new (port_key p ∷ seen) q ≡ (not (str_eq (port_key q) (port_key p)) && is_new seen q)
unfolding any
is_new-cons seen p q = ground arith

module _ (seen : List Str) (p : ApiPort) (ps : List ApiPort) where
  first_keys_seen :
      any (str_eq (port_key p)) seen ≡ true
      → filter (is_new seen) (first_keys (p ∷ ps)) ≡ filter (is_new seen) (first_keys ps)
  unfolding first_keys filter
  first_keys_seen h =
      let drop : is_new seen p ≡ false = rw h in
      rw drop (
        filter-filter (is_new seen) (λ q. not (str_eq (port_key q) (port_key p))) (first_keys ps)
        ∙ filter-cong _ _ (λ q. is_new-seen seen p q h) (first_keys ps))

  first_keys_new :
      any (str_eq (port_key p)) seen ≡ false
      → filter (is_new seen) (first_keys (p ∷ ps))
        ≡ p ∷ filter (is_new (port_key p ∷ seen)) (first_keys ps)
  unfolding first_keys filter
  first_keys_new h =
      let keep : is_new seen p ≡ true = rw h in
      rw keep (
        ap (◌∷◌ p) (
          filter-filter (is_new seen) (λ q. not (str_eq (port_key q) (port_key p))) (first_keys ps)
          ∙ filter-cong _ _ (λ q. sym (is_new-cons seen p q)) (first_keys ps)))

port_mappings-seen :
    (seen : List Str) (ps : List ApiPort)
    → port_mappings seen ps
      ≡ map port_mapping (filter (is_new seen) (first_keys (filter is_exposed ps)))
unfolding port_mappings filter
port_mappings-seen seen [] = unfold first_keys in refl
port_mappings-seen seen (p ∷ ps) = elim (Bool-cases (p.public_port == 0)) [
  | inl closed ↦ rw closed (port_mappings-seen seen ps)
  | inr exposed ↦ elim (Bool-cases (any (str_eq (port_key p)) seen)) [
    | inl old ↦
        rw (exposed, old, first_keys_seen seen p (filter is_exposed ps) old)
          (port_mappings-seen seen ps)
    | inr new ↦
        rw (exposed, new, first_keys_new seen p (filter is_exposed ps) new)
          (ap (◌∷◌ (port_mapping p)) (port_mappings-seen (port_key p ∷ seen) ps))
  ]
]

-- The first of the ports with each combination of an address, two numbers and a protocol.
pub firsts : List ApiPort → List ApiPort
firsts [] = []
firsts (p ∷ ps) = p ∷ filter (λ q. not (same_port q p)) (firsts ps)

abbrev HasPlainProtocol : ApiPort → Type 0
HasPlainProtocol p = Lacks b':' p.protocol

firsts-All : (ps : List ApiPort) → All HasPlainProtocol ps → All HasPlainProtocol (firsts ps)
unfolding firsts
firsts-All [] h = tt
firsts-All (p ∷ ps) (n, h) =
    (n, All-filter HasPlainProtocol (λ q. not (same_port q p)) (firsts ps) (firsts-All ps h))

filter-port_key :
    (p : ApiPort) (qs : List ApiPort)
    → HasPlainProtocol p
    → All HasPlainProtocol qs
    → filter (λ q. not (str_eq (port_key q) (port_key p))) qs ≡ filter (λ q. not (same_port q p)) qs
unfolding filter
filter-port_key p [] n h = refl
filter-port_key p (q ∷ qs) n (m, h) =
    let rest = filter-port_key p qs n h in
    let same = str_eq-port_key q p m n in λ i. if not (same i) then q ∷ rest i else rest i

first_keys-firsts : (ps : List ApiPort) → All HasPlainProtocol ps → first_keys ps ≡ firsts ps
unfolding first_keys firsts
first_keys-firsts [] h = refl
first_keys-firsts (p ∷ ps) (n, h) =
    ap (λ l. p ∷ filter (λ q. not (str_eq (port_key q) (port_key p))) l) (first_keys-firsts ps h)
    ∙ ap (◌∷◌ p) (filter-port_key p (firsts ps) n (firsts-All ps h))

-- `ContainerFromAPI` shows each exposed port once, in the order of the API: the first port with
-- each combination of an address, a public port, a private port and a protocol, and none without a
-- public port, if no protocol has a colon.
pub port_mappings-firsts :
    (ps : List ApiPort)
    → All (λ p. Lacks b':' p.protocol) ps
    → port_mappings [] ps ≡ map port_mapping (firsts (filter is_exposed ps))
unfolding any
port_mappings-firsts ps h =
    port_mappings-seen [] ps
    ∙ ap (map port_mapping) (
        filter_all _ (λ q. refl) _
        ∙ first_keys-firsts (filter is_exposed ps) (All-filter HasPlainProtocol is_exposed ps h))
