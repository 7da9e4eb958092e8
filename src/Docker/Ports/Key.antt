-- ===== src/Docker/Ports/Key.antt =====
-- The key of a port (internal/docker/models.go) tells its parts.
use mathlib.Core.Option.{some-injective}
use wingstation.Prelude.{
  Str, bytes, str_eq, str_eq_iff, Bool, true, false, ◌&&◌, List, [], ◌∷◌, ◌++◌, ◌≡◌, ◌≢◌, refl, sym,
  ◌∙◌, ap, subst, All-append, ◌==◌, arith, ℕ, Bool-cases, inl, inr, not_both,
}
use wingstation.Go.Strings.Cut.{Lacks}
use wingstation.Go.Strconv.{itoa, unsigned}
use wingstation.Go.Strconv.RoundTrip.{unsigned-itoa, itoa-Lacks}
use wingstation.Docker.Ports.{ApiPort, port_key}

tail_of : {A : Type 0} (a b : A) (l m : List A) → a ∷ l ≡ b ∷ m → l ≡ m
tail_of a b l m e = cc

head_of : {A : Type 0} (a b : A) (l m : List A) → a ∷ l ≡ b ∷ m → a ≡ b
head_of a b l m e = cc

separator_stands : (b : ℕ) (xs ys : Str) → Lacks b (xs ++ b ∷ ys) → ⊥
separator_stands b [] ys (n, h) = n refl
separator_stands b (x ∷ xs) ys (n, h) = separator_stands b xs ys h

-- A text parts at the last of its separators in one way.
last_split :
    (b : ℕ) (xs ys zs ws : Str)
    → Lacks b ys
    → Lacks b ws
    → xs ++ b ∷ ys ≡ zs ++ b ∷ ws
    → (xs ≡ zs) × (ys ≡ ws)
last_split b [] ys [] ws h k e = (refl, tail_of b b ys ws e)
last_split b [] ys (z ∷ zs) ws h k e =
    absurd (separator_stands b zs ws (subst (Lacks b) (tail_of b z ys (zs ++ b ∷ ws) e) h))
last_split b (x ∷ xs) ys [] ws h k e =
    absurd (separator_stands b xs ys (subst (Lacks b) (sym (tail_of x b (xs ++ b ∷ ys) ws e)) k))
last_split b (x ∷ xs) ys (z ∷ zs) ws h k e =
    let (same, rest) = last_split b xs ys zs ws h k (tail_of x z _ _ e) in
    ((λ i. head_of x z (xs ++ b ∷ ys) (zs ++ b ∷ ws) e i ∷ same i), rest)

-- And at the first of them.
first_split :
    (b : ℕ) (xs ys zs ws : Str)
    → Lacks b xs
    → Lacks b zs
    → xs ++ b ∷ ys ≡ zs ++ b ∷ ws
    → (xs ≡ zs) × (ys ≡ ws)
first_split b [] ys [] ws h k e = (refl, tail_of b b ys ws e)
first_split b [] ys (z ∷ zs) ws h (n, k) e = absurd (n (sym (head_of b z ys (zs ++ b ∷ ws) e)))
first_split b (x ∷ xs) ys [] ws (n, h) k e = absurd (n (head_of x b (xs ++ b ∷ ys) ws e))
first_split b (x ∷ xs) ys (z ∷ zs) ws (n, h) (m, k) e =
    let (same, rest) = first_split b xs ys zs ws h k (tail_of x z _ _ e) in
    ((λ i. head_of x z (xs ++ b ∷ ys) (zs ++ b ∷ ws) e i ∷ same i), rest)

itoa_injective : (n m : ℕ) → itoa n ≡ itoa m → n ≡ m
itoa_injective n m e = some-injective n m (sym (unsigned-itoa n) ∙ ap unsigned e ∙ unsigned-itoa m)

-- The parts of the key behind the address.
abbrev ends : ApiPort → Str
ends p = itoa p.private_port ++ (b'/' ∷ p.protocol)

abbrev behind : ApiPort → Str
behind p = itoa p.public_port ++ (b'-' ∷ b'>' ∷ ends p)

behind-Lacks : (p : ApiPort) → Lacks b':' p.protocol → Lacks b':' (behind p)
behind-Lacks p h =
    All-append (λ c. c ≢ b':') (itoa p.public_port) _ (itoa-Lacks b':' p.public_port refl)
      (
        (λ e. omega (arith, e)),
        (
          (λ e. omega (arith, e)),
          All-append (λ c. c ≢ b':') (itoa p.private_port) _ (itoa-Lacks b':' p.private_port refl)
              ((λ e. omega (arith, e)), h),
        ),
      )

-- Two ports with one key agree in their address, their ports and their protocol, if no protocol
-- has a colon.
pub port_key_injective :
    (p q : ApiPort)
    → Lacks b':' p.protocol
    → Lacks b':' q.protocol
    → port_key p ≡ port_key q
    → (p.ip ≡ q.ip)
      × (p.public_port ≡ q.public_port)
      × (p.private_port ≡ q.private_port)
      × (p.protocol ≡ q.protocol)
unfolding port_key
port_key_injective p q h k e =
    let (ip, rest) =
      last_split b':' p.ip (behind p) q.ip (behind q) (behind-Lacks p h) (behind-Lacks q k) e in
    let (outside, more) =
      first_split b'-' (itoa p.public_port) (b'>' ∷ ends p) (itoa q.public_port) (b'>' ∷ ends q)
        (itoa-Lacks b'-' p.public_port refl) (itoa-Lacks b'-' q.public_port refl) rest in
    let (inside, protocol) =
      first_split b'/' (itoa p.private_port) p.protocol (itoa q.private_port) q.protocol
        (itoa-Lacks b'/' p.private_port refl) (itoa-Lacks b'/' q.private_port refl)
        (tail_of b'>' b'>' (ends p) (ends q) more) in
    (ip, itoa_injective _ _ outside, itoa_injective _ _ inside, protocol)

-- The ports agree in their address, their two numbers and their protocol.
pub same_port : ApiPort → ApiPort → Bool
same_port p q =
    str_eq p.ip q.ip
    && ((p.public_port == q.public_port)
        && ((p.private_port == q.private_port) && str_eq p.protocol q.protocol))

agree :
    (p q : ApiPort)
    → p.ip ≡ q.ip
    → p.public_port ≡ q.public_port
    → p.private_port ≡ q.private_port
    → p.protocol ≡ q.protocol
    → same_port p q ≡ true
unfolding same_port
agree p q a b c d =
    let x = (str_eq_iff p.ip q.ip).1 a in
    let y = (str_eq_iff p.protocol q.protocol).1 d in ground (arith, x, y, b, c)

all_four :
    (a b c d : Bool)
    → (a && (b && (c && d))) ≡ true
    → (a ≡ true) × (b ≡ true) × (c ≡ true) × (d ≡ true)
all_four true true true true h = (refl, refl, refl, refl)
all_four true true true false h = cc
all_four true true false d h = cc
all_four true false c d h = cc
all_four false b c d h = cc

same_number : (n m : ℕ) → (n == m) ≡ true → n ≡ m
same_number n m h = ground (arith, h)

same_key : (p q : ApiPort) → same_port p q ≡ true → port_key p ≡ port_key q
unfolding same_port port_key
same_key p q h =
    let (a, b, c, d) = all_four _ _ _ _ h in
    let ip = (str_eq_iff p.ip q.ip).0 a in
    let outside = same_number p.public_port q.public_port b in
    let inside = same_number p.private_port q.private_port c in
    let protocol = (str_eq_iff p.protocol q.protocol).0 d in
    λ i.
      ip i
      ++ (b':' ∷ (itoa (outside i) ++ (bytes "->" ++ (itoa (inside i) ++ (b'/' ∷ protocol i)))))

-- The keys of two ports are equal exactly if the ports agree.
pub str_eq-port_key :
    (p q : ApiPort)
    → Lacks b':' p.protocol
    → Lacks b':' q.protocol
    → str_eq (port_key p) (port_key q) ≡ same_port p q
str_eq-port_key p q h k = elim (Bool-cases (str_eq (port_key p) (port_key q))) [
  | inl e ↦
      let (a, b, c, d) = port_key_injective p q h k ((str_eq_iff (port_key p) (port_key q)).0 e) in
      e ∙ sym (agree p q a b c d)
  | inr e ↦ elim (Bool-cases (same_port p q)) [
    | inl s ↦ absurd (
        not_both (str_eq (port_key p) (port_key q))
          ((str_eq_iff (port_key p) (port_key q)).1 (same_key p q s)) e)
    | inr s ↦ e ∙ sym s
  ]
]
