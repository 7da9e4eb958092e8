-- ===== src/Server/Broker/Reach.antt =====
-- The broker (internal/server/sse.go) over any run: its steps, what they can reach, and the
-- invariant of its channels.
use wingstation.Prelude.{
  Str, Bool, true, false, ◌&&◌, List, [], ◌∷◌, ◌++◌, if◌then◌else◌, length, ltb, ℕ, zero, suc, ◌≡◌,
  ◌≢◌, ◌≤◌, refl, All, All-append, not_both, subst, sym, ◌∙◌, All-imp, arith, length-append,
  Bool-cases, inl, inr,
}
use wingstation.Go.Result.{Result, ok, ok-injective, panic}
use wingstation.Server.Events.{event_text}
use wingstation.Server.Broker.{
  Channel, Broker, capacity, new_broker, at_place, subscribe, unsubscribe, each, deliver, broadcast,
  shut, stop_broker, without_first, receive,
}

-- A channel in the map is open, and its buffer keeps its bound.
pub record IsSound (ch : Channel) : Type 0 where
  pub is_open : (ch.registered && ch.closed) ≡ false
  pub bounded : length ch.buffer ≤ capacity

-- A method call, or a message taken by a handler.
pub data Step : Broker → Broker → Type 0 where
  subscribes : (b : Broker) → Step b (subscribe b).1
  unsubscribes : (b : Broker) (i : ℕ) → Step b (unsubscribe i b)
  broadcasts : (b d : Broker) (name payload : Str) → broadcast name payload b ≡ ok d → Step b d
  stops : (b d : Broker) → stop_broker b ≡ ok d → Step b d
  receives : (b : Broker) (i : ℕ) → Step b (receive i b)

pub data Reachable : Broker → Type 0 where
  starts : Reachable new_broker
  steps : {b d : Broker} → Reachable b → Step b d → Reachable d

at_place-All :
    (P : Channel → Type 0) (i : ℕ) (f : Channel → Channel) (chs : List Channel)
    → ((ch : Channel) → P ch → P (f ch))
    → All P chs
    → All P (at_place i f chs)
unfolding at_place
at_place-All P i f [] g h = tt
at_place-All P zero f (ch ∷ chs) g (p, h) = (g ch p, h)
at_place-All P (suc i) f (ch ∷ chs) g (p, h) = (p, at_place-All P i f chs g h)

-- What succeeds on each sound channel, and leaves it sound, does so on all.
pub each-IsSound :
    (P : Channel → Type 0) (f : Channel → Result Channel) (chs : List Channel)
    → ((ch : Channel) → IsSound ch → (d : Channel) × (f ch ≡ ok d) × P d)
    → All IsSound chs
    → (ds : List Channel) × (each f chs ≡ ok ds) × All P ds
unfolding each
each-IsSound P f [] g h = ([], refl, tt)
each-IsSound P f (ch ∷ chs) g (s, h) =
    let (d, e, p) = g ch s in
    let (ds, es, ps) = each-IsSound P f chs g h in rw (e, es) (d ∷ ds, refl, (p, ps))

extended : Str → Channel → Channel
extended msg ch = record ch { buffer = ch.buffer ++ msg ∷ [] }

extended-bounded :
    (msg : Str) (ch : Channel)
    → ltb (length ch.buffer) capacity ≡ true
    → length (extended msg ch).buffer ≤ capacity
unfolding extended
extended-bounded msg ch h = ground (arith, length-append ch.buffer (msg ∷ []))

-- The cases of a delivery, by the three tests that it makes.
deliver_cases :
    (msg : Str) (ch : Channel) (listed closed room : Bool)
    → (listed && closed) ≡ false
    → (room ≡ true → IsSound (extended msg ch))
    → IsSound ch
    → (d : Channel) × ((if listed
          then if closed then panic else if room then ok (extended msg ch) else ok ch
          else ok ch)
        ≡ ok d)
      × IsSound d
deliver_cases msg ch false closed room n p s = (ch, refl, s)
deliver_cases msg ch true true room n p s = absurd (not_both true refl n)
deliver_cases msg ch true false true n p s = (extended msg ch, refl, p refl)
deliver_cases msg ch true false false n p s = (ch, refl, s)

pub deliver-IsSound :
    (msg : Str) (ch : Channel) → IsSound ch → (d : Channel) × (deliver msg ch ≡ ok d) × IsSound d
unfolding deliver extended
deliver-IsSound msg ch s =
    deliver_cases msg ch ch.registered ch.closed (ltb (length ch.buffer) capacity) s.is_open
      (λ room. record { is_open = s.is_open; bounded = extended-bounded msg ch room }) s

-- A channel that is out of the map, with a buffer in its bound.
pub record IsShut (ch : Channel) : Type 0 where
  pub unlisted : ch.registered ≡ false
  pub bounded : length ch.buffer ≤ capacity

IsShut-cases :
    (ch : Channel) (listed closed : Bool)
    → (listed && closed) ≡ false
    → (listed ≡ false → IsShut ch)
    → length ch.buffer ≤ capacity
    → (d : Channel) × ((if listed
          then if closed then panic else ok (record ch { closed = true; registered = false })
          else ok ch)
        ≡ ok d)
      × IsShut d
IsShut-cases ch false closed n p b = (ch, refl, p refl)
IsShut-cases ch true true n p b = absurd (not_both true refl n)
IsShut-cases ch true false n p b = (_, refl, record { unlisted = refl; bounded = b })

shut-IsShut : (ch : Channel) → IsSound ch → (d : Channel) × (shut ch ≡ ok d) × IsShut d
unfolding shut
shut-IsShut ch s =
    IsShut-cases ch ch.registered ch.closed s.is_open
      (λ n. record { unlisted = n; bounded = s.bounded }) s.bounded

without_first-bounded :
    (ms : List Str) → length ms ≤ capacity → length (elim ms [ [] ↦ [] | m ∷ ns ↦ ns ]) ≤ capacity
without_first-bounded [] h = h
without_first-bounded (m ∷ ms) h = omega arith

without_first-IsSound : (ch : Channel) → IsSound ch → IsSound (without_first ch)
without_first-IsSound ch s = record {
  is_open = s.is_open;
  bounded = without_first-bounded ch.buffer s.bounded;
}

IsShut-IsSound : (ch : Channel) → IsShut ch → IsSound ch
IsShut-IsSound ch s = record { is_open = rw s.unlisted refl; bounded = s.bounded }

broadcast-IsSound :
    (b : Broker) (name payload : Str)
    → All IsSound b.channels
    → (d : Broker) × (broadcast name payload b ≡ ok d) × All IsSound d.channels
unfolding broadcast
broadcast-IsSound b name payload h =
    let msg = event_text name payload in
    let (chs, e, s) = each-IsSound IsSound (deliver msg) b.channels (deliver-IsSound msg) h in
    rw e (_, refl, s)

stop_broker-IsShut :
    (b : Broker)
    → All IsSound b.channels
    → b.stopped ≡ false
    → (d : Broker) × (stop_broker b ≡ ok d) × (d.stopped ≡ true) × All IsShut d.channels
unfolding stop_broker
stop_broker-IsShut b h n =
    let (chs, e, s) = each-IsSound IsShut shut b.channels shut-IsShut h in
    rw (n, e) (_, refl, refl, s)

panic-ne-ok : {A : Type 0} (a : A) → panic ≢ ok a
panic-ne-ok a = λ p. cc

stop_broker_twice : (b : Broker) → b.stopped ≡ true → stop_broker b ≡ panic
unfolding stop_broker
stop_broker_twice b h = rw h refl

pub stopped-panics : (b d : Broker) → b.stopped ≡ true → stop_broker b ≢ ok d
stopped-panics b d h = λ e. panic-ne-ok d (sym (stop_broker_twice b h) ∙ e)

stop_broker-IsSound :
    (b d : Broker) → All IsSound b.channels → stop_broker b ≡ ok d → All IsSound d.channels
stop_broker-IsSound b d h e = elim (Bool-cases b.stopped) [
  | inl stopped ↦ absurd (stopped-panics b d stopped e)
  | inr running ↦
      let (c, f, _, s) = stop_broker-IsShut b h running in
      All-imp IsShut IsSound IsShut-IsSound d.channels
        (subst (λ x. All IsShut x.channels) (ok-injective c d (sym f ∙ e)) s)
]

Step-IsSound : {b d : Broker} → Step b d → All IsSound b.channels → All IsSound d.channels
unfolding subscribe unsubscribe receive
Step-IsSound (subscribes b) h =
    All-append IsSound b.channels _ h (record { is_open = refl; bounded = ground arith }, tt)
Step-IsSound (unsubscribes b i) h =
    at_place-All IsSound i _ b.channels (λ ch s. record { is_open = refl; bounded = s.bounded }) h
Step-IsSound (broadcasts b d name payload e) h =
    let (c, f, s) = broadcast-IsSound b name payload h in
    subst (λ x. All IsSound x.channels) (ok-injective c d (sym f ∙ e)) s
Step-IsSound (stops b d e) h = stop_broker-IsSound b d h e
Step-IsSound (receives b i) h =
    at_place-All IsSound i without_first b.channels without_first-IsSound h

-- At every moment of a run the channels in the broker's map are open, and no channel holds more
-- than sixteen messages.
pub Reachable-IsSound : {b : Broker} → Reachable b → All IsSound b.channels
Reachable-IsSound starts = tt
Reachable-IsSound (steps r s) = Step-IsSound s (Reachable-IsSound r)

-- At every moment of a run a broadcast ends without a panic: no send hits a closed channel.
pub broadcast-no_panic :
    (b : Broker) (name payload : Str)
    → Reachable b
    → (d : Broker) × (broadcast name payload b ≡ ok d)
broadcast-no_panic b name payload r =
    let (d, e, _) = broadcast-IsSound b name payload (Reachable-IsSound r) in (d, e)

-- At every moment of a run a broker that is not stopped can be stopped: no close hits a closed
-- channel, and no channel is left in the map. To stop it once more panics.
pub stop_broker_correct :
    (b : Broker)
    → Reachable b
    → b.stopped ≡ false
    → (d : Broker) × (stop_broker b ≡ ok d) × All IsShut d.channels × (stop_broker d ≡ panic)
stop_broker_correct b r n =
    let (d, e, stopped, s) = stop_broker-IsShut b (Reachable-IsSound r) n in
    (d, e, s, stop_broker_twice d stopped)
