-- ===== src/Server/Broker/Delivery.antt =====
-- What a client gets of the broadcasts: its buffer, and the events that it reads.
use wingstation.Prelude.{
  Str, Bool, true, false, List, [], ◌∷◌, ◌++◌, if◌then◌else◌, length, if_both, ltb, take, map, ℕ,
  zero, suc, ◌≡◌, refl, ◌∙◌, ap, All, append_assoc, append-nil, arith,
}
use wingstation.Prelude.Int.{ℤ}
use wingstation.Go.Result.{Result, ok, err, and_then}
use wingstation.Server.Events.{event_text, client_stream}
use wingstation.Server.Events.Decode.{decode_stream}
use wingstation.Server.Events.RoundTrip.{IsSendable, decode-client_stream}
use wingstation.Server.Broker.{Channel, Broker, capacity, subscribe, each, deliver, broadcast}
use wingstation.Server.Broker.Reach.{IsSound, Reachable, Reachable-IsSound, deliver-IsSound}

-- Broadcasts one after the other.
unfoldable pub broadcast_all : List (Str × Str) → Broker → Result Broker
broadcast_all [] b = ok b
broadcast_all ((name, payload) ∷ es) b = and_then (broadcast name payload b) (broadcast_all es) err

abbrev pub texts : List (Str × Str) → List Str
texts = map (λ e. event_text e.0 e.1)

-- The channel of a client that has read nothing, after the messages.
abbrev pub unread : List Str → Channel
unread msgs = record { buffer = take capacity msgs; closed = false; registered = true }

take-nil : (n : ℕ) → take {A = Str} n [] ≡ []
take-nil zero = refl
take-nil (suc n) = refl

take-snoc :
    (n : ℕ) (ms : List Str) (m : Str)
    → (if ltb (length (take n ms)) n then take n ms ++ m ∷ [] else take n ms)
      ≡ take n (ms ++ m ∷ [])
take-snoc zero ms m = ground arith
take-snoc (suc n) [] m = ground (arith, take-nil n)
take-snoc (suc n) (x ∷ ms) m = ground (arith, take-snoc n ms m)

deliver-unread : (m : Str) (ms : List Str) → deliver m (unread ms) ≡ ok (unread (ms ++ m ∷ []))
unfolding deliver
deliver-unread m ms =
    if_both (ltb (length (take capacity ms)) capacity)
      (λ bs. ok (record { buffer = bs; closed = false; registered = true })) refl refl
    ∙ ap (λ bs. ok (record { buffer = bs; closed = false; registered = true }))
        (take-snoc capacity ms m)

-- A delivery to sound channels and a last one.
each-last :
    (msg : Str) (ch d : Channel) (chs : List Channel)
    → deliver msg ch ≡ ok d
    → All IsSound chs
    → (ds : List Channel) × (each (deliver msg) (chs ++ ch ∷ []) ≡ ok (ds ++ d ∷ []))
      × All IsSound ds
unfolding each
each-last msg ch d [] h s = rw h ([], refl, tt)
each-last msg ch d (x ∷ chs) h (p, s) =
    let (y, e, q) = deliver-IsSound msg x p in
    let (ds, es, qs) = each-last msg ch d chs h s in rw (e, es) (y ∷ ds, refl, (q, qs))

-- The broker whose last channel is that of the client.
abbrev pub with_client : List Channel → List Str → Bool → Broker
with_client chs msgs stopped = record { channels = chs ++ unread msgs ∷ []; stopped = stopped }

broadcast_all-unread :
    (es : List (Str × Str)) (chs : List Channel) (msgs : List Str) (stopped : Bool)
    → All IsSound chs
    → (ds : List Channel) × (broadcast_all es (with_client chs msgs stopped)
        ≡ ok (with_client ds (msgs ++ texts es) stopped))
unfolding broadcast_all broadcast
broadcast_all-unread [] chs msgs stopped s = (chs, rw (append-nil msgs) refl)
broadcast_all-unread ((name, payload) ∷ es) chs msgs stopped s =
    let msg = event_text name payload in
    let (ds, e, q) =
      each-last msg (unread msgs) (unread (msgs ++ msg ∷ [])) chs (deliver-unread msg msgs) s in
    let (cs, more) = broadcast_all-unread es ds (msgs ++ msg ∷ []) stopped q in
    rw e (
      cs,
      more ∙ ap (λ ms. ok (with_client cs ms stopped)) (append_assoc msgs (msg ∷ []) (texts es)),
    )

take-map : (n : ℕ) (es : List (Str × Str)) → take n (texts es) ≡ texts (take n es)
take-map zero es = refl
take-map (suc n) [] = refl
take-map (suc n) (e ∷ es) = ap (event_text e.0 e.1 ∷◌) (take-map n es)

take-All : (n : ℕ) (es : List (Str × Str)) → All IsSendable es → All IsSendable (take n es)
take-All zero es h = tt
take-All (suc n) [] h = tt
take-All (suc n) (e ∷ es) (s, h) = (s, take-All n es h)

-- A client that subscribes at any moment of a run, and does not read while events are broadcast,
-- gets them up to the capacity of its channel: a browser reads from what is then written to it
-- exactly the first sixteen events, in their order, if each has a name on one line and data
-- without a carriage return.
pub subscribe-delivery :
    (b : Broker) (retry : ℤ) (es : List (Str × Str))
    → Reachable b
    → All IsSendable es
    → (ds : List Channel) × (ch : Channel) × (broadcast_all es (subscribe b).1
        ≡ ok (record { channels = ds ++ ch ∷ []; stopped = b.stopped }))
      × (decode_stream (client_stream retry ch.buffer) ≡ take capacity es)
unfolding subscribe
subscribe-delivery b retry es r h =
    let (ds, e) = broadcast_all-unread es b.channels [] b.stopped (Reachable-IsSound r) in
    (
      ds,
      unread (texts es),
      e,
      ap (λ ms. decode_stream (client_stream retry ms)) (take-map capacity es)
          ∙ decode-client_stream retry (take capacity es) (take-All capacity es h),
    )
