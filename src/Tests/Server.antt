-- ===== src/Tests/Server.antt =====
-- The event streams at concrete events.
use wingstation.Prelude.{Str, bytes, List, [], ◌∷◌, refl, All, arith}
use wingstation.Server.Events.RoundTrip.{IsSendable}
use wingstation.Server.Broker.{Broker, new_broker, subscribe, unsubscribe}
use wingstation.Server.Broker.Reach.{
  Reachable, starts, steps, subscribes, unsubscribes, IsSound, Reachable-IsSound,
}

-- Two events, the first with two lines.
abbrev pub events : List (Str × Str)
events = (bytes "up", 97 ∷ 10 ∷ 98 ∷ []) ∷ (bytes "down", []) ∷ []

pub events-IsSendable : All IsSendable events
events-IsSendable =
    (((refl, (refl, tt)), omega arith), (((refl, (refl, (refl, (refl, tt)))), tt), tt))

-- Two clients, the first of which has left.
abbrev served : Broker
served = unsubscribe 0 (subscribe (subscribe new_broker).1).1

served-Reachable : Reachable served
served-Reachable =
    steps (steps (steps starts (subscribes new_broker)) (subscribes (subscribe new_broker).1))
      (unsubscribes (subscribe (subscribe new_broker).1).1 0)

Reachable-IsSound_example : All IsSound served.channels
Reachable-IsSound_example = Reachable-IsSound served-Reachable
