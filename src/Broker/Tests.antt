-- ===== src/Broker/Tests.antt =====
-- Runs of the buses.
use sbd_drones_economics.Base.{
  ◌+◌, ◌≤◌, ◌<◌, true, false, none, some, List, [], ◌∷◌, ◌≡◌, refl, lookup,
}
use sbd_drones_economics.Broker.Requests.{
  Message, request_message, returned, sent, publishing, Table, empty, registers, publishes, wakes,
  times_out, gives_up, run, step, receives,
}
use sbd_drones_economics.Broker.Requests
use sbd_drones_economics.Broker.Requests.Invariant.{Answers}
use sbd_drones_economics.Broker.Requests.Settled.{MovesTo, run-MovesTo}
use sbd_drones_economics.Broker.Requests.Promise.{Received}
use sbd_drones_economics.Broker.Requests.Progress.{turns, left_of, next_action, request_ends}
use sbd_drones_economics.Broker.Transport.{history, acted, Returns, request-Answers}
use sbd_drones_economics.Broker.Mqtt.{client}
use sbd_drones_economics.Broker.Mqtt
use sbd_drones_economics.Broker.Mqtt.Events.{mqtt, on_message, open_request}
use sbd_drones_economics.Broker.Mqtt.Delivery.{on_message-own_request}
use sbd_drones_economics.Broker.Kafka
use sbd_drones_economics.Broker.Kafka.Events.{kafka}
use sbd_drones_economics.Broker.Kafka.Consumers.{subscribe-after_failure}

abbrev online : Mqtt.Network
online = record { reachable = true; serializable = true; accepted = true; reason = "" }

abbrev blank : Message
blank = record { correlation_id = none; reply_to = none; fields = [] }

abbrev answer : Message
answer = record { correlation_id = some "r1"; reply_to = none; fields = ("success", "true") ∷ [] }

abbrev exchange : List Mqtt.Events.Event
exchange =
    Mqtt.Events.requests "r1" online
    ∷ Mqtt.Events.publishes_request "r1" online
    ∷ Mqtt.Events.arrives "replies/c" (some answer)
    ∷ Mqtt.Events.continues (wakes "r1")
    ∷ []

unfoldable fresh_bus : Mqtt.Bus
unfolding Mqtt.new
fresh_bus = Mqtt.new "c"

unfoldable fresh_kafka : Kafka.Bus
unfolding Kafka.new
fresh_kafka = Kafka.new "c" "1"

exchange-Returns : Returns mqtt "r1" (some answer) (history mqtt exchange fresh_bus)
unfolding fresh_bus history mqtt Mqtt.Events.step Requests.is_waiting Requests.resolve
    Requests.is_publishing Requests.is_new Requests.published
exchange-Returns = refl

-- The same answer again, after the caller has it.
abbrev again : List Mqtt.Events.Event
again = Mqtt.Events.arrives "systems.operator" (some answer) ∷ Mqtt.Events.stops ∷ []

request-Answers_example :
    (Returns mqtt "r1" (some answer) (history mqtt again (history mqtt exchange fresh_bus))
      × (lookup "r1" (history mqtt again (history mqtt exchange fresh_bus)).table.pending ≡ none))
    × ((m : Message)
        → some answer ≡ some m
        → Answers "r1" m × Received m (acted mqtt exchange fresh_bus))
unfolding fresh_bus Mqtt.new mqtt
request-Answers_example =
    request-Answers mqtt exchange again fresh_bus "r1" (some answer) refl exchange-Returns

abbrev before : List Requests.Event
before = registers "r2" ∷ registers "r1" ∷ []

-- Two calls at once; the broker refuses the one and the other times out.
abbrev turmoil : List Requests.Event
turmoil = publishes "r2" Requests.refused ∷ publishes "r1" sent ∷ times_out "r1" ∷ []

unfoldable two_calls : Table
unfolding run step
two_calls = run before empty

request_ends_example :
    (turns "r1" turmoil two_calls + left_of "r1" (run turmoil two_calls) ≤ 3)
    × (0 < left_of "r1" (run turmoil two_calls)
        → (e : Requests.Event) × ((next_action "r1" sent
                (lookup "r1" (run turmoil two_calls).calls)
                (lookup "r1" (run turmoil two_calls).results)
              ≡ some e)
            × (left_of "r1" (step e (run turmoil two_calls))
                < left_of "r1" (run turmoil two_calls))))
unfolding two_calls Requests.is_new
request_ends_example = request_ends "r1" turmoil two_calls sent refl

run-MovesTo_example : MovesTo (run turmoil empty) (step (receives answer) (run turmoil empty))
run-MovesTo_example = run-MovesTo turmoil (receives answer)

unfoldable joined_bus : Mqtt.Bus
unfolding fresh_bus Mqtt.start
joined_bus = (Mqtt.start online fresh_bus).1

on_message-own_request_example :
    lookup "r1"
      (on_message "systems.operator"
        (some (request_message "r1" "replies/c" blank))
        (open_request "r1" online joined_bus)).table.results
    ≡ some (request_message "r1" "replies/c" blank)
unfolding joined_bus
on_message-own_request_example =
    on_message-own_request "systems.operator" "r1" online blank joined_bus refl refl refl

abbrev linked_up : Kafka.Network
linked_up = record { producible = true; consumable = true; acknowledged = true; reason = "" }

abbrev broken : Kafka.Network
broken = record { producible = true; consumable = false; acknowledged = true; reason = "" }

abbrev restart : List Kafka.Events.Event
restart =
    Kafka.Events.starts linked_up
    ∷ Kafka.Events.subscribes "t" (Kafka.client "f") linked_up
    ∷ Kafka.Events.polls "t" blank
    ∷ Kafka.Events.runs_task 0
    ∷ Kafka.Events.unsubscribes "t"
    ∷ []

stop-results_example :
    ((history kafka restart (Kafka.stop fresh_kafka)).delivered ≡ fresh_kafka.delivered)
    × ((history kafka restart (Kafka.stop fresh_kafka)).table.results ≡ fresh_kafka.table.results)
stop-results_example = Kafka.Delivery.stop-results restart fresh_kafka

abbrev retries : List Kafka.Events.Event
retries =
    Kafka.Events.starts linked_up
    ∷ Kafka.Events.subscribes "t" (Kafka.client "g") linked_up
    ∷ Kafka.Events.subscribes "u" (Kafka.client "f") linked_up
    ∷ Kafka.Events.unsubscribes "u"
    ∷ []

subscribe-after_failure_example :
    ((Kafka.subscribe "t" (Kafka.client "f") broken fresh_kafka).0 ≡ false)
    × (let after =
          history kafka retries (Kafka.subscribe "t" (Kafka.client "f") broken fresh_kafka).1 in
        (Kafka.subscribe "t" (Kafka.client "g") linked_up after ≡ (true, after))
        × (lookup "t" after.consumers ≡ none))
unfolding fresh_kafka Kafka.new
subscribe-after_failure_example =
    subscribe-after_failure "t" (Kafka.client "f") (Kafka.client "g") broken linked_up retries
      fresh_kafka refl refl refl (tt, (tt, (tt, (refl, tt))))
