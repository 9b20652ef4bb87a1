-- ===== src/Broker/Kafka.antt =====
-- broker/kafka/kafka_system_bus.py: the bus over Kafka. The client library and the broker are the
-- arguments of each operation; what is sent is not recorded. `subscribe`, `start` and `stop` are each
-- one step here, though they wait inside: no other call comes between their writes in this model.
pub mod Events
pub mod Consumers
pub mod Delivery
use sbd_drones_economics.Base.{
  String, ℕ, Bool, true, false, ◌||◌, ◌&&◌, if◌then◌else◌, Option, none, some, List, [], ◌∷◌, ◌++◌,
  Dict, lookup, insert, erase, is_some, ◌⊕◌,
}
use sbd_drones_economics.Outcome.{ok, err, connection_error}
use sbd_drones_economics.Outcome.Action.{Action, ◌>>◌}
use sbd_drones_economics.Broker.Requests.{Message, Table, empty}
use sbd_drones_economics.Broker.Requests
use sbd_drones_economics.Broker.Dispatch.{Task, pick}

-- The callback of the reply topic; a client's callback is known by a name.
pub data Callback : Type 0 where
  handle_reply : Callback
  client : String → Callback

-- What the network does during a call: whether a producer and whether a consumer can be made, and
-- whether the broker acknowledges the message.
pub record Network : Type 0 where
  pub producible : Bool
  pub consumable : Bool
  pub acknowledged : Bool
  pub reason : String

-- The thread of a topic keeps the callback that it found when it started.
pub record Bus : Type 0 where
  pub reply_topic : String
  pub callbacks : Dict Callback
  pub consumers : Dict (Unit {0})
  pub threads : Dict Callback
  pub running : Dict Bool
  pub table : Table
  pub has_producer : Bool
  pub started : Bool
  pub executor_open : Bool
  pub tasks : List (Task Callback)
  pub delivered : List (Task String)

-- `KafkaSystemBus(...)`, with `uuid4().hex[:8]`
unfoldable pub new : String → String → Bus
new client_id suffix = record {
  reply_topic = "replies." ⊕ client_id ⊕ "." ⊕ suffix;
  callbacks = [];
  consumers = [];
  threads = [];
  running = [];
  table = empty;
  has_producer = false;
  started = false;
  executor_open = true;
  tasks = [];
  delivered = [];
}

-- `_init_producer`
unfoldable pub init_producer : Network → Action Bus Unit
init_producer n b =
    if b.has_producer
    then (ok tt, b)
    else if n.producible
    then (ok tt, record b { has_producer = true })
    else (err (connection_error n.reason), b)

-- `subscribe`: the callback is kept also where no consumer can be made.
unfoldable pub subscribe : String → Callback → Network → Bus → Bool × Bus
subscribe topic c n b =
    if is_some (lookup topic b.callbacks)
    then (true, b)
    else if n.consumable
    then (
      true,
      record registered {
        consumers = insert topic tt b.consumers;
        running = insert topic true b.running;
        threads = insert topic c b.threads;
      },
    )
    else (false, registered)
  where
    registered : Bus
    registered = record b { callbacks = insert topic c b.callbacks }

-- `unsubscribe`
unfoldable pub unsubscribe : String → Bus → Bool × Bus
unsubscribe topic b = (
  true,
  record b {
    running = insert topic false b.running;
    threads = erase topic b.threads;
    callbacks = erase topic b.callbacks;
    consumers = erase topic b.consumers;
  },
)

-- The part of `start` that follows the producer: what `subscribe` returns is not looked at.
unfoldable pub join : Network → Action Bus Unit
unfolding subscribe
join n b = (ok tt, record joined { started = true })
  where
    joined : Bus
    joined = (subscribe b.reply_topic handle_reply n b).1

-- The part of `start` that follows its test of `_started`.
unfoldable pub connect : Network → Action Bus Unit
unfolding init_producer join
connect n = init_producer n >> join n

-- `start`
unfoldable pub start : Network → Action Bus Unit
unfolding connect
start n b = if b.started then (ok tt, b) else connect n b

-- `stop`: the producer is closed, but kept; tasks that wait are cancelled.
unfoldable pub stop : Bus → Bus
stop b = record b {
  callbacks = [];
  consumers = [];
  threads = [];
  running = [];
  started = false;
  executor_open = false;
  tasks = [];
}

-- The part of `publish` within its `try`.
unfoldable pub send : Network → Action Bus Bool
send n b = (ok n.acknowledged, b)

-- `publish`
unfoldable pub publish : Network → Action Bus Bool
unfolding init_producer send
publish n = init_producer n >> send n

unfoldable pub submit : Callback → Message → Bus → Bus
submit c m b = if b.executor_open then record b { tasks = b.tasks ++ (c, m) ∷ [] } else b

-- A record that `_consumer_loop` polls, while the topic runs.
unfoldable pub poll : String → Message → Bus → Bus
unfolding submit
poll topic m b = elim (lookup topic b.running) [
  | none ↦ b
  | some false ↦ b
  | some true ↦ elim (lookup topic b.threads) [ none ↦ b | some c ↦ submit c m b ]
]

-- `_safe_dispatch_callback`, with `_handle_reply` for the reply topic
unfoldable pub dispatch_callback : Task Callback → Bus → Bus
unfolding Requests.step
dispatch_callback (handle_reply, m) b = record b {
  table = Requests.step (Requests.receives m) b.table;
}
dispatch_callback (client name, m) b = record b { delivered = b.delivered ++ (name, m) ∷ [] }

unfoldable pub run_task : ℕ → Bus → Bus
unfolding pick dispatch_callback
run_task n b = elim (pick n b.tasks) [
  | none ↦ b
  | some (task, others) ↦ dispatch_callback task (record b { tasks = others })
]
