-- ===== src/Broker/Mqtt.antt =====
-- broker/mqtt/mqtt_system_bus.py: the bus over MQTT. The client library and the broker are the
-- arguments of each operation; what is sent is not recorded, nor are the events for the journal.
pub mod Events
pub mod Delivery
use sbd_drones_economics.Base.{
  String, ℕ, Bool, true, false, not, ◌&&◌, if◌then◌else◌, Option, none, some, List, [], ◌∷◌, ◌++◌,
  map, keep, ◌⊕◌, Dict, lookup, insert, erase, ◌==◌,
}
use sbd_drones_economics.Outcome.{Result, ok, err, Exception, connection_error, type_error}
use sbd_drones_economics.Outcome.Action.{Action, ◌>>◌}
use sbd_drones_economics.Broker.Requests.{
  Message, Published, sent, refused, raises, Table, empty, register,
}
use sbd_drones_economics.Broker.Dispatch.{Task, pick}

-- The callback of the reply topic does nothing; a client's callback is known by a name.
pub data Callback : Type 0 where
  ignore : Callback
  client : String → Callback

-- What the network does during a call: whether the broker can be reached, whether the message is
-- JSON, and whether the client library accepts the call.
pub record Network : Type 0 where
  pub reachable : Bool
  pub serializable : Bool
  pub accepted : Bool
  pub reason : String

pub record Bus : Type 0 where
  pub reply_topic : String
  pub callbacks : Dict Callback
  pub table : Table
  pub has_client : Bool
  pub connected : Bool
  pub started : Bool
  pub executor_open : Bool
  pub subscriptions : List String
  pub tasks : List (Task Callback)
  pub delivered : List (Task String)

-- `MQTTSystemBus(...)`
unfoldable pub new : String → Bus
new client_id = record {
  reply_topic = "replies/" ⊕ client_id;
  callbacks = [];
  table = empty;
  has_client = false;
  connected = false;
  started = false;
  executor_open = true;
  subscriptions = [];
  tasks = [];
  delivered = [];
}

-- `_on_connect`: the topics of all callbacks are subscribed again.
unfoldable pub on_connect : Bool → Bus → Bus
on_connect success b =
    if success
    then record b {
      connected = true;
      subscriptions = subscriptions ++ map (λ entry. entry.0) callbacks;
    }
    else record b { connected = false }
  where
    open b use {subscriptions, callbacks}

-- `_on_disconnect`; the broker forgets the subscriptions of a clean session.
unfoldable pub on_disconnect : Bus → Bus
on_disconnect b = record b { connected = false; subscriptions = [] }

unfoldable pub submit : Callback → Message → Bus → Bus
submit c m b = if b.executor_open then record b { tasks = b.tasks ++ (c, m) ∷ [] } else b

-- The callback of the topic, if any, is handed to the pool; a pool that is shut down raises, and
-- the message is dropped.
unfoldable pub dispatch : String → Message → Bus → Bus
unfolding submit
dispatch topic m b = elim (lookup topic b.callbacks) [ none ↦ b | some c ↦ submit c m b ]

-- `_safe_callback`
unfoldable pub safe_callback : Task Callback → Bus → Bus
safe_callback (ignore, m) b = b
safe_callback (client name, m) b = record b { delivered = b.delivered ++ (name, m) ∷ [] }

unfoldable pub run_task : ℕ → Bus → Bus
unfolding pick safe_callback
run_task n b = elim (pick n b.tasks) [
  | none ↦ b
  | some (task, others) ↦ safe_callback task (record b { tasks = others })
]

-- `shutdown(wait=True)` runs the tasks that wait.
unfoldable pub run_all : List (Task Callback) → Bus → Bus
unfolding safe_callback
run_all [] b = record b { tasks = [] }
run_all (task ∷ rest) b = run_all rest (safe_callback task b)

-- The part of `subscribe` that follows the start of the bus.
unfoldable pub add_callback : String → Callback → Bool → Bus → Bool × Bus
add_callback topic c accepted b =
    if b.has_client && b.connected
    then (
      accepted,
      record added {
        subscriptions = if accepted then b.subscriptions ++ topic ∷ [] else b.subscriptions;
      },
    )
    else (true, added)
  where
    added : Bus
    added = record b { callbacks = insert topic c b.callbacks }

start_error : Network → Exception
start_error n = connection_error ("Failed to start MQTT SystemBus: " ⊕ n.reason)

-- `start`, whose `subscribe` call on the reply topic starts nothing
unfoldable pub start : Network → Action Bus Unit
unfolding on_connect add_callback start_error
start n b =
    if b.started
    then (ok tt, b)
    else if n.reachable
    then (ok tt, record joined { started = true })
    else (err (start_error n), connecting)
  where
    connecting : Bus
    connecting = record b { has_client = true }

    joined : Bus
    joined = (add_callback b.reply_topic ignore n.accepted (on_connect true connecting)).1

-- `stop`
unfoldable pub stop : Bus → Bus
unfolding run_all
stop b = record (run_all b.tasks b) {
  callbacks = [];
  has_client = false;
  connected = false;
  started = false;
  executor_open = false;
  subscriptions = [];
}

-- The part of `publish` that follows the start of the bus: `json.dumps` raises outside of its `try`.
unfoldable pub send : Network → Action Bus Bool
send n b = (if n.serializable then ok n.accepted else err (type_error n.reason), b)

-- `publish`
unfoldable pub publish : Network → Action Bus Bool
unfolding start send
publish n = start n >> send n

unfoldable pub add : String → Callback → Network → Action Bus Bool
unfolding add_callback
add topic c n b = let (r, later) = add_callback topic c n.accepted b in (ok r, later)

-- `subscribe`: on the reply topic the bus is not started.
unfoldable pub subscribe : String → Callback → Network → Action Bus Bool
unfolding start add
subscribe topic c n b =
    if not b.started && not (topic == b.reply_topic)
    then (start n >> add topic c n) b
    else add topic c n b

-- `unsubscribe`
unfoldable pub unsubscribe : String → Network → Bus → Bool × Bus
unsubscribe topic n b = if b.has_client && b.connected then (n.accepted, left) else (true, removed)
  where
    removed : Bus
    removed = record b { callbacks = erase topic b.callbacks }

    left : Bus
    left =
        if n.accepted
        then record removed { subscriptions = keep (λ t. not (t == topic)) b.subscriptions }
        else removed
