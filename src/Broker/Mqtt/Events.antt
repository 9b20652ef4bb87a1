-- ===== src/Broker/Mqtt/Events.antt =====
-- The bus over MQTT as a state machine: each event is what one thread does between two points at
-- which it waits.
use sbd_drones_economics.Base.{
  String, ℕ, Bool, true, false, not, ◌&&◌, ◌==◌, if◌then◌else◌, Option, none, some, List, [], ◌∷◌,
  lookup, ◌≡◌, refl, ◌∙◌, inl, inr, ap, arith, Bool-cases, Option-cases,
}
use sbd_drones_economics.Outcome.{Result, ok, err}
use sbd_drones_economics.Outcome.Action.{Action, ◌>>◌}
use sbd_drones_economics.Broker.Requests.{
  Message, Published, sent, refused, raises, Table, register, published, resolve, is_publishing,
  registers, publishes, receives, run,
}
use sbd_drones_economics.Broker.Requests
use sbd_drones_economics.Broker.Transport.{Transport}
use sbd_drones_economics.Broker.Dispatch.{Task, pick}
use sbd_drones_economics.Broker.Mqtt.{
  Bus, Network, Callback, ignore, client, on_connect, on_disconnect, submit, dispatch,
  safe_callback, run_task, run_all, add_callback, add, send, start, stop, publish, subscribe,
  unsubscribe,
}

-- A message whose JSON cannot be read is `none`. A message that answers a pending request goes to
-- its caller, whatever the topic; any other goes to the callback of its topic.
unfoldable pub on_message : String → Option Message → Bus → Bus
unfolding dispatch
on_message topic none b = b
on_message topic (some m) b = elim (resolve m b.table) [
  | none ↦ dispatch topic m b
  | some t ↦ record b { table = t }
]

unfoldable pub outcome : Result Bool → Published
outcome (ok true) = sent
outcome (ok false) = refused
outcome (err _) = raises

-- `request` up to its call of `publish`
unfoldable pub open_request : String → Network → Bus → Bus
unfolding start Requests.step
open_request id n b = elim (start n b).0 [
  | ok _ ↦
      let started = (start n b).1 in
      record started { table = Requests.step (registers id) started.table }
  | err _ ↦ (start n b).1
]

-- the call of `publish` in `request`, and what follows it up to the wait for the future
unfoldable pub publish_request : String → Network → Bus → Bus
unfolding publish outcome Requests.step
publish_request id n b =
    let (r, later) = publish n b in
    record later { table = Requests.step (publishes id (outcome r)) later.table }

pub data Event : Type 0 where
  starts connects_with : Network → Event
  stops disconnects : Event
  requests publishes_request : String → Network → Event
  continues : Requests.Event → Event
  arrives : String → Option Message → Event
  runs_task : ℕ → Event
  subscribes : String → Callback → Network → Event
  unsubscribes : String → Network → Event

-- What the threads of the callers do by themselves.
unfoldable pub is_own : Requests.Event → Bool
is_own (Requests.wakes _) = true
is_own (Requests.times_out _) = true
is_own (Requests.gives_up _) = true
is_own (registers _) = false
is_own (publishes _ _) = false
is_own (receives _) = false

unfoldable pub step : Event → Bus → Bus
unfolding start on_connect stop on_disconnect open_request publish_request on_message run_task
    subscribe unsubscribe is_own
step (starts n) b = (start n b).1
step (connects_with n) b = on_connect n.reachable b
step stops b = stop b
step disconnects b = on_disconnect b
step (requests id n) b = open_request id n b
step (publishes_request id n) b =
    if is_publishing (lookup id b.table.calls) then publish_request id n b else b
step (continues e) b = if is_own e then record b { table = Requests.step e b.table } else b
step (arrives topic payload) b = on_message topic payload b
step (runs_task n) b = run_task n b
step (subscribes topic c n) b = (subscribe topic c n b).1
step (unsubscribes topic n) b = (unsubscribe topic n b).1

-- The events of the requests that an event of the bus consists of.
unfoldable pub acts : Event → Bus → List Requests.Event
unfolding start publish outcome is_own
acts (starts n) b = []
acts (connects_with n) b = []
acts stops b = []
acts disconnects b = []
acts (requests id n) b = elim (start n b).0 [ ok _ ↦ registers id ∷ [] | err _ ↦ [] ]
acts (publishes_request id n) b =
    if is_publishing (lookup id b.table.calls)
    then publishes id (outcome (publish n b).0) ∷ []
    else []
acts (continues e) b = if is_own e then e ∷ [] else []
acts (arrives topic none) b = []
acts (arrives topic (some m)) b = receives m ∷ []
acts (runs_task n) b = []
acts (subscribes topic c n) b = []
acts (unsubscribes topic n) b = []

add_callback-table :
    (topic : String) (c : Callback) (a : Bool) (b : Bus)
    → (add_callback topic c a b).1.table ≡ b.table
unfolding add_callback
add_callback-table topic c a b = ground arith

pub start-table : (n : Network) (b : Bus) → (start n b).1.table ≡ b.table
unfolding start on_connect add_callback
start-table n b = ground arith

-- A call after a start keeps what both keep.
pub started_keeps :
    {A X : Type 0} (f : Bus → X) (r : Result Unit) (a b : Bus) (next : Action Bus A)
    → f a ≡ f b
    → ((c : Bus) → f (next c).1 ≡ f c)
    → f (((λ s. (r, a)) >> next) b).1 ≡ f b
started_keeps f (ok _) a b next first second = second a ∙ first
started_keeps f (err _) a b next first second = first

publish-table : (n : Network) (b : Bus) → (publish n b).1.table ≡ b.table
unfolding publish send
publish-table n b =
    started_keeps (λ c. c.table) (start n b).0 (start n b).1 b (send n) (start-table n b) λ c. refl

subscribe-table :
    (topic : String) (c : Callback) (n : Network) (b : Bus)
    → (subscribe topic c n b).1.table ≡ b.table
unfolding subscribe add
subscribe-table topic c n b = elim (Bool-cases (not b.started && not (topic == b.reply_topic))) [
  | inl e ↦
      rw (e, subscribe)
        (started_keeps (λ c. c.table) (start n b).0 (start n b).1 b (add topic c n)
          (start-table n b) λ a. add_callback-table topic c n.accepted a)
  | inr e ↦ rw (e, subscribe) (add_callback-table topic c n.accepted b)
]

safe_callback-table : (task : Task Callback) (b : Bus) → (safe_callback task b).table ≡ b.table
unfolding safe_callback
safe_callback-table (ignore, m) b = refl
safe_callback-table (client name, m) b = refl

run_all-table : (tasks : List (Task Callback)) (b : Bus) → (run_all tasks b).table ≡ b.table
unfolding run_all
run_all-table [] b = refl
run_all-table (task ∷ rest) b = run_all-table rest _ ∙ safe_callback-table task b

run_task-table : (n : ℕ) (b : Bus) → (run_task n b).table ≡ b.table
unfolding run_task
run_task-table n b = elim (Option-cases (pick n b.tasks)) [
  | inl e ↦ rw (e, run_task) refl
  | inr ((task, others), e) ↦
      rw (e, run_task) (safe_callback-table task (record b { tasks = others }))
]

open_request-table :
    (id : String) (n : Network) (b : Bus) (r : Result Unit)
    → (start n b).0 ≡ r
    → (open_request id n b).table ≡ run (acts (requests id n) b) b.table
unfolding open_request acts run
open_request-table id n b (ok _) e = rw (e, open_request, acts, start-table n b) refl
open_request-table id n b (err _) e = rw (e, open_request, acts) (start-table n b)

on_message-table :
    (topic : String) (m : Message) (b : Bus)
    → (on_message topic (some m) b).table ≡ Requests.step (receives m) b.table
unfolding on_message dispatch submit Requests.step
on_message-table topic m b = elim (Option-cases (resolve m b.table)) [
  | inr (t, e) ↦ rw (e, on_message, Requests.step) refl
  | inl e ↦ ground arith
]

pub step-acts : (e : Event) (b : Bus) → (step e b).table ≡ run (acts e b) b.table
unfolding step acts run on_connect on_disconnect stop unsubscribe publish_request
step-acts (starts n) b = start-table n b
step-acts (connects_with n) b = ground arith
step-acts stops b = run_all-table b.tasks b
step-acts disconnects b = refl
step-acts (requests id n) b = open_request-table id n b (start n b).0 refl
step-acts (publishes_request id n) b = elim (Bool-cases (is_publishing (lookup id b.table.calls))) [
  | inl e ↦
      rw (e, step, acts)
        (ap (Requests.step (publishes id (outcome (publish n b).0))) (publish-table n b))
  | inr e ↦ rw (e, step, acts) refl
]
step-acts (continues e) b = ground arith
step-acts (arrives topic none) b = refl
step-acts (arrives topic (some m)) b = on_message-table topic m b
step-acts (runs_task n) b = run_task-table n b
step-acts (subscribes topic c n) b = subscribe-table topic c n b
step-acts (unsubscribes topic n) b = ground arith

-- The bus over MQTT as a transport of requests.
unfoldable pub mqtt : Transport Bus Event
unfolding step acts
mqtt = record { table = λ b. b.table; step = step; acts = acts; step-table = step-acts }
