-- ===== src/Broker/Kafka/Events.antt =====
-- The bus over Kafka as a state machine: each event is what one thread does between two points at
-- which it waits, but for `subscribe`, `start` and `stop`, each of which is one event.
use sbd_drones_economics.Base.{
  String, ℕ, Bool, true, false, if◌then◌else◌, none, some, List, [], ◌∷◌, lookup, ◌≡◌, refl, ◌∙◌,
  inl, inr, ap, arith, Bool-cases, Option-cases,
}
use sbd_drones_economics.Outcome.{Result, ok, err}
use sbd_drones_economics.Outcome.Action.{Action, ◌>>◌}
use sbd_drones_economics.Broker.Requests.{
  Message, Published, sent, refused, raises, is_publishing, registers, publishes, receives, run,
}
use sbd_drones_economics.Broker.Requests
use sbd_drones_economics.Broker.Transport.{Transport}
use sbd_drones_economics.Broker.Dispatch.{Task, pick}
use sbd_drones_economics.Broker.Kafka.{
  Bus, Network, Callback, handle_reply, client, init_producer, subscribe, unsubscribe, join,
  connect, start, stop, send, publish, submit, poll, dispatch_callback, run_task,
}

unfoldable pub outcome : Result Bool → Published
outcome (ok true) = sent
outcome (ok false) = refused
outcome (err _) = raises

-- `request` up to its call of `publish`
unfoldable pub open_request : String → Network → Bus → Bus
unfolding start Requests.step
open_request id n b = elim (start n b).0 [
  | ok _ ↦
      let started = (start n b).1 in
      record started { table = Requests.step (registers id) started.table }
  | err _ ↦ (start n b).1
]

-- the call of `publish` in `request`, and what follows it up to the wait for the future
unfoldable pub publish_request : String → Network → Bus → Bus
unfolding publish outcome Requests.step
publish_request id n b =
    let (r, later) = publish n b in
    record later { table = Requests.step (publishes id (outcome r)) later.table }

pub data Event : Type 0 where
  starts : Network → Event
  stops : Event
  requests publishes_request : String → Network → Event
  continues : Requests.Event → Event
  polls : String → Message → Event
  runs_task : ℕ → Event
  subscribes : String → Callback → Network → Event
  unsubscribes : String → Event

-- What the threads of the callers do by themselves.
unfoldable pub is_own : Requests.Event → Bool
is_own (Requests.wakes _) = true
is_own (Requests.times_out _) = true
is_own (Requests.gives_up _) = true
is_own (registers _) = false
is_own (publishes _ _) = false
is_own (receives _) = false

unfoldable pub step : Event → Bus → Bus
unfolding start stop open_request publish_request poll run_task subscribe unsubscribe is_own
step (starts n) b = (start n b).1
step stops b = stop b
step (requests id n) b = open_request id n b
step (publishes_request id n) b =
    if is_publishing (lookup id b.table.calls) then publish_request id n b else b
step (continues e) b = if is_own e then record b { table = Requests.step e b.table } else b
step (polls topic m) b = poll topic m b
step (runs_task n) b = run_task n b
step (subscribes topic c n) b = (subscribe topic c n b).1
step (unsubscribes topic) b = (unsubscribe topic b).1

-- The events of the requests that a task consists of.
unfoldable pub task_acts : Task Callback → List Requests.Event
task_acts (handle_reply, m) = receives m ∷ []
task_acts (client name, m) = []

-- The events of the requests that an event of the bus consists of.
unfoldable pub acts : Event → Bus → List Requests.Event
unfolding start publish outcome is_own pick task_acts
acts (starts n) b = []
acts stops b = []
acts (requests id n) b = elim (start n b).0 [ ok _ ↦ registers id ∷ [] | err _ ↦ [] ]
acts (publishes_request id n) b =
    if is_publishing (lookup id b.table.calls)
    then publishes id (outcome (publish n b).0) ∷ []
    else []
acts (continues e) b = if is_own e then e ∷ [] else []
acts (polls topic m) b = []
acts (runs_task n) b = elim (pick n b.tasks) [ none ↦ [] | some (task, _) ↦ task_acts task ]
acts (subscribes topic c n) b = []
acts (unsubscribes topic) b = []

pub if-both :
    {A : Type 0} (P : A → Type 0) (c : Bool) (x y : A) → P x → P y → P (if c then x else y)
if-both P true x y left right = left
if-both P false x y left right = right

-- What holds after both of two calls holds after the one and then the other.
pub then_holds :
    {A : Type 0} (P : Bus → Type 0) (r : Result Unit) (a b : Bus) (next : Action Bus A)
    → P a
    → ((c : Bus) → P c → P (next c).1)
    → P (((λ s. (r, a)) >> next) b).1
then_holds P (ok _) a b next first second = second a first
then_holds P (err _) a b next first second = first

-- A call after the producer is there keeps what both keep.
pub then_keeps :
    {A X : Type 0} (f : Bus → X) (r : Result Unit) (a b : Bus) (next : Action Bus A)
    → f a ≡ f b
    → ((c : Bus) → f (next c).1 ≡ f c)
    → f (((λ s. (r, a)) >> next) b).1 ≡ f b
then_keeps f (ok _) a b next first second = second a ∙ first
then_keeps f (err _) a b next first second = first

subscribe-table :
    (topic : String) (c : Callback) (n : Network) (b : Bus)
    → (subscribe topic c n b).1.table ≡ b.table
unfolding subscribe
subscribe-table topic c n b = ground arith

init_producer-table : (n : Network) (b : Bus) → (init_producer n b).1.table ≡ b.table
unfolding init_producer
init_producer-table n b = ground arith

join-table : (n : Network) (b : Bus) → (join n b).1.table ≡ b.table
unfolding join
join-table n b = subscribe-table b.reply_topic handle_reply n b

connect-table : (n : Network) (b : Bus) → (connect n b).1.table ≡ b.table
unfolding connect
connect-table n b =
    then_keeps (λ c. c.table) (init_producer n b).0 (init_producer n b).1 b (join n)
      (init_producer-table n b) (join-table n)

start-table : (n : Network) (b : Bus) → (start n b).1.table ≡ b.table
unfolding start
start-table n b =
    if-both (λ p. p.1.table ≡ b.table) b.started (ok tt, b) (connect n b) refl (connect-table n b)

publish-table : (n : Network) (b : Bus) → (publish n b).1.table ≡ b.table
unfolding publish send
publish-table n b =
    then_keeps (λ c. c.table) (init_producer n b).0 (init_producer n b).1 b (send n)
      (init_producer-table n b) λ c. refl

open_request-table :
    (id : String) (n : Network) (b : Bus) (r : Result Unit)
    → (start n b).0 ≡ r
    → (open_request id n b).table ≡ run (acts (requests id n) b) b.table
unfolding open_request acts run
open_request-table id n b (ok _) e = rw (e, open_request, acts, start-table n b) refl
open_request-table id n b (err _) e = rw (e, open_request, acts) (start-table n b)

task-table :
    (task : Task Callback) (b : Bus)
    → (dispatch_callback task b).table ≡ run (task_acts task) b.table
unfolding dispatch_callback task_acts run
task-table (handle_reply, m) b = refl
task-table (client name, m) b = refl

run_task-table : (n : ℕ) (b : Bus) → (run_task n b).table ≡ run (acts (runs_task n) b) b.table
unfolding run_task acts run
run_task-table n b = elim (Option-cases (pick n b.tasks)) [
  | inl e ↦ rw (e, run_task, acts) refl
  | inr ((task, others), e) ↦ rw (e, run_task, acts) (task-table task (record b { tasks = others }))
]

poll-table : (topic : String) (m : Message) (b : Bus) → (poll topic m b).table ≡ b.table
unfolding poll submit
poll-table topic m b = ground arith

pub step-acts : (e : Event) (b : Bus) → (step e b).table ≡ run (acts e b) b.table
unfolding step acts run stop unsubscribe publish_request
step-acts (starts n) b = start-table n b
step-acts stops b = refl
step-acts (requests id n) b = open_request-table id n b (start n b).0 refl
step-acts (publishes_request id n) b = elim (Bool-cases (is_publishing (lookup id b.table.calls))) [
  | inl e ↦
      rw (e, step, acts)
        (ap (Requests.step (publishes id (outcome (publish n b).0))) (publish-table n b))
  | inr e ↦ rw (e, step, acts) refl
]
step-acts (continues e) b = ground arith
step-acts (polls topic m) b = poll-table topic m b
step-acts (runs_task n) b = run_task-table n b
step-acts (subscribes topic c n) b = subscribe-table topic c n b
step-acts (unsubscribes topic) b = refl

-- The bus over Kafka as a transport of requests.
unfoldable pub kafka : Transport Bus Event
unfolding step acts
kafka = record { table = λ b. b.table; step = step; acts = acts; step-table = step-acts }
