-- ===== src/Broker/Mqtt/Delivery.antt =====
-- Where the messages that arrive over MQTT end.
use sbd_drones_economics.Base.{
  String, ℕ, Bool, true, false, not, ◌&&◌, ◌==◌, none, some, List, [], ◌∷◌, lookup, ◌≡◌, refl, ◌∙◌,
  inl, inr, ap, arith, Bool-cases, lookup-insert_self,
}
use sbd_drones_economics.Outcome.{Result, ok, err}
use sbd_drones_economics.Broker.Requests.{
  Message, request_message, register, sought, settle, resolve, is_new, is_publishing, registers,
}
use sbd_drones_economics.Broker.Requests
use sbd_drones_economics.Broker.Transport.{history}
use sbd_drones_economics.Broker.Dispatch.{Task, pick}
use sbd_drones_economics.Broker.Mqtt.{
  Bus, Network, Callback, ignore, client, on_connect, on_disconnect, submit, dispatch,
  safe_callback, run_task, run_all, add_callback, add, send, start, stop, publish, subscribe,
  unsubscribe,
}
use sbd_drones_economics.Broker.Mqtt.Events.{
  Event, starts, connects_with, stops, disconnects, requests, publishes_request, continues, arrives,
  runs_task, subscribes, unsubscribes, on_message, open_request, publish_request, step, mqtt,
  started_keeps, start-table,
}

sought-request :
    (id r : String) (m : Message) → (id == "") ≡ false → sought (request_message id r m) ≡ some id
unfolding sought request_message
sought-request id r m named = rw named refl

start-started : (n : Network) (b : Bus) → b.started ≡ true → start n b ≡ (ok tt, b)
unfolding start
start-started n b e = ground arith

open_request-started :
    (id : String) (n : Network) (b : Bus)
    → b.started ≡ true
    → (id == "") ≡ false
    → lookup id b.table.calls ≡ none
    → (open_request id n b).table ≡ register id b.table
unfolding open_request Requests.step is_new
open_request-started id n b started named new =
    rw (open_request, start-started n b started)
      (ap (Requests.step (registers id)) (start-table n b) ∙ rw (named, new) refl)

resolve-pending :
    (id f : String) (m : Message) (t : Requests.Table)
    → sought m ≡ some id
    → lookup id t.pending ≡ some f
    → resolve m t ≡ some (settle id f m t)
unfolding resolve
resolve-pending id f m t s p = rw (s, p, resolve) refl

on_message-resolved :
    (topic : String) (m : Message) (b : Bus) (t : Requests.Table)
    → resolve m b.table ≡ some t
    → (on_message topic (some m) b).table ≡ t
unfolding on_message
on_message-resolved topic m b t e = rw (e, on_message) refl

-- A request that is received back answers itself: the bus takes any message that bears the id of a
-- pending request for its answer, on whatever topic it arrives, the request's own message too.
pub on_message-own_request :
    (topic id : String) (n : Network) (m : Message) (b : Bus)
    → b.started ≡ true
    → (id == "") ≡ false
    → lookup id b.table.calls ≡ none
    → lookup id
        (on_message topic
          (some (request_message id b.reply_topic m))
          (open_request id n b)).table.results
      ≡ some (request_message id b.reply_topic m)
unfolding register settle
on_message-own_request topic id n m b started named new =
    rw
      (on_message-resolved topic own (open_request id n b) (settle id id own (register id b.table))
        settled)
      (lookup-insert_self id own b.table.results)
  where
    own : Message
    own = request_message id b.reply_topic m

    settled :
        resolve own (open_request id n b).table ≡ some (settle id id own (register id b.table))
    settled = rw (open_request-started id n b started named new) (
        resolve-pending id id own (register id b.table) (sought-request id b.reply_topic m named)
          (lookup-insert_self id id b.table.pending))

-- What the pool of worker threads holds and has done.
abbrev pool : Bus → Bool × (List (Task Callback) × List (Task String))
pool b = (b.executor_open, (b.tasks, b.delivered))

add_callback-pool :
    (topic : String) (c : Callback) (a : Bool) (b : Bus)
    → pool (add_callback topic c a b).1 ≡ pool b
unfolding add_callback
add_callback-pool topic c a b = ground arith

start-pool : (n : Network) (b : Bus) → pool (start n b).1 ≡ pool b
unfolding start on_connect add_callback
start-pool n b = ground arith

safe_callback-shut :
    (task : Task Callback) (b : Bus) → (safe_callback task b).executor_open ≡ b.executor_open
unfolding safe_callback
safe_callback-shut (ignore, m) b = refl
safe_callback-shut (client name, m) b = refl

-- The pool is shut down and has nothing to run.
abbrev pub IsShut : Bus → Type 0
IsShut b = (b.executor_open ≡ false) × (b.tasks ≡ [])

run_all-tasks : (tasks : List (Task Callback)) (b : Bus) → (run_all tasks b).tasks ≡ []
unfolding run_all
run_all-tasks [] b = refl
run_all-tasks (task ∷ rest) b = run_all-tasks rest _

stop-IsShut : (b : Bus) → IsShut (stop b)
unfolding stop
stop-IsShut b = (refl, run_all-tasks b.tasks b)

-- A bus whose pool is shut keeps it shut, and calls nobody.
Silent : Bus → Bus → Type 0
Silent b c = IsShut c × (c.delivered ≡ b.delivered)

same_pool : (b c : Bus) → IsShut b → pool c ≡ pool b → Silent b c
unfolding Silent
same_pool b c (shut, idle) e =
    ((ap (λ p. p.0) e ∙ shut, ap (λ p. p.1.0) e ∙ idle), ap (λ p. p.1.1) e)

publish-pool : (n : Network) (b : Bus) → pool (publish n b).1 ≡ pool b
unfolding publish send
publish-pool n b =
    started_keeps pool (start n b).0 (start n b).1 b (send n) (start-pool n b) λ c. refl

subscribe-pool :
    (topic : String) (c : Callback) (n : Network) (b : Bus)
    → pool (subscribe topic c n b).1 ≡ pool b
unfolding subscribe add
subscribe-pool topic c n b = elim (Bool-cases (not b.started && not (topic == b.reply_topic))) [
  | inl e ↦
      rw (e, subscribe)
        (started_keeps pool (start n b).0 (start n b).1 b (add topic c n) (start-pool n b)
          λ a. add_callback-pool topic c n.accepted a)
  | inr e ↦ rw (e, subscribe) (add_callback-pool topic c n.accepted b)
]

open_request-pool :
    (id : String) (n : Network) (b : Bus) (r : Result Unit)
    → (start n b).0 ≡ r
    → pool (open_request id n b) ≡ pool b
unfolding open_request
open_request-pool id n b (ok _) e = rw (e, open_request) (start-pool n b)
open_request-pool id n b (err _) e = rw (e, open_request) (start-pool n b)

on_message-Silent :
    (topic : String) (m : Message) (b : Bus) → IsShut b → Silent b (on_message topic (some m) b)
unfolding on_message dispatch submit Silent
on_message-Silent topic m b h = ground arith

run_task-Silent : (n : ℕ) (b : Bus) → IsShut b → Silent b (run_task n b)
unfolding run_task Silent pick
run_task-Silent n b h = rw (run_task, h.1) (h, refl)

run_all-Silent : (b : Bus) → IsShut b → (run_all b.tasks b).delivered ≡ b.delivered
unfolding run_all
run_all-Silent b h = rw h.1 refl

step-Silent : (e : Event) (b : Bus) → IsShut b → Silent b (step e b)
unfolding step Silent on_connect on_disconnect unsubscribe stop publish_request on_message
step-Silent (starts n) b h = same_pool b (start n b).1 h (start-pool n b)
step-Silent (connects_with n) b h = ground arith
step-Silent stops b h = ((refl, run_all-tasks b.tasks b), run_all-Silent b h)
step-Silent disconnects b h = (h, refl)
step-Silent (requests id n) b h =
    same_pool b (open_request id n b) h (open_request-pool id n b (start n b).0 refl)
step-Silent (publishes_request id n) b h =
    elim (Bool-cases (is_publishing (lookup id b.table.calls))) [
      | inl e ↦ rw (e, step) (same_pool b (publish n b).1 h (publish-pool n b))
      | inr e ↦ rw (e, step) (h, refl)
    ]
step-Silent (continues e) b h = ground arith
step-Silent (arrives topic none) b h = (h, refl)
step-Silent (arrives topic (some m)) b h = on_message-Silent topic m b h
step-Silent (runs_task n) b h = run_task-Silent n b h
step-Silent (subscribes topic c n) b h =
    same_pool b (subscribe topic c n b).1 h (subscribe-pool topic c n b)
step-Silent (unsubscribes topic n) b h = ground arith

history-Silent : (es : List Event) (b : Bus) → IsShut b → Silent b (history mqtt es b)
unfolding history mqtt Silent
history-Silent [] b h = (h, refl)
history-Silent (e ∷ es) b h =
    let (shut, first) = step-Silent e b h in
    let (last, rest) = history-Silent es (step e b) shut in (last, rest ∙ first)

-- A bus that was stopped never calls a callback again, however it is started and subscribed anew.
stop-delivered :
    (es : List Event) (b : Bus) → (history mqtt es (stop b)).delivered ≡ (stop b).delivered
unfolding Silent
stop-delivered es b = (history-Silent es (stop b) (stop-IsShut b)).1
