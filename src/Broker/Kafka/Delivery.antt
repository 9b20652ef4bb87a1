-- ===== src/Broker/Kafka/Delivery.antt =====
-- What a bus over Kafka still delivers after it was stopped.
use sbd_drones_economics.Base.{
  String, ℕ, Bool, true, false, none, List, [], ◌∷◌, lookup, Dict, ◌≡◌, refl, ◌∙◌, inl, inr, ap,
  arith, Bool-cases,
}
use sbd_drones_economics.Outcome.{Result, ok, err}
use sbd_drones_economics.Broker.Requests.{
  Message, Table, Published, sent, refused, raises, wakes, times_out, gives_up, registers,
  publishes, receives, is_publishing, is_waiting, is_timing_out, register, published, wake,
  time_out, give_up,
}
use sbd_drones_economics.Broker.Requests
use sbd_drones_economics.Broker.Transport.{history}
use sbd_drones_economics.Broker.Dispatch.{Task, pick}
use sbd_drones_economics.Broker.Kafka.{
  Bus, Network, Callback, handle_reply, init_producer, subscribe, unsubscribe, join, connect, start,
  stop, send, publish, submit, poll, run_task,
}
use sbd_drones_economics.Broker.Kafka.Events.{
  Event, starts, stops, requests, publishes_request, continues, polls, runs_task, subscribes,
  unsubscribes, open_request, outcome, publish_request, is_own, step, kafka, then_keeps, if-both,
}

-- What the pool holds, and what it has done: answered requests and called callbacks.
abbrev Pool : Type 0
Pool = Bool × (List (Task Callback) × (Dict Message × List (Task String)))

abbrev pool : Bus → Pool
pool b = (b.executor_open, (b.tasks, (b.table.results, b.delivered)))

published-results :
    (id : String) (p : Published) (t : Table) → (published id p t).results ≡ t.results
unfolding published
published-results id sent t = refl
published-results id refused t = refl
published-results id raises t = refl

-- Only a received message sets a result.
unfoldable pub is_receipt : Requests.Event → Bool
is_receipt (receives _) = true
is_receipt (registers _) = false
is_receipt (publishes _ _) = false
is_receipt (wakes _) = false
is_receipt (times_out _) = false
is_receipt (gives_up _) = false

step-results :
    (e : Requests.Event) (t : Table)
    → is_receipt e ≡ false
    → (Requests.step e t).results ≡ t.results
unfolding is_receipt Requests.step register wake time_out give_up
step-results (receives m) t e = ground arith
step-results (registers id) t e = ground arith
step-results (publishes id p) t e =
    if-both (λ u. u.results ≡ t.results) (is_publishing (lookup id t.calls)) (published id p t) t
      (published-results id p t) refl
step-results (wakes id) t e = ground arith
step-results (times_out id) t e = ground arith
step-results (gives_up id) t e = ground arith

is_own-receipt : (e : Requests.Event) → is_own e ≡ true → is_receipt e ≡ false
unfolding is_own is_receipt
is_own-receipt e h = ground arith

subscribe-pool :
    (topic : String) (c : Callback) (n : Network) (b : Bus)
    → pool (subscribe topic c n b).1 ≡ pool b
unfolding subscribe
subscribe-pool topic c n b = ground arith

init_producer-pool : (n : Network) (b : Bus) → pool (init_producer n b).1 ≡ pool b
unfolding init_producer
init_producer-pool n b = ground arith

start-pool : (n : Network) (b : Bus) → pool (start n b).1 ≡ pool b
unfolding start connect join
start-pool n b =
    if-both (λ p. pool p.1 ≡ pool b) b.started (ok tt, b) (connect n b) refl
      (then_keeps pool (init_producer n b).0 (init_producer n b).1 b (join n)
        (init_producer-pool n b) λ c. subscribe-pool c.reply_topic handle_reply n c)

publish-pool : (n : Network) (b : Bus) → pool (publish n b).1 ≡ pool b
unfolding publish send
publish-pool n b =
    then_keeps pool (init_producer n b).0 (init_producer n b).1 b (send n) (init_producer-pool n b)
      λ c. refl

-- The table's results, replaced by equal ones.
results_pool :
    (b : Bus) (t : Table) → t.results ≡ b.table.results → pool (record b { table = t }) ≡ pool b
results_pool b t e = ap (λ r. (b.executor_open, (b.tasks, (r, b.delivered)))) e

open_request-pool :
    (id : String) (n : Network) (b : Bus) (r : Result Unit)
    → (start n b).0 ≡ r
    → pool (open_request id n b) ≡ pool b
unfolding open_request is_receipt
open_request-pool id n b (ok _) e =
    rw (e, open_request)
      (results_pool (start n b).1 (Requests.step (registers id) (start n b).1.table)
          (step-results (registers id) (start n b).1.table refl)
        ∙ start-pool n b)
open_request-pool id n b (err _) e = rw (e, open_request) (start-pool n b)

publish_request-pool :
    (id : String) (n : Network) (b : Bus) → pool (publish_request id n b) ≡ pool b
unfolding publish_request is_receipt
publish_request-pool id n b =
    results_pool (publish n b).1
      (Requests.step (publishes id (outcome (publish n b).0)) (publish n b).1.table)
      (step-results (publishes id (outcome (publish n b).0)) (publish n b).1.table refl)
    ∙ publish-pool n b

-- The pool is shut down and has nothing to run.
abbrev IsShut : Bus → Type 0
IsShut b = (b.executor_open ≡ false) × (b.tasks ≡ [])

abbrev Silent : Bus → Bus → Type 0
Silent b c = IsShut c × (pool c ≡ pool b)

same_pool : (b c : Bus) → IsShut b → pool c ≡ pool b → Silent b c
same_pool b c (shut, idle) e = ((ap (λ p. p.0) e ∙ shut, ap (λ p. p.1.0) e ∙ idle), e)

poll-pool :
    (topic : String) (m : Message) (b : Bus)
    → b.executor_open ≡ false
    → pool (poll topic m b) ≡ pool b
unfolding poll submit
poll-pool topic m b h = ground arith

run_task-pool : (n : ℕ) (b : Bus) → b.tasks ≡ [] → pool (run_task n b) ≡ pool b
unfolding run_task pick
run_task-pool n b h = rw (pick-idle, run_task) refl
  where
    pick-idle : pick n b.tasks ≡ none
    pick-idle = rw h refl

stop-pool : (b : Bus) → IsShut b → pool (stop b) ≡ pool b
unfolding stop
stop-pool b (shut, idle) = rw (shut, idle) refl

step-pool : (e : Event) (b : Bus) → IsShut b → pool (step e b) ≡ pool b
unfolding step unsubscribe
step-pool (starts n) b h = start-pool n b
step-pool stops b h = stop-pool b h
step-pool (requests id n) b h = open_request-pool id n b (start n b).0 refl
step-pool (publishes_request id n) b h =
    if-both (λ c. pool c ≡ pool b) (is_publishing (lookup id b.table.calls))
      (publish_request id n b) b (publish_request-pool id n b) refl
step-pool (continues e) b h = elim (Bool-cases (is_own e)) [
  | inl own ↦
      rw (step, own)
        (results_pool b (Requests.step e b.table) (step-results e b.table (is_own-receipt e own)))
  | inr other ↦ rw (step, other) refl
]
step-pool (polls topic m) b h = poll-pool topic m b h.0
step-pool (runs_task n) b h = run_task-pool n b h.1
step-pool (subscribes topic c n) b h = subscribe-pool topic c n b
step-pool (unsubscribes topic) b h = refl

history-pool : (es : List Event) (b : Bus) → IsShut b → pool (history kafka es b) ≡ pool b
unfolding history kafka
history-pool [] b h = refl
history-pool (e ∷ es) b h =
    history-pool es (step e b) (same_pool b (step e b) h (step-pool e b h)).0 ∙ step-pool e b h

-- A bus that was stopped calls no callback again and answers no request again, however it is
-- started and subscribed anew.
pub stop-results :
    (es : List Event) (b : Bus)
    → ((history kafka es (stop b)).delivered ≡ b.delivered)
      × ((history kafka es (stop b)).table.results ≡ b.table.results)
unfolding stop
stop-results es b =
    let kept = history-pool es (stop b) (refl, refl) in
    (ap (λ p. p.1.1.1) kept, ap (λ p. p.1.1.0) kept)
