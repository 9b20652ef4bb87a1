-- ===== src/Broker/Kafka/Consumers.antt =====
-- Callbacks and consumers of the bus over Kafka, also after a subscription that failed.
use sbd_drones_economics.Base.{
  All, ◌∙◌, String, ℕ, Bool, true, false, none, some, List, [], ◌∷◌, ◌++◌, lookup, ◌==◌, ◌≡◌, refl,
  sym, subst, inl, inr, arith, eq_iff, Bool-cases, Option-cases, lookup-insert_self,
  lookup-insert_ne, lookup-erase_other, Dict,
}
use sbd_drones_economics.Outcome.{Result, ok, err}
use sbd_drones_economics.Broker.Requests
use sbd_drones_economics.Broker.Requests.{Message, is_publishing}
use sbd_drones_economics.Broker.Transport.{history}
use sbd_drones_economics.Broker.Dispatch.{Task, pick}
use sbd_drones_economics.Broker.Kafka.{
  Bus, Network, Callback, handle_reply, client, init_producer, subscribe, unsubscribe, join,
  connect, start, send, publish, submit, poll, dispatch_callback, run_task, new,
}
use sbd_drones_economics.Broker.Kafka.Events.{
  Event, starts, stops, requests, publishes_request, continues, polls, runs_task, subscribes,
  unsubscribes, open_request, publish_request, is_own, step, kafka, then_keeps, then_holds, if-both,
}

-- What the state of a subscription consists of.
abbrev links : Bus → Dict Bool × (Dict Callback × (Dict Callback × Dict (Unit {0})))
links b = (b.running, (b.callbacks, (b.threads, b.consumers)))

init_producer-links : (n : Network) (b : Bus) → links (init_producer n b).1 ≡ links b
unfolding init_producer
init_producer-links n b = ground arith

publish-links : (n : Network) (b : Bus) → links (publish n b).1 ≡ links b
unfolding publish send
publish-links n b =
    then_keeps links (init_producer n b).0 (init_producer n b).1 b (send n)
      (init_producer-links n b) λ c. refl

task-links : (task : Task Callback) (b : Bus) → links (dispatch_callback task b) ≡ links b
unfolding dispatch_callback
task-links (handle_reply, m) b = refl
task-links (client name, m) b = refl

run_task-links : (n : ℕ) (b : Bus) → links (run_task n b) ≡ links b
unfolding run_task
run_task-links n b = elim (Option-cases (pick n b.tasks)) [
  | inl e ↦ rw (e, run_task) refl
  | inr ((task, others), e) ↦ rw (e, run_task) (task-links task (record b { tasks = others }))
]

poll-links : (topic : String) (m : Message) (b : Bus) → links (poll topic m b) ≡ links b
unfolding poll submit
poll-links topic m b = ground arith

-- A topic with a callback and without a consumer.
abbrev IsStuck : String → Callback → Bus → Type 0
IsStuck topic c b = (lookup topic b.callbacks ≡ some c) × (lookup topic b.consumers ≡ none)

-- Neither the end of this subscription nor the end of the bus.
abbrev pub IsKept : String → Event → Type 0
IsKept topic stops = ⊥
IsKept topic (unsubscribes other) = (other == topic) ≡ false
IsKept topic _ = Unit {0}

subscribe-IsStuck :
    (other : String) (d : Callback) (n : Network) (topic : String) (c : Callback) (b : Bus)
    → IsStuck topic c b
    → IsStuck topic c (subscribe other d n b).1
unfolding subscribe
subscribe-IsStuck other d n topic c b (called, unread) = elim (Bool-cases (other == topic)) [
  | inl same ↦ (
    ground (arith, called, eq_iff other topic),
    ground (arith, called, unread, eq_iff other topic),
  )
  | inr ne ↦ (
    ground (arith, called, lookup-insert_ne other topic d b.callbacks ne),
    ground (arith, unread, lookup-insert_ne other topic tt b.consumers ne),
  )
]

module _ (topic : String) (c : Callback) where
  abbrev Stuck : Bus → Type 0
  Stuck b = IsStuck topic c b

  same_links : (a b : Bus) → links b ≡ links a → Stuck a → Stuck b
  same_links a b e h =
      subst (λ l. (lookup topic l.1.0 ≡ some c) × (lookup topic l.1.1.1 ≡ none)) (sym e) h

  join-IsStuck : (n : Network) (b : Bus) → Stuck b → Stuck (join n b).1
  unfolding join
  join-IsStuck n b h = subscribe-IsStuck b.reply_topic handle_reply n topic c b h

  connect-IsStuck : (n : Network) (b : Bus) → Stuck b → Stuck (connect n b).1
  unfolding connect
  connect-IsStuck n b h =
      then_holds Stuck (init_producer n b).0 (init_producer n b).1 b (join n)
        (same_links b (init_producer n b).1 (init_producer-links n b) h) (join-IsStuck n)

  start-IsStuck : (n : Network) (b : Bus) → Stuck b → Stuck (start n b).1
  unfolding start
  start-IsStuck n b h =
      if-both (λ p. Stuck p.1) b.started (ok tt, b) (connect n b) h (connect-IsStuck n b h)

  open_request-IsStuck :
      (id : String) (n : Network) (b : Bus) (r : Result Unit)
      → (start n b).0 ≡ r
      → Stuck b
      → Stuck (open_request id n b)
  unfolding open_request
  open_request-IsStuck id n b (ok _) e h =
      rw (e, open_request)
        (same_links (start n b).1
          (record (start n b).1 {
            table = Requests.step (Requests.registers id) (start n b).1.table;
          })
          refl (start-IsStuck n b h))
  open_request-IsStuck id n b (err _) e h = rw (e, open_request) (start-IsStuck n b h)

  step-IsStuck : (e : Event) (b : Bus) → IsKept topic e → Stuck b → Stuck (step e b)
  unfolding step unsubscribe publish_request
  step-IsStuck (starts n) b k h = start-IsStuck n b h
  step-IsStuck stops b k h = elim k [ ]
  step-IsStuck (requests id n) b k h = open_request-IsStuck id n b (start n b).0 refl h
  step-IsStuck (publishes_request id n) b k h =
      if-both Stuck (is_publishing (lookup id b.table.calls)) (publish_request id n b) b
        (same_links b (publish_request id n b) (publish-links n b) h) h
  step-IsStuck (continues e) b k h = if-both Stuck (is_own e) later b (same_links b later refl h) h
    where
      later : Bus
      later = record b { table = Requests.step e b.table }
  step-IsStuck (polls other m) b k h = same_links b (poll other m b) (poll-links other m b) h
  step-IsStuck (runs_task n) b k h = same_links b (run_task n b) (run_task-links n b) h
  step-IsStuck (subscribes other d n) b k h = subscribe-IsStuck other d n topic c b h
  step-IsStuck (unsubscribes other) b k h = (
    lookup-erase_other other topic b.callbacks k ∙ h.0,
    lookup-erase_other other topic b.consumers k ∙ h.1,
  )

  history-IsStuck :
      (es : List Event) (b : Bus) → All (IsKept topic) es → Stuck b → Stuck (history kafka es b)
  unfolding history kafka
  history-IsStuck [] b k h = h
  history-IsStuck (e ∷ es) b k h = history-IsStuck es (step e b) k.1 (step-IsStuck e b k.0 h)

-- Where no consumer can be made for a topic that has neither a callback nor a consumer, `subscribe`
-- returns False; but after any events that neither unsubscribe from the topic nor stop the bus, a
-- further `subscribe` of the topic returns True and changes nothing, and the topic has no consumer.
pub subscribe-after_failure :
    (topic : String) (c d : Callback) (n later : Network) (es : List Event) (b : Bus)
    → lookup topic b.callbacks ≡ none
    → lookup topic b.consumers ≡ none
    → n.consumable ≡ false
    → All (IsKept topic) es
    → ((subscribe topic c n b).0 ≡ false)
      × (let after = history kafka es (subscribe topic c n b).1 in
          (subscribe topic d later after ≡ (true, after)) × (lookup topic after.consumers ≡ none))
unfolding subscribe
subscribe-after_failure topic c d n later es b new unread failed kept =
    let b1 = (subscribe topic c n b).1 in
    let stuck : IsStuck topic c b1 = (
      rw (subscribe, new, failed) (lookup-insert_self topic c b.callbacks),
      rw (subscribe, new, failed) unread,
    ) in
    let (called, still) = history-IsStuck topic c es b1 kept stuck in
    (rw (subscribe, new, failed) refl, (rw (subscribe, called) refl, still))

-- A subscription to a topic without a callback delivers: a record of the topic is handed to the
-- pool with the callback.
pub poll-subscribe :
    (topic : String) (c : Callback) (m : Message) (n : Network) (b : Bus)
    → lookup topic b.callbacks ≡ none
    → n.consumable ≡ true
    → b.executor_open ≡ true
    → (poll topic m (subscribe topic c n b).1).tasks ≡ b.tasks ++ (c, m) ∷ []
unfolding poll subscribe submit
poll-subscribe topic c m n b new made open_ =
    rw (subscribe, new, made)
      (rw
        (poll, lookup-insert_self topic true b.running, lookup-insert_self topic c b.threads, open_)
        refl)
