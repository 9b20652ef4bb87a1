-- ===== src/Broker/Requests/Promise.antt =====
-- What `request` promises its caller over a run.
use mathlib.Core.Option.{some-injective}
use sbd_drones_economics.Base.{
  String, not, ◌&&◌, Option, none, some, List, [], ◌∷◌, lookup, ◌==◌, ◌≡◌, refl, subst, ◌⊎◌, inl,
  inr, arith, insert-cases,
}
use sbd_drones_economics.Broker.Requests.{
  Message, Phase, publishing, waiting, timing_out, raised, returned, Published, sent, refused,
  raises, Table, empty, register, published, settle, wake, time_out, give_up, Event, registers,
  wakes, times_out, gives_up, publishes, receives, is_new, is_publishing, is_waiting, is_timing_out,
  step, run,
}
use sbd_drones_economics.Broker.Requests.Invariant.{
  Answers, Row, IsSound, phase_in, resolve-cases, if-keeps, empty-IsSound, step-IsSound,
  run-IsSound,
}
use sbd_drones_economics.Broker.Requests.Settled.{
  Status, closed, status, Moves, stays, opens, fails, times_out_with_none, answers, MovesTo,
  step-MovesTo,
}

-- A message among those received.
unfoldable pub Received : Message → List Event → Type 0
Received m [] = ⊥
Received m (receives n ∷ es) = (n ≡ m) ⊎ Received m es
Received m (registers _ ∷ es) = Received m es
Received m (wakes _ ∷ es) = Received m es
Received m (times_out _ ∷ es) = Received m es
Received m (gives_up _ ∷ es) = Received m es
Received m (publishes _ _ ∷ es) = Received m es

abbrev HasResult : String → Message → Table → Type 0
HasResult id m t = lookup id t.results ≡ some m

published-results :
    (id : String) (p : Published) (t : Table) → (published id p t).results ≡ t.results
unfolding published
published-results id sent t = refl
published-results id refused t = refl
published-results id raises t = refl

wake-results : (id : String) (r : Option Message) (t : Table) → (wake id r t).results ≡ t.results
unfolding wake
wake-results id none t = refl
wake-results id (some m) t = refl

time_out-results :
    (id : String) (r : Option Message) (t : Table) → (time_out id r t).results ≡ t.results
unfolding time_out
time_out-results id none t = refl
time_out-results id (some m) t = refl

abbrev NoNewer : Table → Table → Type 0
NoNewer t u = u.results ≡ t.results

-- Only a received message becomes a result.
step-result :
    (e : Event) (t : Table) (id : String) (m : Message)
    → HasResult id m (step e t)
    → HasResult id m t ⊎ Received m (e ∷ [])
unfolding step Received register give_up settle
step-result (registers k) t id m h = inl (
    subst (λ r. lookup id r ≡ some m)
      (if-keeps (NoNewer t) (not (k == "") && is_new (lookup k t.calls)) t _ refl λ b. refl) h)
step-result (publishes k p) t id m h = inl (
    subst (λ r. lookup id r ≡ some m)
      (if-keeps (NoNewer t) (is_publishing (lookup k t.calls)) t _ refl
        λ b. published-results k p t)
      h)
step-result (wakes k) t id m h = inl (
    subst (λ r. lookup id r ≡ some m)
      (if-keeps (NoNewer t) (is_waiting (lookup k t.calls)) t _ refl λ b. wake-results k _ t) h)
step-result (times_out k) t id m h = inl (
    subst (λ r. lookup id r ≡ some m)
      (if-keeps (NoNewer t) (is_waiting (lookup k t.calls)) t _ refl λ b. time_out-results k _ t) h)
step-result (gives_up k) t id m h = inl (
    subst (λ r. lookup id r ≡ some m)
      (if-keeps (NoNewer t) (is_timing_out (lookup k t.calls)) t _ refl λ b. refl) h)
step-result (receives n) t id m h = elim (resolve-cases n t) [
  | inl e ↦ inl (rw (e, step) at h)
  | inr (k, (f, (s, (p, e)))) ↦ elim (insert-cases f id n m t.results (rw (e, step) at h)) [
    | inl (_, same) ↦ inr (inl same)
    | inr (_, old) ↦ inl old
  ]
]

Received-cons :
    (e : Event) (es : List Event) (m : Message)
    → Received m (e ∷ []) ⊎ Received m es
    → Received m (e ∷ es)
unfolding Received
Received-cons (receives n) es m (inl (inl same)) = inl same
Received-cons (receives n) es m (inl (inr none_left)) = ground arith
Received-cons (receives n) es m (inr later) = inr later
Received-cons (registers k) es m h = ground arith
Received-cons (wakes k) es m h = ground arith
Received-cons (times_out k) es m h = ground arith
Received-cons (gives_up k) es m h = ground arith
Received-cons (publishes k p) es m h = ground arith

run-result :
    (es : List Event) (t : Table) (id : String) (m : Message)
    → HasResult id m (run es t)
    → HasResult id m t ⊎ Received m es
unfolding run
run-result [] t id m h = inl h
run-result (e ∷ es) t id m h = elim (run-result es (step e t) id m h) [
  | inr later ↦ inr (Received-cons e es m (inr later))
  | inl first ↦ elim (step-result e t id m first) [
    | inl old ↦ inl old
    | inr now ↦ inr (Received-cons e es m (inl now))
  ]
]

closed_stays :
    (id : String) (r : Option Message) (s u : Status) → Moves id s u → s ≡ closed r → u ≡ closed r
closed_stays id r s u (stays _) e = e
closed_stays id r s u opens e = ground arith
closed_stays id r s u fails e = ground arith
closed_stays id r s u times_out_with_none e = ground arith
closed_stays id r s u (answers m a) e = ground arith

status-closed :
    (c : Option Phase) (r : Option Message) → status c ≡ closed r → c ≡ some (returned r)
unfolding status
status-closed none r e = ground arith
status-closed (some publishing) r e = ground arith
status-closed (some waiting) r e = ground arith
status-closed (some timing_out) r e = ground arith
status-closed (some raised) r e = ground arith
status-closed (some (returned q)) r e = ground arith

abbrev pub HasReturned : String → Option Message → Table → Type 0
HasReturned id r t = lookup id t.calls ≡ some (returned r)

step-HasReturned :
    (e : Event) (t : Table) (id : String) (r : Option Message)
    → IsSound t
    → HasReturned id r t
    → HasReturned id r (step e t)
unfolding MovesTo status
step-HasReturned e t id r h done =
    status-closed _ r
      (closed_stays id r (status (lookup id t.calls)) _ (step-MovesTo e t h id) (rw done refl))

run-HasReturned :
    (es : List Event) (t : Table) (id : String) (r : Option Message)
    → IsSound t
    → HasReturned id r t
    → HasReturned id r (run es t)
unfolding run
run-HasReturned [] t id r h done = done
run-HasReturned (e ∷ es) t id r h done =
    run-HasReturned es (step e t) id r (step-IsSound e t h) (step-HasReturned e t id r h done)

-- A call that has returned has left the table, and what it returned is None or its answer.
HasReturned-Row :
    (id : String) (t : Table) (r : Option Message)
    → IsSound t
    → HasReturned id r t
    → (lookup id t.pending ≡ none) × ((m : Message) → r ≡ some m → HasResult id m t × Answers id m)
unfolding Row
HasReturned-Row id t none h done = ((phase_in id t (returned none) done h).0, λ m e. ground arith)
HasReturned-Row id t (some n) h done =
    let row = phase_in id t (returned (some n)) done h in
    (row.0, λ m e. subst (λ k. HasResult id k t × Answers id k) (some-injective _ _ e) row.1)

-- The promise of `request` over the events of a run from an empty table.
pub request_lem :
    (es fs : List Event) (id : String) (r : Option Message)
    → HasReturned id r (run es empty)
    → (HasReturned id r (run fs (run es empty))
        × (lookup id (run fs (run es empty)).pending ≡ none))
      × ((m : Message) → r ≡ some m → Answers id m × Received m es)
request_lem es fs id r done = (
  (later, (HasReturned-Row id (run fs (run es empty)) r (run-IsSound fs _ sound) later).0),
  λ m e. ((given m e).1, from (run-result es empty id m (given m e).0)),
)
  where
    sound : IsSound (run es empty)
    sound = run-IsSound es empty empty-IsSound

    given : (m : Message) → r ≡ some m → HasResult id m (run es empty) × Answers id m
    given = (HasReturned-Row id (run es empty) r sound done).1

    later : HasReturned id r (run fs (run es empty))
    later = run-HasReturned fs _ id r sound done

    from : {m : Message} → HasResult id m empty ⊎ Received m es → Received m es
    from (inl e) = ground arith
    from (inr h) = h
