-- ===== src/Broker/Transport.antt =====
-- What the requests take from a bus (broker/src/system_bus.py): its events act on the table of
-- requests only by the events of `Requests`. Both buses fill this interface, over which the promises
-- of `request` are stated.
use sbd_drones_economics.Base.{
  String, Option, none, some, List, [], ◌∷◌, ◌++◌, ◌≡◌, refl, sym, ap, ◌∙◌, lookup,
}
use sbd_drones_economics.Broker.Requests.{Message, returned, Table, empty, Event, run}
use sbd_drones_economics.Broker.Requests.Invariant.{Answers}
use sbd_drones_economics.Broker.Requests.Promise.{Received, request_lem}

pub record Transport (Bus BusEvent : Type 0) : Type 0 where
  pub table : Bus → Table
  pub step : BusEvent → Bus → Bus
  pub acts : BusEvent → Bus → List Event
  pub step-table : (e : BusEvent) (b : Bus) → table (step e b) ≡ run (acts e b) (table b)

run-append : (es fs : List Event) (t : Table) → run (es ++ fs) t ≡ run fs (run es t)
unfolding run
run-append [] fs t = refl
run-append (e ∷ es) fs t = run-append es fs _

module _ {Bus BusEvent : Type 0} (transport : Transport Bus BusEvent) where
  open transport use {table, step, acts, step-table}

  unfoldable pub history : List BusEvent → Bus → Bus
  history [] b = b
  history (e ∷ es) b = history es (step e b)

  -- The events of a history that act on the requests.
  unfoldable pub acted : List BusEvent → Bus → List Event
  acted [] b = []
  acted (e ∷ es) b = acts e b ++ acted es (step e b)

  pub history-table :
      (es : List BusEvent) (b : Bus) → table (history es b) ≡ run (acted es b) (table b)
  unfolding history acted run
  history-table [] b = refl
  history-table (e ∷ es) b =
      history-table es (step e b)
      ∙ (ap (run (acted es (step e b))) (step-table e b)
          ∙ sym (run-append (acts e b) (acted es (step e b)) (table b)))

  abbrev pub Returns : String → Option Message → Bus → Type 0
  Returns id r b = lookup id (table b).calls ≡ some (returned r)

  -- What a call of `request` returned stays what it returned, whatever follows on the bus; the call
  -- left nothing pending; and a message that it returned was received, and bears the id of the call.
  pub request-Answers :
      (es fs : List BusEvent) (b : Bus) (id : String) (r : Option Message)
      → table b ≡ empty
      → Returns id r (history es b)
      → (Returns id r (history fs (history es b))
          × (lookup id (table (history fs (history es b))).pending ≡ none))
        × ((m : Message) → r ≡ some m → Answers id m × Received m (acted es b))
  request-Answers es fs b id r new done =
      let promise = request_lem (acted es b) (acted fs (history es b)) id r (rw first at done) in
      ((rw (later, first) (promise.0.0), rw (later, first) (promise.0.1)), promise.1)
    where
      first : table (history es b) ≡ run (acted es b) empty
      first = rw new at (history-table es b)

      later :
          table (history fs (history es b)) ≡ run (acted fs (history es b)) (table (history es b))
      later = history-table fs (history es b)
