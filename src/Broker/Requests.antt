-- ===== src/Broker/Requests.antt =====
-- The requests that a bus waits on: `request` of broker/mqtt/mqtt_system_bus.py and of
-- broker/kafka/kafka_system_bus.py, which treat their table of pending requests alike. Each thread's
-- actions are events, so that a list of events is one interleaving of the callers with the thread
-- that receives messages.
pub mod Invariant
pub mod Settled
pub mod Promise
pub mod Progress
use sbd_drones_economics.Base.{
  String, ℕ, Bool, true, false, not, ◌&&◌, if◌then◌else◌, Option, none, some, List, [], ◌∷◌, Dict,
  lookup, insert, erase, ◌==◌,
}

pub record Message : Type 0 where
  pub correlation_id : Option String
  pub reply_to : Option String
  pub fields : Dict String

-- `{**message, "correlation_id": correlation_id, "reply_to": self._reply_topic}`
unfoldable pub request_message : String → String → Message → Message
request_message id reply_topic m = record m {
  correlation_id = some id;
  reply_to = some reply_topic;
}

-- A Future, named by the id of the request that makes it.
abbrev pub Future : Type 0
Future = String

-- Where a call of `request` stands.
pub data Phase : Type 0 where
  publishing waiting timing_out raised : Phase
  returned : Option Message → Phase

-- What `publish` does within `request`: it returns True or False, or raises.
pub data Published : Type 0 where
  sent refused raises : Published

-- `_pending_requests`, the results set on the futures, and the calls of `request` with their phase
pub record Table : Type 0 where
  pub pending : Dict Future
  pub results : Dict Message
  pub calls : Dict Phase

abbrev pub empty : Table
empty = record { pending = []; results = []; calls = [] }

-- `future = Future(); self._pending_requests[correlation_id] = future`
unfoldable pub register : String → Table → Table
register id t = record t { pending = insert id id t.pending; calls = insert id publishing t.calls }

-- What follows `publish`.
unfoldable pub published : String → Published → Table → Table
published id sent t = record t { calls = insert id waiting t.calls }
published id refused t = record t {
  pending = erase id t.pending;
  calls = insert id (returned none) t.calls;
}
published id raises t = record t { calls = insert id raised t.calls }

-- `correlation_id = message.get("correlation_id"); if correlation_id:`
unfoldable pub sought : Message → Option String
sought m = elim m.correlation_id [ none ↦ none | some id ↦ if id == "" then none else some id ]

-- `future = self._pending_requests.pop(correlation_id); future.set_result(message)`
unfoldable pub settle : String → Future → Message → Table → Table
settle id future m t = record t {
  pending = erase id t.pending;
  results = insert future m t.results;
}

-- The table after a message, where the message answers a pending request.
unfoldable pub resolve : Message → Table → Option Table
unfolding sought settle
resolve m t = elim (sought m) [
  | none ↦ none
  | some id ↦ elim (lookup id t.pending) [ none ↦ none | some future ↦ some (settle id future m t) ]
]

-- `future.result` returns: the call returns the message.
unfoldable pub wake : String → Option Message → Table → Table
wake id none t = t
wake id (some m) t = record t { calls = insert id (returned (some m)) t.calls }

-- `future.result` raises TimeoutError, on a future without a result.
unfoldable pub time_out : String → Option Message → Table → Table
time_out id none t = record t { calls = insert id timing_out t.calls }
time_out id (some m) t = t

-- `self._pending_requests.pop(correlation_id, None); return None`
unfoldable pub give_up : String → Table → Table
give_up id t = record t { pending = erase id t.pending; calls = insert id (returned none) t.calls }

pub data Event : Type 0 where
  registers wakes times_out gives_up : String → Event
  publishes : String → Published → Event
  receives : Message → Event

unfoldable pub is_new : Option Phase → Bool
is_new none = true
is_new (some _) = false

unfoldable pub is_publishing : Option Phase → Bool
is_publishing (some publishing) = true
is_publishing (some waiting) = false
is_publishing (some timing_out) = false
is_publishing (some raised) = false
is_publishing (some (returned _)) = false
is_publishing none = false

unfoldable pub is_waiting : Option Phase → Bool
is_waiting (some waiting) = true
is_waiting (some publishing) = false
is_waiting (some timing_out) = false
is_waiting (some raised) = false
is_waiting (some (returned _)) = false
is_waiting none = false

unfoldable pub is_timing_out : Option Phase → Bool
is_timing_out (some timing_out) = true
is_timing_out (some publishing) = false
is_timing_out (some waiting) = false
is_timing_out (some raised) = false
is_timing_out (some (returned _)) = false
is_timing_out none = false

-- One event. An event of a call stands where the call is; elsewhere it is none. `uuid4` gives ids
-- that are not empty and were not given before.
unfoldable pub step : Event → Table → Table
unfolding register wake time_out give_up
step (registers id) t = if not (id == "") && is_new (lookup id t.calls) then register id t else t
step (publishes id p) t = if is_publishing (lookup id t.calls) then published id p t else t
step (receives m) t = elim (resolve m t) [ none ↦ t | some u ↦ u ]
step (wakes id) t = if is_waiting (lookup id t.calls) then wake id (lookup id t.results) t else t
step (times_out id) t =
    if is_waiting (lookup id t.calls) then time_out id (lookup id t.results) t else t
step (gives_up id) t = if is_timing_out (lookup id t.calls) then give_up id t else t

unfoldable pub run : List Event → Table → Table
run [] t = t
run (e ∷ es) t = run es (step e t)
