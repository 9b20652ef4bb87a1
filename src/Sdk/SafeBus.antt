-- ===== src/Sdk/SafeBus.antt =====
-- SafeBus of sdk/safe_bus.py over an inner bus, and BaseSecurityMonitor of sdk/security_monitor.py,
-- which it asks. Payloads are JSON texts; time stamps are left out.
pub mod Mediation
use sbd_drones_economics.Base.{
  String, Bool, true, false, not, ◌||◌, Option, none, some, List, [], ◌∷◌, ◌++◌, ◌==◌,
  if◌then◌else◌, contains,
}
use sbd_drones_economics.Sdk.Message.{dead_letter_topic}

pub record Packet : Type 0 where
  pub action : String
  pub sender : String
  pub payload : String

-- What the inner bus is given: a publication, a request, or the notice of a blocked publication.
pub data Sent : Type 0 where
  published : (topic : String) → Packet → Sent
  requested : (topic : String) → Packet → Sent
  blocked : (reason target_topic original_action original_sender : String) → Sent

-- The monitor's response to a check; an absent field is false or empty.
pub record Response : Type 0 where
  pub success : Bool
  pub approved : Bool
  pub reason : String
  pub error : String

abbrev pub skip_actions : List String
skip_actions = "response" ∷ "dead_letter" ∷ "security_blocked" ∷ []

unfoldable pub should_skip : (monitor_topic topic : String) → Packet → Bool
should_skip monitor_topic topic p =
    topic == monitor_topic || topic == dead_letter_topic || contains skip_actions p.action

-- `_check`, after the monitor's answer; none is no answer in time.
unfoldable pub check : Option Response → Bool × String
check none = (false, "security monitor unavailable")
check (some r) = if r.success then (r.approved, r.reason) else (false, r.error)

-- `publish`: what it returns, where the inner bus takes all, and what the inner bus is given.
unfoldable pub publish :
    (monitor_topic : String) → Option Response → (topic : String) → Packet → Bool × List Sent
unfolding should_skip check
publish monitor_topic answer topic p =
    if should_skip monitor_topic topic p
    then (true, published topic p ∷ [])
    else (let (approved, reason) = check answer in
        if not approved
        then (false, blocked reason topic p.action p.sender ∷ [])
        else (true, published topic p ∷ []))

-- `request`: whether the inner bus's answer is returned, and what the inner bus is given.
unfoldable pub request :
    (monitor_topic : String) → Option Response → (topic : String) → Packet → Bool × List Sent
unfolding should_skip check
request monitor_topic answer topic p =
    if should_skip monitor_topic topic p
    then (true, requested topic p ∷ [])
    else if not (check answer).0
    then (false, [])
    else (true, requested topic p ∷ [])

-- `request_async` is passed on.
unfoldable pub request_async : (topic : String) → Packet → List Sent
request_async topic p = requested topic p ∷ []

-- A call of the bus, with the answer of the monitor if it is asked.
pub data Call : Type 0 where
  to_publish : Option Response → (topic : String) → Packet → Call
  to_request : Option Response → (topic : String) → Packet → Call
  to_request_async : (topic : String) → Packet → Call

unfoldable pub effects : (monitor_topic : String) → Call → List Sent
unfolding publish request request_async
effects monitor_topic (to_publish answer topic p) = (publish monitor_topic answer topic p).1
effects monitor_topic (to_request answer topic p) = (request monitor_topic answer topic p).1
effects monitor_topic (to_request_async topic p) = request_async topic p

unfoldable pub run : (monitor_topic : String) → List Call → List Sent
run monitor_topic [] = []
run monitor_topic (call ∷ calls) = effects monitor_topic call ++ run monitor_topic calls

-- `_handle_security_check` with the policy of `check_message`, as BaseComponent sends it back.
unfoldable pub handle_security_check :
    (check_message : (target_topic action sender payload : String) → Bool × String)
    → (topic : String) → Packet
    → Response
handle_security_check check_message topic p =
    let (approved, reason) = check_message topic p.action p.sender p.payload in
    record { success = true; approved = approved; reason = reason; error = "" }

-- The policy of the base class.
abbrev pub approve_all : (target_topic action sender payload : String) → Bool × String
approve_all target_topic action sender payload = (true, "")
