-- ===== src/Sdk/Message.antt =====
-- Messages of the bus: sdk/messages.py. A payload is its JSON text; time stamps are left out.
use sbd_drones_economics.Base.{String, Bool, Option}

-- An incoming message; absent texts are empty.
pub record Message : Type 0 where
  pub action : String
  pub sender : String
  pub payload : String
  pub correlation_id : Option String
  pub reply_to : String

-- What a component publishes: `create_response`, the reply of `SystemBus.respond` with the action
-- `error`, `create_dead_letter`, and an event of the journal. A response without error has "".
pub data Outgoing : Type 0 where
  response :
      (correlation_id : Option String)
      → (payload sender : String) → (success : Bool) → (error : String) → Outgoing
  error_reply : (correlation_id : Option String) → (error : String) → Outgoing
  dead_letter :
      (sender error : String)
      → (original_action original_sender original_payload : String) → Outgoing
  log_event :
      (sender event event_sender : String)
      → (success : Bool) → (error component_id : String) → Outgoing

-- A topic and what is published to it.
abbrev pub Published : Type 0
Published = String × Outgoing

abbrev pub dead_letter_topic : String
dead_letter_topic = "errors.dead_letters"

unfoldable pub create_response :
    (correlation_id : Option String)
    → (payload sender : String) → (success : Bool) → (error : String) → Outgoing
create_response correlation_id payload sender success error =
    response correlation_id payload sender success error

unfoldable pub create_dead_letter : Message → (sender error : String) → Outgoing
create_dead_letter m sender error = dead_letter sender error m.action m.sender m.payload
