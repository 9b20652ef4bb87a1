-- ===== src/Sdk/Component.antt =====
-- BaseComponent of sdk/base_component.py, over a state of the component's own. The bus takes every
-- message that is published. An exception is told by its text.
pub mod Answers
use sbd_drones_economics.Base.{
  String, Bool, true, false, not, Option, none, some, List, [], ◌∷◌, ◌++◌, ◌==◌, ◌⊕◌, Dict, lookup,
  insert, if◌then◌else◌,
}
use sbd_drones_economics.Sdk.Message.{
  Message, Outgoing, response, error_reply, dead_letter, log_event, Published, dead_letter_topic,
  create_response, create_dead_letter,
}

-- What a handler does: it returns a payload or nothing, or raises.
pub data Handled : Type 0 where
  returned : (payload : String) → Handled
  nothing : Handled
  raised : (error : String) → Handled

abbrev pub Handler : Type 0 → Type 0
Handler S = Message → S → Handled × S

pub record Component (S : Type 0) : Type 0 where
  pub component_id : String
  pub component_type : String
  pub topic : String
  pub journal_topic : String
  pub handlers : Dict (Handler S)

module _ {S : Type 0} where
  unfoldable pub register_handler : (action : String) → Handler S → Component S → Component S
  register_handler action handler c = record c { handlers = insert action handler c.handlers }

  -- `_setup_handlers`: `ping` and `get_status`, which read the component alone. Their replies are
  -- told by the component's texts.
  unfoldable pub handle_ping : Component S → Handler S
  handle_ping c m s = (returned c.component_id, s)

  unfoldable pub handle_get_status : Component S → Handler S
  handle_get_status c m s = (returned (c.component_id ⊕ " " ⊕ c.component_type ⊕ " " ⊕ c.topic), s)

  unfoldable pub setup_handlers : Component S → Component S
  unfolding register_handler
  setup_handlers c =
      register_handler "get_status" (handle_get_status c)
        (register_handler "ping" (handle_ping c) c)

  -- `_emit_journal`
  unfoldable pub emit_journal :
      Component S → (action sender : String) → (success : Bool) → (error : String) → List Published
  emit_journal c action sender success error =
      if c.journal_topic == ""
      then []
      else if action == "log_event"
      then []
      else (c.journal_topic, log_event c.topic action sender success error c.component_id) ∷ []

  -- What follows the handler.
  unfoldable pub answer : Component S → Message → Handled → List Published
  unfolding create_response create_dead_letter
  answer c m (returned payload) =
      (if m.reply_to == ""
        then []
        else (m.reply_to, create_response m.correlation_id payload c.component_id true "") ∷ [])
      ++ emit_journal c m.action m.sender true ""
  answer c m nothing = emit_journal c m.action m.sender true ""
  answer c m (raised error) =
      (if m.reply_to == ""
        then (dead_letter_topic, create_dead_letter m c.component_id error) ∷ []
        else (m.reply_to, create_response m.correlation_id "{}" c.component_id false error) ∷ [])
      ++ emit_journal c m.action m.sender false error

  -- `_handle_message`: what is published, and the state.
  unfoldable pub handle_message : Component S → Message → S → List Published × S
  unfolding create_dead_letter
  handle_message c m s = if m.action == "" then ([], s) else elim (lookup m.action c.handlers) [
    | none ↦
        if m.reply_to == ""
        then (
          (dead_letter_topic, create_dead_letter m c.component_id ("Unknown action: " ⊕ m.action))
              ∷ [],
          s,
        )
        else ((m.reply_to, error_reply m.correlation_id ("Unknown action: " ⊕ m.action)) ∷ [], s)
    | some handler ↦ let (handled, s') = handler m s in (answer c m handled, s')
  ]

  -- The messages in their order.
  unfoldable pub serve : Component S → List Message → S → List Published × S
  serve c [] s = ([], s)
  serve c (m ∷ ms) s =
      let (out, s1) = handle_message c m s in let (more, s2) = serve c ms s1 in (out ++ more, s2)
