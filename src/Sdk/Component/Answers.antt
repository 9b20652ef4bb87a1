-- ===== src/Sdk/Component/Answers.antt =====
-- How often a component answers.
use sbd_drones_economics.Base.{
  String, ◌≡◌, ◌≢◌, Bool, true, false, not, ◌&&◌, Option, none, some, arith, ◌==◌, eq_iff, lookup,
  count, one_if, Option-cases, inl, inr,
}
use sbd_drones_economics.Sdk.Message.{
  Message, response, error_reply, dead_letter, log_event, Published, create_response,
  create_dead_letter,
}
use sbd_drones_economics.Sdk.Component.{
  Handled, returned, nothing, raised, Component, emit_journal, answer, handle_message,
}

abbrev pub is_answer : Published → Bool
is_answer (t, response c p s ok e) = true
is_answer (t, error_reply c e) = true
is_answer (t, o) = false

abbrev pub is_dead_letter : Published → Bool
is_dead_letter (t, dead_letter s e a os p) = true
is_dead_letter (t, o) = false

abbrev pub is_log_event : Published → Bool
is_log_event (t, log_event s e es ok er c) = true
is_log_event (t, o) = false

-- What became of a message: no handler was found, or the handler did this.
abbrev pub outcome : {S : Type 0} → Component S → Message → S → Option Handled
outcome c m s = elim (lookup m.action c.handlers) [ none ↦ none | some h ↦ some (h m s).0 ]

abbrev pub is_failure : Option Handled → Bool
is_failure none = true
is_failure (some (raised e)) = true
is_failure _ = false

abbrev pub is_silent : Option Handled → Bool
is_silent (some nothing) = true
is_silent _ = false

module _ {S : Type 0} (c : Component S) where
  emit_journal-counts :
      (action sender : String) (ok : Bool) (e : String)
      → (count is_answer (emit_journal c action sender ok e) ≡ 0)
        × (count is_dead_letter (emit_journal c action sender ok e) ≡ 0)
        × (count is_log_event (emit_journal c action sender ok e)
            ≡ one_if (not (c.journal_topic == "") && not (action == "log_event")))
  unfolding emit_journal
  emit_journal-counts action sender ok e = ground arith

  answer-counts :
      (m : Message) (h : Handled)
      → (count is_answer (answer c m h)
          ≡ one_if (not (m.reply_to == "") && not (is_silent (some h))))
        × (count is_dead_letter (answer c m h) ≡ one_if (m.reply_to == "" && is_failure (some h)))
        × (count is_log_event (answer c m h)
            ≡ one_if (not (c.journal_topic == "") && not (m.action == "log_event")))
  unfolding answer create_response create_dead_letter
  answer-counts m (returned p) = ground (arith, emit_journal-counts m.action m.sender true "")
  answer-counts m nothing = ground (arith, emit_journal-counts m.action m.sender true "")
  answer-counts m (raised e) = ground (arith, emit_journal-counts m.action m.sender false e)

  -- A message with an action is answered once where it asks for an answer, unless its handler
  -- returns nothing; where it asks for none, a failure is one dead letter. There is nothing else of
  -- either kind.
  pub handle_message-counts :
      (m : Message) (s : S)
      → m.action ≢ ""
      → let out = (handle_message c m s).0 in
        (count is_answer out ≡ one_if (not (m.reply_to == "") && not (is_silent (outcome c m s))))
        × (count is_dead_letter out ≡ one_if (m.reply_to == "" && is_failure (outcome c m s)))
  unfolding handle_message create_dead_letter
  handle_message-counts m s named = elim (Option-cases (lookup m.action c.handlers)) [
    | inl unknown ↦ ground (arith, eq_iff m.action "")
    | inr (h, e) ↦ ground (arith, eq_iff m.action "", answer-counts m (h m s).0)
  ]
