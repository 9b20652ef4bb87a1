-- ===== src/Sdk/Tests.antt =====
-- Runs of the component and of the bus at single inputs.
use sbd_drones_economics.Base.{
  ◌≡◌, ◌≢◌, Bool, true, false, none, some, List, [], ◌∷◌, arith, count, eq_iff, All,
}
use sbd_drones_economics.Sdk.Message.{Message}
use sbd_drones_economics.Sdk.Component.{Component, raised, handle_message}
use sbd_drones_economics.Sdk.Component.Answers.{is_answer, is_dead_letter, handle_message-counts}
use sbd_drones_economics.Sdk.SafeBus.{Packet, Response, Call, to_publish, to_request, run}
use sbd_drones_economics.Sdk.SafeBus.Mediation.{IsCleared, run-IsCleared}

abbrev worker : Component Bool
worker = record {
  component_id = "w1";
  component_type = "worker";
  topic = "v1.w1";
  journal_topic = "";
  handlers = ("stop", λ m s. (raised "busy", true)) ∷ [];
}

abbrev stop : Message
stop = record {
  action = "stop";
  sender = "boss";
  payload = "{}";
  correlation_id = none;
  reply_to = "";
}

named : stop.action ≢ ""
named e = ground (arith, eq_iff "stop" "")

handle_message-counts_example :
    (count is_answer (handle_message worker stop false).0 ≡ 0)
    × (count is_dead_letter (handle_message worker stop false).0 ≡ 1)
handle_message-counts_example = handle_message-counts worker stop false named

abbrev hello : Packet
hello = record { action = "hello"; sender = "a"; payload = "{}" }

abbrev refusal : Response
refusal = record { success = true; approved = false; reason = "no"; error = "" }

abbrev calls : List Call
calls = to_publish (some refusal) "t" hello ∷ to_request none "t" hello ∷ []

run-IsCleared_example : All (IsCleared "m" calls) (run "m" calls)
run-IsCleared_example = run-IsCleared "m" calls (tt, (tt, tt))
