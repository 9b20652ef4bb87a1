-- ===== src/Operator/Security/Service/Tests.antt =====
-- A service with notifications, and its theorems at a few messages.
use sbd_drones_economics.Base.{ℕ, ◌+◌, ◌≡◌, refl, true, false, none, List, [], ◌∷◌, count, leb}
use sbd_drones_economics.Operator.Security.{Context, is_recent, limit_of}
use sbd_drones_economics.Operator.Security.Service.{
  Message, Call, new_service, process_request, serve, history_of,
}
use sbd_drones_economics.Operator.Security.Service.Counts.{
  IsConsistent, replies, serve-IsConsistent,
}
use sbd_drones_economics.Operator.Security.Service.Rate.{is_rate_refusal, process_request_rate}

abbrev start : Context
start = record {
  sender_id = "op-1";
  sender_role = "admin";
  action = "start_mission";
  target_component = "fleet_manager";
}

abbrev at : ℕ → Message
at t = record { context = start; timestamp = t; trace_id = none }

abbrev calls : List Call
calls = (at 5, 7, 8) ∷ (at 0, 200_000_000, 200_000_001) ∷ []

serve-IsConsistent_example :
    IsConsistent (replies calls (new_service true 30)) (serve calls (new_service true 30))
serve-IsConsistent_example = serve-IsConsistent calls true 30

recent : is_recent 7 5 ≡ true
unfolding is_recent
recent = refl

process_request_rate_example :
    is_rate_refusal (process_request (at 5) 7 8 (new_service true 30)).0
    ≡ leb
        (limit_of "start_mission")
        (count (λ t. is_recent 7 t) (history_of "op-1" (new_service true 30)) + 1)
process_request_rate_example = process_request_rate (at 5) 7 8 (new_service true 30) recent

stale : is_recent 200_000_000 0 ≡ false
unfolding is_recent
stale = refl

abbrev flood : List Call
flood = (at 0, 200_000_000, 1) ∷ (at 0, 200_000_000, 2) ∷ []
