-- ===== src/Uas/Guard/Tests.antt =====
-- A worker with one handler at single messages.
use sbd_drones_economics.Base.{String, ◌≡◌, refl, Bool, true, false, none, [], ◌∷◌, Dict}
use sbd_drones_economics.Sdk.Message.{Message}
use sbd_drones_economics.Sdk.Component.{Handler, returned, serve}
use sbd_drones_economics.Uas.Guard.{service_component, serve_untrusted}

abbrev handlers : Dict (Handler Bool)
handlers = ("stop", λ m s. (returned "{}", true)) ∷ []

abbrev order : String → Message
order action = record {
  action = action;
  sender = "stranger";
  payload = "{}";
  correlation_id = none;
  reply_to = "";
}

serve_untrusted_example :
    (serve
      (service_component ("gateway" ∷ []) handlers "w1" "worker" "v1.w1" "")
      (order "stop" ∷ order "ping" ∷ [])
      false).1
    ≡ false
serve_untrusted_example =
    serve_untrusted ("gateway" ∷ []) handlers "w1" "worker" "v1.w1" ""
      (order "stop" ∷ order "ping" ∷ []) false (refl, (refl, tt))
