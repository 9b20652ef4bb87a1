-- ===== src/Uas/Monitor/Tests.antt =====
-- A monitor with two policies, and the theorems on it.
use sbd_drones_economics.Base.{◌≡◌, refl, true, some, List, [], ◌∷◌, All, strip}
use sbd_drones_economics.Uas.Monitor.{
  Policy, Request, Monitor, Bus, serve, can_manage_policies, policy_from_payload, Sent, handle,
  handle_proxy_request, handle_clear_policies, extract_target, is_allowed, matches,
}
use sbd_drones_economics.Uas.Monitor.Denial.{IsPermitted, serve-IsPermitted, IsForeign}

abbrev gateway_rule : Policy
gateway_rule = record { sender = "gateway"; topic = "users"; action = "*" }

abbrev inbound_rule : Policy
inbound_rule = record { sender = "monitor"; topic = "users"; action = "ipc_inbound_request" }

abbrev monitor : Monitor
monitor = record {
  topic = "monitor";
  policy_admin_sender = "chief";
  policies = gateway_rule ∷ inbound_rule ∷ [];
  sent = [];
}

abbrev bus : Bus
bus = record { request = λ t a d. some "done"; publish = λ t a d. true }

abbrev traffic : List Request
traffic =
    Request.proxy_request "gateway" "users" "list" "{}" ∷ Request.clear_policies "gateway" ∷ []

traffic-IsForeign : All (IsForeign monitor) traffic
unfolding can_manage_policies strip
traffic-IsForeign = (refl, (refl, tt))

serve-IsPermitted_example :
    (new : List Sent) × ((serve bus traffic monitor).sent ≡ new)
    × All (IsPermitted monitor.policies traffic) new
serve-IsPermitted_example = serve-IsPermitted bus traffic monitor traffic-IsForeign

passes_on :
    (serve bus traffic monitor).sent
    ≡ record { topic = "users"; action = "list"; payload = "{}" } ∷ []
unfolding serve handle handle_proxy_request handle_clear_policies extract_target is_allowed matches
    can_manage_policies strip
passes_on = refl

abbrev audit_rule : Policy
audit_rule = record { sender = "users"; topic = "audit"; action = "record" }

chief_may : can_manage_policies (strip "chief") monitor ≡ true
unfolding can_manage_policies strip
chief_may = refl

audit_rule_read : policy_from_payload "users" "audit " "record" ≡ some audit_rule
unfolding policy_from_payload strip
audit_rule_read = refl
