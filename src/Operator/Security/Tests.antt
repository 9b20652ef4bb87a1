-- ===== src/Operator/Security/Tests.antt =====
-- A request of an operator.
use sbd_drones_economics.Base.{◌≡◌, ◌↔◌, true, false, [], ◌∷◌, contains}
use sbd_drones_economics.Operator.Security.{
  PolicyResult, Context, Log, validate_request, trusted_components, unauthorized_sender,
}
use sbd_drones_economics.Operator.Security.Verdicts.{IsAuthorized, validate_request_iff}

abbrev start : Context
start = record {
  sender_id = "op-1";
  sender_role = "operator";
  action = "start_mission";
  target_component = "fleet_manager";
}

abbrev log : Log
log = unauthorized_sender start 5 ∷ []

validate_request_iff_example :
    (((validate_request start 7 log).0.0 ≡ PolicyResult.allow)
      ↔ (IsAuthorized start × (contains trusted_components "fleet_manager" ≡ true)))
    × (((validate_request start 7 log).0.0 ≡ PolicyResult.audit)
        ↔ (IsAuthorized start × (contains trusted_components "fleet_manager" ≡ false)))
validate_request_iff_example = validate_request_iff start 7 log
