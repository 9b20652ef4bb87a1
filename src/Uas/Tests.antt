-- ===== src/Uas/Tests.antt =====
-- A company with one drone on sale, and the theorems on goals, purchases and revocation at it.
use sbd_drones_economics.Base.{
  ◌≡◌, refl, pos, true, false, none, some, [], ◌∷◌, arith, eq_iff, contains, lookup, keep, strip,
  lower, All,
}
use sbd_drones_economics.Outcome.{Exception, Result, is_ok, ok, err, value_error}
use sbd_drones_economics.Uas.Roles
use sbd_drones_economics.Uas.Roles.{require_role}
use sbd_drones_economics.Uas.Journal.{record_event, security_event, require_text}
use sbd_drones_economics.Uas.Models.{purchase_order}
use sbd_drones_economics.Uas.Goals.{
  goal_ids, stripped, normalize_canonical_security_goals, normalize_items, distinct, sort_goals,
  insert_goal,
}
use sbd_drones_economics.Uas.Goals.Canonical.{Canonical, normalize-eq-chosen}
use sbd_drones_economics.Uas.Policy.{
  validate_purchase_prerequisites, Sellable, assert_certificate_not_revoked,
  regulator_reregistration_status_ok, drone_port_response_accepted,
}
use sbd_drones_economics.Uas.Company.{
  Firmware, Drone, Company, Regulator, Ports, Registry, ProxyCall,
}
use sbd_drones_economics.Uas.Drones.{sold, update_drone_after_purchase, update_drone_delivery}
use sbd_drones_economics.Uas.Drones.Updates.{IsFiled}
use sbd_drones_economics.Uas.Purchase.{
  Purchased, purchase, prepare, complete, hand_over, insert_order, reregistration, new_version,
  delivery, deliver, get_drone_row, finalize_registry_purchase, finalize_registry_delivery,
}
use sbd_drones_economics.Uas.Purchase.Sale.{Settled, sale_at}
use sbd_drones_economics.Uas.Purchase.Atomic.{purchase-Settled, purchase-atomic}
use sbd_drones_economics.Uas.Purchase.Checks.{key_of}
use sbd_drones_economics.Uas.Purchase.Repeat.{Attempt, attempt, attempts, purchase_twice-err}
use sbd_drones_economics.Uas.Vulnerability.{report}
use sbd_drones_economics.Uas.Vulnerability.Revocation.{
  CertificatesRevoked, DronesRevoked, Reaches, report-Revoked,
}

abbrev drone_1 : Drone
drone_1 = record {
  serial_number = "SN-1";
  drone_type = "cargo";
  firmware_id = "fw-1";
  certificate_id = "cert-1";
  security_goals = "ЦБ-1" ∷ [];
  price = pos 150000;
  status = "available";
  registration_id = "reg-1";
  registration_status = "registered_by_regulator";
  registration_version = 1;
  regulator_reason = "";
  owner_operator_id = "";
  last_regulator_correlation_id = "";
  hardware_config = "{}";
  destination_droneport_id = "";
  delivery_status = "none";
  delivered_at = "";
  physical_safety_responsibility = "developer";
  certificate_status = "active";
  certificate_effective_security_goals = "ЦБ-1" ∷ [];
  certificate_security_goals = "ЦБ-1" ∷ [];
  firmware_supplier = "dev";
  firmware_hash = "h";
  firmware_security_goals = "ЦБ-1" ∷ [];
  certification_cost = pos 0;
}

abbrev firmware_1 : Firmware
firmware_1 = record {
  firmware_id = "fw-1";
  supplier = "dev";
  drone_type = "cargo";
  version = "1";
  firmware_hash = "h";
  source_repo_url = "";
  source_commit = "";
  security_goals = "ЦБ-1" ∷ [];
  authenticity_proof = "p";
  submitted_by = "dev";
}

abbrev company : Company
company = record {
  firmware = ("fw-1", firmware_1) ∷ [];
  requests = [];
  certificates =
      (
        "cert-1",
        record {
          certificate_id = "cert-1";
          firmware_id = "fw-1";
          security_goals = "ЦБ-1" ∷ [];
          signed_by = "r";
          certificate_status = "active";
          effective_security_goals = "ЦБ-1" ∷ [];
          firmware = firmware_1;
        },
      )
      ∷ [];
  incidents = [];
  drones = ("SN-1", drone_1) ∷ [];
  purchases = [];
  journal = some [];
  fleet = [];
}

company-IsFiled : IsFiled company
company-IsFiled = λ k d found. ground (arith, eq_iff "SN-1" k)

-- A regulator that accepts everything, and revokes what is reported to it.
abbrev strict : Regulator
strict = record {
  certify_firmware = λ corr actor fw. record {
    status = "certified";
    reason_code = none;
    certificate_id = "cert-1";
    signed_by = "r";
    security_goals = fw.security_goals;
  };
  register_drone_instance = λ corr actor serial fw cert goals. record {
    status = "registered";
    reason_code = "";
    registration_id = some "reg-1";
    registration_version = 1;
  };
  reregister_drone_instance = λ corr reg serial from to order. record {
    status = "reregistered";
    reason_code = "";
    registration_version = 2;
    security_goals = none;
  };
  report_critical_vulnerability = λ corr fw description kind. record {
    decision = "revoke_certificate";
    effective_security_goals = [];
  };
}

abbrev ports : Ports
ports = record {
  regulator = some strict;
  drone_port = some (λ serial model port. record { status = "OK"; reason_code = "" });
  has_fleet = true;
  registry = Registry.own_registry;
  registry_apply = some ProxyCall.answers;
}

abbrev outcome : Result Purchased × Company
outcome = purchase ports "1" "1" Roles.operator "bob" "SN-1" "port-1" "" "noon" company

abbrev receipt : Purchased
receipt = record {
  order_id = "order-1";
  serial_number = "SN-1";
  correlation_id = "rereg-1";
  delivery_status = "delivered";
  delivery_reason = "";
}

bought :
    purchase ports "1" "1" Roles.operator "bob" "SN-1" "port-1" "" "noon" company
    ≡ (ok receipt, outcome.1)
unfolding purchase prepare complete hand_over insert_order purchase_order require_role
    reregistration validate_purchase_prerequisites assert_certificate_not_revoked
    update_drone_after_purchase sold new_version delivery deliver update_drone_delivery record_event
    get_drone_row finalize_registry_purchase finalize_registry_delivery security_event require_text
    strip lower regulator_reregistration_status_ok drone_port_response_accepted
bought = refl

purchase-Settled_example :
    (Roles.operator ≡ Roles.operator)
    × ((drone : Drone) × (lookup "SN-1" company.drones ≡ some drone)
        × Sellable drone.status drone.certificate_status drone.registration_status
            drone.registration_id true)
    × Settled
        (record { order_id = "order-1"; serial_number = "SN-1"; operator_username = "bob" })
        "bob"
        "SN-1"
        true
        company
        outcome.1
purchase-Settled_example =
    purchase-Settled ports "1" "1" Roles.operator "bob" "SN-1" "port-1" "" "noon" company outcome.1
      receipt company-IsFiled refl bought

-- The purchase, through the monitor, of the drone that was bought, and one in between.
abbrev bobs : Attempt
bobs = record {
  ports = ports;
  order_token = "1";
  corr_token = "1";
  role = Roles.operator;
  operator = "bob";
  serial = "SN-1";
  destination = "port-1";
  corr = "";
  now = "noon";
}

abbrev eves : Attempt
eves = record bobs {
  ports = record ports {
    registry = Registry.by_monitor ProxyCall.answers ProxyCall.answers ProxyCall.answers;
  };
  order_token = "2";
  corr_token = "2";
  operator = "eve";
  now = "later";
}

stripped_serial : key_of eves.ports.registry "SN-1" ≡ "SN-1"
unfolding strip
stripped_serial = refl

purchase_twice-err_example :
    (e : Exception) × (attempt eves (attempts (bobs ∷ []) outcome.1)
      ≡ (err e, attempts (bobs ∷ []) outcome.1))
purchase_twice-err_example =
    purchase_twice-err bobs eves (bobs ∷ []) company outcome.1 receipt company-IsFiled refl
      stripped_serial refl bought

-- An unknown drone.
unknown_drone :
    purchase ports "2" "2" Roles.operator "eve" "SN-2" "" "" "later" company
    ≡ (err (value_error "available certified drone is required"), company)
unfolding purchase prepare purchase_order require_role require_text strip get_drone_row
unknown_drone = refl

purchase-atomic_example : company ≡ company
purchase-atomic_example =
    purchase-atomic ports "2" "2" Roles.operator "eve" "SN-2" "" "" "later" company company
      (value_error "available certified drone is required") tt unknown_drone

report-Revoked_example :
    CertificatesRevoked "fw-1"
      (report ports "1" Roles.developer "fw-1" "leak" "" "critical" company).1
    × Reaches "fw-1" ports.registry_apply
        (report ports "1" Roles.developer "fw-1" "leak" "" "critical" company)
report-Revoked_example =
    report-Revoked ports strict "1" "fw-1" "leak" "" "critical" company refl refl

-- Through the monitor a serial number with a blank is found, and the drone stays on sale.
abbrev blank_bobs : Attempt
blank_bobs = record bobs { serial = "SN-1 "; ports = record eves.ports { drone_port = none } }

bought_unsold :
    (is_ok (attempt blank_bobs company).0 ≡ true)
    × (sale_at "SN-1" (attempt blank_bobs company).1 ≡ sale_at "SN-1" company)
unfolding purchase prepare complete hand_over insert_order purchase_order require_role
    reregistration validate_purchase_prerequisites assert_certificate_not_revoked
    update_drone_after_purchase sold new_version delivery record_event get_drone_row
    finalize_registry_purchase security_event require_text strip lower
    regulator_reregistration_status_ok
bought_unsold = (refl, refl)

abbrev grounded : Drone
grounded = record drone_1 { certificate_status = "revoked"; registration_status = "revoked" }

abbrev grounded_company : Company
grounded_company = record company { drones = ("SN-1", grounded) ∷ []; certificates = [] }

grounded_company-DronesRevoked : DronesRevoked "fw-1" grounded_company
grounded_company-DronesRevoked k d found same = ground (arith, eq_iff "SN-1" k)

two_goals :
    normalize_canonical_security_goals ("ЦБ-2" ∷ " " ∷ "ЦБ-1" ∷ []) false
    ≡ ok ("ЦБ-1" ∷ "ЦБ-2" ∷ [])
unfolding normalize_canonical_security_goals normalize_items distinct sort_goals insert_goal strip
two_goals = refl

normalize-eq-chosen_example :
    (("ЦБ-1" ∷ "ЦБ-2" ∷ []) ≡ keep (contains (stripped ("ЦБ-2" ∷ " " ∷ "ЦБ-1" ∷ []))) goal_ids)
    × All Canonical (stripped ("ЦБ-2" ∷ " " ∷ "ЦБ-1" ∷ []))
normalize-eq-chosen_example = normalize-eq-chosen ("ЦБ-2" ∷ " " ∷ "ЦБ-1" ∷ []) false two_goals
