-- ===== src/Uas/Drones.antt =====
-- The table `drones` in drone_registry/registry_service.py: what is read from it, and what a purchase,
-- a delivery and a decision of the regulator write into it.
pub mod Updates
use sbd_drones_economics.Base.{
  ℕ, String, ℤ, Bool, true, false, not, ◌&&◌, ◌||◌, Option, none, some, List, [], ◌∷◌, ◌++◌, ◌==◌,
  ◌⊕◌, if◌then◌else◌, eqb, is_some, or_default, lookup, insert, values, keep, map, sort_by, strip,
  lower, Dict,
}
use sbd_drones_economics.Outcome.{
  Exception, Result, ok, err, value_error, integrity_error, key_error,
}
use sbd_drones_economics.Outcome.Action.{
  Action, pure, raise, lift, gets, modify, raise_if, or_raise, done, ◌>>=◌, ◌>>◌,
}
use sbd_drones_economics.Uas.Roles
use sbd_drones_economics.Uas.Models.{drone_record_fields}
use sbd_drones_economics.Uas.Goals.{
  normalize_canonical_security_goals, apply_effective_goals_to_drone_goals,
}
use sbd_drones_economics.Uas.Policy.{
  or_text, regulator_register_status_ok, assert_drone_goals_subset_when_local_regulator,
}
use sbd_drones_economics.Uas.Company.{
  Firmware, Certificate, Drone, Company, note, Regulator, Ports, Decision,
}
use sbd_drones_economics.Uas.Certification.{get_certificate_snapshot}

abbrev pub is_available : Drone → Bool
is_available d =
    d.status == "available"
    && d.registration_status == "registered_by_regulator"
    && d.certificate_status == "active"

unfoldable pub list_available : Company → List Drone
list_available c = sort_by (λ d. d.serial_number) (keep is_available (values c.drones))

-- The rows of the registry, for a developer or an operator; the JSON columns come decoded.
unfoldable pub list_registered : (actor_role : String) → Action Company (List Drone)
list_registered actor_role = do
  lift (Roles.require_developer_or_operator_for_registry actor_role)
  gets (λ c. sort_by (λ d. d.serial_number) (values c.drones))

-- `UPDATE drones SET ... WHERE`
abbrev pub update_where : (Drone → Bool) → (Drone → Drone) → Dict Drone → Dict Drone
update_where p f [] = []
update_where p f ((k, d) ∷ ds) = (k, (if p d then f d else d)) ∷ update_where p f ds

abbrev pub narrowed : (new_goals : List String) → Drone → Drone
narrowed new_goals d = record d {
  security_goals = apply_effective_goals_to_drone_goals d.security_goals new_goals;
  certificate_effective_security_goals = new_goals;
}

-- True where the registry was updated.
unfoldable pub apply_firmware_cert_decision :
    (firmware_id : String) → Decision → Action Company Bool
apply_firmware_cert_decision firmware_id d =
    if d.decision == "revoke_certificate"
    then (do
      modify (λ c. record c {
        drones =
            update_where (λ x. x.firmware_id == firmware_id)
              (λ x. record x { registration_status = "revoked"; certificate_status = "revoked" })
              c.drones;
      })
      pure true)
    else if d.decision == "update_security_goals"
    then (elim d.effective_security_goals [
      | [] ↦ pure false
      | g ∷ gs ↦ do
        new_goals ← lift (normalize_canonical_security_goals (g ∷ gs) true)
        modify (λ c. record c {
          drones = update_where (λ x. x.firmware_id == firmware_id) (narrowed new_goals) c.drones;
        })
        pure true
    ])
    else pure false

-- `get_drone_purchase_row`
abbrev pub get_drone_purchase_row : (serial_number : String) → Company → Option Drone
get_drone_purchase_row serial_number c = lookup serial_number c.drones

-- What a purchase writes into the registry.
unfoldable pub sold :
    (operator_username dest r_corr : String)
    → (regulator_mode : Bool) → (new_reg_version : ℕ) → (updated_goals : Option (List String))
    → Drone
    → Drone
sold operator_username dest r_corr false new_reg_version updated_goals d = record d {
  status = "sold";
  owner_operator_id = operator_username;
  destination_droneport_id = dest;
  last_regulator_correlation_id = r_corr;
}
sold operator_username dest r_corr true new_reg_version updated_goals d = record d {
  status = "sold_reregistered";
  owner_operator_id = operator_username;
  destination_droneport_id = dest;
  registration_version = new_reg_version;
  last_regulator_correlation_id = r_corr;
  delivery_status = if dest == "" then "none" else "pending_delivery";
  physical_safety_responsibility = "developer";
  security_goals = or_default updated_goals d.security_goals;
}

unfoldable pub update_drone_after_purchase :
    (serial_number operator_username dest r_corr : String)
    → (regulator_mode : Bool) → (new_reg_version : ℕ) → (updated_goals : Option (List String))
    → Action Company Unit
update_drone_after_purchase serial_number operator_username dest r_corr regulator_mode version
      goals =
    modify (λ c. record c {
      drones =
          update_where (λ x. x.serial_number == serial_number)
            (sold operator_username dest r_corr regulator_mode version goals) c.drones;
    })

unfoldable pub update_drone_delivery :
    (serial_number delivery_status delivered_at physical_safety_responsibility : String)
    → Action Company Unit
update_drone_delivery serial_number delivery_status delivered_at responsibility = modify (λ c.
    record c {
      drones =
          update_where (λ x. x.serial_number == serial_number)
            (λ x. record x {
              delivery_status = delivery_status;
              delivered_at = delivered_at;
              physical_safety_responsibility = responsibility;
            })
            c.drones;
    })
