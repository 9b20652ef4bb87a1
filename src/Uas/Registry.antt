-- ===== src/Uas/Registry.antt =====
-- DroneRegistryService of drone_registry/registry_service.py, wired to the tables of one database.
-- `hardware_config` is the JSON text that `register` makes of the payload's entry.
use sbd_drones_economics.Base.{
  ℕ, String, ℤ, Bool, true, not, Option, none, some, List, ◌==◌, ◌⊕◌, if◌then◌else◌, eqb, is_some,
  or_default, lookup, insert, strip, lower,
}
use sbd_drones_economics.Outcome.{
  Exception, Result, ok, err, value_error, integrity_error, key_error,
}
use sbd_drones_economics.Outcome.Action.{
  Action, pure, raise, lift, gets, modify, raise_if, or_raise, done, ◌>>=◌, ◌>>◌,
}
use sbd_drones_economics.Uas.Roles
use sbd_drones_economics.Uas.Models.{drone_record_fields}
use sbd_drones_economics.Uas.Goals.{normalize_canonical_security_goals}
use sbd_drones_economics.Uas.Policy.{
  or_text, regulator_register_status_ok, assert_drone_goals_subset_when_local_regulator,
}
use sbd_drones_economics.Uas.Company.{Firmware, Certificate, Drone, Company, note, Regulator, Ports}
use sbd_drones_economics.Uas.Certification.{get_certificate_snapshot}

-- What a registration carries; an absent text is the empty one.
pub record DroneForm : Type 0 where
  pub certificate_id : String
  pub firmware_id : String
  pub serial_number : String
  pub drone_type : String
  pub security_goals : List String
  pub correlation_id : String
  pub hardware_config : String
  pub price : ℤ
  pub actor : String

-- The regulator's registration: its identifier, version and status.
abbrev pub Registration : Type 0
Registration = String × ℕ × String

-- The refusal's reason, or the registration; a reply without an identifier raises `KeyError`.
unfoldable pub registration :
    (regulator : Option Regulator)
    → (correlation_id actor serial firmware_id certificate_id : String) → (goals : List String)
    → Result (Option String × Registration)
registration none correlation_id actor serial firmware_id certificate_id goals =
    ok (none, ("local-" ⊕ serial, 1, "registered_by_regulator"))
registration (some r) correlation_id actor serial firmware_id certificate_id goals =
    let reply =
      r.register_drone_instance correlation_id actor serial firmware_id certificate_id goals in
    if not (regulator_register_status_ok (lower reply.status))
    then ok
        (some (or_text reply.reason_code "registration rejected"), ("", 0, "registration_rejected"))
    else elim reply.registration_id [
      | none ↦ err (key_error "registration_id")
      | some i ↦ ok (
        none,
        (
          i,
          (if eqb reply.registration_version 0 then 1 else reply.registration_version),
          "registered_by_regulator",
        ),
      )
    ]

-- A failed registration is noted and then raised.
abbrev failed : (subject details : String) → Exception → Action Company Unit
failed subject details e = do
  note "drone_registration_failed" "error" "drone_registry" subject details
  raise e

abbrev failed_if : Bool → (subject details : String) → Exception → Action Company Unit
failed_if c subject details e = if c then failed subject details e else done

abbrev or_failed :
    {A : Type 0} → Option A → (subject details : String) → Exception → Action Company A
or_failed none subject details e = failed subject details e >> raise e
or_failed (some a) subject details e = pure a

-- `except ValueError as exc: try_record(...); raise`
abbrev or_failed_by :
    Result (Unit {0}) → (subject : String) → (String → String) → Action Company Unit
or_failed_by (ok a) subject details = done
or_failed_by (err (value_error m)) subject details = failed subject (details m) (value_error m)
or_failed_by (err e) subject details = raise e

-- The columns that `INSERT INTO drones` gives, the others by their defaults.
unfoldable pub drone_row :
    DroneForm
    → (serial drone_type firmware_id certificate_id correlation_id : String) → (goals : List String)
    → Registration
    → Certificate × ℤ
    → Firmware
    → Drone
drone_row form serial drone_type firmware_id certificate_id correlation_id goals reg (cert, cost)
      fw =
    record {
      serial_number = serial;
      drone_type = drone_type;
      firmware_id = firmware_id;
      certificate_id = certificate_id;
      security_goals = goals;
      price = form.price;
      status = "available";
      registration_id = reg.0;
      registration_status = reg.2;
      registration_version = reg.1;
      regulator_reason = "";
      owner_operator_id = "";
      last_regulator_correlation_id = correlation_id;
      hardware_config = form.hardware_config;
      destination_droneport_id = "";
      delivery_status = "none";
      delivered_at = "";
      physical_safety_responsibility = "developer";
      certificate_status = or_text cert.certificate_status "active";
      certificate_effective_security_goals = cert.effective_security_goals;
      certificate_security_goals = cert.security_goals;
      firmware_supplier = fw.supplier;
      firmware_hash = fw.firmware_hash;
      firmware_security_goals = fw.security_goals;
      certification_cost = cost;
    }

-- The serial number, the registration's identifier and status, and the correlation id.
unfoldable pub register :
    (ports : Ports)
    → (token actor_role : String) → DroneForm
    → Action Company (String × String × String × String)
register ports token actor_role form = do
  lift (Roles.require_role actor_role Roles.developer)
  let certificate_id = strip form.certificate_id
  let firmware_id = strip form.firmware_id
  let serial = strip form.serial_number
  let drone_type = strip form.drone_type
  goals ← lift (normalize_canonical_security_goals form.security_goals true)
  let correlation_id = or_text (strip form.correlation_id) ("reg-" ⊕ token)
  c ← gets (λ c. c)
  certificate ←
      or_failed (get_certificate_snapshot certificate_id firmware_id c)
        (or_text (or_text serial certificate_id) firmware_id)
        ("reason=no_matching_certificate certificate_id=" ⊕ certificate_id ⊕ " firmware_id="
          ⊕ firmware_id ⊕ " correlation_id=" ⊕ correlation_id)
        (value_error "certified firmware is required")
  failed_if (or_text certificate.0.certificate_status "active" == "revoked") serial
      ("reason=certificate_revoked certificate_id=" ⊕ certificate_id ⊕ " firmware_id=" ⊕ firmware_id
        ⊕ " correlation_id=" ⊕ correlation_id)
      (value_error "certificate revoked")
  or_failed_by
      (assert_drone_goals_subset_when_local_regulator goals certificate.0.effective_security_goals
        (is_some ports.regulator))
      serial (λ m. "reason=" ⊕ m ⊕ " correlation_id=" ⊕ correlation_id)
  fw ←
      or_raise (lookup firmware_id c.firmware)
        (value_error "firmware is not found for registration")
  lift (
      drone_record_fields serial drone_type firmware_id certificate_id goals form.price "available")
  outcome ← lift (
      registration ports.regulator correlation_id (or_text (strip form.actor) "uas-developer")
        serial firmware_id certificate_id goals)
  failed_if (is_some outcome.0) serial
      ("reason=regulator_rejected "
        ⊕ or_default outcome.0 ""
        ⊕ " correlation_id="
        ⊕ correlation_id
        ⊕ " firmware_id="
        ⊕ firmware_id
        ⊕ " certificate_id="
        ⊕ certificate_id)
      (value_error (or_default outcome.0 ""))
  c' ← gets (λ c. c)
  raise_if (is_some (lookup serial c'.drones))
      (integrity_error "UNIQUE constraint failed: drones.serial_number")
  modify (λ c. record c {
    drones =
        insert serial
          (drone_row form serial drone_type firmware_id certificate_id correlation_id goals
            outcome.1 certificate fw)
          c.drones;
  })
  note "drone_registered" "info" "drone_registry" serial (
      "registration_id=" ⊕ outcome.1.0 ⊕ " firmware_id=" ⊕ firmware_id ⊕ " certificate_id="
      ⊕ certificate_id)
  pure (serial, outcome.1.0, outcome.1.2, correlation_id)
