-- ===== src/Regulator.antt =====
-- RegulatorComponent of systems/regulator/src/regulator_component/src/regulator_component.py: the
-- systems it knows and the certificates it has issued. Absent fields of a message are empty texts.
pub mod Issue
mod Tests
use sbd_drones_economics.Base.{
  String, Bool, ◌||◌, ◌&&◌, Option, none, some, List, [], ◌∷◌, ◌==◌, ◌⊕◌, Dict, lookup, insert,
  is_some, strip, if◌then◌else◌,
}
use sbd_drones_economics.Outcome.{Result, ok, err, value_error}

pub record Regulator : Type 0 where
  pub systems : Dict String
  pub drone_certs : Dict String
  pub operator_certs : Dict String

pub data Request : Type 0 where
  register_system : (system_id system_type : String) → Request
  verify_system : (system_id : String) → Request
  register_drone_cert : (drone_id : String) → Request
  verify_drone_cert : (drone_id certificate_id : String) → Request
  register_operator_cert : (operator_id : String) → Request
  verify_operator_cert : (operator_id certificate_id : String) → Request

pub data Reply : Type 0 where
  registered : (system_id : String) → Reply
  verified : Bool → (system_id : String) → Reply
  issued : (certificate_id holder : String) → Reply
  valid : Bool → (holder certificate_id : String) → Reply

-- `certs.get(certificate_id) == holder`
abbrev pub is_held_by : (certificate_id holder : String) → Dict String → Bool
is_held_by certificate_id holder certs = elim (lookup certificate_id certs) [
  | none ↦ Bool.false
  | some h ↦ h == holder
]

unfoldable pub handle_register_system :
    (system_id system_type : String) → Regulator → Result Reply × Regulator
handle_register_system system_id system_type r =
    if strip system_id == "" then (err (value_error "system_id is required"), r) else (
      ok (registered (strip system_id)),
      record r { systems = insert (strip system_id) (strip system_type) r.systems },
    )

unfoldable pub handle_verify_system : (system_id : String) → Regulator → Result Reply × Regulator
handle_verify_system system_id r =
    (ok (verified (is_some (lookup (strip system_id) r.systems)) (strip system_id)), r)

unfoldable pub handle_register_drone_cert :
    (drone_id : String) → Regulator → Result Reply × Regulator
handle_register_drone_cert drone_id r =
    if strip drone_id == "" then (err (value_error "drone_id is required"), r) else (
      ok (issued ("cert-drone-" ⊕ strip drone_id) (strip drone_id)),
      record r {
        drone_certs = insert ("cert-drone-" ⊕ strip drone_id) (strip drone_id) r.drone_certs;
      },
    )

unfoldable pub handle_verify_drone_cert :
    (drone_id certificate_id : String) → Regulator → Result Reply × Regulator
handle_verify_drone_cert drone_id certificate_id r =
    if strip drone_id == "" || strip certificate_id == ""
    then (err (value_error "drone_id and certificate_id are required"), r)
    else (
      ok (
          valid (is_held_by (strip certificate_id) (strip drone_id) r.drone_certs) (strip drone_id)
            (strip certificate_id)),
      r,
    )

unfoldable pub handle_register_operator_cert :
    (operator_id : String) → Regulator → Result Reply × Regulator
handle_register_operator_cert operator_id r =
    if strip operator_id == "" then (err (value_error "operator_id is required"), r) else (
      ok (issued ("cert-op-" ⊕ strip operator_id) (strip operator_id)),
      record r {
        operator_certs =
            insert ("cert-op-" ⊕ strip operator_id) (strip operator_id) r.operator_certs;
      },
    )

unfoldable pub handle_verify_operator_cert :
    (operator_id certificate_id : String) → Regulator → Result Reply × Regulator
handle_verify_operator_cert operator_id certificate_id r =
    if strip operator_id == "" || strip certificate_id == ""
    then (err (value_error "operator_id and certificate_id are required"), r)
    else (
      ok (
          valid (is_held_by (strip certificate_id) (strip operator_id) r.operator_certs)
            (strip operator_id) (strip certificate_id)),
      r,
    )

unfoldable pub handle : Request → Regulator → Result Reply × Regulator
handle (register_system i t) r = handle_register_system i t r
handle (verify_system i) r = handle_verify_system i r
handle (register_drone_cert i) r = handle_register_drone_cert i r
handle (verify_drone_cert i c) r = handle_verify_drone_cert i c r
handle (register_operator_cert i) r = handle_register_operator_cert i r
handle (verify_operator_cert i c) r = handle_verify_operator_cert i c r

-- The regulator after the messages, in their order.
unfoldable pub serve : List Request → Regulator → Regulator
serve [] r = r
serve (q ∷ qs) r = serve qs (handle q r).1
