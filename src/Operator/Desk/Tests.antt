-- ===== src/Operator/Desk/Tests.antt =====
-- A drone that is taken in and given away.
use sbd_drones_economics.Base.{
  ◌≡◌, refl, true, false, ◌&&◌, none, some, [], ◌∷◌, ◌==◌, ◌⊕◌, lookup, contains, strip,
}
use sbd_drones_economics.Base.Floats.{hundredths}
use sbd_drones_economics.Outcome.{is_ok}
use sbd_drones_economics.Regulator.{serve as issue, register_drone_cert, handle_verify_drone_cert}
use sbd_drones_economics.Regulator.Issue.{certified_drones}
use sbd_drones_economics.Operator.Desk.{
  Drone, DroneForm, send_to_nus, Operator, handle_register_drone, handle_select_drone, serve,
}
use sbd_drones_economics.Operator.Desk.Assignment.{handle_select_drone_once}
use sbd_drones_economics.Operator.Desk.Admission.{
  new_regulator, answer_of, handle_register_drone_iff,
}

abbrev drone : Drone
drone = record {
  drone_id = "d1";
  model = "inspector";
  capabilities = "";
  status = "available";
  operator_id = "op";
  assigned_order = none;
}

abbrev operator : Operator hundredths
operator = record { component_id = "op"; registry = ("d1", drone) ∷ [] }

selected : is_ok (handle_select_drone hundredths "d1" "o1" operator).0 ≡ true
unfolding handle_select_drone
selected = refl

handle_select_drone_once_example :
    let later =
      serve hundredths
        (send_to_nus "o1" ∷ [])
        (handle_select_drone hundredths "d1" "o1" operator).2 in
    ((x : Drone) × (lookup "d1" later.registry ≡ some x) × (x.assigned_order ≡ some "o1"))
    × (is_ok (handle_select_drone hundredths "d1" "o2" later).0 ≡ false)
handle_select_drone_once_example =
    handle_select_drone_once hundredths "d1" "o1" "o2" (send_to_nus "o1" ∷ []) operator selected
      (refl, tt)

abbrev form : DroneForm
form = record { drone_id = "d2"; certificate_id = "cert-drone-d2"; model = ""; capabilities = "" }

unpadded : (strip "d2" ≡ "d2") × (strip "cert-drone-d2" ≡ "cert-drone-d2")
unfolding strip
unpadded = (refl, refl)

handle_register_drone_iff_example :
    is_ok
      (handle_register_drone hundredths form
        (some (
          answer_of hundredths
            (handle_verify_drone_cert "d2" "cert-drone-d2"
              (issue (register_drone_cert "d2" ∷ []) new_regulator)).0))
        operator).0
    ≡ (("cert-drone-d2" == ("cert-drone-" ⊕ "d2"))
        && contains (certified_drones (register_drone_cert "d2" ∷ [])) "d2")
handle_register_drone_iff_example =
    handle_register_drone_iff hundredths form (register_drone_cert "d2" ∷ []) operator unpadded.0
      unpadded.1 refl refl
