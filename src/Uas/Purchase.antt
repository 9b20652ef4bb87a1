-- ===== src/Uas/Purchase.antt =====
-- PurchaseService of purchase_service/purchase_core.py, with the registry in the same process or
-- behind the security monitor, where the handlers of drone_registry/handlers.py serve it. The
-- tokens are what `uuid` gives, `now` is the formatted time.
pub mod Checks
pub mod Sale
pub mod Atomic
pub mod Repeat
use sbd_drones_economics.Base.{
  ℕ, String, Bool, true, false, not, ◌&&◌, Option, none, some, List, [], ◌∷◌, ◌++◌, ◌==◌, ◌⊕◌,
  if◌then◌else◌, eqb, is_some, or_default, lookup, insert, strip,
}
use sbd_drones_economics.Outcome.{
  Exception, Result, ok, err, value_error, integrity_error, runtime_error,
}
use sbd_drones_economics.Outcome.Action.{
  Action, pure, lift, gets, modify, raise_if, or_raise, when, done, ◌>>=◌, ◌>>◌,
}
use sbd_drones_economics.Uas.Roles
use sbd_drones_economics.Uas.Models.{purchase_order}
use sbd_drones_economics.Uas.Policy.{
  or_text, regulator_reregistration_status_ok, drone_port_response_accepted,
  validate_purchase_prerequisites,
}
use sbd_drones_economics.Uas.Company.{
  Drone, PurchaseOrder, FleetMessage, reregistered, Company, note, Regulator, Ports,
  ReregisterReply, Registry, own_registry, by_monitor, no_registry, answers, raises, through,
}
use sbd_drones_economics.Uas.Drones.{
  get_drone_purchase_row, update_drone_after_purchase, update_drone_delivery,
}

abbrev pub unconnected : Exception
unconnected = runtime_error "PurchaseService: нужен registry или monitor_proxy_call"

-- `_get_drone_row`: the registry's handler strips the serial number, and the registry does not.
unfoldable pub get_drone_row : Registry → (serial_number : String) → Action Company (Option Drone)
get_drone_row own_registry serial_number = gets (get_drone_purchase_row serial_number)
get_drone_row (by_monitor answers sells delivers) serial_number =
    gets (get_drone_purchase_row (strip serial_number))
get_drone_row (by_monitor (raises applied e) sells delivers) serial_number = lift (err e)
get_drone_row no_registry serial_number = lift (err unconnected)

-- `_finalize_registry_purchase`, over what the registry does for it
unfoldable pub finalize_registry_purchase : Registry → Action Company Unit → Action Company Unit
finalize_registry_purchase own_registry act = act
finalize_registry_purchase (by_monitor reads sells delivers) act = through sells act
finalize_registry_purchase no_registry act = lift (err unconnected)

-- `_finalize_registry_delivery`, over what the registry does for it
unfoldable pub finalize_registry_delivery : Registry → Action Company Unit → Action Company Unit
finalize_registry_delivery own_registry act = act
finalize_registry_delivery (by_monitor reads sells delivers) act = through delivers act
finalize_registry_delivery no_registry act = lift (err unconnected)

-- The version and the goals that the regulator gives the drone; without a regulator, none.
unfoldable pub reregistration :
    (regulator : Option Regulator)
    → (r_corr operator_username : String) → PurchaseOrder
    → Drone
    → Result (ℕ × Option (List String))
reregistration none r_corr operator_username order drone = ok (0, none)
reregistration (some r) r_corr operator_username order drone =
    let reply =
      r.reregister_drone_instance r_corr drone.registration_id order.serial_number
        (or_text drone.firmware_supplier "uas-dev-company") operator_username order.order_id in
    if regulator_reregistration_status_ok reply.status
    then ok (reply.registration_version, reply.security_goals)
    else err (value_error (or_text reply.reason_code "reregistration rejected"))

-- `a or b or 1`, for versions
unfoldable pub new_version : (replied recorded : ℕ) → ℕ
new_version replied recorded =
    if eqb replied 0 then (if eqb recorded 0 then 1 else recorded) else replied

-- The message to the operator's fleet, where there is one.
abbrev tell_fleet :
    (told : Bool)
    → (r_corr operator_username serial_number : String) → (version : ℕ) → (goals : List String)
    → Drone
    → Action Company Unit
tell_fleet told r_corr operator_username serial_number version goals drone = when told (
    modify (λ c. record c {
      fleet =
          c.fleet
          ++ reregistered r_corr drone.registration_id version serial_number operator_username
              drone.certificate_id drone.firmware_id goals
            ∷ [];
    }))

-- The delivery status and the port's reason, after the port's answer is written down.
unfoldable pub deliver :
    Registry
    → (accepted : Bool) → (serial_number dest reason now : String)
    → Action Company (String × String)
deliver registry true serial_number dest reason now = do
  finalize_registry_delivery registry
      (update_drone_delivery serial_number "delivered" now "operator")
  note "drone_delivered_to_droneport" "notice" "purchase_service" serial_number ("port=" ⊕ dest)
  note "physical_responsibility_transferred" "warning" "purchase_service" serial_number
      "to=operator"
  pure ("delivered", reason)
deliver registry false serial_number dest reason now = do
  finalize_registry_delivery registry
      (update_drone_delivery serial_number "delivery_failed" "" "developer")
  note "drone_delivery_failed" "error" "purchase_service" serial_number
      ("port=" ⊕ dest ⊕ " reason=" ⊕ reason)
  pure ("delivery_failed", reason)

-- Delivery takes a regulator, a destination and a port.
unfoldable pub delivery :
    Ports → (serial_number dest now : String) → Drone → Action Company (String × String)
unfolding deliver
delivery ports serial_number dest now drone = elim ports.drone_port [
  | none ↦ pure ("none", "")
  | some port ↦
      if is_some ports.regulator && not (dest == "")
      then (let reply = port serial_number drone.drone_type dest in
          deliver ports.registry (drone_port_response_accepted reply.status) serial_number dest
            reply.reason_code now)
      else pure ("none", "")
]

-- The reply: the order, the correlation id, the delivery status and the port's reason.
pub record Purchased : Type 0 where
  pub order_id : String
  pub serial_number : String
  pub correlation_id : String
  pub delivery_status : String
  pub delivery_reason : String

-- `with self.storage.connect()`: the order goes into the table `purchases`.
unfoldable pub insert_order : PurchaseOrder → Action Company Unit
insert_order order = do
  c ← gets (λ c. c)
  raise_if (is_some (lookup order.order_id c.purchases))
      (integrity_error "UNIQUE constraint failed: purchases.order_id")
  modify (λ c. record c { purchases = insert order.order_id order c.purchases })

-- Everything that `purchase` checks before it writes: the order, the correlation id, the drone and
-- the outcome of its reregistration.
unfoldable pub prepare :
    Ports
    → (order_token corr_token actor_role operator_username serial_number correlation_id : String)
    → Action Company (PurchaseOrder × String × Drone × (ℕ × Option (List String)))
prepare ports order_token corr_token actor_role operator_username serial_number correlation_id = do
  lift (Roles.require_role actor_role Roles.operator)
  order ← lift (
      purchase_order (record {
        order_id = "order-" ⊕ order_token;
        serial_number = serial_number;
        operator_username = operator_username;
      }))
  let r_corr = or_text (strip correlation_id) ("rereg-" ⊕ corr_token)
  row ← get_drone_row ports.registry serial_number
  drone ← or_raise row (value_error "available certified drone is required")
  lift (
      validate_purchase_prerequisites drone.status drone.certificate_status
        drone.registration_status drone.registration_id (is_some ports.regulator))
  reg ← lift (reregistration ports.regulator r_corr operator_username order drone)
  pure (order, r_corr, drone, reg)

-- What follows the sale: the message to the fleet and the delivery.
unfoldable pub hand_over :
    Ports
    → (operator_username serial_number dest now : String)
    → PurchaseOrder × String × Drone × (ℕ × Option (List String))
    → Action Company Purchased
hand_over ports operator_username serial_number dest now (order, r_corr, drone, reg) = do
  note "drone_purchased" "notice" "purchase_service" order.order_id
      ("serial=" ⊕ serial_number ⊕ " operator=" ⊕ operator_username)
  tell_fleet (is_some ports.regulator && ports.has_fleet) r_corr operator_username serial_number
      (new_version reg.0 drone.registration_version) (or_default reg.1 drone.security_goals) drone
  result ← delivery ports serial_number dest now drone
  pure (record {
    order_id = order.order_id;
    serial_number = serial_number;
    correlation_id = r_corr;
    delivery_status = result.0;
    delivery_reason = result.1;
  })

-- What follows the checks: the order, the registry, the fleet and the delivery.
unfoldable pub complete :
    Ports
    → (operator_username serial_number dest now : String)
    → PurchaseOrder × String × Drone × (ℕ × Option (List String))
    → Action Company Purchased
complete ports operator_username serial_number dest now (order, r_corr, drone, reg) = do
  insert_order order
  finalize_registry_purchase ports.registry (
      update_drone_after_purchase serial_number operator_username dest r_corr
        (is_some ports.regulator) (new_version reg.0 drone.registration_version) reg.1)
  hand_over ports operator_username serial_number dest now (order, r_corr, drone, reg)

unfoldable pub purchase :
    Ports
    → (order_token corr_token actor_role operator_username serial_number : String)
    → (destination_droneport_id correlation_id now : String) → Action Company Purchased
purchase ports order_token corr_token actor_role operator_username serial_number destination
      correlation_id now =
    do
      checked ←
          prepare ports order_token corr_token actor_role operator_username serial_number
            correlation_id
      complete ports operator_username serial_number (strip destination) now checked
