-- ===== src/Uas/Purchase/Atomic.antt =====
-- `purchase` as a whole: its success and its refusals.
use sbd_drones_economics.Base.{
  ℕ, String, ◌≡◌, refl, subst, Bool, true, false, Option, some, List, [], ◌∷◌, ◌++◌, arith, ◌==◌,
  ◌⊕◌, lookup, insert, is_some, is_space, strip, strip-append_ne, Option-cases, inl, inr,
  or_default,
}
use sbd_drones_economics.Outcome.Action.{Action}
use sbd_drones_economics.Outcome.{Exception, ok, err, is_ok}
use sbd_drones_economics.Uas.Roles
use sbd_drones_economics.Uas.Journal.{record_event-ok}
use sbd_drones_economics.Uas.Policy.{Sellable, drone_port_response_accepted}
use sbd_drones_economics.Uas.Company.{
  Drone, PurchaseOrder, Company, Ports, note, reregistered, Registry, own_registry, by_monitor,
  no_registry, answers,
}
use sbd_drones_economics.Uas.Drones.{update_drone_delivery, update_drone_after_purchase}
use sbd_drones_economics.Uas.Drones.Updates.{IsFiled}
use sbd_drones_economics.Uas.Purchase.{
  Purchased, complete, purchase, hand_over, delivery, deliver, insert_order, new_version,
  finalize_registry_purchase, finalize_registry_delivery,
}
use sbd_drones_economics.Uas.Purchase.Checks.{prepare_cases, prepare-Checked, key_of}
use sbd_drones_economics.Uas.Purchase.Sale.{Settled, complete-Settled}

module _ (ports : Ports) (order_token corr_token role operator serial : String)
    (destination corr now : String) where
  -- The order of a purchase.
  abbrev pub order_of : PurchaseOrder
  order_of = record {
    order_id = "order-" ⊕ order_token;
    serial_number = serial;
    operator_username = operator;
  }

  -- Where the drones stand under their serial numbers, and the registry is in the same process or
  -- the serial number that is asked for has no blanks around it, a purchase that succeeds was made
  -- by an operator of a drone that may be sold, and leaves the drone sold to that operator, the
  -- order in the table, and every other drone with its status and owner.
  pub purchase-Settled :
      (c c' : Company) (p : Purchased)
      → IsFiled c
      → key_of ports.registry serial ≡ serial
      → purchase ports order_token corr_token role operator serial destination corr now c
        ≡ (ok p, c')
      → (role ≡ Roles.operator)
        × ((drone : Drone) × (lookup serial c.drones ≡ some drone)
            × Sellable drone.status drone.certificate_status drone.registration_status
                drone.registration_id
                (is_some ports.regulator))
        × Settled order_of operator serial (is_some ports.regulator) c c'
  unfolding purchase
  purchase-Settled c c' p filed named h =
      elim (prepare_cases ports order_token corr_token role operator serial corr c) [
        | inr (x, e) ↦ ground arith
        | inl (order, r_corr, drone, reg, e) ↦
            let k =
              prepare-Checked ports order_token corr_token role operator serial corr c c order
                r_corr drone reg e in
            let on_record : lookup serial c.drones ≡ some drone =
              subst (λ i. lookup i c.drones ≡ some drone) named k.on_record in
            (
              k.by_operator,
              (drone, on_record, k.sellable),
              subst (λ o. Settled o operator serial (is_some ports.regulator) c c') k.ordered
                  (complete-Settled ports operator serial (strip destination) now order r_corr drone
                    reg c c' p filed on_record (ground arith)),
            )
      ]

-- The registry is in the same process, or its answers to a sale and to a delivery come.
abbrev pub IsAnswering : Registry → Type 0
IsAnswering own_registry = Unit {0}
IsAnswering (by_monitor reads sells delivers) = (sells ≡ answers) × (delivers ≡ answers)
IsAnswering no_registry = ⊥

answering_sale :
    (r : Registry) (act : Action Company Unit) (c : Company)
    → IsAnswering r
    → finalize_registry_purchase r act c ≡ act c
unfolding finalize_registry_purchase
answering_sale own_registry act c h = refl
answering_sale (by_monitor reads sells delivers) act c h = rw h.0 refl
answering_sale no_registry act c h = elim h [ ]

answering_delivery :
    (r : Registry) (act : Action Company Unit) (c : Company)
    → IsAnswering r
    → finalize_registry_delivery r act c ≡ act c
unfolding finalize_registry_delivery
answering_delivery own_registry act c h = refl
answering_delivery (by_monitor reads sells delivers) act c h = rw h.1 refl
answering_delivery no_registry act c h = elim h [ ]

-- An event of a purchase, with its subject, is always recorded.
note-ok :
    (event_type severity subject details : String) (c : Company)
    → (strip event_type == "") ≡ false
    → (strip severity == "") ≡ false
    → (strip subject == "") ≡ false
    → (note event_type severity "purchase_service" subject details c).0 ≡ ok tt
unfolding strip
note-ok t s u d c ht hs hu =
    ground (arith, record_event-ok c.journal t s "purchase_service" u d ht hs refl hu)

deliver-is_ok :
    (r : Registry) (accepted : Bool) (serial dest reason now : String) (c : Company)
    → IsAnswering r
    → (strip serial == "") ≡ false
    → is_ok (deliver r accepted serial dest reason now c).0 ≡ true
unfolding deliver update_drone_delivery strip
deliver-is_ok r true serial dest reason now c live hs =
    let c1 = (update_drone_delivery serial "delivered" now "operator" c).1 in
    let d1 = "port=" ⊕ dest in
    let c2 = (note "drone_delivered_to_droneport" "notice" "purchase_service" serial d1 c1).1 in
    ground (
      arith,
      answering_delivery r (update_drone_delivery serial "delivered" now "operator") c live,
      note-ok "drone_delivered_to_droneport" "notice" serial d1 c1 refl refl hs,
      note-ok "physical_responsibility_transferred" "warning" serial "to=operator" c2 refl refl hs,
    )
deliver-is_ok r false serial dest reason now c live hs =
    let c1 = (update_drone_delivery serial "delivery_failed" "" "developer" c).1 in
    ground (
      arith,
      answering_delivery r (update_drone_delivery serial "delivery_failed" "" "developer") c live,
      note-ok "drone_delivery_failed" "error" serial ("port=" ⊕ dest ⊕ " reason=" ⊕ reason) c1 refl
          refl hs,
    )

delivery-is_ok :
    (ports : Ports) (serial dest now : String) (d : Drone) (c : Company)
    → IsAnswering ports.registry
    → (strip serial == "") ≡ false
    → is_ok (delivery ports serial dest now d c).0 ≡ true
unfolding delivery
delivery-is_ok ports serial dest now d c live hs = elim (Option-cases ports.drone_port) [
  | inl absent ↦ ground arith
  | inr (port, e) ↦
      let reply = port serial d.drone_type dest in
      ground (
        arith,
        deliver-is_ok ports.registry (drone_port_response_accepted reply.status) serial dest
            reply.reason_code now c live hs,
      )
]

hand_over-is_ok :
    (ports : Ports) (operator serial dest now : String) (order : PurchaseOrder) (r_corr : String)
    (drone : Drone) (reg : ℕ × Option (List String)) (c : Company)
    → IsAnswering ports.registry
    → (strip order.order_id == "") ≡ false
    → (strip serial == "") ≡ false
    → is_ok (hand_over ports operator serial dest now (order, r_corr, drone, reg) c).0 ≡ true
unfolding hand_over strip
hand_over-is_ok ports operator serial dest now order r_corr drone reg c live ho hs =
    let d = "serial=" ⊕ serial ⊕ " operator=" ⊕ operator in
    let c1 = (note "drone_purchased" "notice" "purchase_service" order.order_id d c).1 in
    let told =
      reregistered r_corr drone.registration_id (new_version reg.0 drone.registration_version)
        serial operator drone.certificate_id drone.firmware_id
        (or_default reg.1 drone.security_goals) in
    ground (
      arith,
      note-ok "drone_purchased" "notice" order.order_id d c refl refl ho,
      delivery-is_ok ports serial dest now drone c1 live hs,
      delivery-is_ok ports serial dest now drone (record c1 { fleet = c1.fleet ++ told ∷ [] }) live
          hs,
    )

update_drone_after_purchase-is_ok :
    (serial operator dest r_corr : String) (mode : Bool) (version : ℕ)
    (goals : Option (List String)) (c : Company)
    → (update_drone_after_purchase serial operator dest r_corr mode version goals c).0 ≡ ok tt
unfolding update_drone_after_purchase
update_drone_after_purchase-is_ok serial operator dest r_corr mode version goals c = refl

complete-atomic :
    (ports : Ports) (operator serial dest now : String) (order : PurchaseOrder) (r_corr : String)
    (drone : Drone) (reg : ℕ × Option (List String)) (c c' : Company) (e : Exception)
    → IsAnswering ports.registry
    → (strip order.order_id == "") ≡ false
    → (strip serial == "") ≡ false
    → complete ports operator serial dest now (order, r_corr, drone, reg) c ≡ (err e, c')
    → c' ≡ c
unfolding complete insert_order
complete-atomic ports operator serial dest now order r_corr drone reg c c' x live ho hs h =
    let c1 : Company = record c { purchases = insert order.order_id order c.purchases } in
    let sell =
      update_drone_after_purchase serial operator dest r_corr (is_some ports.regulator)
        (new_version reg.0 drone.registration_version) reg.1 in
    let c2 =
      (update_drone_after_purchase serial operator dest r_corr (is_some ports.regulator)
        (new_version reg.0 drone.registration_version) reg.1 c1).1 in
    ground (
      arith,
      hand_over-is_ok ports operator serial dest now order r_corr drone reg c2 live ho hs,
      answering_sale ports.registry sell c1 live,
      update_drone_after_purchase-is_ok serial operator dest r_corr (is_some ports.regulator)
          (new_version reg.0 drone.registration_version) reg.1 c1,
    )

-- Where the regulator, the fleet and the drone port answer, and the registry is in the same process
-- or answers what the sale and the delivery ask it, a purchase that is refused, at whatever step,
-- leaves every table, the journal and the messages to the fleet as they were.
pub purchase-atomic :
    (ports : Ports) (order_token corr_token role operator serial destination corr now : String)
    (c c' : Company) (e : Exception)
    → IsAnswering ports.registry
    → purchase ports order_token corr_token role operator serial destination corr now c
      ≡ (err e, c')
    → c' ≡ c
unfolding purchase is_space
purchase-atomic ports ot ct role operator serial dest corr now c c' x live h =
    elim (prepare_cases ports ot ct role operator serial corr c) [
      | inr (e, q) ↦ ground arith
      | inl (order, r_corr, drone, reg, q) ↦
          let k =
            prepare-Checked ports ot ct role operator serial corr c c order r_corr drone reg q in
          complete-atomic ports operator serial (strip dest) now order r_corr drone reg c c' x live
            (rw k.ordered (strip-append_ne "o" "rder-" ot refl)) k.named (ground arith)
    ]
