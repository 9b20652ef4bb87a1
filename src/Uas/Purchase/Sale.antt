-- ===== src/Uas/Purchase/Sale.antt =====
-- What a completed purchase leaves in the tables.
use sbd_drones_economics.Base.{
  ◌⊎◌, ℕ, String, ◌≡◌, ◌≢◌, refl, Bool, true, false, ◌&&◌, Option, none, some, List, [], ◌∷◌, arith,
  ◌==◌, eq_iff, ◌⊕◌, lookup, insert, lookup-insert_self, or_default, ◌++◌, is_some, if◌then◌else◌,
  Option-cases, inl, inr,
}
use sbd_drones_economics.Outcome.{Exception, ok, err, result_cases}
use sbd_drones_economics.Outcome.Action.{Action}
use sbd_drones_economics.Uas.Journal.{record_event}
use sbd_drones_economics.Uas.Company.{
  Drone, PurchaseOrder, Company, Ports, note, reregistered, Registry, own_registry, by_monitor,
  no_registry, answers, raises,
}
use sbd_drones_economics.Uas.Drones.{sold, update_drone_after_purchase, update_drone_delivery}
use sbd_drones_economics.Uas.Drones.Updates.{lookup-update_where, IsFiled}
use sbd_drones_economics.Uas.Policy.{drone_port_response_accepted}
use sbd_drones_economics.Uas.Purchase.{
  deliver, delivery, insert_order, Purchased, complete, hand_over, new_version,
  finalize_registry_delivery, finalize_registry_purchase, unconnected,
}

-- Of a drone, what a sale is about: its serial number, its status and its owner.
abbrev pub sale : Option Drone → Option (String × String × String)
sale none = none
sale (some d) = some (d.serial_number, d.status, d.owner_operator_id)

abbrev pub sale_at : String → Company → Option (String × String × String)
sale_at k c = sale (lookup k c.drones)

pub update_drone_delivery-sale :
    (serial status at by k : String) (c : Company)
    → sale_at k (update_drone_delivery serial status at by c).1 ≡ sale_at k c
unfolding update_drone_delivery
update_drone_delivery-sale serial status at by k c = rw lookup-update_where (ground arith)

pub update_drone_after_purchase-sale :
    (serial operator dest r_corr : String) (mode : Bool) (version : ℕ)
    (goals : Option (List String)) (k : String) (c : Company)
    → IsFiled c
    → sale_at k (update_drone_after_purchase serial operator dest r_corr mode version goals c).1 ≡ (
        if k == serial && is_some (lookup k c.drones)
        then some (serial, (if mode then "sold_reregistered" else "sold"), operator)
        else sale_at k c)
unfolding update_drone_after_purchase sold
update_drone_after_purchase-sale serial operator dest r_corr mode version goals k c filed =
    elim (Option-cases (lookup k c.drones)) [
      | inl absent ↦ rw lookup-update_where (ground arith)
      | inr (d, e) ↦
          rw lookup-update_where
            (ground (arith, filed k d e, eq_iff k serial, eq_iff d.serial_number serial))
    ]

pub update_drone_after_purchase-purchases :
    (serial operator dest r_corr : String) (mode : Bool) (version : ℕ)
    (goals : Option (List String)) (c : Company)
    → (update_drone_after_purchase serial operator dest r_corr mode version goals c).1.purchases
      ≡ c.purchases
unfolding update_drone_after_purchase
update_drone_after_purchase-purchases serial operator dest r_corr mode version goals c = refl

-- An action that touches neither the sale of `k` nor the orders.
abbrev pub Keeps : {A : Type 0} → String → Action Company A → Type 0
Keeps k m = (c : Company) → (sale_at k (m c).1 ≡ sale_at k c) × ((m c).1.purchases ≡ c.purchases)

pub note-Keeps :
    (k event_type severity source subject details : String)
    → Keeps k (note event_type severity source subject details)
note-Keeps k t s o u d c = ground arith

update_drone_delivery-Keeps :
    (serial status at by k : String) → Keeps k (update_drone_delivery serial status at by)
unfolding update_drone_delivery
update_drone_delivery-Keeps serial status at by k c =
    (update_drone_delivery-sale serial status at by k c, refl)

finalize_registry_delivery-Keeps :
    (r : Registry) (act : Action Company Unit) (k : String)
    → Keeps k act
    → Keeps k (finalize_registry_delivery r act)
unfolding finalize_registry_delivery
finalize_registry_delivery-Keeps own_registry act k h c = h c
finalize_registry_delivery-Keeps (by_monitor reads sells answers) act k h c = h c
finalize_registry_delivery-Keeps (by_monitor reads sells (raises applied e)) act k h c =
    ground (arith, h c)
finalize_registry_delivery-Keeps no_registry act k h c = (refl, refl)

delivered-Keeps :
    (r : Registry) (serial status at by k : String)
    → Keeps k (finalize_registry_delivery r (update_drone_delivery serial status at by))
delivered-Keeps r serial status at by k =
    finalize_registry_delivery-Keeps r (update_drone_delivery serial status at by) k
      (update_drone_delivery-Keeps serial status at by k)

deliver-Keeps :
    (r : Registry) (accepted : Bool) (serial dest reason now k : String)
    → Keeps k (deliver r accepted serial dest reason now)
unfolding deliver
deliver-Keeps r true serial dest reason now k c =
    ground (arith, delivered-Keeps r serial "delivered" now "operator" k c)
deliver-Keeps r false serial dest reason now k c =
    ground (arith, delivered-Keeps r serial "delivery_failed" "" "developer" k c)

delivery-Keeps :
    (ports : Ports) (serial dest now : String) (d : Drone) (k : String)
    → Keeps k (delivery ports serial dest now d)
unfolding delivery
delivery-Keeps ports serial dest now d k c = elim (Option-cases ports.drone_port) [
  | inl absent ↦ ground arith
  | inr (port, e) ↦
      let reply = port serial d.drone_type dest in
      ground (
        arith,
        deliver-Keeps ports.registry (drone_port_response_accepted reply.status) serial dest
            reply.reason_code now k c,
      )
]

pub hand_over-Keeps :
    (ports : Ports) (operator serial dest now k : String)
    (checked : PurchaseOrder × String × Drone × (ℕ × Option (List String)))
    → Keeps k (hand_over ports operator serial dest now checked)
unfolding hand_over
hand_over-Keeps ports operator serial dest now k (order, r_corr, drone, reg) c =
    let d = ("serial=" ⊕ serial ⊕ " operator=" ⊕ operator) in
    let version = new_version reg.0 drone.registration_version in
    elim (result_cases
      (record_event c.journal "drone_purchased" "notice" "purchase_service" order.order_id d)) [
        | inr (e, q) ↦ ground arith
        | inl (j, q) ↦ ground (
          arith,
          delivery-Keeps ports serial dest now drone k (record c { journal = j }),
          delivery-Keeps ports serial dest now drone k (record c {
            journal = j;
            fleet =
                c.fleet
                ++ reregistered r_corr drone.registration_id version serial operator
                    drone.certificate_id drone.firmware_id (or_default reg.1 drone.security_goals)
                  ∷ [];
          }),
        )
      ]

-- What a sale leaves: the drone sold to the operator, the order, and every other drone as it was.
pub record Settled (order : PurchaseOrder) (operator serial : String) (mode : Bool) (c c' : Company)
    : Type 0 where
  pub sold_to :
      sale_at serial c' ≡ some (serial, (if mode then "sold_reregistered" else "sold"), operator)
  pub order_kept : lookup order.order_id c'.purchases ≡ some order
  pub others_kept : (k : String) → k ≢ serial → sale_at k c' ≡ sale_at k c

-- A sale that the registry is asked for is made, or the purchase fails.
pub finalize_registry_purchase_cases :
    (r : Registry) (act : Action Company Unit) (c : Company)
    → (finalize_registry_purchase r act c ≡ act c)
      ⊎ ((e : Exception) × ((finalize_registry_purchase r act c).0 ≡ err e))
unfolding finalize_registry_purchase
finalize_registry_purchase_cases own_registry act c = inl refl
finalize_registry_purchase_cases (by_monitor reads answers d) act c = inl refl
finalize_registry_purchase_cases (by_monitor reads (raises true x) d) act c =
    elim (result_cases (act c).0) [
      | inl (a, q) ↦ inr (x, ground (arith, q))
      | inr (y, q) ↦ inr (y, ground (arith, q))
    ]
finalize_registry_purchase_cases (by_monitor reads (raises false x) d) act c = inr (x, refl)
finalize_registry_purchase_cases no_registry act c = inr (unconnected, refl)

pub complete-Settled :
    (ports : Ports) (operator serial dest now : String) (order : PurchaseOrder) (r_corr : String)
    (drone : Drone) (reg : ℕ × Option (List String)) (c c' : Company) (p : Purchased)
    → IsFiled c
    → lookup serial c.drones ≡ some drone
    → complete ports operator serial dest now (order, r_corr, drone, reg) c ≡ (ok p, c')
    → Settled order operator serial (is_some ports.regulator) c c'
unfolding complete insert_order
complete-Settled ports operator serial dest now order r_corr drone reg c c' p filed found h =
    let c1 : Company = record c { purchases = insert order.order_id order c.purchases } in
    let c2 =
      (update_drone_after_purchase serial operator dest r_corr (is_some ports.regulator)
        (new_version reg.0 drone.registration_version) reg.1 c1).1 in
    let sell =
      update_drone_after_purchase serial operator dest r_corr (is_some ports.regulator)
        (new_version reg.0 drone.registration_version) reg.1 in
    let sale_after = λ (k : String).
      update_drone_after_purchase-sale serial operator dest r_corr (is_some ports.regulator)
        (new_version reg.0 drone.registration_version) reg.1 k c1 filed in
    let kept = λ (k : String).
      hand_over-Keeps ports operator serial dest now k (order, r_corr, drone, reg) c2 in
    let made : finalize_registry_purchase ports.registry sell c1 ≡ sell c1 =
      elim (finalize_registry_purchase_cases ports.registry sell c1) [
        | inl e ↦ e
        | inr (e, q) ↦ ground arith
      ] in
    record {
      sold_to = ground (arith, sale_after serial, kept serial, eq_iff serial serial);
      order_kept = ground (
        arith,
        update_drone_after_purchase-purchases serial operator dest r_corr (is_some ports.regulator)
            (new_version reg.0 drone.registration_version) reg.1 c1,
        kept serial,
        lookup-insert_self order.order_id order c.purchases,
      );
      others_kept = λ k ne. ground (arith, sale_after k, kept k, eq_iff k serial);
    }
