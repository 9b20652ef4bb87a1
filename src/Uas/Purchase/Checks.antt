-- ===== src/Uas/Purchase/Checks.antt =====
-- What `purchase` checks before it writes.
use sbd_drones_economics.Base.{
  refl, ℕ, String, ◌≡◌, ap₂, ◌⊎◌, false, Option, some, List, arith, ◌==◌, ◌⊕◌, lookup, is_some,
  strip, inl, inr,
}
use sbd_drones_economics.Outcome.{Exception, ok, err, result_cases}
use sbd_drones_economics.Uas.Roles
use sbd_drones_economics.Uas.Roles.{require_role-eq_ok}
use sbd_drones_economics.Uas.Models.{purchase_order-eq_ok, purchase_order-serial}
use sbd_drones_economics.Uas.Policy.{Sellable, validate_purchase_prerequisites_iff}
use sbd_drones_economics.Uas.Company.{
  Drone, PurchaseOrder, Company, Ports, Registry, own_registry, by_monitor, no_registry, answers,
  raises,
}
use sbd_drones_economics.Uas.Purchase.{prepare, get_drone_row}

-- The serial number under which the registry is asked for the drone.
abbrev pub key_of : Registry → String → String
key_of (by_monitor _ _ _) serial = strip serial
key_of _ serial = serial

get_drone_row_keeps :
    (r : Registry) (serial : String) (c : Company) → (get_drone_row r serial c).1 ≡ c
unfolding get_drone_row
get_drone_row_keeps own_registry serial c = refl
get_drone_row_keeps (by_monitor answers s d) serial c = refl
get_drone_row_keeps (by_monitor (raises applied e) s d) serial c = refl
get_drone_row_keeps no_registry serial c = refl

get_drone_row_found :
    (r : Registry) (serial : String) (c : Company) (row : Option Drone)
    → (get_drone_row r serial c).0 ≡ ok row
    → lookup (key_of r serial) c.drones ≡ row
unfolding get_drone_row
get_drone_row_found own_registry serial c row h = ground arith
get_drone_row_found (by_monitor answers s d) serial c row h = ground arith
get_drone_row_found (by_monitor (raises applied e) s d) serial c row h = ground arith
get_drone_row_found no_registry serial c row h = ground arith

module _ (ports : Ports) (order_token corr_token role operator serial corr : String) where
  pub prepare_keeps :
      (c : Company) → (prepare ports order_token corr_token role operator serial corr c).1 ≡ c
  unfolding prepare
  prepare_keeps c = ground (arith, get_drone_row_keeps ports.registry serial c)

  -- What a purchase that passes the checks has found.
  pub record Checked (c : Company) (order : PurchaseOrder) (drone : Drone) : Type 0 where
    pub by_operator : role ≡ Roles.operator
    pub ordered : order ≡ record {
      order_id = "order-" ⊕ order_token;
      serial_number = serial;
      operator_username = operator;
    }
    pub named : (strip serial == "") ≡ false
    pub on_record : lookup (key_of ports.registry serial) c.drones ≡ some drone
    pub sellable :
        Sellable drone.status drone.certificate_status drone.registration_status
          drone.registration_id
          (is_some ports.regulator)

  pub prepare-Checked :
      (c c' : Company) (order : PurchaseOrder) (r_corr : String) (drone : Drone)
      (reg : ℕ × Option (List String))
      → prepare ports order_token corr_token role operator serial corr c
        ≡ (ok (order, r_corr, drone, reg), c')
      → Checked c order drone
  unfolding prepare
  prepare-Checked c c' order r_corr drone reg h =
      let asked : PurchaseOrder = record {
        order_id = "order-" ⊕ order_token;
        serial_number = serial;
        operator_username = operator;
      } in
      record {
        by_operator = ground (arith, require_role-eq_ok role Roles.operator);
        ordered = ground (arith, purchase_order-eq_ok asked {o' = order});
        named = ground (arith, purchase_order-serial asked {o' = order});
        on_record =
            get_drone_row_found ports.registry serial c (some drone)
              (ground (arith, get_drone_row_keeps ports.registry serial c));
        sellable =
            (validate_purchase_prerequisites_iff drone.status drone.certificate_status
                drone.registration_status drone.registration_id (is_some ports.regulator)).0
              (ground arith);
      }

  -- The checks pass or fail, and write nothing.
  pub prepare_cases :
      (c : Company)
      → ((order : PurchaseOrder) × (r_corr : String) × (drone : Drone) × (reg : ℕ
            × Option (List String))
          × (prepare ports order_token corr_token role operator serial corr c
              ≡ (ok (order, r_corr, drone, reg), c)))
        ⊎ ((e : Exception) × (prepare ports order_token corr_token role operator serial corr c
              ≡ (err e, c)))
  prepare_cases c =
      elim (result_cases (prepare ports order_token corr_token role operator serial corr c).0) [
        | inl ((order, r_corr, drone, reg), e) ↦
            inl (order, r_corr, drone, reg, ap₂ (λ a b. (a, b)) e (prepare_keeps c))
        | inr (x, e) ↦ inr (x, ap₂ (λ a b. (a, b)) e (prepare_keeps c))
      ]
