-- ===== src/Uas/Models.antt =====
-- The checks that shared/models.py makes when a record is built (`__post_init__`).
use sbd_drones_economics.Base.{
  String, ℤ, is_negative, Bool, true, false, ◌&&◌, ◌||◌, List, [], ◌∷◌, ◌==◌, strip, ◌≡◌, arith,
}
use sbd_drones_economics.Outcome.{Result, ok, value_error, raise_if, ◌>>=◌, ◌>>◌}
use sbd_drones_economics.Uas.Journal.{require_text}
use sbd_drones_economics.Uas.Goals.{normalize_canonical_security_goals}
use sbd_drones_economics.Uas.Company.{Firmware, PurchaseOrder}

abbrev is_empty : List String → Bool
is_empty [] = true
is_empty (_ ∷ _) = false

unfoldable pub firmware_version : Firmware → Result Firmware
unfolding require_text
firmware_version f = do
  _ ← require_text f.firmware_id "firmware_id"
  _ ← require_text f.supplier "supplier"
  _ ← require_text f.drone_type "drone_type"
  _ ← require_text f.version "version"
  _ ← require_text f.authenticity_proof "authenticity_proof"
  raise_if
      (strip f.firmware_hash == ""
        && (strip f.source_repo_url == "" || strip f.source_commit == ""))
      (value_error "нужно указать firmware_hash или пару source_repo_url + source_commit")
  raise_if (is_empty f.security_goals) (value_error "security_goals are required")
  _ ← normalize_canonical_security_goals f.security_goals false
  ok f

unfoldable pub certificate_fields :
    (certificate_id firmware_id : String)
    → (security_goals : List String) → (signed_by : String) → Result (Unit {0})
unfolding require_text
certificate_fields certificate_id firmware_id security_goals signed_by = do
  _ ← require_text certificate_id "certificate_id"
  _ ← require_text firmware_id "firmware_id"
  _ ← require_text signed_by "signed_by"
  raise_if (is_empty security_goals) (value_error "security_goals are required")
  _ ← normalize_canonical_security_goals security_goals false
  ok tt

unfoldable pub drone_record_fields :
    (serial_number drone_type firmware_id certificate_id : String)
    → (security_goals : List String) → (price : ℤ) → (status : String) → Result (Unit {0})
unfolding require_text
drone_record_fields serial_number drone_type firmware_id certificate_id goals price status = do
  _ ← require_text serial_number "serial_number"
  _ ← require_text drone_type "drone_type"
  _ ← require_text firmware_id "firmware_id"
  _ ← require_text certificate_id "certificate_id"
  _ ← require_text status "status"
  raise_if (is_negative price) (value_error "price must be non-negative")
  _ ← normalize_canonical_security_goals goals true
  ok tt

unfoldable pub purchase_order : PurchaseOrder → Result PurchaseOrder
unfolding require_text
purchase_order o = do
  _ ← require_text o.order_id "order_id"
  _ ← require_text o.serial_number "serial_number"
  _ ← require_text o.operator_username "operator_username"
  ok o

-- An order is taken as it is.
pub purchase_order-eq_ok :
    (o : PurchaseOrder) {o' : PurchaseOrder} → purchase_order o ≡ ok o' → o' ≡ o
unfolding purchase_order
purchase_order-eq_ok o h = ground arith

pub purchase_order-serial :
    (o : PurchaseOrder) {o' : PurchaseOrder}
    → purchase_order o ≡ ok o'
    → (strip o.serial_number == "") ≡ false
unfolding purchase_order
purchase_order-serial o h = ground arith
