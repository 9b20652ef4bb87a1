-- ===== src/Uas/Policy.antt =====
-- shared/tcb/registry_policy.py and shared/tcb/certification_policy.py. An optional text that is
-- `None` is the empty text: every use is `str(x or "")`.
use sbd_drones_economics.Base.{
  String, Bool, not, ◌&&◌, true, false, List, [], ◌∷◌, ◌==◌, contains, if◌then◌else◌, strip, lower,
  ◌≡◌, ◌↔◌, arith, eq_iff,
}
use sbd_drones_economics.Outcome.{Result, ok, value_error, raise_if, ◌>>◌}

unfoldable pub regulator_certify_status_ok : String → Bool
regulator_certify_status_ok status =
    contains ("certified" ∷ "registered" ∷ "accepted" ∷ []) (lower status)

unfoldable pub regulator_register_status_ok : String → Bool
regulator_register_status_ok status =
    contains ("registered" ∷ "accepted" ∷ "reregistered" ∷ []) (lower status)

unfoldable pub regulator_reregistration_status_ok : String → Bool
regulator_reregistration_status_ok status =
    contains ("reregistered" ∷ "registered" ∷ "accepted" ∷ []) (lower status)

unfoldable pub drone_port_response_accepted : String → Bool
drone_port_response_accepted status = contains ("ok" ∷ "accepted" ∷ "delivered" ∷ []) (lower status)

-- `str(x or default)`
abbrev pub or_text : String → String → String
or_text x default = if x == "" then default else x

unfoldable pub assert_certificate_not_revoked : String → Result (Unit {0})
assert_certificate_not_revoked certificate_status =
    raise_if (or_text certificate_status "active" == "revoked") (value_error "certificate revoked")

abbrev pub is_subset : List String → List String → Bool
is_subset [] ys = true
is_subset (x ∷ xs) ys = contains ys x && is_subset xs ys

unfoldable pub assert_drone_goals_subset_when_local_regulator :
    (chosen_goals effective_certificate_goals : List String)
    → (regulator_integration_enabled : Bool) → Result (Unit {0})
assert_drone_goals_subset_when_local_regulator chosen_goals effective enabled =
    raise_if (not enabled && not (is_subset chosen_goals effective))
      (value_error "security_goals must be a (possibly empty) subset of the certificate goals")

unfoldable pub validate_purchase_prerequisites :
    (drone_status certificate_status registration_status registration_id : String)
    → (regulator_integration_enabled : Bool) → Result (Unit {0})
unfolding assert_certificate_not_revoked
validate_purchase_prerequisites drone_status certificate_status registration_status registration_id
      enabled =
    do
      assert_certificate_not_revoked certificate_status
      raise_if (not (drone_status == "available"))
          (value_error "available certified drone is required")
      raise_if (enabled && registration_status == "revoked")
          (value_error "drone registration revoked")
      raise_if (enabled && not (registration_status == "registered_by_regulator"))
          (value_error "drone must be registered_by_regulator before purchase")
      raise_if (enabled && strip registration_id == "")
          (value_error "registration_id is required for purchase")

-- What holds of a drone that may be sold.
pub record Sellable (status certificate_status registration_status registration_id : String)
    (enabled : Bool) : Type 0 where
  pub available : status ≡ "available"
  pub certified : (or_text certificate_status "active" == "revoked") ≡ false
  pub registered : enabled ≡ true → registration_status ≡ "registered_by_regulator"
  pub identified : enabled ≡ true → (strip registration_id == "") ≡ false

-- The check on a purchase passes exactly for a drone that may be sold.
pub validate_purchase_prerequisites_iff :
    (status certificate_status registration_status registration_id : String) (enabled : Bool)
    → (validate_purchase_prerequisites status certificate_status registration_status registration_id
          enabled
        ≡ ok tt)
      ↔ Sellable status certificate_status registration_status registration_id enabled
unfolding validate_purchase_prerequisites
validate_purchase_prerequisites_iff status cert reg id enabled = (
  λ h. ground (arith, eq_iff status "available", eq_iff reg "registered_by_regulator"),
  λ s. ground (
    arith,
    eq_iff status "available",
    eq_iff reg "registered_by_regulator",
    eq_iff reg "revoked",
    s.registered,
    s.identified,
    eq_iff "registered_by_regulator" "revoked",
  ),
)
