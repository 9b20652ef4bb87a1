-- ===== src/Uas/Vulnerability/Revocation.antt =====
-- What the regulator's decision on a firmware does to the drones and the certificates.
use sbd_drones_economics.Base.{
  ◌⊎◌, true, String, ◌≡◌, refl, sym, ap, ◌∙◌, Bool, false, ◌++◌, Option, none, some, List, [], ◌∷◌,
  arith, ◌==◌, eq_iff, ◌⊕◌, lookup, strip, first, if◌then◌else◌, Option-cases, inl, inr,
}
use sbd_drones_economics.Outcome.{Exception, Result, err, value_error, result_cases}
use sbd_drones_economics.Uas.Roles
use sbd_drones_economics.Uas.Roles.{require_role-eq_ok}
use sbd_drones_economics.Uas.Policy.{
  or_text, validate_purchase_prerequisites, assert_certificate_not_revoked,
}
use sbd_drones_economics.Uas.Company.{
  Certificate, Drone, Company, Ports, Regulator, Decision, note, ProxyCall, answers, raises,
}
use sbd_drones_economics.Uas.Drones.{update_where, is_available, apply_firmware_cert_decision}
use sbd_drones_economics.Uas.Drones.Updates.{lookup-update_where}
use sbd_drones_economics.Uas.Vulnerability.{
  report, decide, note_decision, apply_decision_cert_only, update_certificates, announce,
  apply_to_registry,
}

abbrev pub revoke_if : String → Option Certificate → Option Certificate
revoke_if firmware_id none = none
revoke_if firmware_id (some x) =
    some (if x.firmware_id == firmware_id then record x { certificate_status = "revoked" } else x)

lookup-update_certificates :
    (k firmware_id : String) (cs : List (String × Certificate))
    → lookup k
        (update_certificates firmware_id (λ x. record x { certificate_status = "revoked" }) cs)
      ≡ revoke_if firmware_id (lookup k cs)
lookup-update_certificates k firmware_id [] = refl
lookup-update_certificates k firmware_id ((j, x) ∷ cs) =
    ground (arith, lookup-update_certificates k firmware_id cs)

-- Every drone that carries the firmware is revoked.
abbrev pub DronesRevoked : String → Company → Type 0
DronesRevoked firmware_id c =
    (k : String) (d : Drone)
    → lookup k c.drones ≡ some d
    → d.firmware_id ≡ firmware_id
    → (d.certificate_status ≡ "revoked") × (d.registration_status ≡ "revoked")

-- Every certificate of the firmware is revoked.
abbrev pub CertificatesRevoked : String → Company → Type 0
CertificatesRevoked firmware_id c =
    (k : String) (x : Certificate)
    → lookup k c.certificates ≡ some x
    → x.firmware_id ≡ firmware_id
    → x.certificate_status ≡ "revoked"

-- What a revocation does to the two tables.
abbrev revoke_drones : String → Company → Company
revoke_drones firmware_id c = record c {
  drones =
      update_where (λ x. x.firmware_id == firmware_id)
        (λ x. record x { registration_status = "revoked"; certificate_status = "revoked" })
        c.drones;
}

abbrev revoke_certificates : String → Company → Company
revoke_certificates firmware_id c = record c {
  certificates =
      update_certificates firmware_id (λ x. record x { certificate_status = "revoked" })
        c.certificates;
}

revoke_drones-DronesRevoked :
    (firmware_id : String) (c : Company) → DronesRevoked firmware_id (revoke_drones firmware_id c)
revoke_drones-DronesRevoked firmware_id c k d found same =
    let after =
      lookup-update_where k (λ x. x.firmware_id == firmware_id)
        (λ x. record x { registration_status = "revoked"; certificate_status = "revoked" })
        c.drones in
    elim (Option-cases (lookup k c.drones)) [
      | inl e ↦ ground (arith, after)
      | inr (d0, e) ↦ ground (arith, after, eq_iff d0.firmware_id firmware_id)
    ]

revoke_certificates-CertificatesRevoked :
    (firmware_id : String) (c : Company)
    → CertificatesRevoked firmware_id (revoke_certificates firmware_id c)
revoke_certificates-CertificatesRevoked firmware_id c k x found same =
    let after = lookup-update_certificates k firmware_id c.certificates in
    elim (Option-cases (lookup k c.certificates)) [
      | inl e ↦ ground (arith, after)
      | inr (x0, e) ↦ ground (arith, after, eq_iff x0.firmware_id firmware_id)
    ]

-- Whether the drones were reached: they are revoked, unless nothing applies the decision to the
-- registry, or the call that does raises, and the report with it.
abbrev pub Reaches : {A : Type 0} → String → Option ProxyCall → Result A × Company → Type 0
Reaches firmware_id registry_apply (r, c) =
    (registry_apply ≡ none)
    ⊎ ((applied : Bool) × (e : Exception) × (registry_apply ≡ some (raises applied e))
        × (r ≡ err e))
    ⊎ DronesRevoked firmware_id c

module _ (r : Regulator) (corr firmware_id description incident_type : String) (c : Company)
    (revokes : (r.report_critical_vulnerability corr firmware_id description incident_type).decision
      ≡ "revoke_certificate") where
  decide-CertificatesRevoked :
      (call : Option ProxyCall)
      → CertificatesRevoked firmware_id
          (decide (some r) call corr firmware_id description incident_type c).1
  unfolding decide apply_decision_cert_only apply_firmware_cert_decision apply_to_registry
  decide-CertificatesRevoked none =
      rw revokes (revoke_certificates-CertificatesRevoked firmware_id c)
  decide-CertificatesRevoked (some answers) =
      rw revokes (revoke_certificates-CertificatesRevoked firmware_id c)
  decide-CertificatesRevoked (some (raises true e)) =
      rw revokes (revoke_certificates-CertificatesRevoked firmware_id c)
  decide-CertificatesRevoked (some (raises false e)) =
      rw revokes (revoke_certificates-CertificatesRevoked firmware_id c)

  decide-Reaches :
      (call : Option ProxyCall)
      → Reaches firmware_id call (decide (some r) call corr firmware_id description incident_type c)
  unfolding decide apply_decision_cert_only apply_firmware_cert_decision apply_to_registry
  decide-Reaches none = inl refl
  decide-Reaches (some answers) = inr (inr (rw revokes (revoke_drones-DronesRevoked firmware_id c)))
  decide-Reaches (some (raises true e)) = inr (inl (true, e, refl, rw revokes refl))
  decide-Reaches (some (raises false e)) = inr (inl (false, e, refl, rw revokes refl))

note_decision-keeps :
    (corr firmware_id decision : String) (c : Company)
    → ((note_decision corr firmware_id decision c).1.drones ≡ c.drones)
      × ((note_decision corr firmware_id decision c).1.certificates ≡ c.certificates)
unfolding note_decision
note_decision-keeps corr firmware_id decision c = ground arith

announce-keeps :
    (ports : Ports) (corr firmware_id description incident_type : String) (d : Decision)
    (c : Company)
    → ((announce ports corr firmware_id description incident_type d c).1.drones ≡ c.drones)
      × ((announce ports corr firmware_id description incident_type d c).1.certificates
          ≡ c.certificates)
unfolding announce
announce-keeps ports corr firmware_id description incident_type d c =
    let told =
      "corr="
      ⊕ corr
      ⊕ " incident_type="
      ⊕ incident_type
      ⊕ " description="
      ⊕ first 500 description in
    let c1 =
      (note "critical_vulnerability_reported" "critical" "certification_service" firmware_id told
        c).1 in
    ground (arith, note_decision-keeps corr firmware_id d.decision c1)

-- The incident that a report writes down first.
abbrev reported : (corr firmware_id description incident_type : String) → Company → Company
reported corr firmware_id description incident_type c = record c {
  incidents =
      c.incidents
      ++ record {
        firmware_id = firmware_id;
        incident_type = incident_type;
        description = description;
        correlation_id = corr;
        notification_status = "sent";
        regulator_decision = "";
      }
        ∷ [];
}

-- What follows the decision leaves both tables, and fails where the decision failed.
report-tables :
    (ports : Ports) (r : Regulator)
    (token firmware_id description correlation_id incident_type : String) (c : Company)
    → ports.regulator ≡ some r
    → let corr = or_text (strip correlation_id) ("vuln-" ⊕ token) in
      let after =
        decide
          (some r)
          ports.registry_apply
          corr
          firmware_id
          description
          incident_type
          (reported corr firmware_id description incident_type c) in
      let end =
        report ports token Roles.developer firmware_id description correlation_id incident_type c in
      (end.1.drones ≡ after.1.drones)
      × (end.1.certificates ≡ after.1.certificates)
      × ((e : Exception) → after.0 ≡ err e → end.0 ≡ err e)
unfolding report Roles.require_role
report-tables ports r token firmware_id description correlation_id incident_type c e =
    let corr = or_text (strip correlation_id) ("vuln-" ⊕ token) in
    let after =
      decide (some r) ports.registry_apply corr firmware_id description incident_type
        (reported corr firmware_id description incident_type c) in
    elim (result_cases after.0) [
      | inl (d, q) ↦
          let kept = announce-keeps ports corr firmware_id description incident_type d after.1 in
          (ground (arith, kept), ground (arith, kept), λ x failed. ground arith)
      | inr (x, q) ↦ (ground arith, ground arith, λ y failed. ground arith)
    ]

-- A developer's report on a firmware, to which the regulator answers that the certificate is revoked,
-- leaves every certificate of that firmware revoked, even where the report then fails; and every
-- drone that carries it, unless the service has no registry_apply, or that call raises: then the
-- report raises the same.
pub report-Revoked :
    (ports : Ports) (r : Regulator)
    (token firmware_id description correlation_id incident_type : String) (c : Company)
    → ports.regulator ≡ some r
    → (r.report_critical_vulnerability
        (or_text (strip correlation_id) ("vuln-" ⊕ token))
        firmware_id
        description
        incident_type).decision
      ≡ "revoke_certificate"
    → let end =
        report ports token Roles.developer firmware_id description correlation_id incident_type c in
      CertificatesRevoked firmware_id end.1 × Reaches firmware_id ports.registry_apply end
report-Revoked ports r token firmware_id description correlation_id incident_type c e h =
    let corr = or_text (strip correlation_id) ("vuln-" ⊕ token) in
    let c0 = reported corr firmware_id description incident_type c in
    let (ds, cs, fails) =
      report-tables ports r token firmware_id description correlation_id incident_type c e in
    let certificates =
      decide-CertificatesRevoked r corr firmware_id description incident_type c0 h
        ports.registry_apply in
    (
      λ k x found. certificates k x (sym (ap (lookup k) cs) ∙ found),
      elim (decide-Reaches r corr firmware_id description incident_type c0 h ports.registry_apply) [
        | inl unset ↦ inl unset
        | inr (inl (applied, x, call, failed)) ↦ inr (inl (applied, x, call, fails x failed))
        | inr (inr drones) ↦ inr (inr (λ k d found. drones k d (sym (ap (lookup k) ds) ∙ found)))
      ],
    )

-- A drone whose certificate is revoked is not on sale: it is not listed as available, and a purchase of it is refused,
-- with and without a regulator.
off_sale :
    (firmware_id k : String) (c : Company) (d : Drone) (enabled : Bool)
    → DronesRevoked firmware_id c
    → lookup k c.drones ≡ some d
    → d.firmware_id ≡ firmware_id
    → (is_available d ≡ false)
      × (validate_purchase_prerequisites d.status d.certificate_status d.registration_status
            d.registration_id enabled
          ≡ err (value_error "certificate revoked"))
unfolding validate_purchase_prerequisites assert_certificate_not_revoked
off_sale firmware_id k c d enabled v found same = ground (
  arith,
  v k d found same,
  eq_iff d.certificate_status "revoked",
  eq_iff d.certificate_status "active",
  eq_iff d.certificate_status "",
  eq_iff "revoked" "active",
  eq_iff "revoked" "",
)
