-- ===== src/Uas/Vulnerability.antt =====
-- CriticalVulnerabilityService of certification_service/critical_vulnerability_service.py, with the
-- registry's `apply_firmware_cert_decision` for `registry_apply`.
pub mod Revocation
use sbd_drones_economics.Base.{
  String, Bool, true, false, ◌&&◌, Option, none, some, List, [], ◌∷◌, ◌++◌, ◌==◌, ◌⊕◌,
  if◌then◌else◌, is_some, Dict, strip, first,
}
use sbd_drones_economics.Outcome.{Result, ok}
use sbd_drones_economics.Outcome.Action.{Action, pure, lift, modify, when, ◌>>=◌, ◌>>◌}
use sbd_drones_economics.Uas.Roles
use sbd_drones_economics.Uas.Goals.{normalize_canonical_security_goals}
use sbd_drones_economics.Uas.Policy.{or_text}
use sbd_drones_economics.Uas.Company.{
  Certificate, Incident, FleetMessage, firmware_decision, Company, note, Regulator, Ports, Decision,
  ProxyCall, through,
}
use sbd_drones_economics.Uas.Drones.{apply_firmware_cert_decision}

-- `UPDATE certificates SET ... WHERE firmware_id = ?`
abbrev pub update_certificates :
    (firmware_id : String) → (Certificate → Certificate) → Dict Certificate → Dict Certificate
update_certificates firmware_id f [] = []
update_certificates firmware_id f ((k, c) ∷ cs) =
    (k, (if c.firmware_id == firmware_id then f c else c)) ∷ update_certificates firmware_id f cs

-- `_apply_decision_cert_only`
unfoldable pub apply_decision_cert_only : (firmware_id : String) → Decision → Action Company Unit
apply_decision_cert_only firmware_id d =
    if d.decision == "revoke_certificate"
    then modify (λ c. record c {
      certificates =
          update_certificates firmware_id (λ x. record x { certificate_status = "revoked" })
            c.certificates;
    })
    else if d.decision == "update_security_goals"
    then (elim d.effective_security_goals [
      | [] ↦ pure tt
      | g ∷ gs ↦ do
        new_goals ← lift (normalize_canonical_security_goals (g ∷ gs) true)
        modify (λ c. record c {
          certificates =
              update_certificates firmware_id
                (λ x. record x { effective_security_goals = new_goals }) c.certificates;
        })
    ])
    else pure tt

-- `UPDATE vulnerability_incidents ... WHERE correlation_id = ?`; the JSON of the decision is told
-- by its field `decision`.
abbrev acknowledge : (correlation_id decision : String) → List Incident → List Incident
acknowledge correlation_id decision [] = []
acknowledge correlation_id decision (i ∷ rest) =
    (if i.correlation_id == correlation_id
      then record i { regulator_decision = decision; notification_status = "acknowledged" }
      else i)
    ∷ acknowledge correlation_id decision rest

abbrev no_decision : Decision
no_decision = record { decision = "none"; effective_security_goals = [] }

-- `if self._registry_apply is not None: self._registry_apply(...)`, which may be a call through the monitor
unfoldable pub apply_to_registry : Option ProxyCall → Action Company Unit → Action Company Unit
apply_to_registry none act = pure tt
apply_to_registry (some call) act = through call act

-- The regulator decides, and both tables follow. The acknowledgement and the certificates are one
-- transaction: where the new goals are refused, neither is written.
unfoldable pub decide :
    (regulator : Option Regulator)
    → (registry_apply : Option ProxyCall) → (corr firmware_id description incident_type : String)
    → Action Company Decision
decide none registry_apply corr firmware_id description incident_type = pure no_decision
decide (some r) registry_apply corr firmware_id description incident_type = do
  let d = r.report_critical_vulnerability corr firmware_id description incident_type
  apply_decision_cert_only firmware_id d
  modify (λ c. record c { incidents = acknowledge corr d.decision c.incidents })
  apply_to_registry registry_apply (do _ ← apply_firmware_cert_decision firmware_id d; pure tt)
  pure d

unfoldable pub note_decision : (corr firmware_id decision : String) → Action Company Unit
note_decision corr firmware_id decision =
    if decision == "revoke_certificate"
    then note "certificate_revoked" "alert" "certification_service" firmware_id
        ("corr=" ⊕ corr ⊕ " regulator_decision=revoke_certificate")
    else if decision == "update_security_goals"
    then note "security_goals_changed" "warning" "certification_service" firmware_id
        ("corr=" ⊕ corr ⊕ " regulator_decision=update_security_goals")
    else pure tt

-- What follows the decision: the events and the message to the fleet.
unfoldable pub announce :
    Ports → (corr firmware_id description incident_type : String) → Decision → Action Company Unit
announce ports corr firmware_id description incident_type d = do
  note "critical_vulnerability_reported" "critical" "certification_service" firmware_id
      ("corr=" ⊕ corr ⊕ " incident_type=" ⊕ incident_type ⊕ " description=" ⊕ first 500 description)
  note_decision corr firmware_id d.decision
  when (ports.has_fleet && is_some ports.regulator) (
      modify
        (λ c. record c { fleet = c.fleet ++ firmware_decision firmware_id corr d.decision ∷ [] }))

-- The correlation id and the decision.
unfoldable pub report :
    Ports
    → (token actor_role firmware_id description correlation_id incident_type : String)
    → Action Company (String × Decision)
report ports token actor_role firmware_id description correlation_id incident_type = do
  lift (Roles.require_role actor_role Roles.developer)
  let corr = or_text (strip correlation_id) ("vuln-" ⊕ token)
  modify (λ c. record c {
    incidents =
        c.incidents
        ++ record {
          firmware_id = firmware_id;
          incident_type = incident_type;
          description = description;
          correlation_id = corr;
          notification_status = "sent";
          regulator_decision = "";
        }
          ∷ [];
  })
  d ← decide ports.regulator ports.registry_apply corr firmware_id description incident_type
  announce ports corr firmware_id description incident_type d
  pure (corr, d)
