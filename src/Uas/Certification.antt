-- ===== src/Uas/Certification.antt =====
-- FirmwareService.submit of firmware_ingestion/firmware_service.py and CertificationService of
-- certification_service/certification_service.py. `token` is the hexadecimal text that `uuid` gives.
use sbd_drones_economics.Base.{
  String, ℤ, pos, Bool, false, ◌||◌, Option, none, some, List, [], ◌∷◌, ◌++◌, ◌==◌, ◌⊕◌,
  if◌then◌else◌, is_some, or_default, lookup, insert, strip, lower,
}
use sbd_drones_economics.Outcome.{Result, ok, err, value_error, integrity_error}
use sbd_drones_economics.Outcome.Action.{
  Action, pure, lift, gets, modify, raise_if, or_raise, ◌>>=◌, ◌>>◌,
}
use sbd_drones_economics.Uas.Roles
use sbd_drones_economics.Uas.Models.{firmware_version, certificate_fields}
use sbd_drones_economics.Uas.Goals.{normalize_canonical_security_goals}
use sbd_drones_economics.Uas.Policy.{or_text, regulator_certify_status_ok}
use sbd_drones_economics.Uas.Company.{
  Firmware, CertificationRequest, Certificate, Company, note, Regulator, Ports,
}

-- What a submission carries; an absent text is the empty one.
pub record FirmwareForm : Type 0 where
  pub firmware_id : String
  pub supplier : String
  pub drone_type : String
  pub version : String
  pub firmware_hash : String
  pub source_repo_url : String
  pub source_commit : String
  pub security_goals : List String
  pub authenticity_proof : String

-- The identifier under which the firmware is accepted.
unfoldable pub submit :
    (token actor_role submitted_by : String) → FirmwareForm → Action Company String
submit token actor_role submitted_by form = do
  lift (Roles.require_role actor_role Roles.developer)
  goals ← lift (normalize_canonical_security_goals form.security_goals false)
  f ← lift (
      firmware_version (record {
        firmware_id = or_text form.firmware_id ("fw-" ⊕ token);
        supplier = form.supplier;
        drone_type = form.drone_type;
        version = form.version;
        firmware_hash = strip form.firmware_hash;
        source_repo_url = strip form.source_repo_url;
        source_commit = strip form.source_commit;
        security_goals = goals;
        authenticity_proof = strip form.authenticity_proof;
        submitted_by = submitted_by;
      }))
  c ← gets (λ c. c)
  raise_if (is_some (lookup f.firmware_id c.firmware))
      (integrity_error "UNIQUE constraint failed: firmware_versions.firmware_id")
  modify (λ c. record c { firmware = insert f.firmware_id f c.firmware })
  note "firmware_submitted" "info" "firmware_ingestion" f.firmware_id
      ("submitted_by=" ⊕ submitted_by)
  pure f.firmware_id

abbrev pub certification_cost : ℤ
certification_cost = pos 100000

-- What is signed: the certificate's identifier, its goals and its signatory.
abbrev pub Signed : Type 0
Signed = String × List String × String

abbrev goals_or : List String → List String → List String
goals_or [] default = default
goals_or (g ∷ gs) default = g ∷ gs

-- With a regulator its reply is the certificate; without one the company makes it up.
unfoldable pub sign :
    (regulator : Option Regulator)
    → (correlation_id requested_by firmware_id : String) → Firmware
    → Result Signed
sign none correlation_id requested_by firmware_id f =
    ok ("cert-drone-" ⊕ firmware_id, f.security_goals, "systems.regulator")
sign (some r) correlation_id requested_by firmware_id f =
    let reply = r.certify_firmware correlation_id requested_by f in
    if regulator_certify_status_ok (lower reply.status)
    then ok (
      or_text reply.certificate_id ("cert-drone-" ⊕ firmware_id),
      goals_or reply.security_goals f.security_goals,
      or_text reply.signed_by "systems.regulator",
    )
    else err (value_error (or_default reply.reason_code "certification rejected"))

abbrev has_request : String → List CertificationRequest → Bool
has_request i [] = false
has_request i (r ∷ rs) = r.request_id == i || has_request i rs

-- The request's and the certificate's identifiers, the cost and the correlation id.
unfoldable pub certify :
    (ports : Ports)
    → (token request_token actor_role requested_by firmware_id : String)
    → Action Company (String × String × ℤ × String)
certify ports token request_token actor_role requested_by firmware_id = do
  lift (Roles.require_role actor_role Roles.developer)
  let correlation_id = "cert-" ⊕ token
  let request_id = "cert-request-" ⊕ request_token
  c ← gets (λ c. c)
  f ← or_raise (lookup firmware_id c.firmware) (value_error "firmware is not found")
  signed ← lift (sign ports.regulator correlation_id requested_by firmware_id f)
  lift (certificate_fields signed.0 firmware_id signed.1 signed.2)
  raise_if (has_request request_id c.requests)
      (integrity_error "UNIQUE constraint failed: certification_requests.request_id")
  modify (λ c. record c {
    requests =
        c.requests
        ++ record {
          request_id = request_id;
          firmware_id = firmware_id;
          requested_by = requested_by;
          status = "certified";
          certification_cost = certification_cost;
        }
          ∷ [];
    certificates =
        insert signed.0
          (record {
            certificate_id = signed.0;
            firmware_id = firmware_id;
            security_goals = signed.1;
            signed_by = signed.2;
            certificate_status = "active";
            effective_security_goals = signed.1;
            firmware = f;
          })
          c.certificates;
  })
  note "firmware_certified" "info" "certification_service" signed.0
      ("firmware_id=" ⊕ firmware_id ⊕ " requested_by=" ⊕ requested_by)
  pure (request_id, signed.0, certification_cost, correlation_id)

abbrev cost_from : String → ℤ → List CertificationRequest → ℤ
cost_from firmware_id cost [] = cost
cost_from firmware_id cost (r ∷ rs) =
    cost_from firmware_id (if r.firmware_id == firmware_id then r.certification_cost else cost) rs

-- The cost of the firmware's last request, `ORDER BY created_at DESC LIMIT 1`, or 0.
unfoldable pub latest_cost : String → List CertificationRequest → ℤ
latest_cost firmware_id rs = cost_from firmware_id (pos 0) rs

-- `get_certificate_snapshot`: the certificate of that firmware, with the cost.
unfoldable pub get_certificate_snapshot :
    (certificate_id firmware_id : String) → Company → Option (Certificate × ℤ)
unfolding latest_cost
get_certificate_snapshot certificate_id firmware_id c =
    elim (lookup certificate_id c.certificates) [
      | none ↦ none
      | some cert ↦
          if cert.firmware_id == firmware_id
          then some (cert, latest_cost firmware_id c.requests)
          else none
    ]
