-- ===== src/Operator/Desk/Admission.antt =====
-- Which drones the operator takes in, together with the regulator that it asks.
use sbd_drones_economics.Base.{
  ◌≡◌, Bool, false, ◌&&◌, none, some, List, [], ◌==◌, ◌⊕◌, arith, strip, contains,
}
use sbd_drones_economics.Base.Floats.{Floats}
use sbd_drones_economics.Outcome.{Result, ok, is_ok}
use sbd_drones_economics.Regulator.{Regulator, Request, serve, Reply, handle_verify_drone_cert}
use sbd_drones_economics.Regulator.Issue.{certified_drones, verify_drone_cert_iff}
use sbd_drones_economics.Operator.Desk.{Answer, DroneForm, Operator, handle_register_drone}

-- A regulator that has issued nothing.
abbrev pub new_regulator : Regulator
new_regulator = record { systems = []; drone_certs = []; operator_certs = [] }

module _ (fl : Floats) where
  is_valid : Result Reply → Bool
  is_valid (ok (Reply.valid b holder certificate_id)) = b
  is_valid _ = false

  -- The regulator's reply as its component sends it back: a handler that raises answers without
  -- success.
  unfoldable pub answer_of : Result Reply → Answer fl
  unfolding is_valid
  answer_of r = record {
    success = is_ok r;
    valid = is_valid r;
    premium = none;
    payload = "";
    error = none;
  }

  -- For texts without blanks around: a drone with a certificate is taken in, where the regulator
  -- answers after any messages, exactly if the certificate bears the drone's name and the regulator
  -- was asked for it.
  pub handle_register_drone_iff :
      (p : DroneForm) (qs : List Request) (s : Operator fl)
      → strip p.drone_id ≡ p.drone_id
      → strip p.certificate_id ≡ p.certificate_id
      → (p.drone_id == "") ≡ false
      → (p.certificate_id == "") ≡ false
      → let answer =
          answer_of
            (handle_verify_drone_cert p.drone_id p.certificate_id (serve qs new_regulator)).0 in
        is_ok (handle_register_drone fl p (some answer) s).0 ≡ (
          p.certificate_id == ("cert-drone-" ⊕ p.drone_id)
          && contains (certified_drones qs) p.drone_id)
  unfolding handle_register_drone answer_of is_valid
  handle_register_drone_iff p qs s de ce dn cn =
      let d_named : (strip p.drone_id == "") ≡ false = rw de dn in
      let c_named : (strip p.certificate_id == "") ≡ false = rw ce cn in
      ground (
        arith,
        de,
        ce,
        dn,
        cn,
        verify_drone_cert_iff p.drone_id p.certificate_id qs d_named c_named,
      )
