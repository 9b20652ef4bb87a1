-- ===== src/Regulator/Tests.antt =====
-- A regulator that has certified one drone.
use sbd_drones_economics.Base.{◌≡◌, refl, true, [], ◌∷◌, strip}
use sbd_drones_economics.Outcome.{ok}
use sbd_drones_economics.Regulator.{Request, Reply, handle_verify_drone_cert, serve}
use sbd_drones_economics.Regulator.Issue.{verify_drone_cert_iff}

verify_drone_cert_iff_example :
    (handle_verify_drone_cert "d-1" "cert-drone-d-1" (
      serve
        (Request.register_drone_cert "d-1" ∷ [])
        (record { systems = []; drone_certs = []; operator_certs = [] }))).0
    ≡ ok (Reply.valid true "d-1" "cert-drone-d-1")
unfolding strip
verify_drone_cert_iff_example =
    verify_drone_cert_iff "d-1" "cert-drone-d-1" (Request.register_drone_cert "d-1" ∷ []) refl refl
