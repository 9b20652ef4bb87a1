-- ===== src/Operator/Proposals/Tests.antt =====
-- One proposal, over hundredths.
use sbd_drones_economics.Base.{ℕ, none, some, List, [], ◌∷◌}
use sbd_drones_economics.Base.Floats.{hundredths}
use sbd_drones_economics.Operator.Proposals.{
  Request, create, process, serve, AreProfitable, serve-AreProfitable,
}

abbrev calls : List (Request hundredths × ℕ)
calls =
    (
      create (some "o1") (record { distance = some 1000; duration = none; cargo_value = none })
          "p1",
      5,
    )
    ∷ (process (some "p1"), 6)
    ∷ []

serve-AreProfitable_example : AreProfitable hundredths (serve hundredths calls [])
serve-AreProfitable_example = serve-AreProfitable hundredths calls
