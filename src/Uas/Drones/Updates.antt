-- ===== src/Uas/Drones/Updates.antt =====
-- Reading a drone after an update of the table.
use sbd_drones_economics.Base.{
  String, ◌≡◌, refl, Bool, Option, none, some, List, [], ◌∷◌, arith, lookup, if◌then◌else◌,
}
use sbd_drones_economics.Uas.Company.{Drone, Company}
use sbd_drones_economics.Uas.Drones.{update_where}

-- The row that an update leaves of a row.
abbrev pub updated : (Drone → Bool) → (Drone → Drone) → Option Drone → Option Drone
updated p f none = none
updated p f (some d) = some (if p d then f d else d)

pub lookup-update_where :
    (k : String) (p : Drone → Bool) (f : Drone → Drone) (ds : List (String × Drone))
    → lookup k (update_where p f ds) ≡ updated p f (lookup k ds)
lookup-update_where k p f [] = refl
lookup-update_where k p f ((j, d) ∷ ds) = ground (arith, lookup-update_where k p f ds)

-- Every drone stands under its serial number.
abbrev pub IsFiled : Company → Type 0
IsFiled c = (k : String) (d : Drone) → lookup k c.drones ≡ some d → d.serial_number ≡ k
