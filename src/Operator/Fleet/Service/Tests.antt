-- ===== src/Operator/Fleet/Service/Tests.antt =====
-- A fleet with levels in hundredths, its service, and the theorems at it.
use sbd_drones_economics.Base.{
  ℕ, true, none, some, List, [], ◌∷◌, ◌==◌, Dict, All, ltb, leb, ◌≡◌, refl, arith,
}
use sbd_drones_economics.Base.Floats.{hundredths}
use sbd_drones_economics.Operator.Fleet.{UasState, UasStatus, Fleet, Gauge, InitialState}
use sbd_drones_economics.Operator.Fleet.Service.{
  Calendar, aware, UasType, Call, new, serve_all, reserves, releases, adds,
}
use sbd_drones_economics.Operator.Fleet.Service.Cache.{AgreesAt, serve_all-AgreesAt}
use sbd_drones_economics.Operator.Fleet.Service.Search.{
  Location, UasExtended, Requirements, find_suitable_uas,
}
use sbd_drones_economics.Operator.Fleet.Service.Fitting.{IsOrdered, Meets, IsFound}
use sbd_drones_economics.Operator.Fleet.Service.Ranking.{IsRanked, find_suitable_uas-IsRanked}
use sbd_drones_economics.Operator.Fleet.Service.Statistics.{get_fleet_statistics}
use sbd_drones_economics.Operator.Fleet.Service.Counts.{known, get_fleet_statistics_zoned}

abbrev gauge : Gauge ℕ
gauge = record {
  below_mission_minimum = λ b. ltb b 30;
  in_range = λ b. leb b 100;
  full = 100;
  in_force = λ expiry. expiry == "2099-01-01Z";
}

abbrev certified : InitialState ℕ
certified = record {
  certificate_valid = some true;
  certificate_expiry = some "2099-01-01Z";
  battery_level = some 80;
}

abbrev calls : List (ℕ × Call gauge)
calls =
    (1, adds "UAS-001" certified)
    ∷ (2, reserves "UAS-001" "MISSION-1" "operator_1" 3600)
    ∷ (3, reserves "UAS-001" "MISSION-2" "operator_2" 3600)
    ∷ (4, releases "UAS-002" "operator_1")
    ∷ []

serve_all-AgreesAt_example :
    AgreesAt gauge "UAS-001"
      (serve_all gauge calls (new [])).core
      (serve_all gauge calls (new [])).reservations
serve_all-AgreesAt_example = serve_all-AgreesAt gauge calls "UAS-001"

abbrev calendar : Calendar
calendar = record { now = 5; read_stamp = λ text. some (aware 7) }

abbrev home : Location ℕ
home = record { lat = 5575; lon = 3761; alt = 0 }

abbrev carrier : UasExtended ℕ
carrier = record {
  id = "UAS-001";
  uas_type = UasType.light_cargo;
  location = home;
  max_payload = 500;
  max_range = 5000;
  last_maintenance = "2026-03-01T00:00:00Z";
  flight_hours = 5000;
  model_id = none;
  developer_id = none;
}

abbrev row : UasState ℕ
row = record {
  id = "UAS-001";
  status = UasStatus.available;
  certificate_valid = true;
  certificate_expiry = "2099-01-01Z";
  battery_level = 80;
  reserved_by = none;
}

abbrev core : Fleet ℕ
core = ("UAS-001", row) ∷ []

abbrev extended : Dict (UasExtended ℕ)
extended = ("UAS-001", carrier) ∷ ("UAS-009", carrier) ∷ []

abbrev cargo : Requirements ℕ
cargo = record {
  uas_type = some "light_cargo";
  min_payload = some 200;
  min_range = none;
  min_battery = none;
  location = some home;
}

abbrev mod_50 : ℕ → ℕ
mod_50 hours = 0

hundredths-IsOrdered : IsOrdered hundredths mod_50 calendar
hundredths-IsOrdered = record {
  asymmetric = λ a b e. ground arith;
  irreflexive = λ a. ground arith;
  transitive = λ a b c e f. ground arith;
  hundred = refl;
}

find_suitable_uas-IsRanked_example :
    let found = find_suitable_uas hundredths mod_50 calendar extended core cargo in
    All (Meets hundredths mod_50 calendar extended core cargo) found
    × All (IsFound hundredths mod_50 calendar core cargo found) extended
    × IsRanked hundredths mod_50 calendar found
find_suitable_uas-IsRanked_example =
    find_suitable_uas-IsRanked hundredths mod_50 calendar extended core cargo hundredths-IsOrdered

get_fleet_statistics_zoned_example :
    ((get_fleet_statistics hundredths mod_50 calendar extended core).maintenance_required
      ≡ known hundredths mod_50 calendar extended core)
    × ((get_fleet_statistics hundredths mod_50 calendar extended core).certificates_expiring_soon
        ≡ 0)
get_fleet_statistics_zoned_example =
    get_fleet_statistics_zoned hundredths mod_50 calendar extended core
      (((7, refl), λ state there. (7, refl)), (((7, refl), λ state there. (7, refl)), tt))
