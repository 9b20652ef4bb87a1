-- ===== src/Operator/Fleet/Tests.antt =====
-- A fleet with levels in hundredths, and the theorems on the core at it.
use sbd_drones_economics.Base.{ℕ, ◌≤◌, ◌≡◌, refl, true, none, some, List, [], ◌∷◌, ◌==◌, ltb, leb}
use sbd_drones_economics.Operator.Fleet.{
  UasStatus, UasState, Fleet, Gauge, reserve_uas, authorize_uas_operation, authorize_status,
  status_of,
}
use sbd_drones_economics.Operator.Fleet.Reservation.{Call, wins, wins-le_one}

abbrev gauge : Gauge ℕ
gauge = record {
  below_mission_minimum = λ b. ltb b 30;
  in_range = λ b. leb b 100;
  full = 100;
  in_force = λ expiry. expiry == "2099-01-01";
}

abbrev free : UasState ℕ
free = record {
  id = "u-1";
  status = UasStatus.available;
  certificate_valid = true;
  certificate_expiry = "2099-01-01";
  battery_level = 80;
  reserved_by = none;
}

abbrev flying : UasState ℕ
flying = record free { status = UasStatus.in_mission; reserved_by = some "MISSION-1" }

abbrev fleet : Fleet ℕ
fleet = ("u-1", free) ∷ []

abbrev rivals : List (Call ℕ)
rivals = Call.reserve "u-1" "MISSION-1" "a" ∷ Call.reserve "u-1" "MISSION-2" "b" ∷ []

wins-le_one_example : wins gauge "u-1" rivals fleet ≤ 1
wins-le_one_example = wins-le_one gauge "u-1" rivals fleet (refl, (refl, tt))

reserved_now : (reserve_uas gauge "u-1" "MISSION-1" "a" fleet).0 ≡ (true, "OK")
unfolding reserve_uas authorize_uas_operation authorize_status
reserved_now = refl

charging_text : status_of "charging" ≡ some UasStatus.charging
unfolding status_of
charging_text = refl
