-- ===== src/Operator/Planner/Lifecycle/Tests.antt =====
-- One mission from its creation to its start, over hundredths.
use sbd_drones_economics.Base.{◌≡◌, ℕ, ◌≢◌, ◌↔◌, true, none, some, List, [], ◌∷◌, lookup, refl, map}
use sbd_drones_economics.Base.Floats.{hundredths}
use sbd_drones_economics.Operator.Planner.Plan.{
  check_time_overlap, check_spatial_conflicts, calculate_distance, calculate_total_distance,
  estimate_flight_duration, find_nearest_emergency_point, calculate_flight_parameters,
  MissionStatus, Waypoint, FlightPlan,
}
use sbd_drones_economics.Operator.Planner.Core.{
  ValidationResult, validate_flight_plan, register_active_mission, get_active_missions_count,
}
use sbd_drones_economics.Operator.Planner.Core.Verdicts.{
  IsFlyable, IsClearOf, validate_flight_plan_iff,
}
use sbd_drones_economics.Operator.Planner.Route.{
  WaypointForm, create_waypoints, optimize_route, optimized_from,
}
use sbd_drones_economics.Operator.Planner.Service.{
  Mission, MissionForm, new_planner, create_mission, create_from,
}
use sbd_drones_economics.Operator.Planner.Lifecycle.{
  Request, create, approve, start, handle, approve_mission, start_mission, serve,
}
use sbd_drones_economics.Operator.Planner.Lifecycle.Steps.{Step}
use sbd_drones_economics.Operator.Planner.Lifecycle.Course.{handle-Step}
use sbd_drones_economics.Operator.Planner.Lifecycle.Sky.{IsSafeSky, serve-IsSafeSky}

abbrev point : Waypoint hundredths
point = record {
  latitude = 5000;
  longitude = 3000;
  altitude = 5000;
  speed = 1000;
  action = none;
  duration = none;
}

abbrev form : WaypointForm hundredths
form = record {
  latitude = some 5000;
  longitude = some 3000;
  altitude = some 5000;
  speed = none;
  action = none;
  duration = none;
}

abbrev plan : FlightPlan hundredths
plan = record {
  mission_id = "m1";
  uas_id = "u1";
  waypoints = point ∷ [];
  takeoff_time = 0;
  estimated_duration = 0;
  max_altitude = 5000;
  total_distance = 0;
  emergency_landing_points = point ∷ [];
}

validate_flight_plan_iff_example :
    ((validate_flight_plan hundredths plan (("m2", plan) ∷ [])).0 ≢ ValidationResult.invalid)
    ↔ (IsFlyable hundredths plan × IsClearOf hundredths plan (("m2", plan) ∷ []))
validate_flight_plan_iff_example = validate_flight_plan_iff hundredths plan (("m2", plan) ∷ [])

abbrev asked : MissionForm hundredths
asked = record {
  mission_id = some "m1";
  name = none;
  description = none;
  operator_id = some "op";
  uas_id = some "u1";
  waypoints = form ∷ [];
  emergency_points = form ∷ [];
  takeoff_time = some 0;
}

abbrev form_above : WaypointForm hundredths
form_above = record form { altitude = some 10_000 }

abbrev asked_above : MissionForm hundredths
asked_above = record asked {
  mission_id = some "m2";
  uas_id = some "u2";
  waypoints = form_above ∷ [];
  emergency_points = form_above ∷ [];
}

abbrev calls : List (Request hundredths × ℕ)
calls =
    (create asked "mission-1", 100)
    ∷ (create asked_above "mission-2", 110)
    ∷ (approve "m1" "chief", 200)
    ∷ (approve "m2" "chief", 210)
    ∷ (start "m1", 300)
    ∷ (start "m2", 310)
    ∷ []

both_fly :
    map (λ (id, p). id) (serve hundredths calls (new_planner hundredths 10 90 true)).active_missions
    ≡ "m1" ∷ "m2" ∷ []
unfolding serve handle create_mission create_from approve_mission start_mission validate_flight_plan
    calculate_distance calculate_total_distance estimate_flight_duration
    find_nearest_emergency_point register_active_mission get_active_missions_count create_waypoints
    calculate_flight_parameters optimize_route optimized_from check_time_overlap
    check_spatial_conflicts
both_fly = refl

serve-IsSafeSky_example :
    IsSafeSky hundredths
      (serve hundredths calls (new_planner hundredths 10 90 true)).active_missions
serve-IsSafeSky_example = serve-IsSafeSky hundredths calls 10 90 true

abbrev until_approved : List (Request hundredths × ℕ)
until_approved = (create asked "mission-1", 100) ∷ (approve "m1" "chief", 200) ∷ []

overlap : check_time_overlap hundredths plan (record plan { mission_id = "m2" }) ≡ true
unfolding check_time_overlap
overlap = refl

abbrev approved_m1 : Mission hundredths
approved_m1 = record {
  mission_id = "m1";
  name = "Mission m1";
  description = "";
  operator_id = "op";
  uas_id = "u1";
  flight_plan = plan;
  status = MissionStatus.approved;
  created_at = 100;
  updated_at = 200;
  approved_by = some "chief";
  approved_at = some 200;
  started_at = none;
  completed_at = none;
  abort_reason = none;
}

abbrev started_m1 : Mission hundredths
started_m1 = record approved_m1 {
  status = MissionStatus.active;
  updated_at = 300;
  started_at = some 300;
}

is_approved_before :
    lookup "m1" (serve hundredths until_approved (new_planner hundredths 10 90 true)).missions
    ≡ some approved_m1
unfolding serve handle create_mission create_from approve_mission validate_flight_plan
    calculate_distance calculate_total_distance estimate_flight_duration
    find_nearest_emergency_point get_active_missions_count create_waypoints
    calculate_flight_parameters optimize_route optimized_from
is_approved_before = refl

is_started_after :
    lookup "m1"
      (handle hundredths
        (start "m1")
        300
        (serve hundredths until_approved (new_planner hundredths 10 90 true))).missions
    ≡ some started_m1
unfolding serve handle create_mission create_from approve_mission start_mission validate_flight_plan
    calculate_distance calculate_total_distance estimate_flight_duration
    find_nearest_emergency_point get_active_missions_count create_waypoints
    calculate_flight_parameters optimize_route optimized_from
is_started_after = refl

handle-Step_example : Step MissionStatus.approved MissionStatus.active
handle-Step_example =
    handle-Step hundredths until_approved 10 90 true (start "m1") 300 "m1" approved_m1 started_m1
      refl is_approved_before is_started_after
