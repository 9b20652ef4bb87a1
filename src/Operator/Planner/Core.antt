-- ===== src/Operator/Planner/Core.antt =====
-- MissionPlannerCore of systems/operator/src/mission_planner/src/mission_planner_core.py. The
-- constraints and the zones are those that its constructor sets, which nothing changes. An issue is
-- told without its description.
pub mod Verdicts
use sbd_drones_economics.Base.{
  ℕ, ◌+◌, String, Bool, true, false, not, ◌&&◌, ◌||◌, Option, none, some, List, [], ◌∷◌, ◌++◌, ◌==◌,
  Dict, lookup, insert, erase, if◌then◌else◌, length, keep, map,
}
use sbd_drones_economics.Base.Floats.{Floats}
use sbd_drones_economics.Operator.Planner.Plan.{
  Waypoint, FlightPlan, nought, calculate_distance, calculate_total_distance,
  estimate_flight_duration, find_nearest_emergency_point, check_time_overlap,
  check_spatial_conflicts,
}

pub data ValidationResult : Type 0 where
  valid : ValidationResult
  invalid : ValidationResult
  warning : ValidationResult

pub data Severity : Type 0 where
  critical : Severity
  caution : Severity

pub record ValidationIssue : Type 0 where
  pub issue_type : String
  pub severity : Severity
  pub waypoint_index : Option ℕ

abbrev pub is_critical : ValidationIssue → Bool
is_critical i = elim i.severity [ critical ↦ true | caution ↦ false ]

abbrev pub critical_issue : String → Option ℕ → ValidationIssue
critical_issue issue_type index = record {
  issue_type = issue_type;
  severity = critical;
  waypoint_index = index;
}

abbrev pub warning_issue : String → Option ℕ → ValidationIssue
warning_issue issue_type index = record {
  issue_type = issue_type;
  severity = caution;
  waypoint_index = index;
}

abbrev only_if : Bool → ValidationIssue → List ValidationIssue
only_if b i = if b then i ∷ [] else []

abbrev pub is_empty : List ValidationIssue → Bool
is_empty [] = true
is_empty (_ ∷ _) = false

module _ (fl : Floats) where
  abbrev pub max_altitude : fl.Float
  max_altitude = fl.literal 120 1

  abbrev pub max_speed : fl.Float
  max_speed = fl.literal 20 1

  pub record Zone : Type 0 where
    pub id : String
    pub lat : fl.Float
    pub lon : fl.Float
    pub radius : ℕ

  -- `_load_no_fly_zones`
  unfoldable pub no_fly_zones : List Zone
  no_fly_zones =
      record {
        id = "airport-1";
        lat = fl.literal 557_558 10_000;
        lon = fl.literal 376_173 10_000;
        radius = 100;
      }
      ∷ record {
        id = "military-1";
        lat = fl.literal 558_304 10_000;
        lon = fl.literal 375_201 10_000;
        radius = 3000;
      }
      ∷ []

  -- The tests of the checks on one point.
  abbrev pub is_too_high : Waypoint fl → Bool
  is_too_high w = fl.below max_altitude w.altitude

  abbrev pub is_too_low : Waypoint fl → Bool
  is_too_low w = fl.below (nought fl) w.altitude && fl.below w.altitude (fl.literal 10 1)

  abbrev pub is_too_fast : Waypoint fl → Bool
  is_too_fast w = fl.below max_speed w.speed

  unfoldable pub is_in_zone : Waypoint fl → Zone → Bool
  is_in_zone w z =
      fl.below (calculate_distance fl w.latitude w.longitude z.lat z.lon) (fl.of_int z.radius)

  -- `waypoint.action in {"takeoff", "land"}`
  abbrev pub is_on_ground : Waypoint fl → Bool
  is_on_ground w = elim w.action [ none ↦ false | some a ↦ a == "takeoff" || a == "land" ]

  -- The checks of one point, and of all from index `i` on.
  unfoldable pub check_each :
      (ℕ → Waypoint fl → List ValidationIssue) → ℕ → List (Waypoint fl) → List ValidationIssue
  check_each f i [] = []
  check_each f i (w ∷ ws) = f i w ++ check_each f (i + 1) ws

  unfoldable pub altitude_issues : ℕ → Waypoint fl → List ValidationIssue
  altitude_issues i w =
      if is_too_high w
      then critical_issue "altitude_exceeded" (some i) ∷ []
      else if is_too_low w
      then warning_issue "altitude_too_low" (some i) ∷ []
      else []

  unfoldable pub validate_altitude : FlightPlan fl → List ValidationIssue
  unfolding check_each altitude_issues
  validate_altitude plan = check_each altitude_issues 0 plan.waypoints

  unfoldable pub speed_issues : ℕ → Waypoint fl → List ValidationIssue
  speed_issues i w = only_if (is_too_fast w) (critical_issue "speed_exceeded" (some i))

  unfoldable pub validate_speed : FlightPlan fl → List ValidationIssue
  unfolding check_each speed_issues
  validate_speed plan = check_each speed_issues 0 plan.waypoints

  unfoldable pub zone_issues : ℕ → Waypoint fl → List Zone → List ValidationIssue
  unfolding is_in_zone
  zone_issues i w [] = []
  zone_issues i w (z ∷ zs) =
      only_if (is_in_zone w z) (critical_issue "no_fly_zone_violation" (some i))
      ++ zone_issues i w zs

  unfoldable pub no_fly_issues : ℕ → Waypoint fl → List ValidationIssue
  unfolding zone_issues no_fly_zones
  no_fly_issues i w = if is_on_ground w then [] else zone_issues i w no_fly_zones

  unfoldable pub validate_no_fly_zones : FlightPlan fl → List ValidationIssue
  unfolding check_each no_fly_issues
  validate_no_fly_zones plan = check_each no_fly_issues 0 plan.waypoints

  unfoldable pub validate_range_and_duration : FlightPlan fl → List ValidationIssue
  validate_range_and_duration plan =
      only_if (fl.below (fl.of_int 10_000) (calculate_total_distance fl plan.waypoints))
        (warning_issue "range_exceeded" none)
      ++ only_if (fl.below (fl.of_int 1800) (estimate_flight_duration fl plan.waypoints))
          (warning_issue "duration_exceeded" none)

  unfoldable pub coverage_issues : List (Waypoint fl) → ℕ → Waypoint fl → List ValidationIssue
  coverage_issues points i w =
      only_if (fl.below (fl.of_int 500) (find_nearest_emergency_point fl w points))
        (warning_issue "emergency_point_too_far" (some i))

  unfoldable pub emergency_issues : List (Waypoint fl) → List (Waypoint fl) → List ValidationIssue
  unfolding check_each coverage_issues
  emergency_issues [] waypoints = critical_issue "no_emergency_points" none ∷ []
  emergency_issues (e ∷ es) waypoints = check_each (coverage_issues (e ∷ es)) 0 waypoints

  unfoldable pub validate_emergency_points : FlightPlan fl → List ValidationIssue
  unfolding emergency_issues
  validate_emergency_points plan = emergency_issues plan.emergency_landing_points plan.waypoints

  -- The issues with one active plan.
  unfoldable pub conflict_issues : FlightPlan fl → FlightPlan fl → List ValidationIssue
  conflict_issues plan other =
      if check_time_overlap fl plan other
      then map (λ i. critical_issue "mission_conflict" (some i))
          (check_spatial_conflicts fl plan other)
      else []

  -- `_check_mission_conflicts`
  unfoldable pub check_mission_conflicts :
      FlightPlan fl → Dict (FlightPlan fl) → List ValidationIssue
  unfolding conflict_issues
  check_mission_conflicts plan [] = []
  check_mission_conflicts plan ((id, other) ∷ more) =
      let rest = check_mission_conflicts plan more in
      if id == plan.mission_id then rest else conflict_issues plan other ++ rest

  unfoldable pub all_issues : FlightPlan fl → Dict (FlightPlan fl) → List ValidationIssue
  unfolding validate_altitude validate_speed validate_no_fly_zones validate_range_and_duration
      validate_emergency_points check_mission_conflicts
  all_issues plan active_missions =
      validate_altitude plan
      ++ validate_speed plan
      ++ validate_no_fly_zones plan
      ++ validate_range_and_duration plan
      ++ validate_emergency_points plan
      ++ check_mission_conflicts plan active_missions

  -- `validate_flight_plan`, beside the plans of the active missions
  unfoldable pub validate_flight_plan :
      FlightPlan fl → Dict (FlightPlan fl) → ValidationResult × List ValidationIssue
  unfolding all_issues
  validate_flight_plan plan active_missions =
      let issues = all_issues plan active_missions in
      if not (is_empty (keep is_critical issues))
      then (invalid, issues)
      else if not (is_empty issues)
      then (warning, issues)
      else (valid, [])

  unfoldable pub register_active_mission :
      FlightPlan fl → Dict (FlightPlan fl) → Dict (FlightPlan fl)
  register_active_mission plan active_missions = insert plan.mission_id plan active_missions

  unfoldable pub unregister_mission :
      (mission_id : String) → Dict (FlightPlan fl) → Dict (FlightPlan fl)
  unregister_mission mission_id active_missions = erase mission_id active_missions

  unfoldable pub get_active_missions_count : Dict (FlightPlan fl) → ℕ
  get_active_missions_count active_missions = length active_missions
