-- ===== src/Operator/Planner/Plan.antt =====
-- Flight plans and their geometry: the data and the calculations of MissionPlannerCore in
-- systems/operator/src/mission_planner/src/mission_planner_core.py.
use sbd_drones_economics.Base.{
  ℕ, String, Bool, not, ◌&&◌, ◌||◌, Option, none, some, ◌+◌, ◌++◌, List, [], ◌∷◌, if◌then◌else◌,
  length,
}
use sbd_drones_economics.Base.Floats.{Floats, min, max}

pub data MissionStatus : Type 0 where
  draft : MissionStatus
  validated : MissionStatus
  approved : MissionStatus
  active : MissionStatus
  completed : MissionStatus
  aborted : MissionStatus
  failed : MissionStatus

abbrev pub status_value : MissionStatus → String
status_value MissionStatus.draft = "draft"
status_value MissionStatus.validated = "validated"
status_value MissionStatus.approved = "approved"
status_value MissionStatus.active = "active"
status_value MissionStatus.completed = "completed"
status_value MissionStatus.aborted = "aborted"
status_value MissionStatus.failed = "failed"

module _ (fl : Floats) where
  pub record Waypoint : Type 0 where
    pub latitude : fl.Float
    pub longitude : fl.Float
    pub altitude : fl.Float
    pub speed : fl.Float
    pub action : Option String
    pub duration : Option fl.Float

  pub record FlightPlan : Type 0 where
    pub mission_id : String
    pub uas_id : String
    pub waypoints : List Waypoint
    pub takeoff_time : fl.Float
    pub estimated_duration : fl.Float
    pub max_altitude : fl.Float
    pub total_distance : fl.Float
    pub emergency_landing_points : List Waypoint

  abbrev pub nought : fl.Float
  nought = fl.literal 0 1

  -- `_calculate_distance`
  unfoldable pub calculate_distance : (lat1 lon1 lat2 lon2 : fl.Float) → fl.Float
  calculate_distance lat1 lon1 lat2 lon2 =
      let lat1_rad = fl.radians lat1 in
      let lat2_rad = fl.radians lat2 in
      let delta_lat = fl.radians (fl.sub lat2 lat1) in
      let delta_lon = fl.radians (fl.sub lon2 lon1) in
      let a = fl.add (fl.square (fl.sin (fl.over delta_lat (fl.of_int 2)))) (
        fl.times (fl.times (fl.cos lat1_rad) (fl.cos lat2_rad))
          (fl.square (fl.sin (fl.over delta_lon (fl.of_int 2))))) in
      let c = fl.times (fl.of_int 2) (fl.atan2 (fl.sqrt a) (fl.sqrt (fl.sub (fl.of_int 1) a))) in
      fl.times (fl.of_int 6_371_000) c

  abbrev pub distance_between : Waypoint → Waypoint → fl.Float
  unfolding calculate_distance
  distance_between a b = calculate_distance a.latitude a.longitude b.latitude b.longitude

  -- `_calculate_total_distance`, from the distance so far
  unfoldable pub add_distances : fl.Float → List Waypoint → fl.Float
  add_distances total [] = total
  add_distances total (a ∷ []) = total
  add_distances total (a ∷ b ∷ more) =
      let vertical = fl.abs (fl.sub b.altitude a.altitude) in
      add_distances
        (fl.add total (fl.sqrt (fl.add (fl.square (distance_between a b)) (fl.square vertical))))
        (b ∷ more)

  unfoldable pub calculate_total_distance : List Waypoint → fl.Float
  unfolding add_distances
  calculate_total_distance waypoints = add_distances nought waypoints

  -- `if waypoints[i].duration: duration += ...`
  abbrev add_action : fl.Float → Option fl.Float → fl.Float
  add_action total none = total
  add_action total (some d) = if fl.equal d nought then total else fl.add total d

  -- `_estimate_flight_duration`, from the duration so far
  unfoldable pub add_durations : fl.Float → List Waypoint → fl.Float
  add_durations total [] = total
  add_durations total (a ∷ []) = total
  add_durations total (a ∷ b ∷ more) =
      let avg_speed = fl.over (fl.add a.speed b.speed) (fl.of_int 2) in
      let flown =
        if fl.below nought avg_speed
        then fl.add total (fl.over (distance_between a b) avg_speed)
        else total in
      add_durations (add_action flown b.duration) (b ∷ more)

  unfoldable pub estimate_flight_duration : List Waypoint → fl.Float
  unfolding add_durations
  estimate_flight_duration waypoints = add_durations nought waypoints

  pub record Parameters : Type 0 where
    pub total_distance : fl.Float
    pub estimated_duration : fl.Float
    pub max_altitude : fl.Float
    pub average_speed : fl.Float
    pub waypoint_count : ℕ

  highest : fl.Float → List Waypoint → fl.Float
  highest top [] = top
  highest top (w ∷ ws) = highest (max fl top w.altitude) ws

  -- `calculate_flight_parameters`; none is the ValueError of `max` on an empty route.
  unfoldable pub calculate_flight_parameters : List Waypoint → Option Parameters
  unfolding highest
  calculate_flight_parameters [] = none
  calculate_flight_parameters (w ∷ ws) =
      let total = calculate_total_distance (w ∷ ws) in
      let estimated = estimate_flight_duration (w ∷ ws) in
      some (record {
        total_distance = total;
        estimated_duration = estimated;
        max_altitude = highest w.altitude ws;
        average_speed = if fl.below nought estimated then fl.over total estimated else nought;
        waypoint_count = length (w ∷ ws);
      })

  nearest_from : fl.Float → Waypoint → List Waypoint → fl.Float
  nearest_from best w [] = best
  nearest_from best w (e ∷ es) = nearest_from (min fl best (distance_between w e)) w es

  -- `_find_nearest_emergency_point`
  unfoldable pub find_nearest_emergency_point : Waypoint → List Waypoint → fl.Float
  unfolding nearest_from
  find_nearest_emergency_point w es = nearest_from fl.infinity w es

  -- `_check_time_overlap`
  unfoldable pub check_time_overlap : FlightPlan → FlightPlan → Bool
  check_time_overlap plan1 plan2 =
      let end1 = fl.add plan1.takeoff_time plan1.estimated_duration in
      let end2 = fl.add plan2.takeoff_time plan2.estimated_duration in
      not (fl.below end1 plan2.takeoff_time || fl.below end2 plan1.takeoff_time)

  -- The test of `_check_spatial_conflicts` on two points.
  unfoldable pub is_conflict : Waypoint → Waypoint → Bool
  is_conflict a b =
      fl.below (distance_between a b) (fl.literal 50 1)
      && fl.below (fl.abs (fl.sub a.altitude b.altitude)) (fl.of_int 10)

  unfoldable pub conflicts_at : (i : ℕ) → Waypoint → List Waypoint → List ℕ
  unfolding is_conflict
  conflicts_at i a [] = []
  conflicts_at i a (b ∷ bs) =
      let rest = conflicts_at i a bs in if is_conflict a b then i ∷ rest else rest

  unfoldable pub conflicts_from : (i : ℕ) → List Waypoint → List Waypoint → List ℕ
  unfolding conflicts_at
  conflicts_from i [] bs = []
  conflicts_from i (a ∷ more) bs = conflicts_at i a bs ++ conflicts_from (i + 1) more bs

  -- `_check_spatial_conflicts`: for each conflict the point of the first plan, which is all that is used.
  unfoldable pub check_spatial_conflicts : FlightPlan → FlightPlan → List ℕ
  unfolding conflicts_from
  check_spatial_conflicts plan1 plan2 = conflicts_from 0 plan1.waypoints plan2.waypoints
