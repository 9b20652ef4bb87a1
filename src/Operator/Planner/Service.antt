-- ===== src/Operator/Planner/Service.antt =====
-- MissionPlannerService of systems/operator/src/mission_planner/src/mission_planner_service.py, over
-- the active missions of its core. The clock, and an identifier made of it, come with each call. The
-- metadata, the history and the statistics are left out.
use sbd_drones_economics.Base.{
  ℕ, inl, inr, String, Bool, true, false, ◌&&◌, ◌||◌, Option, none, some, List, [], ◌∷◌, ◌==◌, ◌⊕◌,
  Dict, insert, if◌then◌else◌, leb, decimal, or_default,
}
use sbd_drones_economics.Base.Floats.{Floats}
use sbd_drones_economics.Outcome.{Exception}
use sbd_drones_economics.Operator.Planner.Plan.{
  MissionStatus, draft, validated, status_value, Waypoint, FlightPlan, Parameters,
  calculate_flight_parameters,
}
use sbd_drones_economics.Operator.Planner.Core.{
  ValidationResult, ValidationIssue, validate_flight_plan, get_active_missions_count,
}
use sbd_drones_economics.Operator.Planner.Route.{WaypointForm, create_waypoints, optimize_route}

abbrev pub is_invalid : ValidationResult → Bool
is_invalid ValidationResult.invalid = true
is_invalid _ = false

-- The status of a mission after its plan passed with this result.
abbrev pub status_after : ValidationResult → MissionStatus
status_after ValidationResult.warning = draft
status_after _ = validated

abbrev pub is_locked : MissionStatus → Bool
is_locked MissionStatus.active = true
is_locked MissionStatus.completed = true
is_locked _ = false

abbrev pub is_validated : MissionStatus → Bool
is_validated MissionStatus.validated = true
is_validated _ = false

abbrev pub is_approved : MissionStatus → Bool
is_approved MissionStatus.approved = true
is_approved _ = false

abbrev pub is_active : MissionStatus → Bool
is_active MissionStatus.active = true
is_active _ = false

abbrev pub is_over : MissionStatus → Bool
is_over MissionStatus.completed = true
is_over MissionStatus.aborted = true
is_over MissionStatus.failed = true
is_over _ = false

module _ (fl : Floats) where
  pub record Mission : Type 0 where
    pub mission_id : String
    pub name : String
    pub description : String
    pub operator_id : String
    pub uas_id : String
    pub flight_plan : FlightPlan fl
    pub status : MissionStatus
    pub created_at : fl.Float
    pub updated_at : fl.Float
    pub approved_by : Option String
    pub approved_at : Option fl.Float
    pub started_at : Option fl.Float
    pub completed_at : Option fl.Float
    pub abort_reason : Option String

  pub record Weather : Type 0 where
    pub wind_speed : fl.Float
    pub visibility : fl.Float
    pub precipitation : Bool
    pub timestamp : fl.Float

  -- The service, with `active_missions` of its core.
  pub record Planner : Type 0 where
    pub active_missions : Dict (FlightPlan fl)
    pub missions : Dict Mission
    pub weather_cache : Option Weather
    pub max_concurrent_missions : ℕ
    pub mission_retention_days : ℕ
    pub enable_route_optimization : Bool

  abbrev pub new_planner : (max_concurrent mission_retention_days : ℕ) → (optimize : Bool) → Planner
  new_planner max_concurrent days optimize = record {
    active_missions = [];
    missions = [];
    weather_cache = none;
    max_concurrent_missions = max_concurrent;
    mission_retention_days = days;
    enable_route_optimization = optimize;
  }

  pub record MissionForm : Type 0 where
    pub mission_id : Option String
    pub name : Option String
    pub description : Option String
    pub operator_id : Option String
    pub uas_id : Option String
    pub waypoints : List (WaypointForm fl)
    pub emergency_points : List (WaypointForm fl)
    pub takeoff_time : Option fl.Float

  pub record Updates : Type 0 where
    pub name : Option String
    pub description : Option String
    pub waypoints : Option (List (WaypointForm fl))
    pub emergency_points : Option (List (WaypointForm fl))
    pub takeoff_time : Option fl.Float

  pub data Reply : Type 0 where
    refused : (error : String) → Reply
    rejected : (error : String) → List ValidationIssue → Reply
    created :
        (mission_id status : String)
        → ValidationResult
        → List ValidationIssue
        → Parameters fl
        → Reply
    changed : (mission_id status : String) → Reply
    raised : Exception → Reply

  abbrev pub put_mission : (mission_id : String) → Mission → Planner → Planner
  put_mission mission_id m s = record s { missions = insert mission_id m s.missions }

  abbrev pub not_found : (mission_id : String) → Reply
  not_found mission_id = refused ("Mission " ⊕ mission_id ⊕ " not found")

  -- The plan of a route.
  abbrev pub plan_of :
      (mission_id uas_id : String)
      → (waypoints emergency_points : List (Waypoint fl)) → (takeoff_time : fl.Float)
      → Parameters fl
      → FlightPlan fl
  plan_of mission_id uas_id waypoints emergency_points takeoff_time p = record {
    mission_id = mission_id;
    uas_id = uas_id;
    waypoints = waypoints;
    takeoff_time = takeoff_time;
    estimated_duration = p.estimated_duration;
    max_altitude = p.max_altitude;
    total_distance = p.total_distance;
    emergency_landing_points = emergency_points;
  }

  abbrev pub is_blank : Option String → Bool
  is_blank t = or_default t "" == ""

  abbrev pub has_no_points : List (WaypointForm fl) → Bool
  has_no_points [] = true
  has_no_points (_ ∷ _) = false

  is_valid : ValidationResult → Bool
  is_valid ValidationResult.valid = true
  is_valid _ = false

  -- The mission that `create_mission` stores.
  unfoldable pub new_mission :
      MissionForm
      → (mission_id : String) → FlightPlan fl
      → ValidationResult
      → (now : fl.Float) → Planner
      → Mission
  unfolding is_valid
  new_mission request mission_id plan result now s = record {
    mission_id = mission_id;
    name = or_default request.name ("Mission " ⊕ mission_id);
    description = or_default request.description "";
    operator_id = or_default request.operator_id "";
    uas_id = or_default request.uas_id "";
    flight_plan =
        if s.enable_route_optimization && is_valid result then optimize_route fl plan else plan;
    status = status_after result;
    created_at = now;
    updated_at = now;
    approved_by = none;
    approved_at = none;
    started_at = none;
    completed_at = none;
    abort_reason = none;
  }

  -- The part of `create_mission` that has the points.
  unfoldable pub create_from :
      MissionForm
      → (mission_id : String) → (waypoints emergency_points : List (Waypoint fl)) → (now : fl.Float)
      → Planner
      → Reply × Planner
  unfolding new_mission
  create_from request mission_id waypoints emergency_points now s =
      elim (calculate_flight_parameters fl waypoints) [
        | none ↦ (refused "Failed to create mission: max() arg is an empty sequence", s)
        | some p ↦
            let uas_id = or_default request.uas_id "" in
            let plan =
              plan_of mission_id uas_id waypoints emergency_points
                (or_default request.takeoff_time now) p in
            let (result, issues) = validate_flight_plan fl plan s.active_missions in
            if is_invalid result
            then (rejected "Flight plan validation failed" issues, s)
            else (let m = new_mission request mission_id plan result now s in
                (
                  created mission_id (status_value m.status) result issues p,
                  put_mission mission_id m s,
                ))
      ]

  -- The text of a KeyError is the key in quotes.
  abbrev missing_key : (key : String) → Reply
  missing_key key = refused ("Failed to create mission: '" ⊕ key ⊕ "'")

  unfoldable pub create_mission :
      MissionForm → (fresh : String) → (now : fl.Float) → Planner → Reply × Planner
  unfolding create_from
  create_mission request fresh now s =
      if is_blank request.operator_id || is_blank request.uas_id || has_no_points request.waypoints
      then (refused "Missing required fields: operator_id, uas_id, waypoints", s)
      else if leb s.max_concurrent_missions (get_active_missions_count fl s.active_missions)
      then (
        refused ("Maximum concurrent missions limit reached: " ⊕ decimal s.max_concurrent_missions),
        s,
      )
      else elim (create_waypoints fl request.waypoints) [
        | inl key ↦ (missing_key key, s)
        | inr waypoints ↦ elim (create_waypoints fl request.emergency_points) [
          | inl key ↦ (missing_key key, s)
          | inr points ↦
              create_from request (or_default request.mission_id fresh) waypoints points now s
        ]
      ]
