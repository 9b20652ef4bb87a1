-- ===== src/Operator/Planner/Lifecycle.antt =====
-- The calls of MissionPlannerService on missions that are on record:
-- systems/operator/src/mission_planner/src/mission_planner_service.py.
pub mod Sky
pub mod Steps
pub mod Changes
pub mod Next
pub mod Course
mod Tests
use sbd_drones_economics.Base.{
  ℕ, inl, inr, String, Bool, true, false, not, ◌&&◌, ◌||◌, Option, none, some, is_some, List, [],
  ◌∷◌, ◌==◌, ◌⊕◌, ◌*◌, Dict, lookup, insert, if◌then◌else◌, or_default,
}
use sbd_drones_economics.Base.Floats.{Floats}
use sbd_drones_economics.Outcome.{Exception, key_error, value_error}
use sbd_drones_economics.Operator.Planner.Plan.{
  MissionStatus, draft, validated, approved, active, completed, aborted, failed, status_value,
  Waypoint, FlightPlan, calculate_flight_parameters,
}
use sbd_drones_economics.Operator.Planner.Core.{
  validate_flight_plan, register_active_mission, unregister_mission,
}
use sbd_drones_economics.Operator.Planner.Route.{WaypointForm, create_waypoints}
use sbd_drones_economics.Operator.Planner.Service.{
  is_invalid, status_after, is_locked, is_validated, is_approved, is_active, is_over, Mission,
  Weather, Planner, MissionForm, Updates, Reply, refused, rejected, changed, raised, put_mission,
  not_found, plan_of, create_mission,
}

module _ (fl : Floats) where
  -- `a or b`, for lists
  abbrev pub or_existing : List (Waypoint fl) → List (Waypoint fl) → List (Waypoint fl)
  or_existing [] existing = existing
  or_existing (w ∷ ws) existing = w ∷ ws

  -- The plan of an update, with the mission as its texts were changed already.
  unfoldable pub update_plan :
      (mission_id : String)
      → Updates fl
      → (waypoints emergency_points : List (Waypoint fl)) → (now : fl.Float) → Mission fl
      → Planner fl
      → Reply fl × Planner fl
  update_plan mission_id updates waypoints emergency_points now m s =
      elim (calculate_flight_parameters fl waypoints) [
        | none ↦
            (raised (value_error "max() arg is an empty sequence"), put_mission fl mission_id m s)
        | some p ↦
            let plan =
              plan_of fl mission_id m.uas_id waypoints emergency_points
                (or_default updates.takeoff_time m.flight_plan.takeoff_time) p in
            let (result, issues) = validate_flight_plan fl plan s.active_missions in
            if is_invalid result
            then (
              rejected "Updated flight plan validation failed" issues,
              put_mission fl mission_id m s,
            )
            else (
              changed mission_id (status_value (status_after result)),
              put_mission fl mission_id
                  (record m { flight_plan = plan; status = status_after result; updated_at = now })
                  s,
            )
      ]

  abbrev pub retitled : Updates fl → Mission fl → Mission fl
  retitled updates m = record m {
    name = or_default updates.name m.name;
    description = or_default updates.description m.description;
  }

  unfoldable pub update_mission :
      (mission_id : String) → Updates fl → (now : fl.Float) → Planner fl → Reply fl × Planner fl
  unfolding update_plan
  update_mission mission_id updates now s = elim (lookup mission_id s.missions) [
    | none ↦ (not_found fl mission_id, s)
    | some old ↦
        if is_locked old.status
        then (refused ("Cannot update mission in status " ⊕ status_value old.status), s)
        else (let m = retitled updates old in
            if is_some updates.waypoints || is_some updates.emergency_points
            then elim (create_waypoints fl (or_default updates.waypoints [])) [
              | inl key ↦ (raised (key_error key), put_mission fl mission_id m s)
              | inr ws ↦ elim (create_waypoints fl (or_default updates.emergency_points [])) [
                | inl key ↦ (raised (key_error key), put_mission fl mission_id m s)
                | inr es ↦
                    update_plan mission_id updates (or_existing ws m.flight_plan.waypoints)
                      (or_existing es m.flight_plan.emergency_landing_points) now m s
              ]
            ]
            else (
              changed mission_id (status_value m.status),
              put_mission fl mission_id (record m { updated_at = now }) s,
            ))
  ]

  abbrev pub fair_weather : (now : fl.Float) → Weather fl
  fair_weather now = record {
    wind_speed = fl.literal 5 1;
    visibility = fl.literal 5000 1;
    precipitation = false;
    timestamp = now;
  }

  -- `_get_weather_conditions`: what is cached for less than 300 seconds, or else fair weather
  unfoldable pub get_weather_conditions : (now : fl.Float) → Planner fl → Weather fl
  get_weather_conditions now s = elim s.weather_cache [
    | none ↦ fair_weather now
    | some w ↦ if fl.below (fl.sub now w.timestamp) (fl.of_int 300) then w else fair_weather now
  ]

  -- `_check_weather_conditions`, whether the weather suits; the message is left out
  unfoldable pub is_weather_ok : Weather fl → Bool
  is_weather_ok w =
      not (fl.below (fl.literal 10 1) w.wind_speed)
      && not (fl.below w.visibility (fl.literal 1000 1))
      && not w.precipitation

  unfoldable pub approve_mission :
      (mission_id approver_id : String) → (now : fl.Float) → Planner fl → Reply fl × Planner fl
  unfolding get_weather_conditions is_weather_ok
  approve_mission mission_id approver_id now s = elim (lookup mission_id s.missions) [
    | none ↦ (not_found fl mission_id, s)
    | some m ↦
        if not (is_validated m.status)
        then (
          refused (
              "Mission must be validated before approval, current status: "
              ⊕ status_value m.status),
          s,
        )
        else (let weather = get_weather_conditions now s in
            let s1 = record s { weather_cache = some weather } in
            if not (is_weather_ok weather) then (refused "Weather conditions unsuitable", s1) else (
              changed mission_id "approved",
              put_mission fl mission_id
                  (record m {
                    status = approved;
                    approved_by = some approver_id;
                    approved_at = some now;
                    updated_at = now;
                  })
                  s1,
            ))
  ]

  unfoldable pub start_mission :
      (mission_id : String) → (now : fl.Float) → Planner fl → Reply fl × Planner fl
  start_mission mission_id now s = elim (lookup mission_id s.missions) [
    | none ↦ (not_found fl mission_id, s)
    | some m ↦
        if not (is_approved m.status)
        then (
          refused
              ("Mission must be approved before start, current status: " ⊕ status_value m.status),
          s,
        )
        else (let (result, issues) = validate_flight_plan fl m.flight_plan s.active_missions in
            if is_invalid result then (rejected "Pre-flight validation failed" issues, s) else (
              changed mission_id "active",
              put_mission fl mission_id
                  (record m { status = active; started_at = some now; updated_at = now })
                  (record s {
                    active_missions = register_active_mission fl m.flight_plan s.active_missions;
                  }),
            ))
  ]

  unfoldable pub complete_mission :
      (mission_id : String) → (now : fl.Float) → Planner fl → Reply fl × Planner fl
  complete_mission mission_id now s = elim (lookup mission_id s.missions) [
    | none ↦ (not_found fl mission_id, s)
    | some m ↦
        if not (is_active m.status)
        then (refused ("Mission is not active, current status: " ⊕ status_value m.status), s)
        else (
          changed mission_id "completed",
          put_mission fl mission_id
              (record m { status = completed; completed_at = some now; updated_at = now })
              (record s { active_missions = unregister_mission fl mission_id s.active_missions }),
        )
  ]

  unfoldable pub abort_mission :
      (mission_id reason : String) → (now : fl.Float) → Planner fl → Reply fl × Planner fl
  abort_mission mission_id reason now s = elim (lookup mission_id s.missions) [
    | none ↦ (not_found fl mission_id, s)
    | some m ↦
        if not (is_active m.status)
        then (
          refused ("Can only abort active missions, current status: " ⊕ status_value m.status),
          s,
        )
        else (
          changed mission_id "aborted",
          put_mission fl mission_id
              (record m { status = aborted; abort_reason = some reason; updated_at = now })
              (record s { active_missions = unregister_mission fl mission_id s.active_missions }),
        )
  ]

  -- `now - retention_days * 86400`
  abbrev pub cutoff : (now : fl.Float) → Planner fl → fl.Float
  cutoff now s = fl.sub now (fl.of_int (s.mission_retention_days * 86_400))

  unfoldable pub keep_recent : fl.Float → Dict (Mission fl) → Dict (Mission fl)
  keep_recent limit [] = []
  keep_recent limit ((id, m) ∷ more) =
      let rest = keep_recent limit more in
      if is_over m.status && fl.below m.updated_at limit then rest else (id, m) ∷ rest

  unfoldable pub cleanup_old_missions : (now : fl.Float) → Planner fl → Planner fl
  unfolding keep_recent
  cleanup_old_missions now s = record s { missions = keep_recent (cutoff now s) s.missions }

  -- A call of the service. The identifier made of the clock comes with a creation.
  pub data Request : Type 0 where
    create : MissionForm fl → (fresh : String) → Request
    update : (mission_id : String) → Updates fl → Request
    approve : (mission_id approver_id : String) → Request
    start : (mission_id : String) → Request
    complete : (mission_id : String) → Request
    abort : (mission_id reason : String) → Request
    cleanup : Request

  unfoldable pub handle : Request → (now : fl.Float) → Planner fl → Planner fl
  handle (create request fresh) now s = (create_mission fl request fresh now s).1
  handle (update mission_id updates) now s = (update_mission mission_id updates now s).1
  handle (approve mission_id approver_id) now s = (approve_mission mission_id approver_id now s).1
  handle (start mission_id) now s = (start_mission mission_id now s).1
  handle (complete mission_id) now s = (complete_mission mission_id now s).1
  handle (abort mission_id reason) now s = (abort_mission mission_id reason now s).1
  handle cleanup now s = cleanup_old_missions now s

  -- The service after the calls, in their order.
  unfoldable pub serve : List (Request × fl.Float) → Planner fl → Planner fl
  serve [] s = s
  serve ((r, now) ∷ rs) s = serve rs (handle r now s)
