-- ===== src/Operator/Planner/Route.antt =====
-- Points and routes of systems/operator/src/mission_planner/src/mission_planner_service.py.
use sbd_drones_economics.Base.{
  String, Bool, ◌⊎◌, inl, inr, ◌&&◌, Option, none, some, List, [], ◌∷◌, ◌==◌, if◌then◌else◌,
  or_default,
}
use sbd_drones_economics.Base.Floats.{Floats}
use sbd_drones_economics.Operator.Planner.Plan.{Waypoint, FlightPlan}

module _ (fl : Floats) where
  -- A point as a message brings it; what may be missing is an option.
  pub record WaypointForm : Type 0 where
    pub latitude : Option fl.Float
    pub longitude : Option fl.Float
    pub altitude : Option fl.Float
    pub speed : Option fl.Float
    pub action : Option String
    pub duration : Option fl.Float

  -- `_create_waypoint`, or the key that is missing
  unfoldable pub create_waypoint : WaypointForm → String ⊎ Waypoint fl
  create_waypoint form = elim form.latitude [
    | none ↦ inl "latitude"
    | some latitude ↦ elim form.longitude [
      | none ↦ inl "longitude"
      | some longitude ↦ elim form.altitude [
        | none ↦ inl "altitude"
        | some altitude ↦ inr (record {
          latitude = latitude;
          longitude = longitude;
          altitude = altitude;
          speed = or_default form.speed (fl.literal 10 1);
          action = form.action;
          duration = form.duration;
        })
      ]
    ]
  ]

  -- `[self._create_waypoint(wp) for wp in ...]`
  unfoldable pub create_waypoints : List WaypointForm → String ⊎ List (Waypoint fl)
  unfolding create_waypoint
  create_waypoints [] = inr []
  create_waypoints (w ∷ ws) =
      let rest = create_waypoints ws in
      elim (create_waypoint w) [
        | inl key ↦ inl key
        | inr p ↦ elim rest [ inl key ↦ inl key | inr ps ↦ inr (p ∷ ps) ]
      ]

  -- `_are_collinear`, with its default tolerance
  unfoldable pub are_collinear : Waypoint fl → Waypoint fl → Waypoint fl → Bool
  are_collinear p1 p2 p3 =
      let area = fl.abs (
        fl.sub (fl.times (fl.sub p2.latitude p1.latitude) (fl.sub p3.longitude p1.longitude))
          (fl.times (fl.sub p3.latitude p1.latitude) (fl.sub p2.longitude p1.longitude))) in
      fl.below area (fl.literal 1 100)

  -- `not wp.action`
  abbrev has_no_action : Waypoint fl → Bool
  has_no_action w = or_default w.action "" == ""

  -- The points after `prev`, of which the last stays.
  unfoldable pub optimized_from : Waypoint fl → List (Waypoint fl) → List (Waypoint fl)
  unfolding are_collinear
  optimized_from prev [] = []
  optimized_from prev (w ∷ []) = w ∷ []
  optimized_from prev (w ∷ next ∷ more) =
      let rest = optimized_from w (next ∷ more) in
      if has_no_action w && are_collinear prev w next then rest else w ∷ rest

  abbrev pub optimized : List (Waypoint fl) → List (Waypoint fl)
  optimized [] = []
  optimized (w ∷ ws) = w ∷ optimized_from w ws

  -- `_optimize_route`
  unfoldable pub optimize_route : FlightPlan fl → FlightPlan fl
  optimize_route plan = record plan { waypoints = optimized plan.waypoints }
