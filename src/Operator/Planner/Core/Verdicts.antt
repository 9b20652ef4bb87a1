-- ===== src/Operator/Planner/Core/Verdicts.antt =====
-- What a verdict on a plan says.
use sbd_drones_economics.Base.{
  ℕ, ◌+◌, ◌≡◌, ◌≢◌, ◌↔◌, refl, true, false, some, List, [], ◌∷◌, ◌++◌, ◌==◌, Dict, keep, map, arith,
  eq_iff, count, count-append, All, Bool-cases, inl, inr,
}
use sbd_drones_economics.Base.Floats.{Floats}
use sbd_drones_economics.Operator.Planner.Plan.{
  Waypoint, FlightPlan, is_conflict, check_time_overlap, conflicts_at, conflicts_from,
  check_spatial_conflicts,
}
use sbd_drones_economics.Operator.Planner.Core.{
  invalid, ValidationIssue, is_critical, critical_issue, is_empty, is_too_high, is_too_fast, Zone,
  no_fly_zones, is_in_zone, is_on_ground, check_each, altitude_issues, validate_altitude,
  speed_issues, validate_speed, zone_issues, no_fly_issues, validate_no_fly_zones,
  validate_range_and_duration, coverage_issues, emergency_issues, validate_emergency_points,
  conflict_issues, check_mission_conflicts, all_issues, validate_flight_plan,
}

append_nil : (xs ys : List ℕ) → xs ++ ys ≡ [] → (xs ≡ []) × (ys ≡ [])
append_nil [] ys e = (refl, e)
append_nil (x ∷ xs) ys e = ground arith

empty_iff :
    (is : List ValidationIssue) → is_empty (keep is_critical is) ≡ true → count is_critical is ≡ 0
empty_iff [] e = refl
empty_iff (i ∷ is) e = ground (arith, empty_iff is)

iff_empty :
    (is : List ValidationIssue) → count is_critical is ≡ 0 → is_empty (keep is_critical is) ≡ true
iff_empty [] e = refl
iff_empty (i ∷ is) e = ground (arith, iff_empty is)

count-append_six :
    (a b c d e f : List ValidationIssue)
    → count is_critical (a ++ b ++ c ++ d ++ e ++ f)
      ≡ count is_critical a
        + count is_critical b
        + count is_critical c
        + count is_critical d
        + count is_critical e
        + count is_critical f
count-append_six a b c d e f = omega (
  arith,
  count-append is_critical a b,
  count-append is_critical (a ++ b) c,
  count-append is_critical (a ++ b ++ c) d,
  count-append is_critical (a ++ b ++ c ++ d) e,
  count-append is_critical (a ++ b ++ c ++ d ++ e) f,
)

module _ (fl : Floats) where
  -- While the plans overlap in time, no point of the one is near a point of the other.
  abbrev pub IsClear : FlightPlan fl → FlightPlan fl → Type 0
  IsClear plan other =
      check_time_overlap fl plan other ≡ true
      → All (λ a. All (λ b. is_conflict fl a b ≡ false) other.waypoints) plan.waypoints

  -- A point outside every zone, unless it is one of taking off or landing.
  abbrev pub IsOutside : Waypoint fl → Type 0
  IsOutside w = is_on_ground fl w ≡ false → All (λ z. is_in_zone fl w z ≡ false) (no_fly_zones fl)

  -- A plan that can be flown by itself.
  pub record IsFlyable (plan : FlightPlan fl) : Type 0 where
    pub altitude : All (λ w. is_too_high fl w ≡ false) plan.waypoints
    pub speed : All (λ w. is_too_fast fl w ≡ false) plan.waypoints
    pub zones : All IsOutside plan.waypoints
    pub landing : plan.emergency_landing_points ≢ []

  -- A plan that is clear of the other active missions.
  abbrev pub IsClearOf : FlightPlan fl → Dict (FlightPlan fl) → Type 0
  IsClearOf plan missions = All (λ m. m.0 ≢ plan.mission_id → IsClear plan m.1) missions

  check_each-criticals :
      (f : ℕ → Waypoint fl → List ValidationIssue) (P : Waypoint fl → Type 0)
      → ((i : ℕ) (w : Waypoint fl) → (count is_critical (f i w) ≡ 0) ↔ P w)
      → (i : ℕ) (ws : List (Waypoint fl))
      → (count is_critical (check_each fl f i ws) ≡ 0) ↔ All P ws
  unfolding check_each
  check_each-criticals f P h i [] = (λ _. tt, λ _. refl)
  check_each-criticals f P h i (w ∷ ws) =
      let rest = check_each-criticals f P h (i + 1) ws in
      let split = count-append is_critical (f i w) (check_each fl f (i + 1) ws) in
      (
        λ e. ((h i w).0 (omega (arith, e, split)), rest.0 (omega (arith, e, split))),
        λ a. let x = (h i w).1 a.0 in let y = rest.1 a.1 in omega (arith, split, x, y),
      )

  altitude_iff :
      (i : ℕ) (w : Waypoint fl)
      → (count is_critical (altitude_issues fl i w) ≡ 0) ↔ (is_too_high fl w ≡ false)
  unfolding altitude_issues
  altitude_iff i w = (λ e. ground arith, λ e. ground arith)

  speed_iff :
      (i : ℕ) (w : Waypoint fl)
      → (count is_critical (speed_issues fl i w) ≡ 0) ↔ (is_too_fast fl w ≡ false)
  unfolding speed_issues
  speed_iff i w = (λ e. ground arith, λ e. ground arith)

  zones_iff :
      (i : ℕ) (w : Waypoint fl) (zs : List (Zone fl))
      → (count is_critical (zone_issues fl i w zs) ≡ 0) ↔ All (λ z. is_in_zone fl w z ≡ false) zs
  unfolding zone_issues
  zones_iff i w [] = (λ _. tt, λ _. refl)
  zones_iff i w (z ∷ zs) =
      let rest = zones_iff i w zs in
      (
        λ e. (ground arith, rest.0 (ground arith)),
        λ a. let x = rest.1 a.1 in ground (arith, a.0, x),
      )

  no_fly_iff :
      (i : ℕ) (w : Waypoint fl) → (count is_critical (no_fly_issues fl i w) ≡ 0) ↔ IsOutside w
  unfolding no_fly_issues
  no_fly_iff i w = (
    λ e air. (zones_iff i w (no_fly_zones fl)).0 (ground (arith, e, air)),
    λ a. elim (Bool-cases (is_on_ground fl w)) [
      | inl e ↦ ground arith
      | inr e ↦ let x = (zones_iff i w (no_fly_zones fl)).1 (a e) in ground (arith, x, e)
    ],
  )

  range_none : (plan : FlightPlan fl) → count is_critical (validate_range_and_duration fl plan) ≡ 0
  unfolding validate_range_and_duration
  range_none plan = ground arith

  coverage_none :
      (points ws : List (Waypoint fl)) (i : ℕ)
      → count is_critical (check_each fl (coverage_issues fl points) i ws) ≡ 0
  unfolding check_each coverage_issues
  coverage_none points [] i = refl
  coverage_none points (w ∷ ws) i = ground (arith, coverage_none points ws (i + 1))

  emergency_iff :
      (points ws : List (Waypoint fl))
      → (count is_critical (emergency_issues fl points ws) ≡ 0) ↔ (points ≢ [])
  unfolding emergency_issues
  emergency_iff [] ws = (λ e n. let e1 : 1 ≡ 0 = e in omega (arith, e1), λ n. elim (n refl) [ ])
  emergency_iff (e ∷ es) ws = (λ _ n. ground arith, λ _. coverage_none (e ∷ es) ws 0)

  conflicts_at_iff :
      (i : ℕ) (a : Waypoint fl) (bs : List (Waypoint fl))
      → (conflicts_at fl i a bs ≡ []) ↔ All (λ b. is_conflict fl a b ≡ false) bs
  unfolding conflicts_at
  conflicts_at_iff i a [] = (λ _. tt, λ _. refl)
  conflicts_at_iff i a (b ∷ bs) =
      let rest = conflicts_at_iff i a bs in
      (
        λ e. (ground arith, rest.0 (ground arith)),
        λ h. let x = rest.1 h.1 in ground (arith, h.0, x),
      )

  conflicts_from_iff :
      (i : ℕ) (as1 bs : List (Waypoint fl))
      → (conflicts_from fl i as1 bs ≡ []) ↔ All (λ a. All (λ b. is_conflict fl a b ≡ false) bs) as1
  unfolding conflicts_from
  conflicts_from_iff i [] bs = (λ _. tt, λ _. refl)
  conflicts_from_iff i (a ∷ more) bs =
      let here = conflicts_at_iff i a bs in
      let rest = conflicts_from_iff (i + 1) more bs in
      (
        λ e. (here.0 (append_nil _ _ e).0, rest.0 (append_nil _ _ e).1),
        λ h. let x = here.1 h.0 in let y = rest.1 h.1 in ground (arith, x, y),
      )

  all_critical :
      (is : List ℕ)
      → (count is_critical (map (λ i. critical_issue "mission_conflict" (some i)) is) ≡ 0)
        ↔ (is ≡ [])
  all_critical [] = (λ _. refl, λ _. refl)
  all_critical (i ∷ is) = (
    λ e.
        let e1 : 1 + count is_critical (map (λ i. critical_issue "mission_conflict" (some i)) is)
            ≡ 0 =
          e in
        ground (arith, e1),
    λ e. ground arith,
  )

  conflict_iff :
      (plan other : FlightPlan fl)
      → (count is_critical (conflict_issues fl plan other) ≡ 0) ↔ IsClear plan other
  unfolding conflict_issues check_spatial_conflicts
  conflict_iff plan other =
      let points = conflicts_from_iff 0 plan.waypoints other.waypoints in
      let none_found = all_critical (check_spatial_conflicts fl plan other) in
      (
        λ e overlap. points.0 (none_found.0 (ground (arith, e, overlap))),
        λ clear. elim (Bool-cases (check_time_overlap fl plan other)) [
          | inl e ↦ let x = none_found.1 (points.1 (clear e)) in ground (arith, x, e)
          | inr e ↦ ground (arith, e)
        ],
      )

  missions_iff :
      (plan : FlightPlan fl) (missions : Dict (FlightPlan fl))
      → (count is_critical (check_mission_conflicts fl plan missions) ≡ 0) ↔ IsClearOf plan missions
  unfolding check_mission_conflicts
  missions_iff plan [] = (λ _. tt, λ _. refl)
  missions_iff plan ((id, other) ∷ more) =
      let rest = missions_iff plan more in
      let here = conflict_iff plan other in
      let split =
        count-append is_critical (conflict_issues fl plan other)
          (check_mission_conflicts fl plan more) in
      elim (Bool-cases (id == plan.mission_id)) [
        | inl same ↦ (
          λ e. (
            (λ ne. elim (ne ((eq_iff id plan.mission_id).0 same)) [ ]),
            rest.0 (ground (arith, e, same)),
          ),
          λ h. let x = rest.1 h.1 in ground (arith, x, same),
        )
        | inr ne ↦ (
          λ e.
              ((λ _. here.0 (ground (arith, e, ne, split))), rest.0 (ground (arith, e, ne, split))),
          λ h.
              let x = here.1 (h.0 (λ same. ground (arith, ne, same, eq_iff id plan.mission_id))) in
              let y = rest.1 h.1 in ground (arith, x, y, ne, split),
        )
      ]

  verdict_iff :
      (plan : FlightPlan fl) (missions : Dict (FlightPlan fl))
      → ((validate_flight_plan fl plan missions).0 ≢ invalid)
        ↔ (count is_critical (all_issues fl plan missions) ≡ 0)
  unfolding validate_flight_plan
  verdict_iff plan missions =
      let issues = all_issues fl plan missions in
      (
        λ n. elim (Bool-cases (is_empty (keep is_critical issues))) [
          | inl e ↦ empty_iff issues e
          | inr e ↦ elim (n (ground arith)) [ ]
        ],
        λ z. let e = iff_empty issues z in ground (arith, e),
      )

  all_issues-criticals :
      (plan : FlightPlan fl) (missions : Dict (FlightPlan fl))
      → count is_critical (all_issues fl plan missions)
        ≡ count is_critical (validate_altitude fl plan)
          + count is_critical (validate_speed fl plan)
          + count is_critical (validate_no_fly_zones fl plan)
          + count is_critical (validate_range_and_duration fl plan)
          + count is_critical (validate_emergency_points fl plan)
          + count is_critical (check_mission_conflicts fl plan missions)
  unfolding all_issues
  all_issues-criticals plan missions =
      count-append_six (validate_altitude fl plan) (validate_speed fl plan)
        (validate_no_fly_zones fl plan) (validate_range_and_duration fl plan)
        (validate_emergency_points fl plan) (check_mission_conflicts fl plan missions)

  -- A plan passes exactly if no point is too high or too fast, no point in the air is in a zone, a
  -- place for an emergency landing is named, and the plan is clear of every other active mission that
  -- it overlaps in time.
  pub validate_flight_plan_iff :
      (plan : FlightPlan fl) (missions : Dict (FlightPlan fl))
      → ((validate_flight_plan fl plan missions).0 ≢ invalid)
        ↔ (IsFlyable plan × IsClearOf plan missions)
  unfolding validate_altitude validate_speed validate_no_fly_zones validate_emergency_points
  validate_flight_plan_iff plan missions =
      let sum = all_issues-criticals plan missions in
      let verdict = verdict_iff plan missions in
      let range = range_none plan in
      let altitude =
        check_each-criticals (altitude_issues fl) (λ w. is_too_high fl w ≡ false) altitude_iff 0
          plan.waypoints in
      let speed =
        check_each-criticals (speed_issues fl) (λ w. is_too_fast fl w ≡ false) speed_iff 0
          plan.waypoints in
      let zones = check_each-criticals (no_fly_issues fl) IsOutside no_fly_iff 0 plan.waypoints in
      let landing = emergency_iff plan.emergency_landing_points plan.waypoints in
      let clear = missions_iff plan missions in
      (
        λ n.
            let z = verdict.0 n in
            (
              record {
                altitude = altitude.0 (omega (arith, z, sum));
                speed = speed.0 (omega (arith, z, sum));
                zones = zones.0 (omega (arith, z, sum));
                landing = landing.0 (omega (arith, z, sum));
              },
              clear.0 (omega (arith, z, sum)),
            ),
        λ (f, c).
            let a = altitude.1 f.altitude in
            let s = speed.1 f.speed in
            let o = zones.1 f.zones in
            let l = landing.1 f.landing in
            let m = clear.1 c in verdict.1 (omega (arith, sum, range, a, s, o, l, m)),
      )
