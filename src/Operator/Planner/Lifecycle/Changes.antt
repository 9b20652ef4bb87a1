-- ===== src/Operator/Planner/Lifecycle/Changes.antt =====
-- What each call does to the missions on record.
use sbd_drones_economics.Base.{
  String, ◌≡◌, ◌⊎◌, inl, inr, refl, sym, subst, ◌∙◌, true, false, not, ◌&&◌, ◌||◌, some, List, [],
  Dict, lookup, insert, arith, Bool-cases, Option-cases, or_default, is_some,
}
use sbd_drones_economics.Base.Floats.{Floats}
use sbd_drones_economics.Operator.Planner.Plan.{
  Waypoint, calculate_flight_parameters, MissionStatus, draft, validated, approved, active,
  completed, aborted,
}
use sbd_drones_economics.Operator.Planner.Core.{ValidationResult, validate_flight_plan}
use sbd_drones_economics.Operator.Planner.Route.{create_waypoints}
use sbd_drones_economics.Operator.Planner.Service.{
  is_invalid, status_after, plan_of, is_locked, is_validated, is_approved, is_active, Mission,
  Updates, Planner,
}
use sbd_drones_economics.Operator.Planner.Lifecycle.{
  retitled, or_existing, get_weather_conditions, is_weather_ok, update_mission, update_plan,
  approve_mission, start_mission, complete_mission, abort_mission,
}
use sbd_drones_economics.Operator.Planner.Lifecycle.Steps.{
  Step, kept, redrafted, revalidated, approval, takeoff, completion, abortion,
}

pub Sum-cases : {A B : Type 0} (x : A ⊎ B) → ((a : A) × (x ≡ inl a)) ⊎ ((b : B) × (x ≡ inr b))
Sum-cases (inl a) = inl (a, refl)
Sum-cases (inr b) = inr (b, refl)

validated_lem : (a : MissionStatus) → is_validated a ≡ true → a ≡ validated
validated_lem a h = ground (arith, h)

approved_lem : (a : MissionStatus) → is_approved a ≡ true → a ≡ approved
approved_lem a h = ground (arith, h)

active_lem : (a : MissionStatus) → is_active a ≡ true → a ≡ active
active_lem a h = ground (arith, h)

status_after_lem : (r : ValidationResult) → (status_after r ≡ draft) ⊎ (status_after r ≡ validated)
status_after_lem ValidationResult.valid = inr refl
status_after_lem ValidationResult.invalid = inr refl
status_after_lem ValidationResult.warning = inl refl

module _ (fl : Floats) where
  -- The missions after a call: the same, or one of them changed by a step.
  abbrev pub IsChange : Dict (Mission fl) → Dict (Mission fl) → Type 0
  IsChange d d1 =
      (d1 ≡ d)
      ⊎ ((k : String) × (old : Mission fl) × (new : Mission fl) × (lookup k d ≡ some old)
          × Step old.status new.status
          × (d1 ≡ insert k new d))

  -- The missions after an update of one that is not locked.
  abbrev IsRevision : String → Mission fl → Dict (Mission fl) → Dict (Mission fl) → Type 0
  IsRevision id old d d1 =
      (new : Mission fl) × (d1 ≡ insert id new d)
      × ((new.status ≡ old.status) ⊎ (new.status ≡ draft) ⊎ (new.status ≡ validated))

  update_plan-IsRevision :
      (id : String) (updates : Updates fl) (ws es : List (Waypoint fl)) (now : fl.Float)
      (m : Mission fl) (s : Planner fl)
      → IsRevision id m s.missions (update_plan fl id updates ws es now m s).1.missions
  unfolding update_plan
  update_plan-IsRevision id updates ws es now m s =
      elim (Option-cases (calculate_flight_parameters fl ws)) [
        | inl e ↦ (m, ground (arith, e), inl refl)
        | inr (p, e) ↦
            let plan =
              plan_of fl id m.uas_id ws es
                (or_default updates.takeoff_time m.flight_plan.takeoff_time) p in
            let result = (validate_flight_plan fl plan s.active_missions).0 in
            elim (Bool-cases (is_invalid result)) [
              | inl bad ↦ (m, ground (arith, e, bad), inl refl)
              | inr good ↦ (
                record m { flight_plan = plan; status = status_after result; updated_at = now },
                ground (arith, e, good),
                inr (status_after_lem result),
              )
            ]
      ]

  IsRevision-IsChange :
      (id : String) (old m : Mission fl) (d d1 : Dict (Mission fl))
      → lookup id d ≡ some old
      → is_locked old.status ≡ false
      → m.status ≡ old.status
      → IsRevision id m d d1
      → IsChange d d1
  IsRevision-IsChange id old m d d1 found free e (new, put, inl same) =
      inr (id, old, new, found, subst (λ x. Step old.status x) (sym (same ∙ e)) kept, put)
  IsRevision-IsChange id old m d d1 found free e (new, put, inr (inl drafted)) =
      inr (id, old, new, found, subst (λ x. Step old.status x) (sym drafted) (redrafted free), put)
  IsRevision-IsChange id old m d d1 found free e (new, put, inr (inr again)) =
      inr (id, old, new, found, subst (λ x. Step old.status x) (sym again) (revalidated free), put)

  update_unlocked :
      (id : String) (updates : Updates fl) (now : fl.Float) (s : Planner fl) (old : Mission fl)
      → lookup id s.missions ≡ some old
      → is_locked old.status ≡ false
      → IsRevision id
          (retitled fl updates old)
          s.missions
          (update_mission fl id updates now s).1.missions
  unfolding update_mission
  update_unlocked id updates now s old e free =
      let m = retitled fl updates old in
      elim (Bool-cases (is_some updates.waypoints || is_some updates.emergency_points)) [
        | inr plain ↦ (record m { updated_at = now }, ground (arith, e, free, plain), inl refl)
        | inl points ↦ elim (Sum-cases (create_waypoints fl (or_default updates.waypoints []))) [
          | inl (key, k) ↦ (m, ground (arith, e, free, points, k), inl refl)
          | inr (ws, w) ↦
              elim (Sum-cases (create_waypoints fl (or_default updates.emergency_points []))) [
                | inl (key, k) ↦ (m, ground (arith, e, free, points, w, k), inl refl)
                | inr (es, x) ↦
                    let route = or_existing fl ws m.flight_plan.waypoints in
                    let places = or_existing fl es m.flight_plan.emergency_landing_points in
                    let (new, put, st) = update_plan-IsRevision id updates route places now m s in
                    (new, ground (arith, e, free, points, w, x, put), st)
              ]
        ]
      ]

  pub update_mission-IsChange :
      (id : String) (updates : Updates fl) (now : fl.Float) (s : Planner fl)
      → IsChange s.missions (update_mission fl id updates now s).1.missions
  unfolding update_mission
  update_mission-IsChange id updates now s = elim (Option-cases (lookup id s.missions)) [
    | inl e ↦ inl (ground (arith, e))
    | inr (old, e) ↦ elim (Bool-cases (is_locked old.status)) [
      | inl locked ↦ inl (ground (arith, e, locked))
      | inr free ↦
          IsRevision-IsChange id old (retitled fl updates old) _ _ e free refl
            (update_unlocked id updates now s old e free)
    ]
  ]

  pub approve_mission-IsChange :
      (id approver : String) (now : fl.Float) (s : Planner fl)
      → IsChange s.missions (approve_mission fl id approver now s).1.missions
  unfolding approve_mission
  approve_mission-IsChange id approver now s = elim (Option-cases (lookup id s.missions)) [
    | inl e ↦ inl (ground (arith, e))
    | inr (m, e) ↦
        elim (Bool-cases
          (is_validated m.status && is_weather_ok fl (get_weather_conditions fl now s))) [
            | inr bad ↦ inl (ground (arith, e, bad))
            | inl good ↦
                let new = record m {
                  status = approved;
                  approved_by = some approver;
                  approved_at = some now;
                  updated_at = now;
                } in
                inr (
                  id,
                  m,
                  new,
                  e,
                  subst (λ x. Step x approved) (sym (validated_lem m.status (ground (arith, good))))
                      approval,
                  ground (arith, e, good),
                )
          ]
  ]

  pub start_mission-IsChange :
      (id : String) (now : fl.Float) (s : Planner fl)
      → IsChange s.missions (start_mission fl id now s).1.missions
  unfolding start_mission
  start_mission-IsChange id now s = elim (Option-cases (lookup id s.missions)) [
    | inl e ↦ inl (ground (arith, e))
    | inr (m, e) ↦
        elim (Bool-cases (
          is_approved m.status
          && not (is_invalid (validate_flight_plan fl m.flight_plan s.active_missions).0))) [
            | inr bad ↦ inl (ground (arith, e, bad))
            | inl good ↦
                let new = record m { status = active; started_at = some now; updated_at = now } in
                inr (
                  id,
                  m,
                  new,
                  e,
                  subst (λ x. Step x active) (sym (approved_lem m.status (ground (arith, good))))
                      takeoff,
                  ground (arith, e, good),
                )
          ]
  ]

  pub complete_mission-IsChange :
      (id : String) (now : fl.Float) (s : Planner fl)
      → IsChange s.missions (complete_mission fl id now s).1.missions
  unfolding complete_mission
  complete_mission-IsChange id now s = elim (Option-cases (lookup id s.missions)) [
    | inl e ↦ inl (ground (arith, e))
    | inr (m, e) ↦ elim (Bool-cases (is_active m.status)) [
      | inr bad ↦ inl (ground (arith, e, bad))
      | inl good ↦
          let new = record m { status = completed; completed_at = some now; updated_at = now } in
          inr (
            id,
            m,
            new,
            e,
            subst (λ x. Step x completed) (sym (active_lem m.status good)) completion,
            ground (arith, e, good),
          )
    ]
  ]

  pub abort_mission-IsChange :
      (id reason : String) (now : fl.Float) (s : Planner fl)
      → IsChange s.missions (abort_mission fl id reason now s).1.missions
  unfolding abort_mission
  abort_mission-IsChange id reason now s = elim (Option-cases (lookup id s.missions)) [
    | inl e ↦ inl (ground (arith, e))
    | inr (m, e) ↦ elim (Bool-cases (is_active m.status)) [
      | inr bad ↦ inl (ground (arith, e, bad))
      | inl good ↦
          let new = record m { status = aborted; abort_reason = some reason; updated_at = now } in
          inr (
            id,
            m,
            new,
            e,
            subst (λ x. Step x aborted) (sym (active_lem m.status good)) abortion,
            ground (arith, e, good),
          )
    ]
  ]
