-- ===== src/Operator/Planner/Lifecycle/Next.antt =====
-- What may have become of a mission after one call.
use sbd_drones_economics.Base.{
  String, ◌≡◌, ◌⊎◌, inl, inr, refl, sym, ap, subst, ◌∙◌, Bool, false, ◌||◌, Option, none, some,
  List, [], ◌∷◌, ◌==◌, Dict, lookup, insert, leb, arith, eq_iff, Bool-cases, Option-cases, IsKeyed,
  lookup-insert, or_default, insert-IsKeyed,
}
use sbd_drones_economics.Base.Floats.{Floats}
use sbd_drones_economics.Operator.Planner.Plan.{Waypoint, calculate_flight_parameters}
use sbd_drones_economics.Operator.Planner.Core.{validate_flight_plan, get_active_missions_count}
use sbd_drones_economics.Operator.Planner.Route.{create_waypoints}
use sbd_drones_economics.Operator.Planner.Service.{
  is_blank, has_no_points, is_invalid, plan_of, new_mission, Mission, MissionForm, Planner,
  create_mission, create_from,
}
use sbd_drones_economics.Operator.Planner.Lifecycle.{
  keep_recent, cutoff, cleanup_old_missions, Request, create, update, approve, start, complete,
  abort, cleanup, handle,
}
use sbd_drones_economics.Operator.Planner.Lifecycle.Steps.{Step, kept}
use sbd_drones_economics.Operator.Planner.Lifecycle.Changes.{
  Sum-cases, IsChange, update_mission-IsChange, approve_mission-IsChange, start_mission-IsChange,
  complete_mission-IsChange, abort_mission-IsChange,
}

-- The identifier under which a request creates a mission.
abbrev pub creates : {fl : Floats} → String → Request fl → Bool
creates id (create request fresh) = or_default request.mission_id fresh == id
creates id _ = false

module _ (fl : Floats) where
  -- What may have become of the mission `id`: it is there with a status a step away, or it is gone.
  abbrev pub IsNext : Option (Mission fl) → Option (Mission fl) → Type 0
  IsNext none none = Unit {0}
  IsNext none (some n) = ⊥
  IsNext (some m) none = Unit {0}
  IsNext (some m) (some n) = Step m.status n.status

  same-IsNext : (o : Option (Mission fl)) → IsNext o o
  same-IsNext none = tt
  same-IsNext (some m) = kept

  gone-IsNext : (o : Option (Mission fl)) → IsNext o none
  gone-IsNext none = tt
  gone-IsNext (some m) = tt

  IsChange-IsNext :
      (id : String) (d d1 : Dict (Mission fl))
      → IsChange fl d d1
      → IsNext (lookup id d) (lookup id d1)
  IsChange-IsNext id d d1 (inl e) =
      subst (λ x. IsNext (lookup id d) (lookup id x)) (sym e) (same-IsNext (lookup id d))
  IsChange-IsNext id d d1 (inr (k, old, new, found, step, e)) = elim (Bool-cases (k == id)) [
    | inl same ↦
        let before : lookup id d ≡ some old = ground (arith, found, eq_iff k id, same) in
        let behind : lookup id d1 ≡ some new =
          ap (lookup id) e ∙ rw same at (lookup-insert k id new d) in
        subst (λ x. IsNext (lookup id d) x) (sym behind)
          (subst (λ x. IsNext x (some new)) (sym before) step)
    | inr other ↦
        let behind : lookup id d1 ≡ lookup id d =
          ap (lookup id) e ∙ rw other at (lookup-insert k id new d) in
        subst (λ x. IsNext (lookup id d) x) (sym behind) (same-IsNext (lookup id d))
  ]

  IsChange-IsKeyed : (d d1 : Dict (Mission fl)) → IsChange fl d d1 → IsKeyed d → IsKeyed d1
  IsChange-IsKeyed d d1 (inl e) h = subst IsKeyed (sym e) h
  IsChange-IsKeyed d d1 (inr (k, old, new, found, step, e)) h =
      subst IsKeyed (sym e) (insert-IsKeyed k new d h)

  -- What a creation does to the missions.
  abbrev IsCreation : String → Dict (Mission fl) → Dict (Mission fl) → Type 0
  IsCreation id d d1 = (d1 ≡ d) ⊎ ((m : Mission fl) × (d1 ≡ insert id m d))

  create_from-IsCreation :
      (request : MissionForm fl) (id : String) (ws es : List (Waypoint fl)) (now : fl.Float)
      (s : Planner fl)
      → IsCreation id s.missions (create_from fl request id ws es now s).1.missions
  unfolding create_from
  create_from-IsCreation request id ws es now s =
      elim (Option-cases (calculate_flight_parameters fl ws)) [
        | inl e ↦ inl (ground (arith, e))
        | inr (p, e) ↦
            let plan =
              plan_of fl id (or_default request.uas_id "") ws es
                (or_default request.takeoff_time now) p in
            let result = (validate_flight_plan fl plan s.active_missions).0 in
            elim (Bool-cases (is_invalid result)) [
              | inl bad ↦ inl (ground (arith, e, bad))
              | inr good ↦
                  inr (new_mission fl request id plan result now s, ground (arith, e, good))
            ]
      ]

  create_mission-IsCreation :
      (request : MissionForm fl) (fresh : String) (now : fl.Float) (s : Planner fl)
      → IsCreation
          (or_default request.mission_id fresh)
          s.missions
          (create_mission fl request fresh now s).1.missions
  unfolding create_mission
  create_mission-IsCreation request fresh now s =
      let id = or_default request.mission_id fresh in
      let lacking =
        is_blank fl request.operator_id
        || is_blank fl request.uas_id
        || has_no_points fl request.waypoints in
      let full = leb s.max_concurrent_missions (get_active_missions_count fl s.active_missions) in
      elim (Bool-cases (lacking || full)) [
        | inl stop ↦ inl (ground (arith, stop))
        | inr go ↦ elim (Sum-cases (create_waypoints fl request.waypoints)) [
          | inl (key, k) ↦ inl (ground (arith, k))
          | inr (ws, w) ↦ elim (Sum-cases (create_waypoints fl request.emergency_points)) [
            | inl (key, k) ↦ inl (ground (arith, w, k))
            | inr (es, x) ↦
                let made : (create_mission fl request fresh now s).1.missions
                    ≡ (create_from fl request id ws es now s).1.missions =
                  ground (arith, go, w, x) in
                subst (IsCreation id s.missions) (sym made)
                  (create_from-IsCreation request id ws es now s)
          ]
        ]
      ]

  lookup-keep_recent :
      (limit : fl.Float) (id : String) (d : Dict (Mission fl))
      → IsKeyed d
      → (lookup id (keep_recent fl limit d) ≡ none)
        ⊎ (lookup id (keep_recent fl limit d) ≡ lookup id d)
  unfolding keep_recent
  lookup-keep_recent limit id [] h = inl refl
  lookup-keep_recent limit id ((j, m) ∷ more) h =
      ground (arith, lookup-keep_recent limit id more h.1, h.0, eq_iff j id)

  keep_recent-IsKeyed :
      (limit : fl.Float) (d : Dict (Mission fl)) → IsKeyed d → IsKeyed (keep_recent fl limit d)
  unfolding keep_recent
  keep_recent-IsKeyed limit [] h = tt
  keep_recent-IsKeyed limit ((j, m) ∷ more) h =
      ground (arith, keep_recent-IsKeyed limit more h.1, lookup-keep_recent limit j more h.1, h.0)

  pub handle-IsNext :
      (r : Request fl) (now : fl.Float) (s : Planner fl) (id : String)
      → creates id r ≡ false
      → IsKeyed s.missions
      → IsNext (lookup id s.missions) (lookup id (handle fl r now s).missions)
  unfolding handle cleanup_old_missions
  handle-IsNext (create request fresh) now s id other h =
      elim (create_mission-IsCreation request fresh now s) [
        | inl e ↦
            subst (λ x. IsNext (lookup id s.missions) (lookup id x)) (sym e)
              (same-IsNext (lookup id s.missions))
        | inr (m, e) ↦
            subst (λ x. IsNext (lookup id s.missions) x)
              (sym (
                ap (lookup id) e
                ∙ rw other at
                    (lookup-insert (or_default request.mission_id fresh) id m s.missions)))
              (same-IsNext (lookup id s.missions))
      ]
  handle-IsNext (update i updates) now s id other h =
      IsChange-IsNext id _ _ (update_mission-IsChange fl i updates now s)
  handle-IsNext (approve i by) now s id other h =
      IsChange-IsNext id _ _ (approve_mission-IsChange fl i by now s)
  handle-IsNext (start i) now s id other h =
      IsChange-IsNext id _ _ (start_mission-IsChange fl i now s)
  handle-IsNext (complete i) now s id other h =
      IsChange-IsNext id _ _ (complete_mission-IsChange fl i now s)
  handle-IsNext (abort i reason) now s id other h =
      IsChange-IsNext id _ _ (abort_mission-IsChange fl i reason now s)
  handle-IsNext cleanup now s id other h =
      elim (lookup-keep_recent (cutoff fl now s) id s.missions h) [
        | inl gone ↦
            subst (λ x. IsNext (lookup id s.missions) x) (sym gone)
              (gone-IsNext (lookup id s.missions))
        | inr e ↦
            subst (λ x. IsNext (lookup id s.missions) x) (sym e)
              (same-IsNext (lookup id s.missions))
      ]

  pub handle-IsKeyed :
      (r : Request fl) (now : fl.Float) (s : Planner fl)
      → IsKeyed s.missions
      → IsKeyed (handle fl r now s).missions
  unfolding handle cleanup_old_missions
  handle-IsKeyed (create request fresh) now s h =
      elim (create_mission-IsCreation request fresh now s) [
        | inl e ↦ subst IsKeyed (sym e) h
        | inr (m, e) ↦
            subst IsKeyed (sym e)
              (insert-IsKeyed (or_default request.mission_id fresh) m s.missions h)
      ]
  handle-IsKeyed (update i updates) now s h =
      IsChange-IsKeyed _ _ (update_mission-IsChange fl i updates now s) h
  handle-IsKeyed (approve i by) now s h =
      IsChange-IsKeyed _ _ (approve_mission-IsChange fl i by now s) h
  handle-IsKeyed (start i) now s h = IsChange-IsKeyed _ _ (start_mission-IsChange fl i now s) h
  handle-IsKeyed (complete i) now s h =
      IsChange-IsKeyed _ _ (complete_mission-IsChange fl i now s) h
  handle-IsKeyed (abort i reason) now s h =
      IsChange-IsKeyed _ _ (abort_mission-IsChange fl i reason now s) h
  handle-IsKeyed cleanup now s h = keep_recent-IsKeyed (cutoff fl now s) s.missions h
