-- ===== src/Operator/Planner/Lifecycle/Sky.antt =====
-- The plans that are flown together.
use sbd_drones_economics.Base.{
  All-lookup, insert-cases, lookup-erase_kept, ℕ, String, ◌≡◌, ◌≢◌, ◌⊎◌, inl, inr, refl, sym, subst,
  ◌∙◌, Bool, false, not, ◌&&◌, none, some, List, [], ◌∷◌, Dict, lookup, arith, Bool-cases,
  Option-cases, IsKeyed, insert-IsKeyed, erase-IsKeyed,
}
use sbd_drones_economics.Base.Floats.{Floats}
use sbd_drones_economics.Operator.Planner.Plan.{FlightPlan}
use sbd_drones_economics.Operator.Planner.Core.{
  ValidationResult, validate_flight_plan, register_active_mission, unregister_mission,
}
use sbd_drones_economics.Operator.Planner.Core.Verdicts.{
  IsFlyable, IsClear, validate_flight_plan_iff,
}
use sbd_drones_economics.Operator.Planner.Service.{
  is_invalid, is_approved, Mission, MissionForm, Updates, Planner, create_mission, create_from,
  new_planner,
}
use sbd_drones_economics.Operator.Planner.Lifecycle.{
  update_mission, update_plan, approve_mission, start_mission, complete_mission, abort_mission,
  cleanup_old_missions, Request, create, update, approve, start, complete, abort, cleanup, handle,
  serve,
}

not_invalid : (r : ValidationResult) → is_invalid r ≡ false → r ≢ ValidationResult.invalid
not_invalid r e same = ground (arith, e, same)

module _ (fl : Floats) where
  -- Each of the plans can be flown, and of any two missions one was found clear of the other.
  pub record IsSafeSky (missions : Dict (FlightPlan fl)) : Type 0 where
    pub keyed : IsKeyed missions
    pub flyable : (id : String) (p : FlightPlan fl) → lookup id missions ≡ some p → IsFlyable fl p
    pub clear :
        (i j : String) (p q : FlightPlan fl)
        → lookup i missions ≡ some p
        → lookup j missions ≡ some q
        → i ≢ j
        → IsClear fl p q ⊎ IsClear fl q p

  register_active_mission-IsSafeSky :
      (plan : FlightPlan fl) (missions : Dict (FlightPlan fl))
      → is_invalid (validate_flight_plan fl plan missions).0 ≡ false
      → IsSafeSky missions
      → IsSafeSky (register_active_mission fl plan missions)
  unfolding register_active_mission
  register_active_mission-IsSafeSky plan missions passed h =
      let passes = (validate_flight_plan_iff fl plan missions).0 (not_invalid _ passed) in
      let k = plan.mission_id in
      record {
        keyed = insert-IsKeyed k plan missions h.keyed;
        flyable = λ id p e. elim (insert-cases k id plan p missions e) [
          | inl (_, same) ↦ subst (IsFlyable fl) same passes.0
          | inr (_, old) ↦ h.flyable id p old
        ];
        clear = λ i j p q ei ej ne. elim (insert-cases k i plan p missions ei) [
          | inl (ik, pe) ↦ elim (insert-cases k j plan q missions ej) [
            | inl (jk, _) ↦ elim (ne (ik ∙ sym jk)) [ ]
            | inr (jk, qe) ↦ inl (
                subst (λ x. IsClear fl x q) pe
                  (All-lookup (λ m. m.0 ≢ k → IsClear fl plan m.1) j q missions passes.1 qe jk))
          ]
          | inr (ik, pe) ↦ elim (insert-cases k j plan q missions ej) [
            | inl (jk, qe) ↦ inr (
                subst (λ x. IsClear fl x p) qe
                  (All-lookup (λ m. m.0 ≢ k → IsClear fl plan m.1) i p missions passes.1 pe ik))
            | inr (_, qe) ↦ h.clear i j p q pe qe ne
          ]
        ];
      }

  unregister_mission-IsSafeSky :
      (id : String) (missions : Dict (FlightPlan fl))
      → IsSafeSky missions
      → IsSafeSky (unregister_mission fl id missions)
  unfolding unregister_mission
  unregister_mission-IsSafeSky id missions h = record {
    keyed = erase-IsKeyed id missions h.keyed;
    flyable = λ i p e. h.flyable i p (lookup-erase_kept id i p missions h.keyed e);
    clear = λ i j p q ei ej ne.
        h.clear i j p q (lookup-erase_kept id i p missions h.keyed ei)
          (lookup-erase_kept id j q missions h.keyed ej) ne;
  }

  create_mission-active :
      (request : MissionForm fl) (fresh : String) (now : fl.Float) (s : Planner fl)
      → (create_mission fl request fresh now s).1.active_missions ≡ s.active_missions
  unfolding create_mission create_from
  create_mission-active request fresh now s = ground arith

  update_mission-active :
      (id : String) (updates : Updates fl) (now : fl.Float) (s : Planner fl)
      → (update_mission fl id updates now s).1.active_missions ≡ s.active_missions
  unfolding update_mission update_plan
  update_mission-active id updates now s = ground arith

  approve_mission-active :
      (id approver_id : String) (now : fl.Float) (s : Planner fl)
      → (approve_mission fl id approver_id now s).1.active_missions ≡ s.active_missions
  unfolding approve_mission
  approve_mission-active id approver_id now s = ground arith

  cleanup_old_missions-active :
      (now : fl.Float) (s : Planner fl)
      → (cleanup_old_missions fl now s).active_missions ≡ s.active_missions
  unfolding cleanup_old_missions
  cleanup_old_missions-active now s = refl

  start_mission-active :
      (id : String) (now : fl.Float) (s : Planner fl)
      → ((start_mission fl id now s).1.active_missions ≡ s.active_missions)
        ⊎ ((m : Mission fl) × (is_invalid
                (validate_flight_plan fl m.flight_plan s.active_missions).0
              ≡ false)
            × ((start_mission fl id now s).1.active_missions
                ≡ register_active_mission fl m.flight_plan s.active_missions))
  unfolding start_mission
  start_mission-active id now s = elim (Option-cases (lookup id s.missions)) [
    | inl e ↦ inl (ground (arith, e))
    | inr (m, e) ↦
        elim (Bool-cases (
          is_approved m.status
          && not (is_invalid (validate_flight_plan fl m.flight_plan s.active_missions).0))) [
            | inl good ↦ inr (m, ground (arith, good), ground (arith, e, good))
            | inr bad ↦ inl (ground (arith, e, bad))
          ]
  ]

  complete_mission-active :
      (id : String) (now : fl.Float) (s : Planner fl)
      → ((complete_mission fl id now s).1.active_missions ≡ s.active_missions)
        ⊎ ((complete_mission fl id now s).1.active_missions
            ≡ unregister_mission fl id s.active_missions)
  unfolding complete_mission
  complete_mission-active id now s = ground arith

  abort_mission-active :
      (id reason : String) (now : fl.Float) (s : Planner fl)
      → ((abort_mission fl id reason now s).1.active_missions ≡ s.active_missions)
        ⊎ ((abort_mission fl id reason now s).1.active_missions
            ≡ unregister_mission fl id s.active_missions)
  unfolding abort_mission
  abort_mission-active id reason now s = ground arith

  same : {a b : Dict (FlightPlan fl)} → b ≡ a → IsSafeSky a → IsSafeSky b
  same e h = subst IsSafeSky (sym e) h

  same_or_fewer :
      (id : String) (a b : Dict (FlightPlan fl))
      → (b ≡ a) ⊎ (b ≡ unregister_mission fl id a)
      → IsSafeSky a
      → IsSafeSky b
  same_or_fewer id a b (inl e) h = same e h
  same_or_fewer id a b (inr e) h = same e (unregister_mission-IsSafeSky id a h)

  handle-IsSafeSky :
      (r : Request fl) (now : fl.Float) (s : Planner fl)
      → IsSafeSky s.active_missions
      → IsSafeSky (handle fl r now s).active_missions
  unfolding handle
  handle-IsSafeSky (create request fresh) now s h =
      same (create_mission-active request fresh now s) h
  handle-IsSafeSky (update id updates) now s h = same (update_mission-active id updates now s) h
  handle-IsSafeSky (approve id approver_id) now s h =
      same (approve_mission-active id approver_id now s) h
  handle-IsSafeSky (start id) now s h = elim (start_mission-active id now s) [
    | inl e ↦ same e h
    | inr (m, passed, e) ↦
        same e (register_active_mission-IsSafeSky m.flight_plan s.active_missions passed h)
  ]
  handle-IsSafeSky (complete id) now s h = same_or_fewer id _ _ (complete_mission-active id now s) h
  handle-IsSafeSky (abort id reason) now s h =
      same_or_fewer id _ _ (abort_mission-active id reason now s) h
  handle-IsSafeSky cleanup now s h = same (cleanup_old_missions-active now s) h

  serve-keeps_IsSafeSky :
      (rs : List (Request fl × fl.Float)) (s : Planner fl)
      → IsSafeSky s.active_missions
      → IsSafeSky (serve fl rs s).active_missions
  unfolding serve
  serve-keeps_IsSafeSky [] s h = h
  serve-keeps_IsSafeSky ((r, now) ∷ rs) s h =
      serve-keeps_IsSafeSky rs (handle fl r now s) (handle-IsSafeSky r now s h)

  -- From the start of the service, after any calls, also those that replace missions: each active
  -- plan keeps the limits of height and speed, each of its waypoints that is not labelled takeoff or
  -- land lies outside the zones, and it names a place for an emergency landing; and of any two active
  -- missions that overlap in time, one was found clear of the other.
  pub serve-IsSafeSky :
      (rs : List (Request fl × fl.Float)) (max_concurrent days : ℕ) (optimize : Bool)
      → IsSafeSky (serve fl rs (new_planner fl max_concurrent days optimize)).active_missions
  serve-IsSafeSky rs max_concurrent days optimize =
      serve-keeps_IsSafeSky rs (new_planner fl max_concurrent days optimize) (record {
        keyed = tt;
        flyable = λ id p e. elim (none-ne-some e) [ ];
        clear = λ i j p q ei ej ne. elim (none-ne-some ei) [ ];
      })
    where
      none-ne-some : {p : FlightPlan fl} → none ≡ some p → ⊥
      none-ne-some e = ground (arith, e)
