-- ===== src/Operator/Fleet/Reservation.antt =====
-- Sequences of calls of the core, and the reservations that succeed in them.
use sbd_drones_economics.Base.{
  ℕ, ◌+◌, ◌≤◌, String, ◌≡◌, refl, Bool, true, false, not, ◌&&◌, none, some, List, [], ◌∷◌, arith,
  ◌==◌, eq_iff, lookup, lookup-insert, All, one_if, Option-cases, Bool-cases, inl, inr,
}
use sbd_drones_economics.Outcome.{Result, ok}
use sbd_drones_economics.Operator.Fleet.{
  UasStatus, is_reserved, Fleet, Reply, Updates, InitialState, Gauge, reserve_uas, release_uas,
  update_uas_state, add_uas, added, update_fields,
}

-- A call of the core that writes.
pub data Call (Battery : Type 0) : Type 0 where
  reserve : (uas_id mission_id operator_id : String) → Call Battery
  release : (uas_id operator_id : String) → Call Battery
  update : (uas_id : String) → Updates Battery → Call Battery
  add : (uas_id : String) → InitialState Battery → Call Battery

module _ {Battery : Type 0} (gauge : Gauge Battery) where
  unfoldable pub step : Call Battery → Fleet Battery → Result Reply × Fleet Battery
  step (reserve uas mission operator) fleet =
      let (reply, after) = reserve_uas gauge uas mission operator fleet in (ok reply, after)
  step (release uas operator) fleet =
      let (reply, after) = release_uas gauge uas operator fleet in (ok reply, after)
  step (update uas updates) fleet = update_uas_state gauge uas updates fleet
  step (add uas initial) fleet =
      let (reply, after) = add_uas gauge uas initial fleet in (ok reply, after)

  -- A reservation of the drone that succeeds.
  abbrev pub is_win : String → Call Battery → Result Reply → Bool
  is_win u (reserve uas mission operator) (ok (success, reason)) = uas == u && success
  is_win u _ _ = false

  -- How many reservations of the drone succeed in a sequence of calls.
  abbrev pub wins : String → List (Call Battery) → Fleet Battery → ℕ
  wins u [] fleet = 0
  wins u (call ∷ calls) fleet =
      one_if (is_win u call (step call fleet).0) + wins u calls (step call fleet).1

  -- Neither a release nor an update of the drone.
  abbrev pub leaves : String → Call Battery → Bool
  leaves u (release uas operator) = not (uas == u)
  leaves u (update uas updates) = not (uas == u)
  leaves u _ = true

  abbrev pub is_held : String → Fleet Battery → Bool
  is_held u fleet = elim (lookup u fleet) [ none ↦ false | some uas ↦ is_reserved uas.status ]

  win-is_held :
      (u : String) (call : Call Battery) (fleet : Fleet Battery)
      → is_win u call (step call fleet).0 ≡ true
      → is_held u (step call fleet).1 ≡ true
  unfolding step reserve_uas
  win-is_held u (reserve uas mission operator) fleet h = elim (Option-cases (lookup uas fleet)) [
    | inl e ↦ ground arith
    | inr (x, e) ↦ ground (
      arith,
      lookup-insert uas u (record x { status = UasStatus.reserved; reserved_by = some mission })
          fleet,
      eq_iff uas u,
    )
  ]
  win-is_held u (release uas operator) fleet h = ground arith
  win-is_held u (update uas updates) fleet h = ground arith
  win-is_held u (add uas initial) fleet h = ground arith

  reserve-held :
      (u uas mission operator : String) (fleet : Fleet Battery)
      → is_held u fleet ≡ true
      → (is_held u (reserve_uas gauge uas mission operator fleet).1 ≡ true)
        × ((uas == u && (reserve_uas gauge uas mission operator fleet).0.0) ≡ false)
  unfolding reserve_uas
  reserve-held u uas mission operator fleet h = elim (Option-cases (lookup uas fleet)) [
    | inl e ↦ ground (arith, eq_iff uas u)
    | inr (x, e) ↦ ground (
      arith,
      lookup-insert uas u (record x { status = UasStatus.reserved; reserved_by = some mission })
          fleet,
      eq_iff uas u,
    )
  ]

  step-held :
      (u : String) (call : Call Battery) (fleet : Fleet Battery)
      → leaves u call ≡ true
      → is_held u fleet ≡ true
      → (is_held u (step call fleet).1 ≡ true) × (is_win u call (step call fleet).0 ≡ false)
  unfolding step release_uas update_uas_state add_uas
  step-held u (reserve uas mission operator) fleet l h = reserve-held u uas mission operator fleet h
  step-held u (release uas operator) fleet l h = elim (Option-cases (lookup uas fleet)) [
    | inl e ↦ ground arith
    | inr (x, e) ↦ ground (
      arith,
      lookup-insert uas u (record x { status = UasStatus.available; reserved_by = none }) fleet,
    )
  ]
  step-held u (update uas updates) fleet l h = elim (Option-cases (lookup uas fleet)) [
    | inl e ↦ ground arith
    | inr (x, e) ↦ ground (arith, lookup-insert uas u (update_fields gauge updates x).1 fleet)
  ]
  step-held u (add uas initial) fleet l h = elim (Option-cases (lookup uas fleet)) [
    | inl e ↦ ground (arith, eq_iff uas u, lookup-insert uas u (added gauge uas initial) fleet)
    | inr (x, e) ↦ ground arith
  ]

  wins-held :
      (u : String) (calls : List (Call Battery)) (fleet : Fleet Battery)
      → All (λ c. leaves u c ≡ true) calls
      → is_held u fleet ≡ true
      → wins u calls fleet ≡ 0
  wins-held u [] fleet l h = refl
  wins-held u (call ∷ calls) fleet l h =
      let (h', lost) = step-held u call fleet l.0 h in
      ground (arith, lost, wins-held u calls (step call fleet).1 l.1 h')

  -- In a sequence of calls that neither releases nor updates a drone, whatever else it does, at most
  -- one reservation of the drone succeeds, from any fleet.
  pub wins-le_one :
      (u : String) (calls : List (Call Battery)) (fleet : Fleet Battery)
      → All (λ c. leaves u c ≡ true) calls
      → wins u calls fleet ≤ 1
  wins-le_one u [] fleet l = omega arith
  wins-le_one u (call ∷ calls) fleet l = elim (Bool-cases (is_win u call (step call fleet).0)) [
    | inl won ↦
        ground (arith, wins-held u calls (step call fleet).1 l.1 (win-is_held u call fleet won))
    | inr lost ↦ ground (arith, wins-le_one u calls (step call fleet).1 l.1)
  ]
