-- ===== src/Operator/Fleet/Permission.antt =====
-- When the core permits a mission, and what its other answers leave.
use sbd_drones_economics.Base.{
  String, ◌≡◌, ◌↔◌, refl, sym, ap₂, true, false, ◌||◌, none, some, arith, eq_iff, lookup, insert,
  lookup-insert, lookup-insert_self, starts_with, Option-cases, inl, inr,
}
use sbd_drones_economics.Outcome.{ok}
use sbd_drones_economics.Operator.Fleet.{
  UasStatus, is_reserved, is_in_mission, UasState, Fleet, Updates, Gauge, reserve_uas, release_uas,
  update_uas_state, update_fields, update_battery, authorize_uas_operation, authorize_status,
  held_by_other, status_of, status_value,
}

-- Every status is read back from its text.
pub status_of-status_value : (s : UasStatus) → status_of (status_value s) ≡ some s
unfolding status_of status_value
status_of-status_value UasStatus.available = refl
status_of-status_value UasStatus.reserved = refl
status_of-status_value UasStatus.in_mission = refl
status_of-status_value UasStatus.maintenance = refl
status_of-status_value UasStatus.charging = refl
status_of-status_value UasStatus.error = refl

module _ {Battery : Type 0} (gauge : Gauge Battery) where
  -- A drone that may fly a mission.
  pub record IsReady (uas : UasState Battery) : Type 0 where
    pub certified : uas.certificate_valid ≡ true
    pub in_force : gauge.in_force uas.certificate_expiry ≡ true
    pub engaged : (is_reserved uas.status || is_in_mission uas.status) ≡ true
    pub charged : gauge.below_mission_minimum uas.battery_level ≡ false

  -- A mission is permitted exactly for a drone of the fleet that is ready for it, whoever asks.
  authorize_mission_iff :
      (uas_id operator_id : String) (fleet : Fleet Battery)
      → (authorize_uas_operation gauge uas_id "mission" operator_id fleet ≡ (true, "OK"))
        ↔ ((uas : UasState Battery) × (lookup uas_id fleet ≡ some uas) × IsReady uas)
  unfolding authorize_uas_operation authorize_status
  authorize_mission_iff uas_id operator_id fleet = (
    λ h. elim (Option-cases (lookup uas_id fleet)) [
      | inl e ↦ ground arith
      | inr (uas, e) ↦ (
        uas,
        e,
        record {
          certified = ground arith;
          in_force = ground arith;
          engaged = ground arith;
          charged = ground arith;
        },
      )
    ],
    λ (uas, e, r). ground (arith, r.certified, r.in_force, r.engaged, r.charged),
  )

  -- What a reservation that succeeds has found and leaves.
  reserve_uas-ok :
      (uas_id mission operator : String) (fleet : Fleet Battery) (uas : UasState Battery)
      → lookup uas_id fleet ≡ some uas
      → (reserve_uas gauge uas_id mission operator fleet).0 ≡ (true, "OK")
      → (uas.status ≡ UasStatus.available)
        × (uas.certificate_valid ≡ true)
        × (gauge.in_force uas.certificate_expiry ≡ true)
        × ((reserve_uas gauge uas_id mission operator fleet).1
            ≡ insert uas_id
                (record uas { status = UasStatus.reserved; reserved_by = some mission })
                fleet)
  unfolding authorize_uas_operation authorize_status reserve_uas
  reserve_uas-ok uas_id mission operator fleet uas found h = ground arith

  -- A drone with a certificate in force, held for a mission whose identifier is not that of an
  -- operator, is released by anyone, from any status.
  release_uas-ok :
      (uas_id mission operator : String) (fleet : Fleet Battery) (uas : UasState Battery)
      → lookup uas_id fleet ≡ some uas
      → uas.certificate_valid ≡ true
      → gauge.in_force uas.certificate_expiry ≡ true
      → uas.reserved_by ≡ some mission
      → starts_with "operator_" mission ≡ false
      → release_uas gauge uas_id operator fleet ≡ (
        (true, "OK"),
        insert uas_id (record uas { status = UasStatus.available; reserved_by = none }) fleet,
      )
  unfolding authorize_uas_operation authorize_status release_uas held_by_other
  release_uas-ok uas_id mission operator fleet uas found valid in_force held named = ground arith

  -- Where a reservation succeeds, of a drone that no one held, for a mission whose identifier is not
  -- that of an operator, a release by anyone succeeds and gives back every drone as it was before.
  release-reserve :
      (uas_id mission operator operator' k : String) (fleet : Fleet Battery)
      (uas : UasState Battery)
      → lookup uas_id fleet ≡ some uas
      → uas.reserved_by ≡ none
      → starts_with "operator_" mission ≡ false
      → (reserve_uas gauge uas_id mission operator fleet).0 ≡ (true, "OK")
      → let out =
          release_uas gauge uas_id operator' (reserve_uas gauge uas_id mission operator fleet).1 in
        (out.0 ≡ (true, "OK")) × (lookup k out.1 ≡ lookup k fleet)
  release-reserve uas_id mission operator operator' k fleet uas found free named h =
      let (status, valid, in_force, e) = reserve_uas-ok uas_id mission operator fleet uas found h in
      let taken : UasState Battery = record uas {
        status = UasStatus.reserved;
        reserved_by = some mission;
      } in
      let r =
        release_uas-ok uas_id mission operator' (insert uas_id taken fleet) taken
          (lookup-insert_self uas_id taken fleet) valid in_force refl named in
      let back : UasState Battery = record uas {
        status = UasStatus.available;
        reserved_by = none;
      } in
      let same : back ≡ uas =
        ap₂ (λ s r. record uas { status = s; reserved_by = r }) (sym status) (sym free) in
      rw (e, r)
        (
          refl,
          ground (
            arith,
            lookup-insert uas_id k back (insert uas_id taken fleet),
            lookup-insert uas_id k taken fleet,
            same,
            eq_iff uas_id k,
          ),
        )

  -- An update whose level is out of range is refused, and yet changes the status that it names.
  update_uas_state_partial :
      (uas_id value : String) (battery : Battery) (updates : Updates Battery)
      (fleet : Fleet Battery) (uas : UasState Battery) (status : UasStatus)
      → lookup uas_id fleet ≡ some uas
      → updates.status ≡ some value
      → status_of value ≡ some status
      → updates.battery_level ≡ some (ok battery)
      → gauge.in_range battery ≡ false
      → update_uas_state gauge uas_id updates fleet ≡ (
        ok (false, "INVALID_BATTERY_LEVEL"),
        insert uas_id (record uas { status = status }) fleet,
      )
  unfolding update_uas_state update_fields update_battery
  update_uas_state_partial uas_id value battery updates fleet uas status found named known level
        out =
      ground arith
