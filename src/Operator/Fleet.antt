-- ===== src/Operator/Fleet.antt =====
-- FleetManagerCore of systems/operator/src/fleet_manager/src/fleet_manager_core.py. A battery level
-- is a `float` there and a parameter here, with the two tests that the code makes on it; `in_force`
-- is the comparison of an expiry date with the clock.
pub mod Reservation
pub mod Permission
pub mod Service
mod Tests
use sbd_drones_economics.Base.{
  String, Bool, true, false, not, ◌&&◌, ◌||◌, Option, none, some, ◌∷◌, [], ◌==◌, Dict, lookup,
  insert, is_some, if◌then◌else◌, or_default, starts_with,
}
use sbd_drones_economics.Outcome.{Result, ok, err, Exception, value_error}

pub data UasStatus : Type 0 where
  available : UasStatus
  reserved : UasStatus
  in_mission : UasStatus
  maintenance : UasStatus
  charging : UasStatus
  error : UasStatus

abbrev pub is_available : UasStatus → Bool
is_available UasStatus.available = true
is_available _ = false

abbrev pub is_reserved : UasStatus → Bool
is_reserved UasStatus.reserved = true
is_reserved _ = false

abbrev pub is_in_mission : UasStatus → Bool
is_in_mission UasStatus.in_mission = true
is_in_mission _ = false

-- `UASStatus(value)`; none is its `ValueError`.
unfoldable pub status_of : String → Option UasStatus
status_of value =
    if value == "available"
    then some UasStatus.available
    else if value == "reserved"
    then some UasStatus.reserved
    else if value == "in_mission"
    then some UasStatus.in_mission
    else if value == "maintenance"
    then some UasStatus.maintenance
    else if value == "charging"
    then some UasStatus.charging
    else if value == "error"
    then some UasStatus.error
    else none

-- `status.value`
unfoldable pub status_value : UasStatus → String
status_value UasStatus.available = "available"
status_value UasStatus.reserved = "reserved"
status_value UasStatus.in_mission = "in_mission"
status_value UasStatus.maintenance = "maintenance"
status_value UasStatus.charging = "charging"
status_value UasStatus.error = "error"

pub record UasState (Battery : Type 0) : Type 0 where
  pub id : String
  pub status : UasStatus
  pub certificate_valid : Bool
  pub certificate_expiry : String
  pub battery_level : Battery
  pub reserved_by : Option String

abbrev pub Fleet : Type 0 → Type 0
Fleet Battery = Dict (UasState Battery)

-- `(success, reason)`
abbrev pub Reply : Type 0
Reply = Bool × String

-- A field that is absent is none; a level that `float()` refuses is an exception.
pub record Updates (Battery : Type 0) : Type 0 where
  pub status : Option String
  pub battery_level : Option (Result Battery)
  pub certificate_valid : Option Bool
  pub certificate_expiry : Option String

pub record InitialState (Battery : Type 0) : Type 0 where
  pub certificate_valid : Option Bool
  pub certificate_expiry : Option String
  pub battery_level : Option Battery

-- What the core asks of a battery level and of an expiry date.
pub record Gauge (Battery : Type 0) : Type 0 where
  pub below_mission_minimum : Battery → Bool
  pub in_range : Battery → Bool
  pub full : Battery
  pub in_force : String → Bool

module _ {Battery : Type 0} (gauge : Gauge Battery) where
  -- `uas.reserved_by and uas.reserved_by.startswith("operator_") and uas.reserved_by != operator_id`
  unfoldable pub held_by_other : Option String → (operator_id : String) → Bool
  held_by_other none operator_id = false
  held_by_other (some holder) operator_id =
      not (holder == "") && starts_with "operator_" holder && not (holder == operator_id)

  -- The part of `authorize_uas_operation` after the certificate.
  unfoldable pub authorize_status : (operation operator_id : String) → UasState Battery → Reply
  authorize_status operation operator_id uas =
      if operation == "reserve"
      then (if not (is_available uas.status) && not (is_reserved uas.status)
          then (false, "UAS_NOT_AVAILABLE")
          else (true, "OK"))
      else if operation == "mission"
      then (if not (is_reserved uas.status || is_in_mission uas.status)
          then (false, "UAS_NOT_READY_FOR_MISSION")
          else if gauge.below_mission_minimum uas.battery_level
          then (false, "BATTERY_TOO_LOW")
          else (true, "OK"))
      else if operation == "release"
      then (if held_by_other uas.reserved_by operator_id
          then (false, "NOT_AUTHORIZED_TO_RELEASE")
          else (true, "OK"))
      else (true, "OK")

  unfoldable pub authorize_uas_operation :
      (uas_id operation operator_id : String) → Fleet Battery → Reply
  unfolding authorize_status
  authorize_uas_operation uas_id operation operator_id fleet = elim (lookup uas_id fleet) [
    | none ↦ (false, "UAS_NOT_FOUND")
    | some uas ↦
        if not uas.certificate_valid
        then (false, "CERTIFICATE_INVALID")
        else if not (gauge.in_force uas.certificate_expiry)
        then (false, "CERTIFICATE_EXPIRED")
        else authorize_status operation operator_id uas
  ]

  unfoldable pub reserve_uas :
      (uas_id mission_id operator_id : String) → Fleet Battery → Reply × Fleet Battery
  reserve_uas uas_id mission_id operator_id fleet =
      let (authorized, reason) = authorize_uas_operation uas_id "reserve" operator_id fleet in
      if not authorized then ((false, reason), fleet) else elim (lookup uas_id fleet) [
        | none ↦ ((false, "UAS_NOT_FOUND"), fleet)
        | some uas ↦
            if not (is_available uas.status)
            then ((false, "RACE_CONDITION_UAS_ALREADY_RESERVED"), fleet)
            else (
              (true, "OK"),
              insert uas_id
                  (record uas { status = UasStatus.reserved; reserved_by = some mission_id }) fleet,
            )
      ]

  unfoldable pub release_uas : (uas_id operator_id : String) → Fleet Battery → Reply × Fleet Battery
  release_uas uas_id operator_id fleet =
      let (authorized, reason) = authorize_uas_operation uas_id "release" operator_id fleet in
      if not authorized then ((false, reason), fleet) else elim (lookup uas_id fleet) [
        | none ↦ ((false, "UAS_NOT_FOUND"), fleet)
        | some uas ↦ (
          (true, "OK"),
          insert uas_id (record uas { status = UasStatus.available; reserved_by = none }) fleet,
        )
      ]

  -- The two certificate fields of an update.
  unfoldable pub update_certificate : Updates Battery → UasState Battery → UasState Battery
  update_certificate updates uas = record uas {
    certificate_valid = or_default updates.certificate_valid uas.certificate_valid;
    certificate_expiry = or_default updates.certificate_expiry uas.certificate_expiry;
  }

  -- The level and what follows it. What was assigned before a refusal stays assigned.
  unfoldable pub update_battery :
      Updates Battery → UasState Battery → Result Reply × UasState Battery
  unfolding update_certificate
  update_battery updates uas = elim updates.battery_level [
    | none ↦ (ok (true, "OK"), update_certificate updates uas)
    | some (err e) ↦ (err e, uas)
    | some (ok battery) ↦
        if gauge.in_range battery
        then (ok (true, "OK"), update_certificate updates (record uas { battery_level = battery }))
        else (ok (false, "INVALID_BATTERY_LEVEL"), uas)
  ]

  unfoldable pub update_fields :
      Updates Battery → UasState Battery → Result Reply × UasState Battery
  unfolding update_battery status_of
  update_fields updates uas = elim updates.status [
    | none ↦ update_battery updates uas
    | some value ↦ elim (status_of value) [
      | none ↦ (ok (false, "INVALID_STATUS"), uas)
      | some s ↦ update_battery updates (record uas { status = s })
    ]
  ]

  unfoldable pub update_uas_state :
      (uas_id : String) → Updates Battery → Fleet Battery → Result Reply × Fleet Battery
  unfolding update_fields
  update_uas_state uas_id updates fleet = elim (lookup uas_id fleet) [
    | none ↦ (ok (false, "UAS_NOT_FOUND"), fleet)
    | some uas ↦ let (reply, uas') = update_fields updates uas in (reply, insert uas_id uas' fleet)
  ]

  -- The state of a new drone.
  abbrev pub added : (uas_id : String) → InitialState Battery → UasState Battery
  added uas_id initial = record {
    id = uas_id;
    status = UasStatus.available;
    certificate_valid = or_default initial.certificate_valid false;
    certificate_expiry = or_default initial.certificate_expiry "";
    battery_level = or_default initial.battery_level gauge.full;
    reserved_by = none;
  }

  unfoldable pub add_uas :
      (uas_id : String) → InitialState Battery → Fleet Battery → Reply × Fleet Battery
  add_uas uas_id initial fleet =
      if is_some (lookup uas_id fleet)
      then ((false, "UAS_ALREADY_EXISTS"), fleet)
      else ((true, "OK"), insert uas_id (added uas_id initial) fleet)

-- The state as the core gives it out: the status by its text, and the rest.
unfoldable pub get_uas_state :
    {Battery : Type 0} (uas_id : String) → Fleet Battery → Option (String × UasState Battery)
get_uas_state uas_id fleet = elim (lookup uas_id fleet) [
  | none ↦ none
  | some uas ↦ some (status_value uas.status, uas)
]
