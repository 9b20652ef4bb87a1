-- ===== src/Operator/Fleet/Service.antt =====
-- FleetManagerService of systems/operator/src/fleet_manager/src/fleet_manager_service.py, over the
-- core of `Operator.Fleet`. Times are numbers of microseconds; `% 50` on floats, and what
-- `fromisoformat` makes of a text with its Z replaced, are the library's.
pub mod Cache
pub mod Ledger
pub mod Search
pub mod Fitting
pub mod Ranking
pub mod Statistics
pub mod Counts
mod Tests
use sbd_drones_economics.Base.{
  ℕ, zero, suc, ◌+◌, ◌*◌, String, Bool, true, false, not, ◌&&◌, ◌||◌, Option, none, some, List, [],
  ◌∷◌, ◌++◌, ◌==◌, Dict, lookup, insert, erase, if◌then◌else◌, or_default, ltb,
}
use sbd_drones_economics.Base.Floats.{Floats, min, max}
use sbd_drones_economics.Operator.Fleet.{
  UasState, Fleet, Gauge, UasStatus, is_available, reserve_uas, release_uas, update_uas_state,
  add_uas, Updates, InitialState,
}

pub data UasType : Type 0 where
  light_cargo heavy_cargo agro inspector : UasType

unfoldable pub type_value : UasType → String
type_value light_cargo = "light_cargo"
type_value heavy_cargo = "heavy_cargo"
type_value agro = "agro"
type_value inspector = "inspector"

-- A `datetime` without a time zone, or with one.
pub data Stamp : Type 0 where
  naive aware : ℕ → Stamp

-- The clock and the reading of dates.
pub record Calendar : Type 0 where
  pub now : ℕ
  pub read_stamp : String → Option Stamp

-- 30 days
abbrev pub month : ℕ
month = 2_592_000_000_000

pub record Reservation : Type 0 where
  pub mission_id : String
  pub operator_id : String
  pub reserved_at : ℕ
  pub expires_at : ℕ

-- The entries of the history, but for the measured `duration_ms`.
pub data Operation : Type 0 where
  reserve :
      (uas_id mission_id operator_id : String) (timestamp : ℕ) (success : Bool) (reason : String)
      → Operation
  release :
      (uas_id operator_id : String) (timestamp : ℕ) (previous : Option Reservation) → Operation

pub record Metrics : Type 0 where
  pub total_operations : ℕ
  pub successful_reservations : ℕ
  pub failed_reservations : ℕ

pub data Reply : Type 0 where
  granted : Reservation → Reply
  refused : (reason : String) (suggestions : List String) → Reply
  released : (released_from : Option String) → Reply

-- `_get_reservation_suggestions`
unfoldable pub reservation_suggestions : String → List String
reservation_suggestions reason =
    if reason == "UAS_NOT_AVAILABLE"
    then "Try another UAS or wait for release" ∷ "Check fleet statistics for available units" ∷ []
    else if reason == "CERTIFICATE_EXPIRED"
    then "UAS requires certificate renewal" ∷ "Contact maintenance team" ∷ []
    else if reason == "BATTERY_TOO_LOW"
    then "UAS needs charging" ∷ "Expected charge time: 2 hours" ∷ []
    else []

pub record Service (Battery : Type 0) : Type 0 where
  pub core : Fleet Battery
  pub reservations : Dict Reservation
  pub operation_history : List Operation
  pub metrics : Metrics

-- `FleetManagerService(core, ...)`, but for the extended rows, which `Search` and `Statistics` take
-- as an argument
abbrev pub new : {Battery : Type 0} → Fleet Battery → Service Battery
new core = record {
  core = core;
  reservations = [];
  operation_history = [];
  metrics = record { total_operations = 0; successful_reservations = 0; failed_reservations = 0 };
}

unfoldable pub counted : Bool → Metrics → Metrics
counted success m = record m {
  total_operations = suc m.total_operations;
  successful_reservations =
      if success then suc m.successful_reservations else m.successful_reservations;
  failed_reservations = if success then m.failed_reservations else suc m.failed_reservations;
}

unfoldable pub mission_of : Option Reservation → Option String
mission_of none = none
mission_of (some r) = some r.mission_id

module _ {Battery : Type 0} (gauge : Gauge Battery) where
  -- `duration` is in seconds.
  unfoldable pub reserve_uas_with_validation :
      (uas_id mission_id operator_id : String) (duration now : ℕ)
      → Service Battery
      → Reply × Service Battery
  unfolding counted reserve_uas reservation_suggestions
  reserve_uas_with_validation uas_id mission_id operator_id duration now s =
      if success
      then (
        granted reservation,
        record logged { reservations = insert uas_id reservation s.reservations },
      )
      else (refused reason (reservation_suggestions reason), logged)
    where
      result : (Bool × String) × Fleet Battery
      result = reserve_uas gauge uas_id mission_id operator_id s.core

      success : Bool
      success = result.0.0

      reason : String
      reason = result.0.1

      logged : Service Battery
      logged = record s {
        core = result.1;
        metrics = counted success s.metrics;
        operation_history =
            s.operation_history ++ reserve uas_id mission_id operator_id now success reason ∷ [];
      }

      reservation : Reservation
      reservation = record {
        mission_id = mission_id;
        operator_id = operator_id;
        reserved_at = now;
        expires_at = now + duration * 1_000_000;
      }

  unfoldable pub release_uas_with_cleanup :
      (uas_id operator_id : String) (now : ℕ) → Service Battery → Reply × Service Battery
  unfolding release_uas mission_of
  release_uas_with_cleanup uas_id operator_id now s =
      if result.0.0
      then (
        released (mission_of previous),
        record s {
          core = result.1;
          reservations = erase uas_id s.reservations;
          operation_history = s.operation_history ++ release uas_id operator_id now previous ∷ [];
        },
      )
      else (refused result.0.1 [], record s { core = result.1 })
    where
      result : (Bool × String) × Fleet Battery
      result = release_uas gauge uas_id operator_id s.core

      previous : Option Reservation
      previous = lookup uas_id s.reservations

  -- The calls of the service, and those of the core beside it.
  pub data Call : Type 0 where
    reserves : (uas_id mission_id operator_id : String) (duration : ℕ) → Call
    releases : (uas_id operator_id : String) → Call
    updates : (uas_id : String) → Updates Battery → Call
    adds : (uas_id : String) → InitialState Battery → Call

  unfoldable pub serve : ℕ × Call → Service Battery → Service Battery
  unfolding reserve_uas_with_validation release_uas_with_cleanup update_uas_state add_uas
  serve (now, reserves uas_id mission_id operator_id duration) s =
      (reserve_uas_with_validation uas_id mission_id operator_id duration now s).1
  serve (now, releases uas_id operator_id) s = (release_uas_with_cleanup uas_id operator_id now s).1
  serve (now, updates uas_id fields) s = record s {
    core = (update_uas_state gauge uas_id fields s.core).1;
  }
  serve (now, adds uas_id initial) s = record s { core = (add_uas gauge uas_id initial s.core).1 }

  unfoldable pub serve_all : List (ℕ × Call) → Service Battery → Service Battery
  unfolding serve
  serve_all [] s = s
  serve_all (c ∷ calls) s = serve_all calls (serve c s)
