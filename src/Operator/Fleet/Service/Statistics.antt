-- ===== src/Operator/Fleet/Service/Statistics.antt =====
-- `get_fleet_statistics`.
use sbd_drones_economics.Base.{
  ℕ, suc, ◌+◌, String, Bool, false, if◌then◌else◌, Option, none, some, [], ◌∷◌, Dict, lookup,
  insert, length, one_if, or_default, ltb, eqb,
}
use sbd_drones_economics.Base.Floats.{Floats}
use sbd_drones_economics.Operator.Fleet.{UasState, Fleet, status_value}
use sbd_drones_economics.Operator.Fleet.Service.{Stamp, naive, aware, Calendar, month, type_value}
use sbd_drones_economics.Operator.Fleet.Service.Search.{UasExtended, is_maintenance_due}

-- `d[k] = d.get(k, 0) + 1`
unfoldable pub bump : String → Dict ℕ → Dict ℕ
bump k d = insert k (suc (or_default (lookup k d) 0)) d

-- `expiry < datetime.utcnow() + timedelta(days=30)`: the comparison of a date with a time zone raises
-- a TypeError, which is passed over.
unfoldable pub expires_soon : ℕ → Option Stamp → Bool
expires_soon now none = false
expires_soon now (some (aware t)) = false
expires_soon now (some (naive t)) = ltb t (now + month)

pub record Statistics (Float : Type 0) : Type 0 where
  pub total : ℕ
  pub by_status : Dict ℕ
  pub by_type : Dict ℕ
  pub average_battery : Float
  pub average_flight_hours : Float
  pub maintenance_required : ℕ
  pub certificates_expiring_soon : ℕ

module _ (floats : Floats) (mod_50 : floats.Float → floats.Float) (calendar : Calendar) where
  open floats use {Float, of_int, add, over}

  -- What the loop adds up.
  pub record Totals : Type 0 where
    pub by_status : Dict ℕ
    pub by_type : Dict ℕ
    pub total_battery : floats.Float
    pub total_flight_hours : floats.Float
    pub maintenance_required : ℕ
    pub certificates_expiring_soon : ℕ

  unfoldable pub add_uas_totals : UasExtended Float → UasState Float → Totals → Totals
  unfolding bump expires_soon is_maintenance_due
  add_uas_totals uas state t = record {
    by_status = bump (status_value state.status) t.by_status;
    by_type = bump (type_value uas.uas_type) t.by_type;
    total_battery = add t.total_battery state.battery_level;
    total_flight_hours = add t.total_flight_hours uas.flight_hours;
    maintenance_required =
        t.maintenance_required + one_if (is_maintenance_due floats mod_50 calendar uas);
    certificates_expiring_soon =
        t.certificates_expiring_soon
        + one_if (expires_soon calendar.now (calendar.read_stamp state.certificate_expiry));
  }

  unfoldable pub totals : Dict (UasExtended Float) → Fleet Float → Totals → Totals
  unfolding add_uas_totals
  totals [] core t = t
  totals ((uas_id, uas) ∷ rows) core t = elim (lookup uas_id core) [
    | none ↦ totals rows core t
    | some state ↦ totals rows core (add_uas_totals uas state t)
  ]

  unfoldable pub get_fleet_statistics : Dict (UasExtended Float) → Fleet Float → Statistics Float
  unfolding totals
  get_fleet_statistics fleet_extended core = record {
    total = length fleet_extended;
    by_status = sums.by_status;
    by_type = sums.by_type;
    average_battery = average sums.total_battery;
    average_flight_hours = average sums.total_flight_hours;
    maintenance_required = sums.maintenance_required;
    certificates_expiring_soon = sums.certificates_expiring_soon;
  }
    where
      sums : Totals
      sums = totals fleet_extended core (record {
        by_status = [];
        by_type = [];
        total_battery = of_int 0;
        total_flight_hours = of_int 0;
        maintenance_required = 0;
        certificates_expiring_soon = 0;
      })

      average : Float → Float
      average sum =
          if eqb (length fleet_extended) 0
          then of_int 0
          else over sum (of_int (length fleet_extended))
