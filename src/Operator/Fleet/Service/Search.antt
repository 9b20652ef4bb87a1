-- ===== src/Operator/Fleet/Service/Search.antt =====
-- The search for suitable drones: `find_suitable_uas` with its score. Levels and lengths are
-- abstract floats; `** 0.5` is a square root.
use sbd_drones_economics.Base.{
  ℕ, ◌+◌, String, Bool, true, not, ◌&&◌, if◌then◌else◌, Option, none, some, List, [], ◌∷◌, ◌==◌,
  Dict, lookup, or_default, ltb,
}
use sbd_drones_economics.Base.Floats.{Floats, min, max}
use sbd_drones_economics.Operator.Fleet.{UasState, Fleet, is_available}
use sbd_drones_economics.Operator.Fleet.Service.{
  UasType, type_value, Stamp, naive, aware, Calendar, month,
}

pub record Location (Float : Type 0) : Type 0 where
  pub lat : Float
  pub lon : Float
  pub alt : Float

pub record UasExtended (Float : Type 0) : Type 0 where
  pub id : String
  pub uas_type : UasType
  pub location : Location Float
  pub max_payload : Float
  pub max_range : Float
  pub last_maintenance : String
  pub flight_hours : Float
  pub model_id : Option String
  pub developer_id : Option String

pub record Requirements (Float : Type 0) : Type 0 where
  pub uas_type : Option String
  pub min_payload : Option Float
  pub min_range : Option Float
  pub min_battery : Option Float
  pub location : Option (Location Float)

pub record Suitable (Float : Type 0) : Type 0 where
  pub id : String
  pub uas_type : String
  pub model_id : Option String
  pub battery_level : Float
  pub max_payload : Float
  pub max_range : Float
  pub location : Location Float
  pub suitability_score : Float
  pub maintenance_due : Bool

-- `datetime.utcnow()` has no time zone: a date with one cannot be subtracted from it, and the
-- TypeError counts as due.
unfoldable pub is_overdue : ℕ → Option Stamp → Bool
is_overdue now none = true
is_overdue now (some (aware t)) = true
is_overdue now (some (naive t)) = ltb (t + month) now

module _ (floats : Floats) (mod_50 : floats.Float → floats.Float) (calendar : Calendar) where
  open floats use {Float, literal, of_int, add, sub, times, below, equal, square, sqrt}

  -- `_is_maintenance_due`
  unfoldable pub is_maintenance_due : UasExtended Float → Bool
  unfolding is_overdue
  is_maintenance_due uas =
      if below (of_int 45) (mod_50 uas.flight_hours)
      then true
      else is_overdue calendar.now (calendar.read_stamp uas.last_maintenance)

  -- `_calculate_distance`, whose `abs` the squares make void
  unfoldable pub distance : Location Float → Location Float → Float
  distance a b =
      times
        (sqrt (add (square (floats.abs (sub a.lat b.lat))) (square (floats.abs (sub a.lon b.lon)))))
        (of_int 111)

  -- Each step of the score.
  unfoldable pub less_for_charge : Float → Float → Float
  less_for_charge battery score =
      if below battery (literal 1 2)
      then sub score (times (sub (literal 1 2) battery) (of_int 50))
      else score

  unfoldable pub less_for_excess : Option Float → Float → Float → Float
  less_for_excess none max_payload score = score
  less_for_excess (some min_payload) max_payload score =
      if not (equal min_payload (of_int 0)) && below (of_int 20) (sub max_payload min_payload)
      then sub score (times (sub max_payload min_payload) (literal 1 2))
      else score

  unfoldable pub more_for_place : Option (Location Float) → Location Float → Float → Float
  unfolding distance
  more_for_place none at score = score
  more_for_place (some target) at score =
      if below (distance at target) (of_int 10)
      then add score (of_int 10)
      else if below (of_int 50) (distance at target)
      then sub score (of_int 10)
      else score

  -- `_calculate_suitability_score`
  unfoldable pub suitability_score : UasExtended Float → UasState Float → Requirements Float → Float
  unfolding is_maintenance_due less_for_charge less_for_excess more_for_place
  suitability_score uas state r = max floats (of_int 0) (min floats (of_int 100) placed)
    where
      loaded : Float
      loaded =
          less_for_excess r.min_payload uas.max_payload
            (less_for_charge state.battery_level (of_int 100))

      serviced : Float
      serviced = if is_maintenance_due uas then sub loaded (of_int 20) else loaded

      placed : Float
      placed = more_for_place r.location uas.location serviced

  unfoldable pub is_type : Option String → UasType → Bool
  unfolding type_value
  is_type none t = true
  is_type (some wanted) t = if wanted == "" then true else type_value t == wanted

  -- The tests of the loop, in the negative there.
  unfoldable pub is_suitable : UasExtended Float → UasState Float → Requirements Float → Bool
  unfolding is_type
  is_suitable uas state r =
      is_available state.status
      && state.certificate_valid
      && is_type r.uas_type uas.uas_type
      && not (below uas.max_payload (or_default r.min_payload (of_int 0)))
      && not (below uas.max_range (or_default r.min_range (of_int 0)))
      && not (below state.battery_level (or_default r.min_battery (literal 3 10)))

  unfoldable pub suitable :
      String → UasExtended Float → UasState Float → Requirements Float → Suitable Float
  unfolding suitability_score is_maintenance_due type_value
  suitable uas_id uas state r = record {
    id = uas_id;
    uas_type = type_value uas.uas_type;
    model_id = uas.model_id;
    battery_level = state.battery_level;
    max_payload = uas.max_payload;
    max_range = uas.max_range;
    location = uas.location;
    suitability_score = suitability_score uas state r;
    maintenance_due = is_maintenance_due uas;
  }

  unfoldable pub consider :
      String
      → UasExtended Float
      → Option (UasState Float)
      → Requirements Float
      → List (Suitable Float)
      → List (Suitable Float)
  unfolding is_suitable suitable
  consider uas_id uas none r rest = rest
  consider uas_id uas (some state) r rest =
      if is_suitable uas state r then suitable uas_id uas state r ∷ rest else rest

  unfoldable pub candidates :
      Dict (UasExtended Float) → Fleet Float → Requirements Float → List (Suitable Float)
  unfolding consider
  candidates [] core r = []
  candidates ((uas_id, uas) ∷ fleet_extended) core r =
      consider uas_id uas (lookup uas_id core) r (candidates fleet_extended core r)

  -- `sort(key=score, reverse=True)`, which keeps the order of equals
  unfoldable pub insert_ranked : Suitable Float → List (Suitable Float) → List (Suitable Float)
  insert_ranked a [] = a ∷ []
  insert_ranked a (b ∷ bs) =
      let rest = insert_ranked a bs in
      if below a.suitability_score b.suitability_score then b ∷ rest else a ∷ b ∷ bs

  unfoldable pub ranked : List (Suitable Float) → List (Suitable Float)
  unfolding insert_ranked
  ranked [] = []
  ranked (a ∷ more) = insert_ranked a (ranked more)

  unfoldable pub find_suitable_uas :
      Dict (UasExtended Float) → Fleet Float → Requirements Float → List (Suitable Float)
  unfolding candidates ranked
  find_suitable_uas fleet_extended core r = ranked (candidates fleet_extended core r)
