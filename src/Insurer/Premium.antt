-- ===== src/Insurer/Premium.antt =====
-- The formulas of systems/alt_insurer/src/insurance_service/src/insurance_service.py.
use sbd_drones_economics.Base.{
  ℕ, String, ◌≡◌, refl, true, false, ◌&&◌, ◌==◌, lower, leb, ltb, eqb, if◌then◌else◌,
}
use sbd_drones_economics.Base.Floats.{Floats, min, max, IsWithin, clamp-IsWithin}

module _ (fl : Floats) where
  -- `RISK_CLASS_RATES.get(drone_type.lower(), 0.08)`
  unfoldable pub risk_class_rate : (drone_type : String) → fl.Float
  risk_class_rate drone_type =
      let t = lower drone_type in
      if t == "inspector"
      then fl.literal 1 100
      else if t == "delivery"
      then fl.literal 8 100
      else if t == "firefighter"
      then fl.literal 12 100
      else fl.literal 8 100

  abbrev pub default_leverage : fl.Float
  default_leverage = fl.literal 2 1

  -- `_calc_kfleet_history`
  unfoldable pub calc_kfleet_history :
      (flights_per_year : ℕ) → (accident_rate : fl.Float) → fl.Float
  calc_kfleet_history flights_per_year accident_rate =
      if ltb flights_per_year 10
      then fl.literal 1 1
      else if fl.below (fl.literal 5 100) accident_rate
      then fl.literal 15 10
      else if ltb 100 flights_per_year && fl.below accident_rate (fl.literal 2 100)
      then fl.literal 8 10
      else fl.literal 1 1

  -- `_calc_kincident_history`, whose `kbase` no caller gives
  unfoldable pub calc_kincident_history :
      (incidents total_missions : ℕ) → (leverage : fl.Float) → fl.Float
  calc_kincident_history incidents total_missions leverage =
      let kbase =
        if leb 500 total_missions && eqb incidents 0 then fl.literal 8 10 else fl.literal 1 1 in
      if eqb total_missions 0
      then kbase
      else fl.add kbase
          (fl.times (fl.over (fl.of_int incidents) (fl.of_int total_missions)) leverage)

  -- `_calc_annual_premium`
  unfoldable pub calc_annual_premium :
      (drone_value base_hull_rate : fl.Float)
      → (flights_per_year : ℕ) → (accident_rate : fl.Float) → fl.Float
  calc_annual_premium drone_value base_hull_rate flights_per_year accident_rate =
      let rate = max fl (fl.literal 5 100) (min fl (fl.literal 15 100) base_hull_rate) in
      let k = calc_kfleet_history flights_per_year accident_rate in
      fl.round (fl.times (fl.times drone_value rate) k) 2

  -- `_calc_mission_premium`
  unfoldable pub calc_mission_premium :
      (cargo_value : fl.Float)
      → (drone_type : String) → (kenv : fl.Float) → (incidents total_missions : ℕ)
      → (leverage : fl.Float) → fl.Float
  calc_mission_premium cargo_value drone_type kenv incidents total_missions leverage =
      let r = risk_class_rate drone_type in
      let clamped = max fl (fl.literal 1 1) (min fl (fl.literal 2 1) kenv) in
      let k_inc = calc_kincident_history incidents total_missions leverage in
      fl.round (fl.times (fl.times (fl.times cargo_value r) clamped) k_inc) 2

  -- What is used of the order of floats: nothing is below what is below it, and these literals are
  -- ordered.
  pub record IsOrdered : Type 0 where
    pub asymmetric : (a b : fl.Float) → fl.below a b ≡ true → fl.below b a ≡ false
    pub irreflexive : (a : fl.Float) → fl.below a a ≡ false
    pub rates : fl.below (fl.literal 15 100) (fl.literal 5 100) ≡ false
    pub factors : fl.below (fl.literal 2 1) (fl.literal 1 1) ≡ false

  -- Whatever rate and factor are asked for, also NaN: the annual premium is reckoned with a rate from
  -- 5% to 15%, and the mission premium with a factor from 1 to 2.
  premiums-IsWithin :
      (value rate kenv accident_rate leverage : fl.Float) (drone_type : String)
      (flights incidents missions : ℕ)
      → IsOrdered
      → (r : fl.Float) × (k : fl.Float) × IsWithin fl (fl.literal 5 100) (fl.literal 15 100) r
        × IsWithin fl (fl.literal 1 1) (fl.literal 2 1) k
        × (calc_annual_premium value rate flights accident_rate
            ≡ fl.round (fl.times (fl.times value r) (calc_kfleet_history flights accident_rate)) 2)
        × (calc_mission_premium value drone_type kenv incidents missions leverage
            ≡ fl.round
                (fl.times
                  (fl.times (fl.times value (risk_class_rate drone_type)) k)
                  (calc_kincident_history incidents missions leverage))
                2)
  unfolding calc_annual_premium calc_mission_premium
  premiums-IsWithin value rate kenv accident_rate leverage drone_type flights incidents missions o =
      (
        max fl (fl.literal 5 100) (min fl (fl.literal 15 100) rate),
        max fl (fl.literal 1 1) (min fl (fl.literal 2 1) kenv),
        clamp-IsWithin fl _ _ rate (o.irreflexive _) (o.irreflexive _) o.rates o.asymmetric,
        clamp-IsWithin fl _ _ kenv (o.irreflexive _) (o.irreflexive _) o.factors o.asymmetric,
        refl,
        refl,
      )
