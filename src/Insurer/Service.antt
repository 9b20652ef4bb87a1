-- ===== src/Insurer/Service.antt =====
-- InsuranceService of systems/alt_insurer/src/insurance_service/src/insurance_service.py. Times are
-- whole seconds. Numbers of a payload are floats: a value that `float` or `int` refuses is left out,
-- and so are the `response_id` and the `request_id` that every reply carries.
pub mod Terms
pub mod History
use sbd_drones_economics.Base.{
  ℕ, ◌+◌, String, Bool, true, false, not, ◌&&◌, ◌||◌, Option, none, some, List, [], ◌∷◌, ◌==◌, Dict,
  lookup, insert, if◌then◌else◌, ltb, or_default, eqb,
}
use sbd_drones_economics.Base.Floats.{Floats}
use sbd_drones_economics.Insurer.Premium.{
  default_leverage, calc_kfleet_history, calc_kincident_history, calc_annual_premium,
  calc_mission_premium,
}

pub data PolicyType : Type 0 where
  annual : PolicyType
  mission : PolicyType

pub data PolicyStatus : Type 0 where
  active : PolicyStatus
  terminated : PolicyStatus

abbrev pub is_active : PolicyStatus → Bool
is_active PolicyStatus.active = true
is_active PolicyStatus.terminated = false

-- `a == b`, for two texts or None
abbrev pub is_same : Option String → Option String → Bool
is_same none none = true
is_same (some a) (some b) = a == b
is_same _ _ = false

module _ (fl : Floats) where
  pub record Stats : Type 0 where
    pub flights_per_year : ℕ
    pub accident_rate : fl.Float
    pub incidents : ℕ
    pub total_missions : ℕ

  -- `factor` is the fleet's factor of an annual policy and the incidents' of a policy for a mission.
  pub record Policy : Type 0 where
    pub policy_type : PolicyType
    pub status : PolicyStatus
    pub order_id : Option String
    pub drone_id : String
    pub manufacturer_id : Option String
    pub operator_id : Option String
    pub start_date : ℕ
    pub end_date : ℕ
    pub cost : fl.Float
    pub coverage_amount : Option fl.Float
    pub factor : fl.Float

  pub record Incident : Type 0 where
    pub drone_id : String
    pub order_id : Option String
    pub damage_amount : fl.Float
    pub date : ℕ

  pub record Insurer : Type 0 where
    pub policies : Dict Policy
    pub incidents : Dict Incident
    pub drone_stats : Dict Stats

  abbrev pub new_insurer : Insurer
  new_insurer = record { policies = []; incidents = []; drone_stats = [] }

  -- What the handlers read of a payload.
  pub record Form : Type 0 where
    pub order_id : Option String
    pub drone_id : Option String
    pub manufacturer_id : Option String
    pub operator_id : Option String
    pub drone_type : Option String
    pub drone_value : Option fl.Float
    pub base_hull_rate : Option fl.Float
    pub coverage_amount : Option fl.Float
    pub kenv : Option fl.Float
    pub leverage : Option fl.Float

  -- The report of an incident; `inner` is the payload's own `incident`, none where it is absent or
  -- empty.
  pub record Damage : Type 0 where
    pub drone_id : Option String
    pub damage_amount : Option fl.Float

  pub record Report : Type 0 where
    pub order_id : Option String
    pub outer : Damage
    pub inner : Option Damage

  pub data Reply : Type 0 where
    calculated :
        (order_id : Option String)
        → (premium mission_premium kfleet_history kincident_history : fl.Float) → Reply
    insured : (policy_id : String) → Policy → Reply
    processed :
        (order_id : Option String)
        → (payment_amount new_kfleet_history new_kincident_history : fl.Float) → Reply
    ended : (order_id : Option String) → Reply
    not_found : (order_id : Option String) → Reply

  abbrev zero_float : fl.Float
  zero_float = fl.literal 0 1

  abbrev pub new_stats : Stats
  new_stats = record {
    flights_per_year = 0;
    accident_rate = zero_float;
    incidents = 0;
    total_missions = 0;
  }

  -- `_drone_stats_for` gives back the stored row, which the handlers then change; here they store it.
  unfoldable pub drone_stats_for : (drone_id : String) → Insurer → Stats
  drone_stats_for drone_id s = or_default (lookup drone_id s.drone_stats) new_stats

  abbrev pub put_stats : (drone_id : String) → Stats → Insurer → Insurer
  put_stats drone_id stats s = record s { drone_stats = insert drone_id stats s.drone_stats }

  unfoldable pub handle_calculate : Form → Insurer → Reply × Insurer
  unfolding drone_stats_for
  handle_calculate p s =
      let drone_id = or_default p.drone_id "" in
      let stats = drone_stats_for drone_id s in
      (
        calculated p.order_id
            (calc_annual_premium fl (or_default p.drone_value zero_float)
              (or_default p.base_hull_rate (fl.literal 8 100)) stats.flights_per_year
              stats.accident_rate)
            (calc_mission_premium fl (or_default p.coverage_amount zero_float)
              (or_default p.drone_type "delivery") (or_default p.kenv (fl.literal 1 1))
              stats.incidents stats.total_missions (or_default p.leverage (default_leverage fl)))
            (calc_kfleet_history fl stats.flights_per_year stats.accident_rate)
            (calc_kincident_history fl stats.incidents stats.total_missions (default_leverage fl)),
        put_stats drone_id stats s,
      )

  -- `drone_value`, unless it is absent or 0, and else `coverage_amount`
  unfoldable pub insured_value : Form → fl.Float
  insured_value p =
      let coverage = or_default p.coverage_amount zero_float in
      elim p.drone_value [
        | none ↦ coverage
        | some v ↦ if fl.equal v zero_float then coverage else v
      ]

  unfoldable pub annual_policy : Form → (now : ℕ) → Stats → Policy
  unfolding insured_value
  annual_policy p now stats = record {
    policy_type = annual;
    status = active;
    order_id = p.order_id;
    drone_id = or_default p.drone_id "";
    manufacturer_id = p.manufacturer_id;
    operator_id = p.operator_id;
    start_date = now;
    end_date = now + 31_536_000;
    cost =
        calc_annual_premium fl (insured_value p) (or_default p.base_hull_rate (fl.literal 8 100))
          stats.flights_per_year stats.accident_rate;
    coverage_amount = p.coverage_amount;
    factor = calc_kfleet_history fl stats.flights_per_year stats.accident_rate;
  }

  unfoldable pub handle_annual : Form → (policy_id : String) → (now : ℕ) → Insurer → Reply × Insurer
  unfolding drone_stats_for annual_policy
  handle_annual p policy_id now s =
      let drone_id = or_default p.drone_id "" in
      let stats = drone_stats_for drone_id s in
      let policy = annual_policy p now stats in
      let s1 = put_stats drone_id stats s in
      (insured policy_id policy, record s1 { policies = insert policy_id policy s1.policies })

  unfoldable pub mission_policy : Form → (now : ℕ) → Stats → Policy
  mission_policy p now stats = record {
    policy_type = mission;
    status = active;
    order_id = p.order_id;
    drone_id = or_default p.drone_id "";
    manufacturer_id = none;
    operator_id = none;
    start_date = now;
    end_date = now + 86_400;
    cost =
        calc_mission_premium fl (or_default p.coverage_amount zero_float)
          (or_default p.drone_type "delivery") (or_default p.kenv (fl.literal 1 1)) stats.incidents
          stats.total_missions (or_default p.leverage (default_leverage fl));
    coverage_amount = p.coverage_amount;
    factor = calc_kincident_history fl stats.incidents stats.total_missions (default_leverage fl);
  }

  abbrev pub with_mission : Stats → Stats
  with_mission stats = record stats { total_missions = stats.total_missions + 1 }

  unfoldable pub handle_mission :
      Form → (policy_id : String) → (now : ℕ) → Insurer → Reply × Insurer
  unfolding drone_stats_for mission_policy
  handle_mission p policy_id now s =
      let drone_id = or_default p.drone_id "" in
      let stats = with_mission (drone_stats_for drone_id s) in
      let policy = mission_policy p now stats in
      let s1 = put_stats drone_id stats s in
      (insured policy_id policy, record s1 { policies = insert policy_id policy s1.policies })

  -- The drone that a report names, at the payload or else in its incident.
  abbrev pub reported_drone : Report → String
  reported_drone p =
      or_default p.outer.drone_id (or_default (or_default p.inner p.outer).drone_id "")

  unfoldable pub with_incident : Stats → Stats
  with_incident stats =
      let n = stats.incidents + 1 in
      record stats {
        incidents = n;
        accident_rate =
            if ltb 0 stats.total_missions
            then fl.over (fl.of_int n) (fl.of_int stats.total_missions)
            else stats.accident_rate;
      }

  unfoldable pub handle_incident :
      Report → (incident_id : String) → (now : ℕ) → Insurer → Reply × Insurer
  unfolding drone_stats_for with_incident
  handle_incident p incident_id now s =
      let drone_id = reported_drone p in
      let stats = with_incident (drone_stats_for drone_id s) in
      let damage = or_default (or_default p.inner p.outer).damage_amount zero_float in
      let s1 = put_stats drone_id stats s in
      (
        processed p.order_id damage
            (calc_kfleet_history fl stats.flights_per_year stats.accident_rate)
            (calc_kincident_history fl stats.incidents stats.total_missions (default_leverage fl)),
        record s1 {
          incidents =
              insert incident_id
                (record {
                  drone_id = drone_id;
                  order_id = p.order_id;
                  damage_amount = damage;
                  date = now;
                })
                s1.incidents;
        },
      )

  abbrev pub is_ended_by : Option String → Policy → Bool
  is_ended_by order_id pol = is_same pol.order_id order_id && is_active pol.status

  -- The loop over the policies: whether one was ended, and the policies.
  unfoldable pub terminate_all : Option String → Dict Policy → Bool × Dict Policy
  terminate_all order_id [] = (false, [])
  terminate_all order_id ((id, pol) ∷ more) =
      let (found, rest) = terminate_all order_id more in
      if is_ended_by order_id pol
      then (true, (id, record pol { status = terminated }) ∷ rest)
      else (found, (id, pol) ∷ rest)

  unfoldable pub handle_terminate : (order_id : Option String) → Insurer → Reply × Insurer
  unfolding terminate_all
  handle_terminate order_id s =
      let (found, policies) = terminate_all order_id s.policies in
      ((if found then ended order_id else not_found order_id), record s { policies = policies })

  -- The actions of `_register_handlers`; `purchase_policy` is handled as `annual_insurance`. A new
  -- identifier and the clock come with the message.
  pub data Request : Type 0 where
    annual_insurance : Form → (policy_id : String) → (now : ℕ) → Request
    mission_insurance : Form → (policy_id : String) → (now : ℕ) → Request
    calculate_policy : Form → Request
    purchase_policy : Form → (policy_id : String) → (now : ℕ) → Request
    report_incident : Report → (incident_id : String) → (now : ℕ) → Request
    terminate_policy : (order_id : Option String) → Request

  unfoldable pub handle : Request → Insurer → Reply × Insurer
  unfolding handle_annual handle_mission handle_calculate handle_incident handle_terminate
  handle (annual_insurance p id now) s = handle_annual p id now s
  handle (mission_insurance p id now) s = handle_mission p id now s
  handle (calculate_policy p) s = handle_calculate p s
  handle (purchase_policy p id now) s = handle_annual p id now s
  handle (report_incident p id now) s = handle_incident p id now s
  handle (terminate_policy order_id) s = handle_terminate order_id s

  -- The insurer after the requests, in their order.
  unfoldable pub serve : List Request → Insurer → Insurer
  unfolding handle
  serve [] s = s
  serve (r ∷ rs) s = serve rs (handle r s).1
