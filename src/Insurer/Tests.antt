-- ===== src/Insurer/Tests.antt =====
-- The insurer at single requests, over hundredths.
use sbd_drones_economics.Base.{◌≡◌, refl, none, some, List, [], ◌∷◌, lookup}
use sbd_drones_economics.Base.Floats.{hundredths}
use sbd_drones_economics.Insurer.Service.{
  Form, Report, Request, Insurer, Policy, mission_insurance, annual_insurance, report_incident,
  terminate_policy, new_insurer, new_stats, drone_stats_for, annual_policy, serve,
}
use sbd_drones_economics.Insurer.Service.Terms.{end_policy, serve-policy}
use sbd_drones_economics.Insurer.Service.History.{serve-counts}

abbrev form : Form hundredths
form = record {
  order_id = some "o1";
  drone_id = some "d1";
  manufacturer_id = none;
  operator_id = some "op";
  drone_type = none;
  drone_value = some 500_000;
  base_hull_rate = none;
  coverage_amount = some 100_000;
  kenv = none;
  leverage = none;
}

abbrev crash : Report hundredths
crash = record {
  order_id = some "o1";
  outer = record { drone_id = some "d1"; damage_amount = some 700 };
  inner = none;
}

abbrev requests : List (Request hundredths)
requests =
    annual_insurance form "p1" 5
    ∷ mission_insurance form "p2" 6
    ∷ report_incident crash "i1" 7
    ∷ terminate_policy (some "o1")
    ∷ []

serve-counts_example :
    ((drone_stats_for hundredths "d1"
        (serve hundredths requests (new_insurer hundredths))).total_missions
      ≡ 1)
    × ((drone_stats_for hundredths "d1"
          (serve hundredths requests (new_insurer hundredths))).incidents
        ≡ 1)
    × ((drone_stats_for hundredths "d1"
          (serve hundredths requests (new_insurer hundredths))).flights_per_year
        ≡ 0)
serve-counts_example = serve-counts hundredths requests "d1"

abbrev policy : Policy hundredths
policy = annual_policy hundredths form 5 (new_stats hundredths)

abbrev insurer : Insurer hundredths
insurer = record { policies = ("p1", policy) ∷ []; incidents = []; drone_stats = [] }

abbrev later : List (Request hundredths)
later = mission_insurance form "p2" 6 ∷ terminate_policy (some "o1") ∷ []

serve-policy_example :
    lookup "p1" (serve hundredths later insurer).policies ≡ some (end_policy hundredths policy)
unfolding annual_policy
serve-policy_example = serve-policy hundredths later insurer "p1" policy refl (refl, (refl, tt))
