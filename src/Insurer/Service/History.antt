-- ===== src/Insurer/Service/History.antt =====
-- The statistics that the premiums rest on.
use sbd_drones_economics.Base.{
  ℕ, ◌+◌, String, ◌≡◌, refl, sym, ap, subst, ◌∙◌, Bool, false, Option, List, [], ◌∷◌, ◌==◌, Dict,
  insert, values, lookup-insert, if◌then◌else◌, arith, eq_iff, count, one_if, All, or_default,
  Bool-cases, inl, inr,
}
use sbd_drones_economics.Base.Floats.{Floats}
use sbd_drones_economics.Insurer.Premium.{calc_kfleet_history}
use sbd_drones_economics.Insurer.Service.{
  annual, Stats, Policy, Insurer, Request, annual_insurance, mission_insurance, calculate_policy,
  purchase_policy, report_incident, terminate_policy, reported_drone, new_insurer, new_stats,
  put_stats, drone_stats_for, with_incident, with_mission, annual_policy, mission_policy,
  terminate_all, is_ended_by, Form, handle_terminate, handle_annual, handle_mission,
  handle_calculate, handle_incident, handle, serve,
}

module _ (fl : Floats) where
  abbrev pub is_mission_of : String → Request fl → Bool
  is_mission_of drone_id (mission_insurance p i now) = or_default p.drone_id "" == drone_id
  is_mission_of drone_id _ = false

  abbrev pub is_incident_of : String → Request fl → Bool
  is_incident_of drone_id (report_incident p i now) = reported_drone fl p == drone_id
  is_incident_of drone_id _ = false

  -- What a request adds to the statistics of a drone.
  abbrev Adds : (missions incidents : ℕ) → Stats fl → Stats fl → Type 0
  Adds a b old new =
      (new.flights_per_year ≡ old.flights_per_year)
      × (new.total_missions ≡ old.total_missions + a)
      × (new.incidents ≡ old.incidents + b)

  drone_stats_for-put_stats :
      (k d : String) (st : Stats fl) (s : Insurer fl) (a b : ℕ)
      → Adds a b (drone_stats_for fl k s) st
      → Adds
          (if k == d then a else 0)
          (if k == d then b else 0)
          (drone_stats_for fl d s)
          (drone_stats_for fl d (put_stats fl k st s))
  unfolding drone_stats_for
  drone_stats_for-put_stats k d st s a b h = ground (
    arith,
    h,
    eq_iff k d,
    ap (λ o. or_default o (new_stats fl)) (lookup-insert k d st s.drone_stats),
  )

  abbrev asked_stats : Form fl → Insurer fl → Stats fl
  asked_stats p s = drone_stats_for fl (or_default p.drone_id "") s

  insured_stats :
      (p : Form fl) (s : Insurer fl) (d : String)
      → Adds 0 0
          (drone_stats_for fl d s)
          (drone_stats_for fl d (put_stats fl (or_default p.drone_id "") (asked_stats p s) s))
  insured_stats p s d = ground (
    arith,
    drone_stats_for-put_stats (or_default p.drone_id "") d (asked_stats p s) s 0 0
        (refl, omega arith, omega arith),
  )

  handle-stats :
      (r : Request fl) (s : Insurer fl) (d : String)
      → Adds
          (one_if (is_mission_of d r))
          (one_if (is_incident_of d r))
          (drone_stats_for fl d s)
          (drone_stats_for fl d (handle fl r s).1)
  unfolding handle handle_annual handle_mission handle_calculate handle_incident handle_terminate
      with_incident drone_stats_for
  handle-stats (annual_insurance p i now) s d = insured_stats p s d
  handle-stats (mission_insurance p i now) s d = ground (
    arith,
    drone_stats_for-put_stats (or_default p.drone_id "") d (with_mission fl (asked_stats p s)) s 1 0
        (refl, refl, omega arith),
  )
  handle-stats (calculate_policy p) s d = insured_stats p s d
  handle-stats (purchase_policy p i now) s d = insured_stats p s d
  handle-stats (report_incident p i now) s d = ground (
    arith,
    drone_stats_for-put_stats (reported_drone fl p) d
        (with_incident fl (drone_stats_for fl (reported_drone fl p) s)) s 0 1
        (refl, omega arith, refl),
  )
  handle-stats (terminate_policy o) s d = (refl, omega arith, omega arith)

  serve-stats :
      (rs : List (Request fl)) (s : Insurer fl) (d : String)
      → Adds
          (count (is_mission_of d) rs)
          (count (is_incident_of d) rs)
          (drone_stats_for fl d s)
          (drone_stats_for fl d (serve fl rs s))
  unfolding serve
  serve-stats [] s d = (refl, omega arith, omega arith)
  serve-stats (r ∷ rs) s d = ground (arith, handle-stats r s d, serve-stats rs (handle fl r s).1 d)

  -- From the start of the insurer, after any requests: a drone has as many missions as policies were
  -- asked for its missions and as many incidents as were reported of it, in whatever order, and no
  -- flights in the year.
  pub serve-counts :
      (rs : List (Request fl)) (d : String)
      → let stats = drone_stats_for fl d (serve fl rs (new_insurer fl)) in
        (stats.total_missions ≡ count (is_mission_of d) rs)
        × (stats.incidents ≡ count (is_incident_of d) rs)
        × (stats.flights_per_year ≡ 0)
  unfolding drone_stats_for
  serve-counts rs d = ground (arith, serve-stats rs (new_insurer fl) d)

  -- An annual policy whose premium has no factor of the fleet's history.
  abbrev pub IsFlat : Policy fl → Type 0
  IsFlat pol = pol.policy_type ≡ annual → pol.factor ≡ fl.literal 1 1

  -- Every annual policy is flat, and no drone has flights.
  record IsFlatInsurer (s : Insurer fl) : Type 0 where
    policies : All IsFlat (values s.policies)
    flights : (d : String) → (drone_stats_for fl d s).flights_per_year ≡ 0

  All-insert :
      (P : Policy fl → Type 0) (id : String) (pol : Policy fl) (d : Dict (Policy fl))
      → P pol
      → All P (values d)
      → All P (values (insert id pol d))
  All-insert P id pol [] h hs = (h, tt)
  All-insert P id pol ((j, p) ∷ d) h hs = elim (Bool-cases (j == id)) [
    | inl e ↦
        subst (λ b. All P (values (if b then (j, pol) ∷ d else (j, p) ∷ insert id pol d))) (sym e)
          (h, hs.1)
    | inr e ↦
        subst (λ b. All P (values (if b then (j, pol) ∷ d else (j, p) ∷ insert id pol d))) (sym e)
          (hs.0, All-insert P id pol d h hs.1)
  ]

  annual_policy-IsFlat :
      (p : Form fl) (now : ℕ) (stats : Stats fl)
      → stats.flights_per_year ≡ 0
      → IsFlat (annual_policy fl p now stats)
  unfolding annual_policy calc_kfleet_history
  annual_policy-IsFlat p now stats e h = ground arith

  mission_policy-IsFlat :
      (p : Form fl) (now : ℕ) (stats : Stats fl) → IsFlat (mission_policy fl p now stats)
  unfolding mission_policy
  mission_policy-IsFlat p now stats h = ground arith

  terminate_all-IsFlat :
      (o : Option String) (d : Dict (Policy fl))
      → All IsFlat (values d)
      → All IsFlat (values (terminate_all fl o d).1)
  unfolding terminate_all
  terminate_all-IsFlat o [] h = tt
  terminate_all-IsFlat o ((j, p) ∷ d) h = elim (Bool-cases (is_ended_by fl o p)) [
    | inl e ↦ rw e (h.0, terminate_all-IsFlat o d h.1)
    | inr e ↦ rw e (h.0, terminate_all-IsFlat o d h.1)
  ]

  handle-policies-IsFlat :
      (r : Request fl) (s : Insurer fl)
      → IsFlatInsurer s
      → All IsFlat (values (handle fl r s).1.policies)
  unfolding handle handle_annual handle_mission handle_calculate handle_incident handle_terminate
  handle-policies-IsFlat (annual_insurance p i now) s h =
      All-insert IsFlat i (annual_policy fl p now (asked_stats p s)) s.policies
        (annual_policy-IsFlat p now (asked_stats p s) (h.flights _)) h.policies
  handle-policies-IsFlat (mission_insurance p i now) s h =
      All-insert IsFlat i (mission_policy fl p now (with_mission fl (asked_stats p s))) s.policies
        (mission_policy-IsFlat p now (with_mission fl (asked_stats p s))) h.policies
  handle-policies-IsFlat (calculate_policy p) s h = h.policies
  handle-policies-IsFlat (purchase_policy p i now) s h =
      All-insert IsFlat i (annual_policy fl p now (asked_stats p s)) s.policies
        (annual_policy-IsFlat p now (asked_stats p s) (h.flights _)) h.policies
  handle-policies-IsFlat (report_incident p i now) s h = h.policies
  handle-policies-IsFlat (terminate_policy o) s h = terminate_all-IsFlat o s.policies h.policies

  -- Requests keep every annual policy flat and every drone without flights, whatever incidents are
  -- reported among them.
  serve-IsFlatInsurer :
      (rs : List (Request fl)) (s : Insurer fl) → IsFlatInsurer s → IsFlatInsurer (serve fl rs s)
  unfolding serve
  serve-IsFlatInsurer [] s h = h
  serve-IsFlatInsurer (r ∷ rs) s h = serve-IsFlatInsurer rs (handle fl r s).1 (record {
    policies = handle-policies-IsFlat r s h;
    flights = λ d. (handle-stats r s d).0 ∙ h.flights d;
  })

  -- From the start of the insurer, after any requests: no annual policy has another factor of the
  -- fleet's history than 1, whatever incidents were reported of its drone.
  serve-IsFlat :
      (rs : List (Request fl)) → All IsFlat (values (serve fl rs (new_insurer fl)).policies)
  unfolding drone_stats_for
  serve-IsFlat rs =
      (serve-IsFlatInsurer rs (new_insurer fl)
        (record { policies = tt; flights = λ d. refl })).policies
