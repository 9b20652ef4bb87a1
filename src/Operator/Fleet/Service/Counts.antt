-- ===== src/Operator/Fleet/Service/Counts.antt =====
-- What the statistics count.
use sbd_drones_economics.Base.{
  ℕ, suc, ◌+◌, ◌≤◌, String, Bool, true, none, some, List, [], ◌∷◌, Dict, lookup, values, length,
  one_if, All, is_some, ◌≡◌, refl, ap, ◌∙◌, inl, inr, arith, Bool-cases, Option-cases,
}
use sbd_drones_economics.Base.Floats.{Floats}
use sbd_drones_economics.Operator.Fleet.{UasState, Fleet, status_value}
use sbd_drones_economics.Operator.Fleet.Service.{aware, Calendar, type_value}
use sbd_drones_economics.Operator.Fleet.Service.Search.{UasExtended, is_overdue, is_maintenance_due}
use sbd_drones_economics.Operator.Fleet.Service.Statistics.{
  bump, expires_soon, Totals, add_uas_totals, totals, get_fleet_statistics,
}

unfoldable pub sum : List ℕ → ℕ
sum [] = 0
sum (n ∷ ns) = n + sum ns

-- A bump adds one to the sum of a dictionary.
sum-bump : (k : String) (d : Dict ℕ) → sum (values (bump k d)) ≡ suc (sum (values d))
unfolding bump sum
sum-bump k [] = refl
sum-bump k ((j, n) ∷ d) = ground (arith, sum-bump k d)

module _ (floats : Floats) (mod_50 : floats.Float → floats.Float) (calendar : Calendar) where
  open floats use {Float}

  -- The drones of the service that the core knows.
  unfoldable pub known : Dict (UasExtended Float) → Fleet Float → ℕ
  known [] core = 0
  known ((uas_id, uas) ∷ rows) core = one_if (is_some (lookup uas_id core)) + known rows core

  -- The counts after some rows: what they were, and one for each known drone.
  abbrev AddsKnown : ℕ → (t u : Totals floats mod_50 calendar) → Type 0
  AddsKnown n t u =
      ((sum (values u.by_status) ≡ sum (values t.by_status) + n)
        × (sum (values u.by_type) ≡ sum (values t.by_type) + n))
      × ((u.maintenance_required ≤ t.maintenance_required + n)
          × (u.certificates_expiring_soon ≤ t.certificates_expiring_soon + n))

  one_row :
      (uas : UasExtended Float) (state : UasState Float) (t : Totals floats mod_50 calendar)
      → AddsKnown 1 t (add_uas_totals floats mod_50 calendar uas state t)
  unfolding add_uas_totals
  one_row uas state t = (
    (
      omega (arith, sum-bump (status_value state.status) t.by_status),
      omega (arith, sum-bump (type_value uas.uas_type) t.by_type),
    ),
    (
      le_one _ (is_maintenance_due floats mod_50 calendar uas),
      le_one _ (expires_soon calendar.now (calendar.read_stamp state.certificate_expiry)),
    ),
  )
    where
      le_one : (n : ℕ) (b : Bool) → n + one_if b ≤ n + 1
      le_one n b = ground arith

  totals_missing :
      (uas_id : String) (uas : UasExtended Float) (rows : Dict (UasExtended Float))
      (core : Fleet Float) (t : Totals floats mod_50 calendar)
      → lookup uas_id core ≡ none
      → (totals floats mod_50 calendar ((uas_id, uas) ∷ rows) core t
          ≡ totals floats mod_50 calendar rows core t)
        × (known ((uas_id, uas) ∷ rows) core ≡ known rows core)
  unfolding totals known
  totals_missing uas_id uas rows core t e = (rw (totals, e) refl, rw (known, e) (omega arith))

  totals_there :
      (uas_id : String) (uas : UasExtended Float) (rows : Dict (UasExtended Float))
      (core : Fleet Float) (t : Totals floats mod_50 calendar) (state : UasState Float)
      → lookup uas_id core ≡ some state
      → (totals floats mod_50 calendar ((uas_id, uas) ∷ rows) core t
          ≡ totals floats mod_50 calendar rows core
              (add_uas_totals floats mod_50 calendar uas state t))
        × (known ((uas_id, uas) ∷ rows) core ≡ suc (known rows core))
  unfolding totals known
  totals_there uas_id uas rows core t state e = (rw (totals, e) refl, rw (known, e) (omega arith))

  totals-AddsKnown :
      (rows : Dict (UasExtended Float)) (core : Fleet Float) (t : Totals floats mod_50 calendar)
      → AddsKnown (known rows core) t (totals floats mod_50 calendar rows core t)
  unfolding totals known
  totals-AddsKnown [] core t = ((omega arith, omega arith), (omega arith, omega arith))
  totals-AddsKnown ((uas_id, uas) ∷ rows) core t = elim (Option-cases (lookup uas_id core)) [
    | inl missing ↦
        let ((a, b), (c, d)) = totals-AddsKnown rows core t in
        rw
          (
            (totals_missing uas_id uas rows core t missing).0,
            (totals_missing uas_id uas rows core t missing).1,
          )
          ((omega (arith, a), omega (arith, b)), (omega (arith, c), omega (arith, d)))
    | inr (state, there) ↦
        let ((a, b), (c, d)) =
          totals-AddsKnown rows core (add_uas_totals floats mod_50 calendar uas state t) in
        let ((p, q), (r, s)) = one_row uas state t in
        rw
          (
            (totals_there uas_id uas rows core t state there).0,
            (totals_there uas_id uas rows core t state there).1,
          )
          ((omega (arith, a, p), omega (arith, b, q)), (omega (arith, c, r), omega (arith, d, s)))
  ]

  known-total :
      (rows : Dict (UasExtended Float)) (core : Fleet Float) → known rows core ≤ length rows
  unfolding known
  known-total [] core = omega arith
  known-total ((uas_id, uas) ∷ rows) core = ground (arith, known-total rows core)

  -- The counts by status and the counts by type both sum to the drones that the core knows; those
  -- due for maintenance and those with expiring certificates are among these, and all are among the
  -- total.
  get_fleet_statistics-known :
      (rows : Dict (UasExtended Float)) (core : Fleet Float)
      → ((sum (values (get_fleet_statistics floats mod_50 calendar rows core).by_status)
            ≡ known rows core)
          × (sum (values (get_fleet_statistics floats mod_50 calendar rows core).by_type)
              ≡ known rows core))
        × (((get_fleet_statistics floats mod_50 calendar rows core).maintenance_required
              ≤ known rows core)
            × (((get_fleet_statistics floats mod_50 calendar rows core).certificates_expiring_soon
                  ≤ known rows core)
                × (known rows core
                    ≤ (get_fleet_statistics floats mod_50 calendar rows core).total)))
  unfolding get_fleet_statistics sum
  get_fleet_statistics-known rows core =
      let ((a, b), (c, d)) = totals-AddsKnown rows core (record {
        by_status = [];
        by_type = [];
        total_battery = floats.of_int 0;
        total_flight_hours = floats.of_int 0;
        maintenance_required = 0;
        certificates_expiring_soon = 0;
      }) in
      (
        (omega (arith, a), omega (arith, b)),
        (omega (arith, c), (omega (arith, d), known-total rows core)),
      )

  -- The dates of a drone bear a time zone.
  abbrev IsZonedRow : Fleet Float → String × UasExtended Float → Type 0
  IsZonedRow core (uas_id, uas) =
      ((t : ℕ) × (calendar.read_stamp uas.last_maintenance ≡ some (aware t)))
      × ((state : UasState Float)
          → lookup uas_id core ≡ some state
          → (t : ℕ) × (calendar.read_stamp state.certificate_expiry ≡ some (aware t)))

  abbrev pub AreZoned : Dict (UasExtended Float) → Fleet Float → Type 0
  AreZoned rows core = All (IsZonedRow core) rows

  overdue_zoned :
      (uas : UasExtended Float) (t : ℕ)
      → calendar.read_stamp uas.last_maintenance ≡ some (aware t)
      → is_maintenance_due floats mod_50 calendar uas ≡ true
  unfolding is_maintenance_due is_overdue
  overdue_zoned uas t e =
      elim (Bool-cases (floats.below (floats.of_int 45) (mod_50 uas.flight_hours))) [
        | inl worn ↦ rw worn refl
        | inr fresh ↦ rw (fresh, e) refl
      ]

  abbrev AddsAllDue : ℕ → (t u : Totals floats mod_50 calendar) → Type 0
  AddsAllDue n t u =
      (u.maintenance_required ≡ t.maintenance_required + n)
      × (u.certificates_expiring_soon ≡ t.certificates_expiring_soon)

  totals_zoned :
      (rows : Dict (UasExtended Float)) (core : Fleet Float) (t : Totals floats mod_50 calendar)
      → AreZoned rows core
      → AddsAllDue (known rows core) t (totals floats mod_50 calendar rows core t)
  unfolding totals known add_uas_totals expires_soon
  totals_zoned [] core t h = (omega arith, refl)
  totals_zoned ((uas_id, uas) ∷ rows) core t ((due, zoned), h) =
      elim (Option-cases (lookup uas_id core)) [
        | inl missing ↦
            let (a, b) = totals_zoned rows core t h in
            rw
              (
                (totals_missing uas_id uas rows core t missing).0,
                (totals_missing uas_id uas rows core t missing).1,
              )
              (omega (arith, a), b)
        | inr (state, there) ↦
            let (a, b) =
              totals_zoned rows core (add_uas_totals floats mod_50 calendar uas state t) h in
            rw
              (
                (totals_there uas_id uas rows core t state there).0,
                (totals_there uas_id uas rows core t state there).1,
              )
              (
                omega (arith, a, ap one_if (overdue_zoned uas due.0 due.1)),
                b ∙ rw (zoned state there).1 (omega arith),
              )
      ]

  -- Where the dates bear a time zone, every drone that the core knows is due for maintenance, and no
  -- certificate expires soon.
  pub get_fleet_statistics_zoned :
      (rows : Dict (UasExtended Float)) (core : Fleet Float)
      → AreZoned rows core
      → ((get_fleet_statistics floats mod_50 calendar rows core).maintenance_required
          ≡ known rows core)
        × ((get_fleet_statistics floats mod_50 calendar rows core).certificates_expiring_soon ≡ 0)
  unfolding get_fleet_statistics
  get_fleet_statistics_zoned rows core h =
      let (a, b) =
        totals_zoned rows core
          (record {
            by_status = [];
            by_type = [];
            total_battery = floats.of_int 0;
            total_flight_hours = floats.of_int 0;
            maintenance_required = 0;
            certificates_expiring_soon = 0;
          })
          h in
      (omega (arith, a), b)
