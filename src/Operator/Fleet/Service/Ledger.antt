-- ===== src/Operator/Fleet/Service/Ledger.antt =====
-- The metrics of the service and its history.
use sbd_drones_economics.Base.{
  ℕ, ◌+◌, String, Bool, true, false, Option, List, [], ◌∷◌, ◌++◌, lookup, count, count-append, ◌≡◌,
  refl, sym, subst, inl, inr, arith, Bool-cases,
}
use sbd_drones_economics.Operator.Fleet.{Fleet, Gauge, reserve_uas, release_uas}
use sbd_drones_economics.Operator.Fleet.Service.{
  Service, Reservation, Operation, Metrics, reserve, release, Call, reserves, releases, updates,
  adds, counted, new, reserve_uas_with_validation, release_uas_with_cleanup, serve, serve_all,
}

unfoldable pub is_reserve : Operation → Bool
is_reserve (reserve _ _ _ _ _ _) = true
is_reserve (release _ _ _ _) = false

unfoldable pub is_success : Operation → Bool
is_success (reserve _ _ _ _ success _) = success
is_success (release _ _ _ _) = false

-- The metrics are the counts of the history.
pub record IsCounted {Battery : Type 0} (s : Service Battery) : Type 0 where
  pub total : s.metrics.total_operations ≡ count is_reserve s.operation_history
  pub successful : s.metrics.successful_reservations ≡ count is_success s.operation_history
  pub sum :
      s.metrics.total_operations ≡ s.metrics.successful_reservations + s.metrics.failed_reservations

module _ {Battery : Type 0} (gauge : Gauge Battery) where
  -- What the invariant reads.
  abbrev Ledger : Type 0
  Ledger = Metrics × List Operation

  abbrev ledger : Service Battery → Ledger
  ledger s = (s.metrics, s.operation_history)

  same_ledger : (s u : Service Battery) → ledger u ≡ ledger s → IsCounted s → IsCounted u
  same_ledger s u e h = record {
    total = subst (λ l. l.0.total_operations ≡ count is_reserve l.1) (sym e) h.total;
    successful =
        subst (λ l. l.0.successful_reservations ≡ count is_success l.1) (sym e) h.successful;
    sum =
        subst (λ l. l.0.total_operations ≡ l.0.successful_reservations + l.0.failed_reservations)
          (sym e) h.sum;
  }

  reserve-IsCounted :
      (s u : Service Battery) (uas mission operator : String) (now : ℕ) (success : Bool)
      (reason : String)
      → ledger u ≡ (
        counted success s.metrics,
        s.operation_history ++ reserve uas mission operator now success reason ∷ [],
      )
      → IsCounted s
      → IsCounted u
  unfolding counted is_reserve is_success
  reserve-IsCounted s u uas mission operator now success reason e h =
      same_ledger logged u e (record {
        total = ground (arith, h.total, count-append is_reserve s.operation_history entry);
        successful =
            ground (arith, h.successful, count-append is_success s.operation_history entry);
        sum = ground (arith, h.sum);
      })
    where
      entry : List Operation
      entry = reserve uas mission operator now success reason ∷ []

      logged : Service Battery
      logged = record s {
        metrics = counted success s.metrics;
        operation_history = s.operation_history ++ entry;
      }

  release-IsCounted :
      (s u : Service Battery) (uas operator : String) (now : ℕ) (previous : Option Reservation)
      → ledger u ≡ (s.metrics, s.operation_history ++ release uas operator now previous ∷ [])
      → IsCounted s
      → IsCounted u
  unfolding is_reserve is_success
  release-IsCounted s u uas operator now previous e h = same_ledger logged u e (record {
    total = omega (arith, h.total, count-append is_reserve s.operation_history entry);
    successful = omega (arith, h.successful, count-append is_success s.operation_history entry);
    sum = h.sum;
  })
    where
      entry : List Operation
      entry = release uas operator now previous ∷ []

      logged : Service Battery
      logged = record s { operation_history = s.operation_history ++ entry }

  reserve-ledger :
      (uas mission operator : String) (duration now : ℕ) (s : Service Battery)
      → ledger (reserve_uas_with_validation gauge uas mission operator duration now s).1 ≡ (
        counted (reserve_uas gauge uas mission operator s.core).0.0 s.metrics,
        s.operation_history
            ++ reserve uas mission operator now
                (reserve_uas gauge uas mission operator s.core).0.0
                (reserve_uas gauge uas mission operator s.core).0.1
              ∷ [],
      )
  unfolding reserve_uas_with_validation
  reserve-ledger uas mission operator duration now s =
      elim (Bool-cases (reserve_uas gauge uas mission operator s.core).0.0) [
        | inl e ↦ rw (reserve_uas_with_validation, e) refl
        | inr e ↦ rw (reserve_uas_with_validation, e) refl
      ]

  serve-IsCounted :
      (c : ℕ × Call gauge) (s : Service Battery) → IsCounted s → IsCounted (serve gauge c s)
  unfolding serve reserve_uas_with_validation release_uas_with_cleanup
  serve-IsCounted (now, reserves uas mission operator duration) s h =
      reserve-IsCounted s (reserve_uas_with_validation gauge uas mission operator duration now s).1
        uas mission operator now (reserve_uas gauge uas mission operator s.core).0.0
        (reserve_uas gauge uas mission operator s.core).0.1
        (reserve-ledger uas mission operator duration now s) h
  serve-IsCounted (now, releases uas operator) s h =
      elim (Bool-cases (release_uas gauge uas operator s.core).0.0) [
        | inl ok_ ↦
            release-IsCounted s (release_uas_with_cleanup gauge uas operator now s).1 uas operator
              now (lookup uas s.reservations) (rw (release_uas_with_cleanup, ok_) refl) h
        | inr refused ↦
            same_ledger s (release_uas_with_cleanup gauge uas operator now s).1
              (rw (release_uas_with_cleanup, refused) refl) h
      ]
  serve-IsCounted (now, updates uas fields) s h =
      same_ledger s (serve gauge (now, updates uas fields) s) refl h
  serve-IsCounted (now, adds uas initial) s h =
      same_ledger s (serve gauge (now, adds uas initial) s) refl h

  -- After any calls from a new service: the operations of the metrics are the reservations of the
  -- history, those that succeeded and those that failed.
  serve_all-IsCounted :
      (calls : List (ℕ × Call gauge)) (core : Fleet Battery)
      → IsCounted (serve_all gauge calls (new core))
  unfolding serve_all
  serve_all-IsCounted calls core =
      all_calls calls (new core) (record { total = refl; successful = refl; sum = refl })
    where
      all_calls :
          (calls : List (ℕ × Call gauge)) (s : Service Battery)
          → IsCounted s
          → IsCounted (serve_all gauge calls s)
      all_calls [] s h = h
      all_calls (c ∷ calls) s h = all_calls calls (serve gauge c s) (serve-IsCounted c s h)
