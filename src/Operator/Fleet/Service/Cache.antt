-- ===== src/Operator/Fleet/Service/Cache.antt =====
-- The reservations of the service and those of the core.
use sbd_drones_economics.Base.{
  ℕ, String, true, false, Option, none, some, List, [], ◌∷◌, ◌==◌, Dict, lookup, insert, erase,
  IsKeyed, insert-IsKeyed, erase-IsKeyed, lookup-insert_self, lookup-insert_ne, lookup-erase_self,
  lookup-erase_other, ◌≡◌, refl, sym, subst, ◌∙◌, ◌⊎◌, inl, inr, arith, eq_iff, Bool-cases,
  Option-cases,
}
use sbd_drones_economics.Operator.Fleet.{
  UasState, UasStatus, Fleet, Gauge, Updates, InitialState, authorize_uas_operation, reserve_uas,
  release_uas, update_uas_state, update_fields, update_battery, update_certificate, add_uas, added,
  is_available,
}
use sbd_drones_economics.Operator.Fleet.Service.{
  Service, Reservation, Call, reserves, releases, updates, adds, mission_of, new,
  reserve_uas_with_validation, release_uas_with_cleanup, serve, serve_all,
}

-- The mission that the core's record of a drone names in `reserved_by`, whatever its status.
unfoldable pub holder : {Battery : Type 0} → Option (UasState Battery) → Option String
holder none = none
holder (some uas) = uas.reserved_by

module _ {Battery : Type 0} (gauge : Gauge Battery) where
  -- Reserved for a mission, or as before.
  reserve-cases :
      (uas_id mission_id operator_id : String) (fleet : Fleet Battery)
      → (((reserve_uas gauge uas_id mission_id operator_id fleet).0.0 ≡ false)
          × ((reserve_uas gauge uas_id mission_id operator_id fleet).1 ≡ fleet))
        ⊎ ((uas : UasState Battery) × (((reserve_uas gauge uas_id mission_id operator_id fleet).0.0
                ≡ true)
              × ((reserve_uas gauge uas_id mission_id operator_id fleet).1
                  ≡ insert uas_id
                      (record uas { status = UasStatus.reserved; reserved_by = some mission_id })
                      fleet)))
  unfolding reserve_uas
  reserve-cases uas_id mission_id operator_id fleet =
      elim (Bool-cases (authorize_uas_operation gauge uas_id "reserve" operator_id fleet).0) [
        | inr refused ↦ inl (rw (reserve_uas, refused) refl, rw (reserve_uas, refused) refl)
        | inl allowed ↦ elim (Option-cases (lookup uas_id fleet)) [
          | inl missing ↦
              inl (rw (reserve_uas, allowed, missing) refl, rw (reserve_uas, allowed, missing) refl)
          | inr (uas, found) ↦ elim (Bool-cases (is_available uas.status)) [
            | inr busy ↦ inl (
              rw (reserve_uas, allowed, found, busy) refl,
              rw (reserve_uas, allowed, found, busy) refl,
            )
            | inl free ↦ inr (
              uas,
              (
                rw (reserve_uas, allowed, found, free) refl,
                rw (reserve_uas, allowed, found, free) refl,
              ),
            )
          ]
        ]
      ]

  release-cases :
      (uas_id operator_id : String) (fleet : Fleet Battery)
      → (((release_uas gauge uas_id operator_id fleet).0.0 ≡ false)
          × ((release_uas gauge uas_id operator_id fleet).1 ≡ fleet))
        ⊎ ((uas : UasState Battery) × (((release_uas gauge uas_id operator_id fleet).0.0 ≡ true)
              × ((release_uas gauge uas_id operator_id fleet).1
                  ≡ insert uas_id
                      (record uas { status = UasStatus.available; reserved_by = none })
                      fleet)))
  unfolding release_uas
  release-cases uas_id operator_id fleet =
      elim (Bool-cases (authorize_uas_operation gauge uas_id "release" operator_id fleet).0) [
        | inr refused ↦ inl (rw (release_uas, refused) refl, rw (release_uas, refused) refl)
        | inl allowed ↦ elim (Option-cases (lookup uas_id fleet)) [
          | inl missing ↦
              inl (rw (release_uas, allowed, missing) refl, rw (release_uas, allowed, missing) refl)
          | inr (uas, found) ↦
              inr (
                uas,
                (rw (release_uas, allowed, found) refl, rw (release_uas, allowed, found) refl),
              )
        ]
      ]

  update_fields-holder :
      (fields : Updates Battery) (uas : UasState Battery)
      → (update_fields gauge fields uas).1.reserved_by ≡ uas.reserved_by
  unfolding update_fields update_battery update_certificate
  update_fields-holder fields uas = ground arith

  -- The core's reservations, and those of the service, name the same missions.
  abbrev Agrees : Fleet Battery → Dict Reservation → Type 0
  Agrees core reservations =
      (id : String) → holder (lookup id core) ≡ mission_of (lookup id reservations)

  unfoldable pub AgreesAt : String → Fleet Battery → Dict Reservation → Type 0
  AgreesAt id core reservations = holder (lookup id core) ≡ mission_of (lookup id reservations)

  -- Where only one drone changes, only that drone is to be looked at.
  changes_else :
      (id : String) (core later : Fleet Battery) (r after : Dict Reservation)
      → ((i : String)
          → (id == i) ≡ false
          → (lookup i later ≡ lookup i core) × (lookup i after ≡ lookup i r))
      → AgreesAt id later after
      → Agrees core r
      → Agrees later after
  unfolding AgreesAt
  changes_else id core later r after same at_id h i = elim (Bool-cases (id == i)) [
    | inl e ↦ subst (λ j. AgreesAt j later after) {x = id} (ground (arith, eq_iff id i)) at_id
    | inr ne ↦ let d = same i ne in rw (d.0, d.1) (h i)
  ]

  reserved-Agrees :
      (id : String) (uas : UasState Battery) (row : Reservation) (core : Fleet Battery)
      (r : Dict Reservation)
      → uas.reserved_by ≡ some row.mission_id
      → Agrees core r
      → Agrees (insert id uas core) (insert id row r)
  unfolding AgreesAt holder mission_of
  reserved-Agrees id uas row core r e h =
      changes_else id core (insert id uas core) r (insert id row r)
        (λ i ne. (lookup-insert_ne id i uas core ne, lookup-insert_ne id i row r ne))
        (rw (lookup-insert_self id uas core, lookup-insert_self id row r) e) h

  released-Agrees :
      (id : String) (uas : UasState Battery) (core : Fleet Battery) (r : Dict Reservation)
      → uas.reserved_by ≡ none
      → IsKeyed r
      → Agrees core r
      → Agrees (insert id uas core) (erase id r)
  unfolding AgreesAt holder mission_of
  released-Agrees id uas core r e keyed h =
      changes_else id core (insert id uas core) r (erase id r)
        (λ i ne. (lookup-insert_ne id i uas core ne, lookup-erase_other id i r ne))
        (rw (lookup-insert_self id uas core, lookup-erase_self id r keyed) e) h

  -- The core's row changes, but not the mission that holds it.
  kept-Agrees :
      (id : String) (uas : UasState Battery) (core : Fleet Battery) (r : Dict Reservation)
      → holder (lookup id core) ≡ uas.reserved_by
      → Agrees core r
      → Agrees (insert id uas core) r
  unfolding AgreesAt holder mission_of
  kept-Agrees id uas core r e h =
      changes_else id core (insert id uas core) r r
        (λ i ne. (lookup-insert_ne id i uas core ne, refl))
        (rw (lookup-insert_self id uas core) (sym e ∙ h id)) h

  pub record IsTrue (s : Service Battery) : Type 0 where
    pub keyed : IsKeyed s.reservations
    pub agrees : Agrees s.core s.reservations

  reserves-IsTrue :
      (uas_id mission_id operator_id : String) (duration now : ℕ) (s : Service Battery)
      → IsTrue s
      → IsTrue (reserve_uas_with_validation gauge uas_id mission_id operator_id duration now s).1
  unfolding reserve_uas_with_validation
  reserves-IsTrue uas_id mission_id operator_id duration now s h =
      elim (reserve-cases uas_id mission_id operator_id s.core) [
        | inl (refused, same) ↦
            rw (reserve_uas_with_validation, refused)
              (record { keyed = h.keyed; agrees = rw same h.agrees })
        | inr (uas, (granted, changed)) ↦
            rw (reserve_uas_with_validation, granted)
              (record {
                keyed = insert-IsKeyed uas_id _ s.reservations h.keyed;
                agrees =
                    rw changed (reserved-Agrees uas_id _ _ s.core s.reservations refl h.agrees);
              })
      ]

  releases-IsTrue :
      (uas_id operator_id : String) (now : ℕ) (s : Service Battery)
      → IsTrue s
      → IsTrue (release_uas_with_cleanup gauge uas_id operator_id now s).1
  unfolding release_uas_with_cleanup
  releases-IsTrue uas_id operator_id now s h = elim (release-cases uas_id operator_id s.core) [
    | inl (refused, same) ↦
        rw (release_uas_with_cleanup, refused)
          (record { keyed = h.keyed; agrees = rw same h.agrees })
    | inr (uas, (granted, changed)) ↦
        rw (release_uas_with_cleanup, granted)
          (record {
            keyed = erase-IsKeyed uas_id s.reservations h.keyed;
            agrees =
                rw changed (released-Agrees uas_id _ s.core s.reservations refl h.keyed h.agrees);
          })
  ]

  updates-Agrees :
      (uas_id : String) (fields : Updates Battery) (core : Fleet Battery) (r : Dict Reservation)
      → Agrees core r
      → Agrees (update_uas_state gauge uas_id fields core).1 r
  unfolding update_uas_state holder
  updates-Agrees uas_id fields core r h = elim (Option-cases (lookup uas_id core)) [
    | inl missing ↦ rw (update_uas_state, missing) h
    | inr (uas, found) ↦
        rw (update_uas_state, found)
          (kept-Agrees uas_id (update_fields gauge fields uas).1 core r
            (rw found (sym (update_fields-holder fields uas))) h)
  ]

  adds-Agrees :
      (uas_id : String) (initial : InitialState Battery) (core : Fleet Battery)
      (r : Dict Reservation)
      → Agrees core r
      → Agrees (add_uas gauge uas_id initial core).1 r
  unfolding add_uas holder
  adds-Agrees uas_id initial core r h = elim (Option-cases (lookup uas_id core)) [
    | inr (uas, found) ↦ rw (add_uas, found) h
    | inl missing ↦
        rw (add_uas, missing)
          (kept-Agrees uas_id (added gauge uas_id initial) core r (rw missing refl) h)
  ]

  serve-IsTrue : (c : ℕ × Call gauge) (s : Service Battery) → IsTrue s → IsTrue (serve gauge c s)
  unfolding serve
  serve-IsTrue (now, reserves uas_id mission_id operator_id duration) s h =
      reserves-IsTrue uas_id mission_id operator_id duration now s h
  serve-IsTrue (now, releases uas_id operator_id) s h = releases-IsTrue uas_id operator_id now s h
  serve-IsTrue (now, updates uas_id fields) s h = record {
    keyed = h.keyed;
    agrees = updates-Agrees uas_id fields s.core s.reservations h.agrees;
  }
  serve-IsTrue (now, adds uas_id initial) s h = record {
    keyed = h.keyed;
    agrees = adds-Agrees uas_id initial s.core s.reservations h.agrees;
  }

  serve_all-IsTrue :
      (calls : List (ℕ × Call gauge)) (s : Service Battery)
      → IsTrue s
      → IsTrue (serve_all gauge calls s)
  unfolding serve_all
  serve_all-IsTrue [] s h = h
  serve_all-IsTrue (c ∷ calls) s h = serve_all-IsTrue calls (serve gauge c s) (serve-IsTrue c s h)

  -- From an empty core, after any calls of the service's reservation and release and of the core's
  -- update_uas_state and add_uas: the service keeps a reservation of a drone exactly while the core's
  -- record of the drone names a mission in reserved_by, and for that mission.
  pub serve_all-AgreesAt :
      (calls : List (ℕ × Call gauge)) (id : String)
      → AgreesAt id
          (serve_all gauge calls (new [])).core
          (serve_all gauge calls (new [])).reservations
  unfolding holder mission_of AgreesAt
  serve_all-AgreesAt calls id =
      (serve_all-IsTrue calls (new []) (record { keyed = tt; agrees = λ i. refl })).agrees id
