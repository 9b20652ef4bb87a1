-- ===== src/Operator/Fleet/Service/Ranking.antt =====
-- What the search for suitable drones finds, and in which order.
use sbd_drones_economics.Base.{Any, ◌⊎◌, false, List, [], ◌∷◌, Dict, All, ◌≡◌, inl, inr, Bool-cases}
use sbd_drones_economics.Base.Floats.{Floats}
use sbd_drones_economics.Operator.Fleet.{Fleet}
use sbd_drones_economics.Operator.Fleet.Service.{Calendar}
use sbd_drones_economics.Operator.Fleet.Service.Search.{
  UasExtended, Requirements, Suitable, candidates, insert_ranked, ranked, find_suitable_uas,
}
use sbd_drones_economics.Operator.Fleet.Service.Fitting.{
  IsOrdered, Meets, IsFound, candidates-Meets, IsFound-more, candidates-IsFound,
}

module _ (floats : Floats) (mod_50 : floats.Float → floats.Float) (calendar : Calendar) where
  open floats use {Float, of_int, below, literal}

  -- No drone ranks before one with a higher score, at whatever distance.
  unfoldable pub IsRanked : List (Suitable Float) → Type 0
  IsRanked [] = Unit
  IsRanked (a ∷ more) =
      All (λ b. below a.suitability_score b.suitability_score ≡ false) more × IsRanked more

  insert_ranked-All :
      (P : Suitable Float → Type 0) (a : Suitable Float) (bs : List (Suitable Float))
      → P a
      → All P bs
      → All P (insert_ranked floats mod_50 calendar a bs)
  unfolding insert_ranked
  insert_ranked-All P a [] h hs = (h, tt)
  insert_ranked-All P a (b ∷ bs) h hs =
      elim (Bool-cases (below a.suitability_score b.suitability_score)) [
        | inl e ↦ rw e (hs.0, insert_ranked-All P a bs h hs.1)
        | inr e ↦ rw e (h, hs)
      ]

  insert_ranked-Any :
      (P : Suitable Float → Type 0) (a : Suitable Float) (bs : List (Suitable Float))
      → P a ⊎ Any P bs
      → Any P (insert_ranked floats mod_50 calendar a bs)
  unfolding insert_ranked
  insert_ranked-Any P a [] h = h
  insert_ranked-Any P a (b ∷ bs) h =
      elim (Bool-cases (below a.suitability_score b.suitability_score)) [
        | inl e ↦ rw e (elim h [
          | inl here ↦ inr (insert_ranked-Any P a bs (inl here))
          | inr (inl there) ↦ inl there
          | inr (inr later) ↦ inr (insert_ranked-Any P a bs (inr later))
        ])
        | inr e ↦ rw e h
      ]

  ranked-All :
      (P : Suitable Float → Type 0) (found : List (Suitable Float))
      → All P found
      → All P (ranked floats mod_50 calendar found)
  unfolding ranked
  ranked-All P [] h = tt
  ranked-All P (a ∷ more) h =
      insert_ranked-All P a (ranked floats mod_50 calendar more) h.0 (ranked-All P more h.1)

  ranked-Any :
      (found : List (Suitable Float)) (P : Suitable Float → Type 0)
      → Any P found
      → Any P (ranked floats mod_50 calendar found)
  unfolding ranked
  ranked-Any [] P h = h
  ranked-Any (a ∷ more) P (inl here) =
      insert_ranked-Any P a (ranked floats mod_50 calendar more) (inl here)
  ranked-Any (a ∷ more) P (inr there) =
      insert_ranked-Any P a (ranked floats mod_50 calendar more) (inr (ranked-Any more P there))

  -- What is not below the first of a ranked list is below none of it.
  above_all :
      (a b : Suitable Float) (bs : List (Suitable Float))
      → IsOrdered floats mod_50 calendar
      → below a.suitability_score b.suitability_score ≡ false
      → All (λ c. below b.suitability_score c.suitability_score ≡ false) bs
      → All (λ c. below a.suitability_score c.suitability_score ≡ false) bs
  above_all a b [] o h hs = tt
  above_all a b (c ∷ bs) o h hs = (o.transitive _ _ _ h hs.0, above_all a b bs o h hs.1)

  -- The new drone comes before the list, or its first stays first.
  insert_ranked-IsRanked :
      (a : Suitable Float) (bs : List (Suitable Float))
      → IsOrdered floats mod_50 calendar
      → IsRanked bs
      → IsRanked (insert_ranked floats mod_50 calendar a bs)
  unfolding insert_ranked IsRanked
  insert_ranked-IsRanked a [] o h = (tt, tt)
  insert_ranked-IsRanked a (b ∷ bs) o h =
      elim (Bool-cases (below a.suitability_score b.suitability_score)) [
        | inl e ↦ rw e (
          insert_ranked-All (λ c. below b.suitability_score c.suitability_score ≡ false) a bs
              (o.asymmetric _ _ e) h.0,
          insert_ranked-IsRanked a bs o h.1,
        )
        | inr e ↦ rw e ((e, above_all a b bs o e h.0), h)
      ]

  ranked-IsRanked :
      (found : List (Suitable Float))
      → IsOrdered floats mod_50 calendar
      → IsRanked (ranked floats mod_50 calendar found)
  unfolding ranked IsRanked
  ranked-IsRanked [] o = tt
  ranked-IsRanked (a ∷ more) o =
      insert_ranked-IsRanked a (ranked floats mod_50 calendar more) o (ranked-IsRanked more o)

  -- Each drone that is found is a row of the service that is in the core and fits the requirements,
  -- with a score between 0 and 100; each row that is in the core and fits is found; and no drone
  -- comes before one with a higher score.
  pub find_suitable_uas-IsRanked :
      (fleet_extended : Dict (UasExtended Float)) (core : Fleet Float) (r : Requirements Float)
      → IsOrdered floats mod_50 calendar
      → let found = find_suitable_uas floats mod_50 calendar fleet_extended core r in
        All (Meets floats mod_50 calendar fleet_extended core r) found
        × All (IsFound floats mod_50 calendar core r found) fleet_extended
        × IsRanked found
  unfolding find_suitable_uas
  find_suitable_uas-IsRanked fleet_extended core r o =
      let found = candidates floats mod_50 calendar fleet_extended core r in
      (
        ranked-All (Meets floats mod_50 calendar fleet_extended core r) found
            (candidates-Meets floats mod_50 calendar fleet_extended core r o),
        IsFound-more floats mod_50 calendar core r found (ranked floats mod_50 calendar found)
            fleet_extended (ranked-Any found)
            (candidates-IsFound floats mod_50 calendar fleet_extended core r),
        ranked-IsRanked found o,
      )
