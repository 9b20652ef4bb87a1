-- ===== src/Operator/Fleet/Service/Fitting.antt =====
-- Which rows of the service the search for suitable drones finds.
use sbd_drones_economics.Base.{
  Any, Option, eq_iff, ◌⊎◌, ◌↔◌, or_default, String, true, false, none, some, List, [], ◌∷◌, Dict,
  lookup, All, ◌≡◌, refl, inl, inr, arith, Bool-cases, Option-cases,
}
use sbd_drones_economics.Base.Floats.{Floats, IsWithin, clamp-IsWithin}
use sbd_drones_economics.Operator.Fleet.{UasState, UasStatus, Fleet}
use sbd_drones_economics.Operator.Fleet.Service.{Calendar, UasType, type_value}
use sbd_drones_economics.Operator.Fleet.Service.Search.{
  UasExtended, Requirements, Suitable, suitability_score, is_suitable, is_type, suitable, consider,
  candidates,
}

module _ (floats : Floats) (mod_50 : floats.Float → floats.Float) (calendar : Calendar) where
  open floats use {Float, of_int, below, literal}

  -- What is asked of the order of floats: a weak order.
  pub record IsOrdered : Type 0 where
    pub asymmetric : (a b : Float) → below a b ≡ true → below b a ≡ false
    pub irreflexive : (a : Float) → below a a ≡ false
    pub transitive : (a b c : Float) → below a b ≡ false → below b c ≡ false → below a c ≡ false
    pub hundred : below (of_int 100) (of_int 0) ≡ false

  -- A row of the service fits the core's record of the drone: it is available, with a valid
  -- certificate, of the type that is asked for, if one is, and not below what is asked of its load
  -- and range (0 where nothing is) and of its charge (0.3 where nothing is).
  pub record Fits (r : Requirements Float) (uas : UasExtended Float) (state : UasState Float)
      : Type 0 where
    pub free : state.status ≡ UasStatus.available
    pub certified : state.certificate_valid ≡ true
    pub right_type :
        (wanted : String)
        → r.uas_type ≡ some wanted
        → (wanted ≡ "") ⊎ (type_value uas.uas_type ≡ wanted)
    pub load : below uas.max_payload (or_default r.min_payload (of_int 0)) ≡ false
    pub range : below uas.max_range (or_default r.min_range (of_int 0)) ≡ false
    pub charge : below state.battery_level (or_default r.min_battery (literal 3 10)) ≡ false

  -- What is found is a row of the service whose drone is in the core and which fits, with a score
  -- between 0 and 100.
  abbrev pub Meets :
      Dict (UasExtended Float) → Fleet Float → Requirements Float → Suitable Float → Type 0
  Meets fleet_extended core r found =
      (uas : UasExtended Float) × (state : UasState Float) × Any (λ row. row ≡ (found.id, uas))
        fleet_extended
      × (lookup found.id core ≡ some state)
      × Fits r uas state
      × (found ≡ suitable floats mod_50 calendar found.id uas state r)
      × IsWithin floats (of_int 0) (of_int 100) found.suitability_score

  is_type_back :
      (o : Option String) (t : UasType)
      → ((wanted : String) → o ≡ some wanted → (wanted ≡ "") ⊎ (type_value t ≡ wanted))
      → is_type floats mod_50 calendar o t ≡ true
  unfolding is_type
  is_type_back none t h = refl
  is_type_back (some wanted) t h =
      ground (arith, h wanted refl, eq_iff wanted "", eq_iff (type_value t) wanted)

  pub is_suitable-Fits :
      (uas : UasExtended Float) (state : UasState Float) (r : Requirements Float)
      → (is_suitable floats mod_50 calendar uas state r ≡ true) ↔ Fits r uas state
  unfolding is_suitable is_type
  is_suitable-Fits uas state r = (
    λ h. record {
      free = ground arith;
      certified = ground arith;
      right_type =
          λ wanted e. ground (arith, eq_iff wanted "", eq_iff (type_value uas.uas_type) wanted);
      load = ground arith;
      range = ground arith;
      charge = ground arith;
    },
    λ f. ground (
      arith,
      f.free,
      f.certified,
      f.load,
      f.range,
      f.charge,
      is_type_back r.uas_type uas.uas_type f.right_type,
    ),
  )

  suitability_score-IsWithin :
      (uas : UasExtended Float) (state : UasState Float) (r : Requirements Float)
      → IsOrdered
      → IsWithin floats
          (of_int 0)
          (of_int 100)
          (suitability_score floats mod_50 calendar uas state r)
  unfolding suitability_score
  suitability_score-IsWithin uas state r h =
      clamp-IsWithin floats (of_int 0) (of_int 100) _ (h.irreflexive _) (h.irreflexive _) h.hundred
        h.asymmetric

  Meets-more :
      (row : String × UasExtended Float) (rows : Dict (UasExtended Float)) (core : Fleet Float)
      (r : Requirements Float) (found : List (Suitable Float))
      → All (Meets rows core r) found
      → All (Meets (row ∷ rows) core r) found
  Meets-more row rows core r [] h = tt
  Meets-more row rows core r (a ∷ found) ((uas, state, there, known, fits, made, within), more) =
      ((uas, state, inr there, known, fits, made, within), Meets-more row rows core r found more)

  pub candidates-Meets :
      (fleet_extended : Dict (UasExtended Float)) (core : Fleet Float) (r : Requirements Float)
      → IsOrdered
      → All (Meets fleet_extended core r) (candidates floats mod_50 calendar fleet_extended core r)
  unfolding candidates consider suitable
  candidates-Meets [] core r h = tt
  candidates-Meets ((uas_id, uas) ∷ rows) core r h =
      let rest = Meets-more (uas_id, uas) rows core r _ (candidates-Meets rows core r h) in
      elim (Option-cases (lookup uas_id core)) [
        | inl missing ↦ rw missing rest
        | inr (state, there) ↦ elim (Bool-cases (is_suitable floats mod_50 calendar uas state r)) [
          | inr unfit ↦ rw (there, unfit) rest
          | inl fits ↦
              rw (there, fits)
                (
                  (
                    uas,
                    state,
                    inl refl,
                    there,
                    (is_suitable-Fits uas state r).0 fits,
                    refl,
                    suitability_score-IsWithin uas state r h,
                  ),
                  rest,
                )
        ]
      ]

  -- A row that fits is among the drones that are found.
  abbrev pub IsFound :
      Fleet Float → Requirements Float → List (Suitable Float) → String × UasExtended Float → Type 0
  IsFound core r found (uas_id, uas) =
      (state : UasState Float)
      → lookup uas_id core ≡ some state
      → Fits r uas state
      → Any (λ a. a ≡ suitable floats mod_50 calendar uas_id uas state r) found

  pub IsFound-more :
      (core : Fleet Float) (r : Requirements Float) (found more : List (Suitable Float))
      (rows : Dict (UasExtended Float))
      → ((P : Suitable Float → Type 0) → Any P found → Any P more)
      → All (IsFound core r found) rows
      → All (IsFound core r more) rows
  IsFound-more core r found more [] f h = tt
  IsFound-more core r found more ((uas_id, uas) ∷ rows) f h =
      (λ state there fits. f _ (h.0 state there fits), IsFound-more core r found more rows f h.1)

  consider-Any :
      (uas_id : String) (uas : UasExtended Float) (o : Option (UasState Float))
      (r : Requirements Float) (rest : List (Suitable Float)) (P : Suitable Float → Type 0)
      → Any P rest
      → Any P (consider floats mod_50 calendar uas_id uas o r rest)
  unfolding consider
  consider-Any uas_id uas none r rest P h = h
  consider-Any uas_id uas (some state) r rest P h =
      elim (Bool-cases (is_suitable floats mod_50 calendar uas state r)) [
        | inl fits ↦ rw fits (inr h)
        | inr unfit ↦ rw unfit h
      ]

  pub candidates-IsFound :
      (fleet_extended : Dict (UasExtended Float)) (core : Fleet Float) (r : Requirements Float)
      → All
          (IsFound core r (candidates floats mod_50 calendar fleet_extended core r))
          fleet_extended
  unfolding candidates consider
  candidates-IsFound [] core r = tt
  candidates-IsFound ((uas_id, uas) ∷ rows) core r = (
    λ state there fits. rw (there, (is_suitable-Fits uas state r).1 fits) (inl refl),
    IsFound-more core r (candidates floats mod_50 calendar rows core r) _ rows
        (consider-Any uas_id uas (lookup uas_id core) r
          (candidates floats mod_50 calendar rows core r))
        (candidates-IsFound rows core r),
  )
