-- ===== src/Insurer/Service/Terms.antt =====
-- What becomes of a policy.
use sbd_drones_economics.Base.{
  lookup-insert_kept, String, ◌≡◌, refl, sym, ap, Bool, true, false, ◌||◌, Option, none, some, List,
  [], ◌∷◌, ◌==◌, Dict, lookup, values, if◌then◌else◌, ltb, arith, eq_refl, count, All, Bool-cases,
  inl, inr, subst,
}
use sbd_drones_economics.Base.Floats.{Floats}
use sbd_drones_economics.Insurer.Service.{
  PolicyStatus, active, terminated, is_active, is_same, Policy, Insurer, Request, annual_insurance,
  mission_insurance, calculate_policy, purchase_policy, report_incident, terminate_policy,
  is_ended_by, terminate_all, ended, not_found, handle_terminate, handle_annual, handle_mission,
  handle_calculate, handle_incident, handle, serve,
}

is_same_refl : (o : Option String) → is_same o o ≡ true
is_same_refl none = refl
is_same_refl (some a) = eq_refl a

inactive : (st : PolicyStatus) → is_active st ≡ false → st ≡ PolicyStatus.terminated
inactive active h = ground arith
inactive terminated h = refl

module _ (fl : Floats) where
  abbrev pub end_policy : Policy fl → Policy fl
  end_policy pol = record pol { status = terminated }

  -- A policy after a termination of an order.
  abbrev pub after : Option String → Policy fl → Policy fl
  after order_id pol = if is_same pol.order_id order_id then end_policy pol else pol

  -- The order that a request ends, and the policy that it writes.
  abbrev pub is_end_of : Option String → Request fl → Bool
  is_end_of order_id (terminate_policy o) = is_same order_id o
  is_end_of order_id _ = false

  abbrev pub writes : String → Request fl → Bool
  writes id (annual_insurance p i now) = i == id
  writes id (mission_insurance p i now) = i == id
  writes id (purchase_policy p i now) = i == id
  writes id _ = false

  abbrev pub ends : Option String → List (Request fl) → Bool
  ends order_id [] = false
  ends order_id (r ∷ rs) = is_end_of order_id r || ends order_id rs

  terminated_again : (pol : Policy fl) → is_active pol.status ≡ false → pol ≡ end_policy pol
  terminated_again pol h = ap (λ st. record pol { status = st }) (inactive pol.status h)

  lookup-terminate_all :
      (order_id : Option String) (id : String) (pol : Policy fl) (d : Dict (Policy fl))
      → lookup id d ≡ some pol
      → lookup id (terminate_all fl order_id d).1 ≡ some (after order_id pol)
  unfolding terminate_all
  lookup-terminate_all order_id id pol [] e = ground arith
  lookup-terminate_all order_id id pol ((j, p) ∷ d) e =
      ground (arith, lookup-terminate_all order_id id pol d, terminated_again p)

  terminate_all-found :
      (order_id : Option String) (d : Dict (Policy fl))
      → (terminate_all fl order_id d).0 ≡ ltb 0 (count (is_ended_by fl order_id) (values d))
  unfolding terminate_all
  terminate_all-found order_id [] = refl
  terminate_all-found order_id ((j, p) ∷ d) = ground (arith, terminate_all-found order_id d)

  terminate_all-ended :
      (order_id : Option String) (d : Dict (Policy fl))
      → All (λ pol. is_ended_by fl order_id pol ≡ false) (values (terminate_all fl order_id d).1)
  unfolding terminate_all
  terminate_all-ended order_id [] = tt
  terminate_all-ended order_id ((j, p) ∷ d) = elim (Bool-cases (is_ended_by fl order_id p)) [
    | inl e ↦
        subst (λ x. All (λ pol. is_ended_by fl order_id pol ≡ false) (values x)) (sym (then_1 e))
          (ground arith, terminate_all-ended order_id d)
    | inr e ↦
        subst (λ x. All (λ pol. is_ended_by fl order_id pol ≡ false) (values x)) (sym (else_1 e))
          (e, terminate_all-ended order_id d)
  ]
    where
      then_1 :
          is_ended_by fl order_id p ≡ true
          → (terminate_all fl order_id ((j, p) ∷ d)).1
            ≡ (j, end_policy p) ∷ (terminate_all fl order_id d).1
      then_1 e = ground arith

      else_1 :
          is_ended_by fl order_id p ≡ false
          → (terminate_all fl order_id ((j, p) ∷ d)).1 ≡ (j, p) ∷ (terminate_all fl order_id d).1
      else_1 e = ground arith

  terminate_all-none :
      (order_id : Option String) (d : Dict (Policy fl))
      → All (λ pol. is_ended_by fl order_id pol ≡ false) (values d)
      → terminate_all fl order_id d ≡ (false, d)
  unfolding terminate_all
  terminate_all-none order_id [] h = refl
  terminate_all-none order_id ((j, p) ∷ d) h =
      ground (arith, terminate_all-none order_id d h.1, h.0)

  -- A termination succeeds exactly if an active policy of the order is there. Afterwards none is, and
  -- a second termination of the order finds nothing and changes nothing.
  handle_terminate_twice :
      (order_id : Option String) (s : Insurer fl)
      → let (reply, s1) = handle_terminate fl order_id s in
        (reply ≡ (
          if ltb 0 (count (is_ended_by fl order_id) (values s.policies))
          then ended order_id
          else not_found order_id))
        × All (λ pol. is_ended_by fl order_id pol ≡ false) (values s1.policies)
        × (handle_terminate fl order_id s1 ≡ (not_found order_id, s1))
  unfolding handle_terminate
  handle_terminate_twice order_id s = (
    ground (arith, terminate_all-found order_id s.policies),
    terminate_all-ended order_id s.policies,
    ap (λ x. ((if x.0 then ended order_id else not_found order_id), record s { policies = x.1 }))
        (terminate_all-none order_id (terminate_all fl order_id s.policies).1
          (terminate_all-ended order_id s.policies)),
  )

  handle-policy :
      (r : Request fl) (s : Insurer fl) (id : String) (pol : Policy fl)
      → lookup id s.policies ≡ some pol
      → writes id r ≡ false
      → lookup id (handle fl r s).1.policies
        ≡ some (if is_end_of pol.order_id r then end_policy pol else pol)
  unfolding handle handle_annual handle_mission handle_calculate handle_incident handle_terminate
  handle-policy (annual_insurance p i now) s id pol e w =
      lookup-insert_kept i id _ pol s.policies w e
  handle-policy (mission_insurance p i now) s id pol e w =
      lookup-insert_kept i id _ pol s.policies w e
  handle-policy (calculate_policy p) s id pol e w = e
  handle-policy (purchase_policy p i now) s id pol e w =
      lookup-insert_kept i id _ pol s.policies w e
  handle-policy (report_incident p i now) s id pol e w = e
  handle-policy (terminate_policy o) s id pol e w = lookup-terminate_all o id pol s.policies e

  -- A policy on record is, after any requests that write no other policy under its identifier, as it
  -- was written, but terminated if one of them terminated its order.
  pub serve-policy :
      (rs : List (Request fl)) (s : Insurer fl) (id : String) (pol : Policy fl)
      → lookup id s.policies ≡ some pol
      → All (λ r. writes id r ≡ false) rs
      → lookup id (serve fl rs s).policies
        ≡ some (if ends pol.order_id rs then end_policy pol else pol)
  unfolding serve
  serve-policy [] s id pol e w = e
  serve-policy (r ∷ rs) s id pol e w = ground (
    arith,
    serve-policy rs (handle fl r s).1 id (if is_end_of pol.order_id r then end_policy pol else pol)
        (handle-policy r s id pol e w.0) w.1,
  )
