-- ===== src/Operator/Proposals.antt =====
-- BusinessLogicService of systems/operator/src/business_logic/src/business_logic_service.py over its
-- core, with the stand-ins for the insurer, the bank and the taxes that it brings. Times are whole
-- seconds; a new identifier and the clock come with each call. The identifiers and times of a quote
-- and a payment, which nothing reads, and the statistics are left out.
mod Tests
use sbd_drones_economics.Base.{
  ℕ, ◌+◌, String, ◌≡◌, refl, sym, subst, Bool, true, false, not, ◌||◌, Option, none, some, List, [],
  ◌∷◌, ◌==◌, Dict, lookup, insert, if◌then◌else◌, ltb, or_default, arith, insert-cases, inl, inr,
  Option-cases, Bool-cases, eq_iff, values,
}
use sbd_drones_economics.Base.Floats.{Floats}
use sbd_drones_economics.Outcome.{Result, ok, err, Exception, result_cases}
use sbd_drones_economics.Operator.Economics.{
  Reason, MarginValidation, validate_margin, calculate_min_price,
}

module _ (fl : Floats) where
  pub record CostBreakdown : Type 0 where
    pub uas_cost : fl.Float
    pub operator_cost : fl.Float
    pub insurance_cost : fl.Float
    pub total : fl.Float

  pub record Proposal : Type 0 where
    pub order_id : String
    pub price : fl.Float
    pub cost : fl.Float
    pub margin_percent : fl.Float
    pub valid_until : ℕ
    pub created_at : ℕ

  pub record MissionData : Type 0 where
    pub distance : Option fl.Float
    pub duration : Option fl.Float
    pub cargo_value : Option fl.Float

  pub data Reply : Type 0 where
    proposed : Proposal → CostBreakdown → Reply
    unprofitable : Option Reason → Reply
    not_found : Reply
    expired : Reply
    processed : (proposal_id : String) → (vat total_with_tax : fl.Float) → Reply
    raised : Exception → Reply

  abbrev pub Proposals : Type 0
  Proposals = Dict Proposal

  -- The premium of `MockInsuranceProvider.get_quote`
  unfoldable pub get_quote : MissionData → fl.Float
  get_quote d =
      fl.round (fl.times (or_default d.cargo_value (fl.of_int 10_000)) (fl.literal 2 100)) 2

  -- `MockTaxService.calculate_tax`: the tax, and the amount with it
  unfoldable pub calculate_tax : (amount : fl.Float) → fl.Float × fl.Float
  calculate_tax amount =
      let vat = fl.times amount (fl.literal 20 100) in
      (fl.round vat 2, fl.round (fl.add amount vat) 2)

  unfoldable pub calculate_mission_cost : MissionData → CostBreakdown
  unfolding get_quote
  calculate_mission_cost d =
      let distance = or_default d.distance (fl.of_int 10) in
      let duration = or_default d.duration (fl.of_int 30) in
      let uas_cost = fl.add (fl.times (fl.literal 50 1) distance) (fl.literal 500 1) in
      let operator_cost = fl.times (fl.literal 1000 1) (fl.over duration (fl.of_int 60)) in
      let insurance_cost = get_quote d in
      record {
        uas_cost = fl.round uas_cost 2;
        operator_cost = fl.round operator_cost 2;
        insurance_cost = fl.round insurance_cost 2;
        total = fl.round (fl.add (fl.add uas_cost operator_cost) insurance_cost) 2;
      }

  -- 5% above the price that the core asks
  abbrev pub proposed_price : fl.Float → fl.Float
  proposed_price min_price = fl.times min_price (fl.literal 105 100)

  abbrev pub new_proposal :
      (order_id : Option String) → (price cost : fl.Float) → (now : ℕ) → Proposal
  new_proposal order_id price cost now = record {
    order_id = or_default order_id "unknown";
    price = fl.round price 2;
    cost = cost;
    margin_percent = (validate_margin fl price cost).margin_percent;
    valid_until = now + 86_400;
    created_at = now;
  }

  unfoldable pub create_proposal :
      (order_id : Option String)
      → MissionData
      → (fresh : String) → (now : ℕ) → Proposals
      → Reply × Proposals
  create_proposal order_id d fresh now s =
      let breakdown = calculate_mission_cost d in
      elim (calculate_min_price fl breakdown.total) [
        | err e ↦ (raised e, s)
        | ok min_price ↦
            let price = proposed_price min_price in
            let check = validate_margin fl price breakdown.total in
            if not check.is_valid
            then (unprofitable check.reason, s)
            else (let p = new_proposal order_id price breakdown.total now in
                (proposed p breakdown, insert fresh p s))
      ]

  unfoldable pub process_order :
      (proposal_id : Option String) → (now : ℕ) → Proposals → Reply × Proposals
  unfolding calculate_tax
  process_order proposal_id now s =
      let id = or_default proposal_id "" in
      if id == "" then (not_found, s) else elim (lookup id s) [
        | none ↦ (not_found, s)
        | some p ↦
            if ltb p.valid_until now
            then (expired, s)
            else (let (vat, total) = calculate_tax p.price in (processed id vat total, s))
      ]

  pub data Request : Type 0 where
    create : (order_id : Option String) → MissionData → (fresh : String) → Request
    process : (proposal_id : Option String) → Request

  unfoldable pub handle : Request → (now : ℕ) → Proposals → Reply × Proposals
  handle (create order_id d fresh) now s = create_proposal order_id d fresh now s
  handle (process proposal_id) now s = process_order proposal_id now s

  -- The proposals after the calls, in their order.
  unfoldable pub serve : List (Request × ℕ) → Proposals → Proposals
  serve [] s = s
  serve ((r, now) ∷ rs) s = serve rs (handle r now s).1

  -- A proposal whose price, before it was rounded, passed the check of the margin over its cost.
  abbrev pub IsProfitable : Proposal → Type 0
  IsProfitable p =
      (price : fl.Float) × (p.price ≡ fl.round price 2)
      × ((validate_margin fl price p.cost).is_valid ≡ true)

  abbrev pub AreProfitable : Proposals → Type 0
  AreProfitable s = (id : String) (p : Proposal) → lookup id s ≡ some p → IsProfitable p

  create_proposal-AreProfitable :
      (order_id : Option String) (d : MissionData) (fresh : String) (now : ℕ) (s : Proposals)
      → AreProfitable s
      → AreProfitable (create_proposal order_id d fresh now s).1
  unfolding create_proposal
  create_proposal-AreProfitable order_id d fresh now s h id p e =
      elim (result_cases (calculate_min_price fl (calculate_mission_cost d).total)) [
        | inr (x, f) ↦ h id p (ground (arith, f, e))
        | inl (m, f) ↦
            let cost = (calculate_mission_cost d).total in
            elim (Bool-cases (validate_margin fl (proposed_price m) cost).is_valid) [
              | inr bad ↦ h id p (ground (arith, f, bad, e))
              | inl good ↦
                  let stored : lookup id
                        (insert fresh (new_proposal order_id (proposed_price m) cost now) s)
                      ≡ some p =
                    ground (arith, f, good, e) in
                  elim (insert-cases fresh id (new_proposal order_id (proposed_price m) cost now) p
                    s stored) [
                      | inl (_, same) ↦ subst IsProfitable same (proposed_price m, refl, good)
                      | inr (_, old) ↦ h id p old
                    ]
            ]
      ]

  serve-keeps_AreProfitable :
      (rs : List (Request × ℕ)) (s : Proposals) → AreProfitable s → AreProfitable (serve rs s)
  unfolding serve handle process_order
  serve-keeps_AreProfitable [] s h = h
  serve-keeps_AreProfitable ((create o d i, now) ∷ rs) s h =
      serve-keeps_AreProfitable rs (create_proposal o d i now s).1
        (create_proposal-AreProfitable o d i now s h)
  serve-keeps_AreProfitable ((process i, now) ∷ rs) s h =
      serve-keeps_AreProfitable rs (process_order i now s).1 (subst AreProfitable (ground arith) h)

  -- From a start without proposals, after any calls: every proposal that the service keeps was made at
  -- a price, before it was rounded, whose margin over the proposal's cost passes the core's check.
  pub serve-AreProfitable : (rs : List (Request × ℕ)) → AreProfitable (serve rs [])
  serve-AreProfitable rs = serve-keeps_AreProfitable rs [] nothing_lost
    where
      nothing_lost : AreProfitable []
      nothing_lost id p e = ground (arith, e)
