-- ===== src/Operator/Economics.antt =====
-- BusinessLogicCore of systems/operator/src/business_logic/src/business_logic_core.py. A reason is told
-- by its kind and not by its text.
use sbd_drones_economics.Base.{
  ◌≡◌, ◌↔◌, Bool, true, false, not, ◌&&◌, ◌||◌, Option, none, some, if◌then◌else◌, arith,
  or_default,
}
use sbd_drones_economics.Base.Floats.{Floats}
use sbd_drones_economics.Outcome.{Result, ok, err, value_error}

pub data Reason : Type 0 where
  price_not_positive : Reason
  cost_negative : Reason
  margin_too_low : Reason
  margin_low_on_price : Reason
  original_not_positive : Reason
  discounted_not_positive : Reason
  discount_too_high : Reason

module _ (fl : Floats) where
  abbrev zero_float : fl.Float
  zero_float = fl.of_int 0

  -- `a <= b`, which is false where one of them is NaN
  abbrev pub at_most : fl.Float → fl.Float → Bool
  at_most a b = fl.below a b || fl.equal a b

  abbrev pub min_margin_percent : fl.Float
  min_margin_percent = fl.literal 10 1

  abbrev pub max_discount_percent : fl.Float
  max_discount_percent = fl.literal 5 1

  pub record MarginValidation : Type 0 where
    pub is_valid : Bool
    pub margin_percent : fl.Float
    pub min_required : fl.Float
    pub reason : Option Reason

  abbrev bad_input : Reason → MarginValidation
  bad_input reason = record {
    is_valid = false;
    margin_percent = zero_float;
    min_required = min_margin_percent;
    reason = some reason;
  }

  -- `(margin / base) * 100 if base > 0 else 0`
  unfoldable pub percent_of : (base margin : fl.Float) → fl.Float
  percent_of base margin =
      if fl.below zero_float base
      then fl.times (fl.over margin base) (fl.of_int 100)
      else zero_float

  unfoldable pub validate_margin : (price cost : fl.Float) → MarginValidation
  validate_margin price cost =
      if at_most price zero_float
      then bad_input price_not_positive
      else if fl.below cost zero_float
      then bad_input cost_negative
      else (let margin = fl.sub price cost in
          let margin_percent = percent_of price margin in
          let is_valid = at_most min_margin_percent (percent_of cost margin) in
          record {
            is_valid = is_valid;
            margin_percent = fl.round margin_percent 2;
            min_required = min_margin_percent;
            reason =
                if not is_valid
                then some margin_too_low
                else if fl.below margin_percent min_margin_percent
                then some margin_low_on_price
                else none;
          })

  pub record DiscountValidation : Type 0 where
    pub is_valid : Bool
    pub discount_percent : Option fl.Float
    pub reason : Option Reason

  unfoldable pub validate_discount :
      (original_price discounted_price : fl.Float) → DiscountValidation
  validate_discount original_price discounted_price =
      if at_most original_price zero_float
      then record { is_valid = false; discount_percent = none; reason = some original_not_positive }
      else if at_most discounted_price zero_float
      then record {
        is_valid = false;
        discount_percent = none;
        reason = some discounted_not_positive;
      }
      else (let discount =
            fl.times (fl.over (fl.sub original_price discounted_price) original_price)
              (fl.of_int 100) in
          if fl.below max_discount_percent discount
          then record {
            is_valid = false;
            discount_percent = some (fl.round discount 2);
            reason = some discount_too_high;
          }
          else record {
            is_valid = true;
            discount_percent = some (fl.round discount 2);
            reason = none;
          })

  unfoldable pub calculate_min_price : (cost : fl.Float) → Result fl.Float
  calculate_min_price cost =
      if fl.below cost zero_float
      then err (value_error "Себестоимость не может быть отрицательной")
      else ok (
          fl.round
            (fl.over cost (fl.sub (fl.of_int 1) (fl.over min_margin_percent (fl.of_int 100)))) 2)

  pub record Order : Type 0 where
    pub price : Option fl.Float
    pub cost : Option fl.Float
    pub has_discount : Bool
    pub original_price : Option fl.Float

  pub record Economics : Type 0 where
    pub valid : Bool
    pub margin : MarginValidation
    pub discount : Option DiscountValidation
    pub min_price_required : Option (Result fl.Float)

  unfoldable pub validate_order_economics : Order → Economics
  unfolding validate_margin validate_discount
  validate_order_economics order =
      let price = or_default order.price zero_float in
      let cost = or_default order.cost zero_float in
      let margin = validate_margin price cost in
      let discount =
        if order.has_discount
        then some (validate_discount (or_default order.original_price price) price)
        else none in
      record {
        valid = margin.is_valid && elim discount [ none ↦ true | some d ↦ d.is_valid ];
        margin = margin;
        discount = discount;
        min_price_required =
            if fl.below zero_float cost then some (calculate_min_price cost) else none;
      }

  -- A margin passes exactly where the price is not at most 0, the cost not below 0, and the margin on
  -- the cost at least the minimum.
  pub validate_margin_iff :
      (price cost : fl.Float)
      → ((validate_margin price cost).is_valid ≡ true) ↔ (
          (at_most price zero_float ≡ false)
          × (fl.below cost zero_float ≡ false)
          × (at_most min_margin_percent (percent_of cost (fl.sub price cost)) ≡ true))
  unfolding validate_margin
  validate_margin_iff price cost = ground arith

  -- Without a cost above 0 no margin passes, whatever the price is, where the minimum is above 0.
  validate_margin-no_cost :
      (price cost : fl.Float)
      → fl.below zero_float cost ≡ false
      → at_most min_margin_percent zero_float ≡ false
      → (validate_margin price cost).is_valid ≡ false
  unfolding validate_margin percent_of
  validate_margin-no_cost price cost free low = ground arith
