-- ===== src/Order/Defs.antt =====
-- An order, its reasons of cancellation, and the changes that the model package makes to it.
use mai3_broker.Base.{
  ℕ, String, List, [], ◌∷◌, ◌++◌, Option, none, some, Bool, not, ◌||◌, str_eq, Result, ok, err,
  if◌then◌else◌,
}
use mai3_broker.Base.Int.{ℤ}
use mai3_broker.Decimal.{Decimal, zero, add, sub, abs, equal, is_zero, less_than, greater_than}
use mai3_broker.Amount.{has_the_same_sign}

abbrev pub OrderType : Type 0
OrderType = ℕ

abbrev pub limit_order : OrderType
limit_order = 1

abbrev pub stop_limit_order : OrderType
stop_limit_order = 2

abbrev pub take_profit_order : OrderType
take_profit_order = 3

abbrev pub mask_close_only : ℕ
mask_close_only = 0x80000000

abbrev pub mask_stop_loss_order : ℕ
mask_stop_loss_order = 0x20000000

abbrev pub mask_take_profit_order : ℕ
mask_take_profit_order = 0x10000000

abbrev pub mask_use_target_leverage : ℕ
mask_use_target_leverage = 0x08000000

-- `unset` is the empty string of an order that was never saved.
pub data OrderStatus : Type 0 where
  unset : OrderStatus
  canceled : OrderStatus
  pending : OrderStatus
  partial_filled : OrderStatus
  full_filled : OrderStatus

pub record OrderParam (D : Type 0) : Type 0 where
  pub trader_address : String
  pub liquidity_pool_address : String
  pub perpetual_index : ℕ
  pub relayer_address : String
  pub broker_address : String
  pub referrer_address : String
  pub type : OrderType
  pub price : D
  pub amount : D
  pub min_trade_amount : D
  pub trigger_price : D
  pub broker_fee_limit : ℤ
  pub expires_at : ℕ
  pub salt : ℤ
  pub is_close_only : Bool
  pub chain_id : ℤ
  pub signature : String

pub record OrderCancelReason (D : Type 0) : Type 0 where
  pub reason : String
  pub amount : D
  pub canceled_at : ℕ
  pub transaction_hash : String

pub record Order (D : Type 0) : Type 0 where
  pub param : OrderParam D
  pub open param use *
  pub id : ℕ
  pub order_hash : String
  pub old_status : OrderStatus
  pub status : OrderStatus
  pub collateral_address : String
  pub available_amount : D
  pub confirmed_amount : D
  pub canceled_amount : D
  pub pending_amount : D
  pub gas_fee_limit : ℤ
  pub created_at : ℕ
  pub updated_at : ℕ
  pub check_amount : D
  pub cancel_reasons : List (OrderCancelReason D)

pub data CancelError : Type 0 where
  empty_reason : CancelError
  bad_amount : CancelError
  larger_than_available : CancelError

module _ {D : Type 0} ⦃dec : Decimal D⦄ where
  -- A null time is replaced by the clock's.
  unfoldable pub add_cancel_reason : ℕ → Order D → String → D → String → Option ℕ → Order D
  add_cancel_reason now order reason amount transaction_hash executed_at = record order {
    cancel_reasons = order.cancel_reasons ++ r ∷ [];
  }
    where
      r : OrderCancelReason D
      r = record {
        reason = reason;
        amount = amount;
        canceled_at = elim executed_at [ none ↦ now | some t ↦ t ];
        transaction_hash = transaction_hash;
      }

  unfoldable pub cancel_order : ℕ → Order D → String → D → Result CancelError (Order D)
  unfolding add_cancel_reason
  cancel_order now order reason amount =
      if str_eq reason ""
      then err empty_reason
      else if is_zero amount || not (has_the_same_sign amount order.amount)
      then err bad_amount
      else if less_than (abs order.available_amount) (abs amount)
      then err larger_than_available
      else ok (add_cancel_reason now order' reason amount "" none)
    where
      order' : Order D
      order' = record order {
        available_amount = sub order.available_amount amount;
        canceled_amount = add order.canceled_amount amount;
      }

  unfoldable pub status_by_amounts : Order D → OrderStatus
  status_by_amounts o =
      if equal o.confirmed_amount o.amount
      then full_filled
      else if equal o.canceled_amount o.amount
      then canceled
      else if greater_than (abs (add o.available_amount o.pending_amount)) zero
      then pending
      else partial_filled
