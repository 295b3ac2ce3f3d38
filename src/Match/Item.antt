-- ===== src/Match/Item.antt =====
-- match/order.go: what is sent of one order. A trade is tried out on the pool and the account that
-- the engine holds, and changes both even when it turns out unsafe.
pub mod Amounts
use mai3_broker.Base.{
  ℕ, String, List, [], ◌∷◌, Bool, true, false, not, ◌&&◌, ◌||◌, Result, ok, err, if◌then◌else◌,
}
use mai3_broker.Base.Actions.{Action}
use mai3_broker.Decimal.{Decimal, zero, sub, abs, less_than, is_zero}
use mai3_broker.Order.CancelReason
use mai3_broker.Orderbook.Level.{MemoryOrder}
use mai3_broker.Mai3.Math.{Floats}
use mai3_broker.Mai3.Pool.{Market, compute_amm_trade, compute_amm_max_trade_amount}

pub data ItemError : Type 0 where
  trade_amount_is_zero : ItemError
  unsafe_after_trade : ItemError

pub record MatchItem (D : Type 0) : Type 0 where
  pub order : MemoryOrder D
  pub order_cancel_amounts : List D
  pub order_cancel_reasons : List String
  pub order_total_cancel : D
  pub matched_amount : D

module _ {D : Type 0} ⦃dec : Decimal D⦄ where
  -- A remainder that is too small to be traded is canceled.
  unfoldable pub item_of : MemoryOrder D → D → MatchItem D
  item_of order matched =
      let remain = sub order.amount matched in
      let too_small = not (is_zero remain) && less_than (abs remain) (abs order.min_trade_amount) in
      record {
        order = order;
        order_cancel_amounts = if too_small then remain ∷ [] else [];
        order_cancel_reasons = if too_small then CancelReason.remain_too_small ∷ [] else [];
        order_total_cancel = if too_small then remain else zero;
        matched_amount = matched;
      }

module _ {F D : Type 0} ⦃dec : Decimal D⦄ (fl : Floats F D) (round_bank : ℕ → D → D) (fuel : ℕ)
    (tolerance : F) (i : ℕ) where
  -- Does the trade go through, and leave the trader safe?
  unfoldable pub try_trade : D → Market D → Bool × Market D
  try_trade amount market =
      let (r, market') = compute_amm_trade fl round_bank fuel i amount market in
      (elim r [ ok t ↦ t.is_safe | err e ↦ false ], market')

  -- The second attempt: the greatest amount that is safe.
  unfoldable pub get_reduced_item :
      D → MemoryOrder D → Bool → Action ItemError (Market D) (MatchItem D)
  unfolding try_trade item_of
  get_reduced_item matched order is_buy market =
      let amount =
        compute_amm_max_trade_amount fl round_bank fuel market i tolerance matched is_buy in
      let (safe, market') = try_trade amount market in
      if is_zero amount || less_than (abs amount) order.min_trade_amount
      then (err trade_amount_is_zero, market)
      else if safe
      then (ok (item_of order amount), market')
      else (err unsafe_after_trade, market')

  unfoldable pub get_match_item :
      D → MemoryOrder D → Bool → Action ItemError (Market D) (MatchItem D)
  unfolding get_reduced_item
  get_match_item matched order is_buy market =
      let (safe, market') = try_trade matched market in
      if safe
      then (ok (item_of order matched), market')
      else get_reduced_item matched order is_buy market'
