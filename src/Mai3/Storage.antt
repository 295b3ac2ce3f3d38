-- ===== src/Mai3/Storage.antt =====
-- common/model/mai3.go: the pool, its perpetuals and an account, as they are read from the chain.
use mai3_broker.Base.{ℕ, List, [], ◌∷◌, Option, none, some, Bool, ◌==◌, if◌then◌else◌}

pub record PerpetualStorage (D : Type 0) : Type 0 where
  pub is_normal : Bool
  pub mark_price : D
  pub index_price : D
  pub unit_accumulative_funding : D
  pub initial_margin_rate : D
  pub maintenance_margin_rate : D
  pub operator_fee_rate : D
  pub lp_fee_rate : D
  pub referrer_rebate_rate : D
  pub liquidation_penalty_rate : D
  pub keeper_gas_reward : D
  pub insurance_fund_rate : D
  pub open_interest : D
  pub max_open_interest_rate : D
  pub half_spread : D
  pub open_slippage_factor : D
  pub close_slippage_factor : D
  pub funding_rate_factor : D
  pub funding_rate_limit : D
  pub max_leverage : D
  pub max_close_price_discount : D
  pub amm_cash_balance : D
  pub amm_position_amount : D

-- The map of perpetuals, in the order that an iteration over it takes.
abbrev pub Perpetuals : Type 0 → Type 0
Perpetuals D = List (ℕ × PerpetualStorage D)

pub record LiquidityPoolStorage (D : Type 0) : Type 0 where
  pub vault_fee_rate : D
  pub pool_cash_balance : D
  pub perpetuals : Perpetuals D

pub record AccountStorage (D : Type 0) : Type 0 where
  pub target_leverage : D
  pub wallet_balance : D
  pub cash_balance : D
  pub position_amount : D

pub record AccountComputed (D : Type 0) : Type 0 where
  pub position_value : D
  pub position_margin : D
  pub maintenance_margin : D
  pub available_cash_balance : D
  pub margin_balance : D
  pub available_margin : D
  pub withdrawable_balance : D
  pub is_mm_safe : Bool
  pub is_im_safe : Bool
  pub is_margin_safe : Bool
  pub leverage : D

pub record AmmTradingContext (D : Type 0) : Type 0 where
  pub index : D
  pub position1 : D
  pub half_spread : D
  pub open_slippage_factor : D
  pub close_slippage_factor : D
  pub funding_rate_limit : D
  pub max_close_price_discount : D
  pub max_leverage : D
  pub other_index : List D
  pub other_position : List D
  pub other_open_slippage_factor : List D
  pub other_max_leverage : List D
  pub cash : D
  pub pool_margin : D
  pub delta_margin : D
  pub delta_position : D
  pub best_ask_bid_price : D
  pub value_without_current : D
  pub square_value_without_current : D
  pub position_margin_without_current : D

pub data TradeError : Type 0 where
  perpetual_not_found : TradeError
  bad_amount : TradeError
  bad_price : TradeError
  invalid_position : TradeError
  bad_leverage : TradeError
  wallet_too_low : TradeError
  no_context : TradeError
  amm_unsafe : TradeError
  position_too_large : TradeError
  same_sign : TradeError
  no_best_price : TradeError
  cross_direction : TradeError
  no_pool_margin : TradeError
  impossible_price : TradeError
  amount_mismatch : TradeError
  open_interest_exceeded : TradeError

module _ {D : Type 0} where
  unfoldable pub get_perpetual : ℕ → Perpetuals D → Option (PerpetualStorage D)
  get_perpetual i [] = none
  get_perpetual i ((j, p) ∷ ps) = if i == j then some p else get_perpetual i ps

  -- A write through the pointer that the map holds.
  unfoldable pub set_perpetual : ℕ → PerpetualStorage D → Perpetuals D → Perpetuals D
  set_perpetual i p [] = []
  set_perpetual i p ((j, q) ∷ ps) = if i == j then (j, p) ∷ ps else (j, q) ∷ set_perpetual i p ps
