-- ===== src/Match/Chain.antt =====
-- What the engine asks the chain for: a parameter, over a state `C` of the chain, since it moves on
-- between two calls. An account that is not there is an error too.
use mai3_broker.Base.{ℕ, String, Bool}
use mai3_broker.Base.Actions.{Action, pure, ◌>>=◌}
use mai3_broker.Decimal.{Decimal, min_dec}
use mai3_broker.Mai3.Storage.{LiquidityPoolStorage, AccountStorage}

pub data ChainError : Type 0 where
  no_answer : ChainError

-- common/model/perpetual.go
pub record Perpetual : Type 0 where
  pub liquidity_pool_address : String
  pub perpetual_index : ℕ
  pub symbol : String
  pub operator_address : String
  pub collateral_symbol : String
  pub collateral_address : String
  pub collateral_decimals : ℕ
  pub is_published : Bool
  pub block_number : ℕ

pub record Chain (C D : Type 0) : Type 0 where
  pub get_account_storage : ℕ → String → String → Action ChainError C (AccountStorage D)
  pub balance_of : String → String → ℕ → Action ChainError C D
  pub allowance : String → String → String → ℕ → Action ChainError C D
  pub get_gas_balance : String → String → Action ChainError C D
  pub get_liquidity_pool_storage : String → Action ChainError C (LiquidityPoolStorage D)

module _ {C D : Type 0} ⦃dec : Decimal D⦄ ⦃ch : Chain C D⦄ where
  -- What a trader can pay with: the collateral that the pool may take from the wallet.
  unfoldable pub wallet_balance : Perpetual → String → Action ChainError C D
  wallet_balance p trader = do
    balance ← ch.balance_of p.collateral_address trader p.collateral_decimals
    allowance ←
        ch.allowance p.collateral_address trader p.liquidity_pool_address p.collateral_decimals
    pure (min_dec balance allowance)

  -- The account of a trader, with the balance of the wallet.
  unfoldable pub funded_account : Perpetual → String → Action ChainError C (AccountStorage D)
  unfolding wallet_balance
  funded_account p trader = do
    account ← ch.get_account_storage p.perpetual_index p.liquidity_pool_address trader
    balance ← wallet_balance p trader
    pure (record account { wallet_balance = balance })
