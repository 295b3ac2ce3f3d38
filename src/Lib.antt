-- ===== src/Lib.antt =====
-- The broker of the MCDEX perpetual contracts, version 3: it keeps limit orders of traders,
-- matches them against the market maker of a liquidity pool, sends the matches to the chain, and
-- follows what becomes of them there.
--
-- Parts and where they are modelled:
-- - Amount: common/mai3/utils/number.go. HasTheSameSign and SplitAmount.
-- - Order: common/model/order.go, common/model/change_order.go and setStatusByAmounts of
--   dao/order.go. The four amounts of an order (available, pending, confirmed, canceled).
-- - Orderbook: common/orderbook/orderbook.go. Level is priceLevel, Book is Orderbook, Prices are
--   the sorted prices that the matcher walks. The book's lock makes each method one step.
-- - Mai3: common/mai3. Storage has the records of common/model/mai3.go; Account and Trade are the
--   first and the middle part of computation.go, Pool is ComputeAMMTrade and the search for the
--   greatest safe amount, Math is math.go, Amm is amm.go (Context, Internal, Quote).
-- - Match: the engine of one perpetual, over the state of World: database, book, timers,
--   websocket channel. Memory, Settle and Rollback are match/match_result.go; Cancel is
--   match/cancel_order.go; CloseOnly, Available, Item and Side are match/order.go
--   (CheckCloseOnly, ComputeOrderAvailable, getMatchItem, matchOneSide and MatchOrderSideBySide);
--   Execute and Round are match/match.go (matchOrders, reloadActiveOrders) and match/timer.go;
--   PoolSyncer is match/pool_syncer.go; OrderChecks and NewOrder are match/new_order.go;
--   Monitor is the checks of match/monitor.go; Server is match/server.go (the map of the
--   engines and the calls that are passed on to them); Invariant has the handlers as the steps of an
--   engine. Each handler holds the mutex of its engine and is one step. A database transaction
--   restores the database alone on an error.
-- - Tests: lists that meet the laws of the parameters, and runs of the code on them.
-- The book and the database hold the same orders twice; the handlers write to both, and
-- IsSynced of Match/Memory/Sync.antt says what that means for one order.
--
-- Parameters: the decimal package (Decimal; exact sums, differences, comparisons, and products,
-- nothing assumed of division and rounding), the ordered map and the search tree of the book
-- (Orderbook/Containers.antt), the database behind package dao (Database of Match/World.antt),
-- the chain client (Chain of Match/Chain.antt), the numbers of type float64 (Floats of
-- Mai3/Math.antt) and RoundBank of the decimal package.
--
-- Bounds: the loops of Sqrt run on fuel, an argument of every function that takes a root; the
-- golden section search has the source's 15 steps; the walk over the prices of both sides has one
-- round more than the longer side has prices, which is enough (Match/Side/Loop.antt). Where the
-- source panics (a division by zero, the root of a negative number, a nil context) the model has
-- a value that nothing is said about. Clocks are arguments. Log lines, contexts and metrics are
-- left out.
--
-- Not modelled: NewOrder, ClosePerpetual and the start of match/server.go, the walk of the pool
-- syncer over all pools (it reads the map without the lock of the other operations), the
-- launcher, the encoding and signing of orders, and all network and process code (api, websocket,
-- common/chain, l2, cli, conf, perpetualsyncer, gasmonitor).
pub mod Base
pub mod Decimal
pub mod Amount
pub mod Order
pub mod Orderbook
pub mod Mai3
pub mod Match
pub mod Tests
