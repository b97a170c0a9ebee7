-- ===== src/State.antt =====
-- internal/state: the stores of players, trades, performance snapshots and chat messages.
-- A write of a store's file succeeds or fails by an argument of the call.
pub mod Player
pub mod TradeStore
pub mod ChatStore
pub mod Performance
mod Tests
