-- ===== src/OrderBook.antt =====
-- internal/orderbook/orderbook.go: the price-time priority book of one symbol.
pub mod Types
pub mod Ladder
pub mod Place
pub mod Cancel
pub mod Snapshot
mod Tests
