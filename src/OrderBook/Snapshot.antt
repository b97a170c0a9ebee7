-- ===== src/OrderBook/Snapshot.antt =====
-- `Snapshot` and `levelFromOrders` of internal/orderbook/orderbook.go.
pub mod Exact
use ssh_arena.Prelude.{ℕ, List, [], ◌∷◌, map, ◌==◌, if◌then◌else◌, length, take}
use ssh_arena.Prelude.Int.{ℤ, pos, ◌+ℤ◌, wrap64}
use ssh_arena.OrderBook.Types.{Order, Level, Snapshot}
use ssh_arena.OrderBook.Ladder.{Ladder, level}
use ssh_arena.OrderBook.Place.{Book}

-- The loop of `levelFromOrders`, which adds in int64.
unfoldable pub add_quantities : ℤ → List Order → ℤ
add_quantities acc [] = acc
add_quantities acc (o ∷ os) = add_quantities (wrap64 (acc +ℤ pos o.remaining_quantity)) os

unfoldable pub level_from_orders : ℕ → List Order → Level
unfolding add_quantities
level_from_orders price os = record {
  price = price;
  quantity = add_quantities (pos 0) os;
  order_count = length os;
}

unfoldable pub side_levels : ℕ → Ladder → List Level
unfolding level_from_orders
side_levels depth l = map (λ p. level_from_orders p (level l.levels p)) (take depth l.prices)

-- A depth of zero or less stands for ten.
unfoldable pub snapshot : ℕ → ℕ → Book → Snapshot
unfolding side_levels
snapshot now depth b =
    let d = if depth == 0 then 10 else depth in
    record {
      symbol = b.symbol;
      last_trade_price = b.last_trade_price;
      sequence = b.sequence;
      bids = side_levels d b.bids;
      asks = side_levels d b.asks;
      generated_at = now;
    }
