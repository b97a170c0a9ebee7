-- ===== src/OrderBook/Place/Sweep.antt =====
-- What matching is meant to do: an incoming order meets the opposing queue, front to back.
use ssh_arena.Prelude.{
  ℕ, ◌+◌, ◌-◌, String, Bool, ◌&&◌, List, [], ◌∷◌, ◌++◌, ltb, leb, if◌then◌else◌, length, min,
}
use ssh_arena.OrderBook.Types.{Order, Trade, OrderStatus}
use ssh_arena.OrderBook.Ladder.{Half}
use ssh_arena.OrderBook.Place.{crosses, make_trade}

-- The incoming order, what it has brought about so far, and the book's counters.
pub record Progress : Type 0 where
  pub order : Order
  pub trades : List Trade
  pub removed : List String
  pub last_trade_price : ℕ
  pub sequence : ℕ

-- One trade, at the resting order's price, of as much as both sides have.
unfoldable pub fill : ℕ → Progress → Order → Progress
fill now p r =
    let o = p.order in
    let qty = min o.remaining_quantity r.remaining_quantity in
    record {
      order = record o { remaining_quantity = o.remaining_quantity - qty };
      trades = p.trades ++ make_trade o r r.price qty (length p.trades) now ∷ [];
      removed =
          if leb r.remaining_quantity o.remaining_quantity
          then p.removed ++ r.id ∷ []
          else p.removed;
      last_trade_price = r.price;
      sequence = p.sequence + 1;
    }

-- What is left of a resting order that was larger than the incoming one.
unfoldable pub reduce : ℕ → Order → Order
reduce qty r = record r {
  remaining_quantity = r.remaining_quantity - qty;
  status = OrderStatus.partial;
}

abbrev pub meets : Half → Order → Order → Bool
meets h o r = ltb 0 o.remaining_quantity && crosses h o r.price

-- The queue after the incoming order has passed.
unfoldable pub sweep : Half → ℕ → Progress → List Order → Progress × List Order
unfolding fill reduce
sweep h now p [] = (p, [])
sweep h now p (r ∷ rs) =
    let onward = sweep h now (fill now p r) rs in
    if meets h p.order r
    then (if leb r.remaining_quantity p.order.remaining_quantity
        then onward
        else (fill now p r, reduce p.order.remaining_quantity r ∷ rs))
    else (p, r ∷ rs)
