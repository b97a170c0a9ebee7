-- ===== src/OrderBook/Place.antt =====
-- `Book`, `New`, `validate`, `canCross` and `Place` of internal/orderbook/orderbook.go.
-- The clock is read once a call, as the argument `now`. The matching loop runs on fuel.
pub mod Sweep
pub mod Round
pub mod Refine
pub mod Fuel
pub mod Totals
pub mod Uncrossed
pub mod Settled
pub mod Outcomes
pub mod Promises
use ssh_arena.Prelude.{
  ℕ, zero, suc, ◌+◌, ◌-◌, String, Bool, true, false, ◌&&◌, ◌||◌, not, Option, none, some, List, [],
  ◌∷◌, ◌++◌, ltb, leb, ◌==◌, if◌then◌else◌, length,
}
use ssh_arena.Prelude.Text.{is_empty}
use ssh_arena.Prelude.Outcome.{Outcome, ok, err, ◌>>=◌, ◌>>◌, fail_if}
use ssh_arena.OrderBook.Types.{
  Side, OrderType, OrderStatus, Order, Trade, BookError, symbol_required, player_id_required,
  order_id_required, quantity_not_positive, unsupported_side, unsupported_type,
  limit_price_not_positive, out_of_fuel, is_buy, is_market, is_limit,
}
use ssh_arena.OrderBook.Ladder.{
  Half, Ladder, empty_ladder, add_resting, remove_head, best_order, write_head,
}

pub record Book : Type 0 where
  pub symbol : String
  pub bids : Ladder
  pub asks : Ladder
  pub last_trade_price : ℕ
  pub sequence : ℕ

unfoldable pub new : String → ℕ → Book
new symbol last_trade_price = record {
  symbol = symbol;
  bids = empty_ladder;
  asks = empty_ladder;
  last_trade_price = last_trade_price;
  sequence = 0;
}

abbrev pub ladder : Half → Book → Ladder
ladder Half.bids b = b.bids
ladder Half.asks b = b.asks

abbrev pub set_ladder : Half → Book → Ladder → Book
set_ladder Half.bids b l = record b { bids = l }
set_ladder Half.asks b l = record b { asks = l }

abbrev pub is_supported : Side → Bool
is_supported Side.unsupported = false
is_supported _ = true

abbrev is_known : OrderType → Bool
is_known OrderType.unknown = false
is_known _ = true

unfoldable pub validate : Order → Outcome BookError (Unit {0})
validate o = do
  fail_if (is_empty o.symbol) symbol_required
  fail_if (is_empty o.player_id) player_id_required
  fail_if (is_empty o.id) order_id_required
  fail_if (o.quantity == 0) quantity_not_positive
  fail_if (not (is_supported o.side)) unsupported_side
  fail_if (not (is_known o.kind)) unsupported_type
  fail_if (is_limit o.kind && o.price == 0) limit_price_not_positive

-- Does a limit price reach the best price of the half that it meets?
abbrev pub reaches : Half → ℕ → ℕ → Bool
reaches Half.asks price best = leb best price
reaches Half.bids price best = leb price best

abbrev pub crosses : Half → Order → ℕ → Bool
crosses h o best = is_market o.kind || reaches h o.price best

abbrev crosses_best : Half → Order → List ℕ → Bool
crosses_best h o [] = false
crosses_best h o (best ∷ _) = crosses h o best

-- The half that a side trades against, and the half that it rests in.
abbrev pub opposing : Side → Option Half
opposing Side.buy = some Half.asks
opposing Side.sell = some Half.bids
opposing Side.unsupported = none

abbrev pub own_half : Side → Option Half
own_half Side.buy = some Half.bids
own_half Side.sell = some Half.asks
own_half Side.unsupported = none

unfoldable pub can_cross : Book → Order → Bool
can_cross b o = elim (opposing o.side) [
  | none ↦ false
  | some h ↦ crosses_best h o (ladder h b).prices
]

unfoldable pub best_opposing_order : Book → Side → Outcome BookError Order
best_opposing_order b s = elim (opposing s) [
  | none ↦ err unsupported_side
  | some h ↦ best_order (ladder h b)
]

unfoldable pub book_remove_head : Book → Side → ℕ → Outcome BookError Book
book_remove_head b s price = elim (own_half s) [
  | none ↦ err unsupported_side
  | some h ↦ do l ← remove_head (ladder h b) price; ok (set_ladder h b l)
]

unfoldable pub book_add_resting : Book → Order → Book
book_add_resting b o = elim (own_half o.side) [
  | none ↦ b
  | some h ↦ set_ladder h b (add_resting h (ladder h b) o)
]

-- `resting.RemainingQuantity`, `resting.Status`: the pointer is the best order of its half.
unfoldable pub book_write_head : Book → Side → Order → Book
book_write_head b s o = elim (opposing s) [
  | none ↦ b
  | some h ↦ set_ladder h b (write_head (ladder h b) o)
]

unfoldable pub min_quantity : ℕ → ℕ → ℕ
min_quantity a b = if ltb a b then a else b

unfoldable pub trade_price : ℕ → Order → Order → ℕ
trade_price last incoming resting =
    let price = if is_market resting.kind then last else resting.price in
    if price == 0 then incoming.price else price

-- The trade between an incoming order and a resting one; `count` trades came before it.
unfoldable pub make_trade : Order → Order → ℕ → ℕ → ℕ → ℕ → Trade
make_trade o r price qty count now = record {
  id = record { request_id = o.request_id; number = count + 1 };
  symbol = o.symbol;
  price = price;
  quantity = qty;
  aggressor_side = o.side;
  buy_order_id = if is_buy o.side then o.id else r.id;
  sell_order_id = if is_buy o.side then r.id else o.id;
  buyer_id = if is_buy o.side then o.player_id else r.player_id;
  seller_id = if is_buy o.side then r.player_id else o.player_id;
  buyer_role = if is_buy o.side then o.player_role else r.player_role;
  seller_role = if is_buy o.side then r.player_role else o.player_role;
  executed_at = now;
}

-- The variables of the loop of `Place`.
pub record Matching : Type 0 where
  pub book : Book
  pub order : Order
  pub trades : List Trade
  pub removed : List String

-- The resting order after a fill.
unfoldable pub after_fill : Order → ℕ → Order
after_fill r qty =
    let left = r.remaining_quantity - qty in
    record r {
      remaining_quantity = left;
      status = if left == 0 then OrderStatus.filled else OrderStatus.partial;
    }

-- The book after a trade at the best price: the head written, the trade price and the sequence.
unfoldable pub trade_on : Book → Order → Order → ℕ → ℕ → Book
trade_on b o r price qty =
    let written = book_write_head b o.side (after_fill r qty) in
    record written { last_trade_price = price; sequence = b.sequence + 1 }

-- One round of the loop of `Place`, against the best opposing order.
unfoldable pub execute : ℕ → Matching → Order → Outcome BookError Matching
execute now m r =
    let o = m.order in
    let qty = min_quantity o.remaining_quantity r.remaining_quantity in
    let price = trade_price m.book.last_trade_price o r in
    let b = trade_on m.book o r price qty in
    let next : Matching = record {
      book = b;
      order = record o { remaining_quantity = o.remaining_quantity - qty };
      trades = m.trades ++ make_trade o r price qty (length m.trades) now ∷ [];
      removed = m.removed;
    } in
    if r.remaining_quantity - qty == 0
    then (do
      b' ← book_remove_head b r.side r.price
      ok (record next { book = b'; removed = m.removed ++ r.id ∷ [] }))
    else ok next

unfoldable pub match_loop : ℕ → ℕ → Matching → Outcome BookError Matching
match_loop zero now m = err out_of_fuel
match_loop (suc fuel) now m = elim (ltb 0 m.order.remaining_quantity && can_cross m.book m.order) [
  | false ↦ ok m
  | true ↦ do
    r ← best_opposing_order m.book m.order.side
    m' ← execute now m r
    match_loop fuel now m'
]

pub record PlacementResult : Type 0 where
  pub order : Order
  pub trades : List Trade
  pub resting : Option Order
  pub removed : List String

-- The `switch` after the loop: status, and whether the rest of the order stays in the book.
unfoldable pub final_status : Order → OrderStatus
final_status o =
    if o.remaining_quantity == 0
    then OrderStatus.filled
    else if ltb o.remaining_quantity o.quantity
    then OrderStatus.partial
    else if is_market o.kind
    then OrderStatus.cancelled
    else OrderStatus.opened

abbrev pub rests : Order → Bool
rests o = not (o.remaining_quantity == 0) && not (is_market o.kind)

-- `normalizeOrder` repeats the switch.
unfoldable pub normalize_order : Order → Order
unfolding final_status
normalize_order o = record o { status = final_status o }

unfoldable pub settle : Matching → Book × PlacementResult
settle m =
    let o = normalize_order m.order in
    let b = if rests o then book_add_resting m.book o else m.book in
    (
      record b { sequence = b.sequence + 1 },
      record {
        order = normalize_order o;
        trades = m.trades;
        resting = if rests o then some o else none;
        removed = m.removed;
      },
    )

-- The defaults that `Place` fills in.
unfoldable pub prepare : ℕ → Order → Order
prepare now o = record o {
  created_at = if o.created_at == 0 then now else o.created_at;
  remaining_quantity = if o.remaining_quantity == 0 then o.quantity else o.remaining_quantity;
}

unfoldable pub place : ℕ → Book → Order → Outcome BookError (Book × PlacementResult)
place now b order = do
  validate order
  let o = prepare now order
  m ←
      match_loop (suc o.remaining_quantity) now
        (record { book = b; order = o; trades = []; removed = [] })
  ok (settle m)
