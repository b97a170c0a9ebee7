-- ===== src/OrderBook/Tests.antt =====
-- Runs of the book, and instances of its theorems.
use ssh_arena.Prelude.{ℕ, ◌+◌, ◌≡◌, refl, none, some, [], ◌∷◌, arith, All, map, ◌⊎◌}
use ssh_arena.Prelude.Outcome.{Outcome, ok, err}
use ssh_arena.OrderBook.Types.{Side, OrderType, OrderStatus, Order, BookError, order_not_found}
use ssh_arena.OrderBook.Ladder.{Half, put, best_order, write_head, remove_head, add_resting}
use ssh_arena.OrderBook.Ladder.Contents.{empty_ladder-IsValid, orders}
use ssh_arena.OrderBook.Ladder.Contents as Contents
use ssh_arena.OrderBook.Ladder.Resting.{orders-add_resting}
use ssh_arena.OrderBook.Place.{
  Matching, Book, PlacementResult, place, validate, prepare, match_loop, can_cross,
  best_opposing_order, execute, min_quantity, trade_price, make_trade, after_fill, trade_on,
  book_write_head, book_remove_head, settle, normalize_order, final_status, book_add_resting,
  opposing, ladder,
}
use ssh_arena.OrderBook.Place.Totals.{volume, open_quantity, Accepts, Stopped}
use ssh_arena.OrderBook.Place.Fuel.{match_loop_terminates}
use ssh_arena.OrderBook.Place.Outcomes.{IsValid, Placed, place-Placed}
use ssh_arena.OrderBook.Place.Promises.{
  IsSound, place-IsSound, place_conserves, place-Accepts, place-Stopped,
}
use ssh_arena.OrderBook.Cancel.{cancel, take_out}
use ssh_arena.OrderBook.Cancel.Removal.{Cancelled, cancel-Cancelled}

abbrev limit_order : Side → ℕ → ℕ → Order
limit_order side price quantity = record {
  id = "o1";
  request_id = "r1";
  player_id = "p1";
  player_role = "Buyer";
  symbol = "TECH";
  side = side;
  kind = OrderType.limit;
  price = price;
  quantity = quantity;
  remaining_quantity = quantity;
  status = OrderStatus.opened;
  created_at = 1;
}

abbrev resting_ask : Order
resting_ask = record (limit_order Side.sell 100 5) { id = "a1"; player_id = "p2" }

abbrev book : Book
book = record {
  symbol = "TECH";
  bids = record { levels = λ _. none; prices = [] };
  asks = record { levels = put (λ _. none) 100 (resting_ask ∷ []); prices = 100 ∷ [] };
  last_trade_price = 90;
  sequence = 3;
}

resting_ask-Rests : Contents.Rests Half.asks 100 resting_ask
resting_ask-Rests = record {
  priced = refl;
  positive = omega arith;
  remains = omega arith;
  sided = refl;
  limited = refl;
}

asks-IsValid : Contents.IsValid Half.asks book.asks
asks-IsValid = record {
  sorted = (tt, tt);
  filled = ((resting_ask-Rests, tt), tt);
  closed = λ p e. ground arith;
}

book-IsValid : IsValid book
book-IsValid = record { bids_valid = empty_ladder-IsValid Half.bids; asks_valid = asks-IsValid }

book-IsSound : IsSound book
book-IsSound = record { valid = book-IsValid; uncrossed = tt }

-- A bid for more than the book offers.
abbrev incoming : Order
incoming = limit_order Side.buy 101 8

abbrev or_start : Outcome BookError (Book × PlacementResult) → Book × PlacementResult
or_start (ok r) = r
or_start (err e) = (book, record { order = incoming; trades = []; resting = none; removed = [] })

run : Book × PlacementResult
run = or_start (place 7 book incoming)

run_ok : place 7 book incoming ≡ ok (run.0, run.1)
unfolding run place validate prepare match_loop can_cross best_opposing_order best_order execute
    min_quantity trade_price make_trade after_fill trade_on book_write_head write_head
    book_remove_head remove_head settle normalize_order final_status book_add_resting add_resting
run_ok = refl

run-summary :
    (run.1.order.remaining_quantity ≡ 3)
    × (run.1.removed ≡ "a1" ∷ [])
    × (map (λ t. t.price) run.1.trades ≡ 100 ∷ [])
    × (run.0.bids.prices ≡ 101 ∷ [])
    × (run.0.asks.prices ≡ [])
    × (run.0.sequence ≡ 5)
unfolding run place validate prepare match_loop can_cross best_opposing_order best_order execute
    min_quantity trade_price make_trade after_fill trade_on book_write_head write_head
    book_remove_head remove_head settle normalize_order final_status book_add_resting add_resting
run-summary = (refl, refl, refl, refl, refl, refl)

place-Placed_example :
    (b' : Book) × (r : PlacementResult) × (place 7 book incoming ≡ ok (b', r))
    × Placed Half.asks 7 book incoming b' r
unfolding validate
place-Placed_example = place-Placed Half.asks 7 book incoming book-IsValid refl refl

place-IsSound_example : IsSound run.0
place-IsSound_example = place-IsSound 7 book incoming run.0 run.1 book-IsSound run_ok

place_conserves_example :
    (h : Half) × (opposing Side.buy ≡ some h)
    × (volume run.1.trades + run.1.order.remaining_quantity
        ≡ (prepare 7 incoming).remaining_quantity)
    × (volume run.1.trades + open_quantity (orders (ladder h run.0))
        ≡ open_quantity (orders (ladder h book)))
place_conserves_example = place_conserves 7 book incoming run.0 run.1 book-IsValid run_ok

place-Accepts_example :
    (h : Half) × (opposing Side.buy ≡ some h) × All (Accepts h incoming) run.1.trades
place-Accepts_example = place-Accepts 7 book incoming run.0 run.1 book-IsValid run_ok

place-Stopped_example :
    (h : Half) × (opposing Side.buy ≡ some h) × Stopped h run.1.order (orders (ladder h run.0))
place-Stopped_example = place-Stopped 7 book incoming run.0 run.1 book-IsValid run_ok

orders-add_resting_example :
    orders (add_resting Half.asks book.asks resting_ask) ≡ resting_ask ∷ resting_ask ∷ []
orders-add_resting_example =
    orders-add_resting Half.asks book.asks resting_ask asks-IsValid resting_ask-Rests

cancel-Cancelled_example :
    ((cancel book "a1" ≡ err order_not_found)
      × (take_out "a1" (orders book.bids) ≡ none)
      × (take_out "a1" (orders book.asks) ≡ none))
    ⊎ ((h : Half) × (x : Order) × (b' : Book) × (cancel book "a1" ≡ ok (x, b'))
        × Cancelled h "a1" book x b')
cancel-Cancelled_example = cancel-Cancelled book "a1" book-IsValid

abbrev matching : Matching
matching = record { book = book; order = prepare 7 incoming; trades = []; removed = [] }

match_loop_terminates_example :
    (m' : Matching) × (match_loop 50 7 matching ≡ ok m') × (match_loop 90 7 matching ≡ ok m')
unfolding prepare
match_loop_terminates_example =
    match_loop_terminates Half.asks 7 50 90 matching refl asks-IsValid (omega arith) (omega arith)
