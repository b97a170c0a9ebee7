-- ===== src/OrderBook/Cancel.antt =====
-- `Cancel` of internal/orderbook/orderbook.go.
pub mod Removal
use ssh_arena.Prelude.{ℕ, ◌+◌, String, Option, none, some, List, [], ◌∷◌, if◌then◌else◌}
use ssh_arena.Prelude.Text.{str_eq}
use ssh_arena.Prelude.Outcome.{Outcome, ok, err}
use ssh_arena.OrderBook.Types.{Order, OrderStatus, BookError, order_not_found}
use ssh_arena.OrderBook.Ladder.{Ladder, level, set_level}
use ssh_arena.OrderBook.Place.{Book}

-- The first order with an id, and the orders without it.
unfoldable pub take_out : String → List Order → Option (Order × List Order)
take_out id [] = none
take_out id (o ∷ os) =
    let rest = take_out id os in
    if str_eq o.id id
    then some (o, os)
    else elim rest [ none ↦ none | some (x, ys) ↦ some (x, o ∷ ys) ]

-- One of the two scans of `Cancel`, over a copy of the prices.
unfoldable pub cancel_scan : String → Ladder → List ℕ → Option (Order × Ladder)
cancel_scan id l [] = none
cancel_scan id l (p ∷ ps) =
    let later = cancel_scan id l ps in
    elim (take_out id (level l.levels p)) [
      | none ↦ later
      | some (o, os) ↦ some (o, set_level l p os)
    ]

abbrev pub as_cancelled : Order → Order
as_cancelled o = record o { status = OrderStatus.cancelled }

unfoldable pub cancel : Book → String → Outcome BookError (Order × Book)
cancel b id = elim (cancel_scan id b.bids b.bids.prices) [
  | some (o, l) ↦ ok (as_cancelled o, record b { bids = l; sequence = b.sequence + 1 })
  | none ↦ elim (cancel_scan id b.asks b.asks.prices) [
    | some (o, l) ↦ ok (as_cancelled o, record b { asks = l; sequence = b.sequence + 1 })
    | none ↦ err order_not_found
  ]
]
