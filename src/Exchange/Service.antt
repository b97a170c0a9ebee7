-- ===== src/Exchange/Service.antt =====
-- internal/exchange/service.go: books by symbol, prices, the latest trades. Subscribers' channels
-- and payload texts are left out; a cache that fails is the argument `cached`.
use ssh_arena.Prelude.{ℕ, String, Bool, Option, none, some, List, ◌++◌, take, if◌then◌else◌}
use ssh_arena.Prelude.Int.{ℤ}
use ssh_arena.Prelude.Text.{is_empty, assign}
use ssh_arena.Prelude.Outcome.{Outcome, ok, err}
use ssh_arena.OrderBook.Types.{Side, OrderType, OrderStatus, Order, Trade, Snapshot, BookError}
use ssh_arena.OrderBook.Place.{Book, PlacementResult, place}
use ssh_arena.OrderBook.Cancel.{cancel}
use ssh_arena.OrderBook.Snapshot.{snapshot}
use ssh_arena.Prelude.Float.{Float}
use ssh_arena.Exchange.Engine.{Ticker, PricePoint, PriceEngine}
use ssh_arena.Exchange.Engine.Moves.{apply, trigger_shock, current}
pub mod Events
pub mod Listed

pub data ExchangeError : Type 0 where
  unsupported_symbol unknown_ticker cache_failed : ExchangeError
  refused : BookError → ExchangeError

-- `tickers` are the keys of the map of tickers, in the order in which a range statement visits them.
pub record Market (F : Type 0) : Type 0 where
  pub books : String → Option Book
  pub tickers : List String
  pub engine : PriceEngine F
  pub recent_trades : String → List Trade

pub record PlaceOrderInput : Type 0 where
  pub request_id : String
  pub player_id : String
  pub player_role : String
  pub symbol : String
  pub side : Side
  pub kind : OrderType
  pub price : ℕ
  pub quantity : ℕ

-- The order that `PlaceOrder` hands to the book; `fresh` is the id that is made up if none came.
unfoldable pub to_order : String → PlaceOrderInput → Order
to_order fresh i = record {
  id = if is_empty i.request_id then fresh else i.request_id;
  request_id = i.request_id;
  player_id = i.player_id;
  player_role = i.player_role;
  symbol = i.symbol;
  side = i.side;
  kind = i.kind;
  price = i.price;
  quantity = i.quantity;
  remaining_quantity = 0;
  status = OrderStatus.unset;
  created_at = 0;
}

-- The newest five hundred trades of a symbol, newest call first.
unfoldable pub remember : List Trade → List Trade → List Trade
remember executed recent = take 500 (executed ++ recent)

module _ {F : Type 0} ⦃f : Float F⦄ where
  -- What `PlaceOrder` does with the answer of the price engine.
  unfoldable pub priced_in :
      Bool
      → String
      → Market F
      → Book
      → PlacementResult
      → Option (PriceEngine F × PricePoint)
      → Market F × Outcome ExchangeError PlacementResult
  priced_in cached symbol m b r none =
      (record m { books = assign m.books symbol (some b) }, err unknown_ticker)
  priced_in cached symbol m b r (some (e, p)) = (
    record m {
      books = assign m.books symbol (some b);
      engine = e;
      recent_trades = assign m.recent_trades symbol (remember r.trades (m.recent_trades symbol));
    },
    if cached then ok r else err cache_failed,
  )

  unfoldable pub placed_in :
      Bool
      → ℕ
      → String
      → Market F
      → Outcome BookError (Book × PlacementResult)
      → Market F × Outcome ExchangeError PlacementResult
  unfolding priced_in
  placed_in cached now symbol m (err e) = (m, err (refused e))
  placed_in cached now symbol m (ok (b, r)) =
      priced_in cached symbol m b r (apply now symbol r.trades (snapshot now 10 b) m.engine)

  unfoldable pub place_in :
      Bool
      → ℕ
      → String
      → PlaceOrderInput
      → Market F
      → Option Book
      → Market F × Outcome ExchangeError PlacementResult
  unfolding placed_in
  place_in cached now fresh i m none = (m, err unsupported_symbol)
  place_in cached now fresh i m (some book) =
      placed_in cached now i.symbol m (place now book (to_order fresh i))

  -- `PlaceOrder`. The book, the price and the trades are changed before the cache is written.
  unfoldable pub place_order :
      Bool
      → ℕ
      → String
      → PlaceOrderInput
      → Market F
      → Market F × Outcome ExchangeError PlacementResult
  unfolding place_in
  place_order cached now fresh i m = place_in cached now fresh i m (m.books i.symbol)

  -- The current price, which brings the engine up to date, or an unknown ticker.
  unfoldable pub with_current {ℓ} :
      {A : Type ℓ}
      → Market F
      → (PricePoint → A)
      → Option (PriceEngine F × PricePoint)
      → Market F × Outcome ExchangeError A
  with_current m k none = (m, err unknown_ticker)
  with_current m k (some (e, p)) = (record m { engine = e }, ok (k p))

  unfoldable pub cancelled_in :
      ℕ
      → String
      → Market F
      → Outcome BookError (Order × Book)
      → Market F × Outcome ExchangeError Order
  unfolding with_current
  cancelled_in now symbol m (err e) = (m, err (refused e))
  cancelled_in now symbol m (ok (o, b)) =
      with_current (record m { books = assign m.books symbol (some b) }) (λ p. o)
        (current now symbol m.engine)

  unfoldable pub cancel_in :
      ℕ → String → String → Market F → Option Book → Market F × Outcome ExchangeError Order
  unfolding cancelled_in
  cancel_in now symbol id m none = (m, err unsupported_symbol)
  cancel_in now symbol id m (some book) = cancelled_in now symbol m (cancel book id)

  -- `CancelOrder`; what the cache answers is ignored.
  unfoldable pub cancel_order :
      ℕ → String → String → Market F → Market F × Outcome ExchangeError Order
  unfolding cancel_in
  cancel_order now symbol id m = cancel_in now symbol id m (m.books symbol)
