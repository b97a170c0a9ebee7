-- ===== src/Exchange/Service/Events.antt =====
-- Market events, chart snapshots and price lists of internal/exchange/service.go, and its constructor.
use ssh_arena.Prelude.{
  ℕ, String, Bool, true, false, Option, none, some, List, [], ◌∷◌, ◌==◌, if◌then◌else◌, map,
}
use ssh_arena.Prelude.Int.{ℤ, pos_part}
use ssh_arena.Prelude.Text.{str_eq}
use ssh_arena.Prelude.Outcome.{Outcome, ok, err}
use ssh_arena.Prelude.Float.{Float}
use ssh_arena.OrderBook.Types.{Trade, Snapshot}
use ssh_arena.OrderBook.Place.{Book, new as new_book}
use ssh_arena.OrderBook.Snapshot.{snapshot}
use ssh_arena.Exchange.Engine.{Ticker, PricePoint, PriceEngine, or_else, new}
use ssh_arena.Exchange.Engine.Moves.{trigger_shock, current}
use ssh_arena.Exchange.Service.{
  Market, ExchangeError, unsupported_symbol, unknown_ticker, with_current,
}

-- The parts of an `EventShockInput` that the market acts on. A zero time stands for now.
pub record EventShockInput : Type 0 where
  pub global : Bool
  pub symbol : String
  pub multiplier_pct : ℤ
  pub duration : ℕ
  pub occurred_at : ℕ

pub record ChartSnapshot : Type 0 where
  pub symbol : String
  pub price : PricePoint
  pub order_book : Snapshot
  pub recent_trades : List Trade
  pub captured_at : ℕ

-- Whether the map of tickers has a symbol.
unfoldable pub is_listed : String → List String → Bool
is_listed symbol [] = false
is_listed symbol (s ∷ ss) = if str_eq s symbol then true else is_listed symbol ss

-- The books of `NewService`.
unfoldable pub open_books : List Ticker → String → Option Book
unfolding or_else
open_books [] = λ s. none
open_books (t ∷ ts) = λ s.
    or_else (open_books ts s)
      (if str_eq s t.symbol then some (new_book t.symbol (pos_part t.initial_price)) else none)

unfoldable pub choose_symbols :
    Bool → Bool → String → List String → Outcome ExchangeError (List String)
choose_symbols true listed symbol tickers = ok tickers
choose_symbols false true symbol tickers = ok (symbol ∷ [])
choose_symbols false false symbol tickers = err unsupported_symbol

unfoldable pub add_price :
    PricePoint → Outcome ExchangeError (List PricePoint) → Outcome ExchangeError (List PricePoint)
add_price p (err x) = err x
add_price p (ok ps) = ok (p ∷ ps)

-- The symbols that an event is about.
unfoldable pub affected_symbols :
    EventShockInput → List String → Outcome ExchangeError (List String)
unfolding is_listed choose_symbols
affected_symbols i tickers = choose_symbols i.global (is_listed i.symbol tickers) i.symbol tickers

module _ {F : Type 0} ⦃f : Float F⦄ where
  -- `NewService`; the keys of the map of tickers are listed in the order of the catalogue.
  unfoldable pub open_market : ℕ → List Ticker → Market F
  unfolding open_books
  open_market now tickers = record {
    books = open_books tickers;
    tickers = map (λ t. t.symbol) tickers;
    engine = new now tickers;
    recent_trades = λ s. [];
  }

  unfoldable pub ask_next :
      PriceEngine F
      → (PriceEngine F → PriceEngine F × Outcome ExchangeError (List PricePoint))
      → Option (PriceEngine F × PricePoint)
      → PriceEngine F × Outcome ExchangeError (List PricePoint)
  unfolding add_price
  ask_next e next none = (e, err unknown_ticker)
  ask_next e next (some (d, p)) = ((next d).0, add_price p (next d).1)

  -- A loop over symbols that asks the engine about each, up to the first that it refuses.
  unfoldable pub ask_each :
      (String → PriceEngine F → Option (PriceEngine F × PricePoint))
      → List String
      → PriceEngine F
      → PriceEngine F × Outcome ExchangeError (List PricePoint)
  unfolding ask_next
  ask_each ask [] e = (e, ok [])
  ask_each ask (s ∷ ss) e = ask_next e (λ d. ask_each ask ss d) (ask s e)

  abbrev pub asked :
      Market F
      → PriceEngine F × Outcome ExchangeError (List PricePoint)
      → Market F × Outcome ExchangeError (List PricePoint)
  asked m r = (record m { engine = r.0 }, r.1)

  abbrev pub event_shock :
      ℕ → EventShockInput → String → PriceEngine F → Option (PriceEngine F × PricePoint)
  event_shock now i s e =
      trigger_shock (if i.occurred_at == 0 then now else i.occurred_at) s i.multiplier_pct
        i.duration e

  unfoldable pub trigger_on :
      ℕ
      → EventShockInput
      → Market F
      → Outcome ExchangeError (List String)
      → Market F × Outcome ExchangeError (List PricePoint)
  unfolding ask_each
  trigger_on now i m (err x) = (m, err x)
  trigger_on now i m (ok symbols) = asked m (ask_each (event_shock now i) symbols m.engine)

  -- `TriggerMarketEvent`; what the cache answers is ignored.
  unfoldable pub trigger_market_event :
      ℕ → EventShockInput → Market F → Market F × Outcome ExchangeError (List PricePoint)
  unfolding affected_symbols trigger_on
  trigger_market_event now i m = trigger_on now i m (affected_symbols i m.tickers)

  unfoldable pub chart_of :
      ℕ → String → ℕ → Market F → Option Book → Market F × Outcome ExchangeError ChartSnapshot
  unfolding with_current
  chart_of now symbol depth m none = (m, err unsupported_symbol)
  chart_of now symbol depth m (some book) =
      with_current m
        (λ p. record {
          symbol = symbol;
          price = p;
          order_book = snapshot now depth book;
          recent_trades = m.recent_trades symbol;
          captured_at = now;
        })
        (current now symbol m.engine)

  -- `ChartSnapshot`.
  unfoldable pub chart_snapshot :
      ℕ → String → ℕ → Market F → Market F × Outcome ExchangeError ChartSnapshot
  unfolding chart_of
  chart_snapshot now symbol depth m = chart_of now symbol depth m (m.books symbol)

  -- `PriceMap`: the prices in the order of the tickers.
  unfoldable pub price_map : ℕ → Market F → Market F × Outcome ExchangeError (List PricePoint)
  unfolding ask_each
  price_map now m = asked m (ask_each (current now) m.tickers m.engine)
