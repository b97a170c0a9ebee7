-- ===== src/Exchange/Service/Listed.antt =====
-- A market lists the same symbols in its books, its tickers and its prices, and keeps doing so.
use ssh_arena.Prelude.{
  ℕ, ◌≡◌, refl, sym, ap, ◌∙◌, subst, String, Bool, true, false, Option, none, some, List, [], ◌∷◌,
  ◌⊎◌, inl, inr, if◌then◌else◌, if_true, if_false, if_either, Bool-cases, ◌==◌, All, arith,
}
use ssh_arena.Prelude.Int.{ℤ}
use ssh_arena.Prelude.Text.{str_eq, eq_iff, assign}
use ssh_arena.Prelude.Outcome.{Outcome, ok, err}
use ssh_arena.Prelude.Float.{Float, IsFloat}
use ssh_arena.OrderBook.Types.{Order, Trade, Snapshot, BookError}
use ssh_arena.OrderBook.Place.{Book, PlacementResult, place}
use ssh_arena.OrderBook.Cancel.{cancel}
use ssh_arena.OrderBook.Snapshot.{snapshot}
use ssh_arena.Exchange.Flows.Ticks.{OnTick}
use ssh_arena.Exchange.Engine.{Ticker, PricePoint, PriceEngine}
use ssh_arena.Exchange.Engine.Moves.{apply, trigger_shock, current}
use ssh_arena.Exchange.Engine.Prices.{
  IsPriced, IsAnswer, apply-IsAnswer, trigger_shock-IsAnswer, current-IsAnswer,
}
use ssh_arena.Exchange.Service.{
  Market, ExchangeError, unsupported_symbol, unknown_ticker, cache_failed, refused, PlaceOrderInput,
  with_current, priced_in, placed_in, place_in, place_order, cancelled_in, cancel_in, cancel_order,
}
use ssh_arena.Exchange.Service.Events.{
  EventShockInput, ask_each, ask_next, add_price, asked, chart_of, chart_snapshot, trigger_on,
  affected_symbols, is_listed, trigger_market_event, price_map,
}
pub mod Asking
pub mod Opening

-- A symbol has a book and a ticker, or neither.
abbrev pub Paired : Option Book → Option Ticker → Type 0
Paired none none = Unit
Paired none (some c) = ⊥
Paired (some b) none = ⊥
Paired (some b) (some c) = Unit

abbrev pub IsKnown : Option Ticker → Type 0
IsKnown none = ⊥
IsKnown (some c) = Unit

-- An answer that is no complaint about a ticker.
abbrev pub IsRecognised {ℓ} : {A : Type ℓ} → Outcome ExchangeError A → Type 0
IsRecognised (err unknown_ticker) = ⊥
IsRecognised (err unsupported_symbol) = Unit
IsRecognised (err cache_failed) = Unit
IsRecognised (err (refused x)) = Unit
IsRecognised (ok a) = Unit

-- One price for each symbol, on its grid.
abbrev pub AreOnTick : (String → ℕ) → List String → List PricePoint → Type 0
AreOnTick ticks [] [] = Unit
AreOnTick ticks [] (p ∷ ps) = ⊥
AreOnTick ticks (s ∷ ss) [] = ⊥
AreOnTick ticks (s ∷ ss) (p ∷ ps) = OnTick (ticks s) p.current_price × AreOnTick ticks ss ps

-- An answer for every symbol.
abbrev pub AnswersEach :
    (String → ℕ) → List String → Outcome ExchangeError (List PricePoint) → Type 0
AnswersEach ticks ss (err x) = ⊥
AnswersEach ticks ss (ok ps) = AreOnTick ticks ss ps

pub record IsListing {F : Type 0} (ticks : String → ℕ) (m : Market F) : Type 0 where
  pub prices : IsPriced ticks m.engine
  pub books : (s : String) → Paired (m.books s) (m.engine.configs s)
  pub tickers : All (λ s. IsKnown (m.engine.configs s)) m.tickers

Paired-known :
    (o : Option Book) (c : Option Ticker) (b : Book) → o ≡ some b → Paired o c → IsKnown c
Paired-known none none b e p = cc
Paired-known none (some c) b e p = absurd p
Paired-known (some x) none b e p = absurd p
Paired-known (some x) (some c) b e p = tt

paired : (b : Book) (c : Option Ticker) → IsKnown c → Paired (some b) c
paired b none k = absurd k
paired b (some c) k = tt

unknown : (c : Option Ticker) → c ≡ none → IsKnown c → ⊥
unknown none e k = k
unknown (some c) e k = cc

module _ {F : Type 0} (ticks : String → ℕ) where
  engine-IsListing :
      (m : Market F) (d : PriceEngine F)
      → IsListing ticks m
      → IsPriced ticks d
      → d.configs ≡ m.engine.configs
      → IsListing ticks (record m { engine = d })
  engine-IsListing m d h p same = record {
    prices = p;
    books = λ s. subst (λ c. Paired (m.books s) (c s)) (sym same) (h.books s);
    tickers = subst (λ c. All (λ s. IsKnown (c s)) m.tickers) (sym same) h.tickers;
  }

  book-IsListing :
      (m : Market F) (symbol : String) (b : Book)
      → IsListing ticks m
      → IsKnown (m.engine.configs symbol)
      → IsListing ticks (record m { books = assign m.books symbol (some b) })
  book-IsListing m symbol b h known = record {
    prices = h.prices;
    books = λ s. elim (Bool-cases (str_eq s symbol)) [
      | inl same ↦
          subst (λ o. Paired o (m.engine.configs s)) (sym (if_true (some b) (m.books s) same))
            (paired b _
              (subst (λ k. IsKnown (m.engine.configs k)) (sym ((eq_iff s symbol).0 same)) known))
      | inr other ↦
          subst (λ o. Paired o (m.engine.configs s)) (sym (if_false (some b) (m.books s) other))
            (h.books s)
    ];
    tickers = h.tickers;
  }

  trades-IsListing :
      (m : Market F) (recent : String → List Trade)
      → IsListing ticks m
      → IsListing ticks (record m { recent_trades = recent })
  trades-IsListing m recent h = record { prices = h.prices; books = h.books; tickers = h.tickers }

  -- The market and the answer of an operation.
  abbrev pub Kept {ℓ} : {A : Type ℓ} → Market F × Outcome ExchangeError A → Type 0
  Kept r = IsListing ticks r.0 × IsRecognised r.1

module _ {F : Type 0} ⦃f : Float F⦄ (ticks : String → ℕ) where
  priced_in-Kept :
      (cached : Bool) (symbol : String) (m : Market F) (b : Book) (r : PlacementResult)
      (o : Option (PriceEngine F × PricePoint))
      → IsListing ticks m
      → IsKnown (m.engine.configs symbol)
      → IsAnswer ticks symbol m.engine o
      → Kept ticks (priced_in cached symbol m b r o)
  unfolding priced_in IsAnswer
  priced_in-Kept cached symbol m b r none h known a = absurd (unknown _ a known)
  priced_in-Kept true symbol m b r (some (e, p)) h known a = (
    trades-IsListing ticks _ _
        (engine-IsListing ticks _ e (book-IsListing ticks m symbol b h known) a.0 a.1),
    tt,
  )
  priced_in-Kept false symbol m b r (some (e, p)) h known a = (
    trades-IsListing ticks _ _
        (engine-IsListing ticks _ e (book-IsListing ticks m symbol b h known) a.0 a.1),
    tt,
  )

  with_current-Kept {ℓ} :
      {A : Type ℓ} (symbol : String) (m : Market F) (k : PricePoint → A)
      (o : Option (PriceEngine F × PricePoint))
      → IsListing ticks m
      → IsKnown (m.engine.configs symbol)
      → IsAnswer ticks symbol m.engine o
      → Kept ticks (with_current m k o)
  unfolding with_current IsAnswer
  with_current-Kept symbol m k none h known a = absurd (unknown _ a known)
  with_current-Kept symbol m k (some (e, p)) h known a = (engine-IsListing ticks m e h a.0 a.1, tt)

  module _ (law : IsFloat F) where
    placed_in-Kept :
        (cached : Bool) (now : ℕ) (symbol : String) (m : Market F)
        (o : Outcome BookError (Book × PlacementResult))
        → IsListing ticks m
        → IsKnown (m.engine.configs symbol)
        → Kept ticks (placed_in cached now symbol m o)
    unfolding placed_in
    placed_in-Kept cached now symbol m (err x) h known = (h, tt)
    placed_in-Kept cached now symbol m (ok (b, r)) h known =
        priced_in-Kept cached symbol m b r _ h known
          (apply-IsAnswer law ticks now symbol m.engine r.trades (snapshot now 10 b) h.prices)

    place_in-Kept :
        (cached : Bool) (now : ℕ) (fresh : String) (i : PlaceOrderInput) (m : Market F)
        (o : Option Book)
        → IsListing ticks m
        → Paired o (m.engine.configs i.symbol)
        → Kept ticks (place_in cached now fresh i m o)
    unfolding place_in
    place_in-Kept cached now fresh i m none h p = (h, tt)
    place_in-Kept cached now fresh i m (some b) h p =
        placed_in-Kept cached now i.symbol m _ h (Paired-known (some b) _ b refl p)

    -- `PlaceOrder` keeps a market that lists the same symbols in its books, tickers and prices such
    -- a market with every price on its grid, on every path, and the engine never refuses a symbol
    -- after the book has changed; every conversion gives an int64.
    pub place_order-Kept :
        (cached : Bool) (now : ℕ) (fresh : String) (i : PlaceOrderInput) (m : Market F)
        → IsListing ticks m
        → Kept ticks (place_order cached now fresh i m)
    unfolding place_order
    place_order-Kept cached now fresh i m h =
        place_in-Kept cached now fresh i m _ h (h.books i.symbol)

    cancelled_in-Kept :
        (now : ℕ) (symbol : String) (m : Market F) (o : Outcome BookError (Order × Book))
        → IsListing ticks m
        → IsKnown (m.engine.configs symbol)
        → Kept ticks (cancelled_in now symbol m o)
    unfolding cancelled_in
    cancelled_in-Kept now symbol m (err x) h known = (h, tt)
    cancelled_in-Kept now symbol m (ok (o, b)) h known =
        with_current-Kept symbol _ (λ p. o) _ (book-IsListing ticks m symbol b h known) known
          (current-IsAnswer law ticks now symbol m.engine h.prices)

    cancel_in-Kept :
        (now : ℕ) (symbol id : String) (m : Market F) (o : Option Book)
        → IsListing ticks m
        → Paired o (m.engine.configs symbol)
        → Kept ticks (cancel_in now symbol id m o)
    unfolding cancel_in
    cancel_in-Kept now symbol id m none h p = (h, tt)
    cancel_in-Kept now symbol id m (some b) h p =
        cancelled_in-Kept now symbol m _ h (Paired-known (some b) _ b refl p)

    -- `CancelOrder` keeps such a market such a market, and the engine never refuses a symbol after
    -- the book has changed.
    pub cancel_order-Kept :
        (now : ℕ) (symbol id : String) (m : Market F)
        → IsListing ticks m
        → Kept ticks (cancel_order now symbol id m)
    unfolding cancel_order
    cancel_order-Kept now symbol id m h = cancel_in-Kept now symbol id m _ h (h.books symbol)

    chart_of-Kept :
        (now : ℕ) (symbol : String) (depth : ℕ) (m : Market F) (o : Option Book)
        → IsListing ticks m
        → Paired o (m.engine.configs symbol)
        → Kept ticks (chart_of now symbol depth m o)
    unfolding chart_of
    chart_of-Kept now symbol depth m none h p = (h, tt)
    chart_of-Kept now symbol depth m (some b) h p =
        with_current-Kept symbol m _ _ h (Paired-known (some b) _ b refl p)
          (current-IsAnswer law ticks now symbol m.engine h.prices)

    -- `ChartSnapshot`, which brings the price up to date, keeps such a market such a market and
    -- refuses at most a symbol without a book.
    pub chart_snapshot-Kept :
        (now : ℕ) (symbol : String) (depth : ℕ) (m : Market F)
        → IsListing ticks m
        → Kept ticks (chart_snapshot now symbol depth m)
    unfolding chart_snapshot
    chart_snapshot-Kept now symbol depth m h = chart_of-Kept now symbol depth m _ h (h.books symbol)
