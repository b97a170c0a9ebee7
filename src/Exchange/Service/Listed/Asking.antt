-- ===== src/Exchange/Service/Listed/Asking.antt =====
-- Events and price lists: an answer for every symbol.
use ssh_arena.Prelude.{
  ℕ, ◌≡◌, refl, sym, ◌∙◌, subst, String, Bool, true, false, Option, none, some, List, [], ◌∷◌, inl,
  inr, if_false, Bool-cases, All,
}
use ssh_arena.Prelude.Text.{str_eq, eq_iff}
use ssh_arena.Prelude.Outcome.{Outcome, ok, err}
use ssh_arena.Prelude.Float.{Float, IsFloat}
use ssh_arena.Exchange.Flows.Ticks.{OnTick}
use ssh_arena.Exchange.Engine.{Ticker, PricePoint, PriceEngine}
use ssh_arena.Exchange.Engine.Moves.{current}
use ssh_arena.Exchange.Engine.Prices.{IsPriced, IsAnswer, trigger_shock-IsAnswer, current-IsAnswer}
use ssh_arena.Exchange.Service.{Market, ExchangeError, unsupported_symbol}
use ssh_arena.Exchange.Service.Events.{
  EventShockInput, event_shock, choose_symbols, ask_each, ask_next, add_price, asked, trigger_on,
  affected_symbols, is_listed, trigger_market_event, price_map,
}
use ssh_arena.Exchange.Service.Listed.{IsKnown, AnswersEach, IsListing, unknown, engine-IsListing}

add_price-AnswersEach :
    (ticks : String → ℕ) (s : String) (ss : List String) (p : PricePoint)
    (o : Outcome ExchangeError (List PricePoint))
    → OnTick (ticks s) p.current_price
    → AnswersEach ticks ss o
    → AnswersEach ticks (s ∷ ss) (add_price p o)
unfolding add_price
add_price-AnswersEach ticks s ss p (err x) on h = h
add_price-AnswersEach ticks s ss p (ok ps) on h = (on, h)

listed-IsKnown :
    (symbol : String) (ss : List String) (c : String → Option Ticker)
    → is_listed symbol ss ≡ true
    → All (λ s. IsKnown (c s)) ss
    → IsKnown (c symbol)
unfolding is_listed
listed-IsKnown symbol [] c e h = cc
listed-IsKnown symbol (s ∷ ss) c e h = elim (Bool-cases (str_eq s symbol)) [
  | inl same ↦ subst (λ k. IsKnown (c k)) ((eq_iff s symbol).0 same) h.0
  | inr other ↦ listed-IsKnown symbol ss c (sym (if_false _ _ other) ∙ e) h.1
]

module _ {F : Type 0} ⦃f : Float F⦄ (ticks : String → ℕ) where
  -- What a loop over symbols leaves and answers.
  abbrev Asked :
      PriceEngine F → List String → PriceEngine F × Outcome ExchangeError (List PricePoint) → Type 0
  Asked e ss r = IsPriced ticks r.0 × (r.0.configs ≡ e.configs) × AnswersEach ticks ss r.1

  ask_next-Asked :
      (s : String) (ss : List String) (e : PriceEngine F)
      (next : PriceEngine F → PriceEngine F × Outcome ExchangeError (List PricePoint))
      (o : Option (PriceEngine F × PricePoint))
      → IsAnswer ticks s e o
      → IsKnown (e.configs s)
      → ((d : PriceEngine F) → IsPriced ticks d → d.configs ≡ e.configs → Asked d ss (next d))
      → Asked e (s ∷ ss) (ask_next e next o)
  unfolding ask_next IsAnswer
  ask_next-Asked s ss e next none a known rest = absurd (unknown _ a known)
  ask_next-Asked s ss e next (some (d, p)) a known rest =
      let r = rest d a.0 a.1 in
      (r.0, r.1 ∙ a.1, add_price-AnswersEach ticks s ss p (next d).1 a.2 r.2)

  ask_each-Asked :
      (ask : String → PriceEngine F → Option (PriceEngine F × PricePoint))
      → ((s : String) (e : PriceEngine F) → IsPriced ticks e → IsAnswer ticks s e (ask s e))
      → (ss : List String) (e : PriceEngine F) → IsPriced ticks e
      → All (λ s. IsKnown (e.configs s)) ss
      → Asked e ss (ask_each ask ss e)
  unfolding ask_each
  ask_each-Asked ask law [] e h known = (h, refl, tt)
  ask_each-Asked ask law (s ∷ ss) e h known =
      ask_next-Asked s ss e _ (ask s e) (law s e h) known.0 (λ d p same.
        ask_each-Asked ask law ss d p (subst (λ c. All (λ k. IsKnown (c k)) ss) (sym same) known.1))

  asked-IsListing :
      (m : Market F) (ss : List String)
      (r : PriceEngine F × Outcome ExchangeError (List PricePoint))
      → IsListing ticks m
      → Asked m.engine ss r
      → IsListing ticks (asked m r).0 × AnswersEach ticks ss (asked m r).1
  asked-IsListing m ss r h a = (engine-IsListing ticks m r.0 h a.0 a.1, a.2)

  -- `PriceMap` has, for such a market, one price for every ticker, each a positive multiple of its
  -- tick, and leaves such a market; every conversion gives an int64.
  pub price_map-AnswersEach :
      (law : IsFloat F) (now : ℕ) (m : Market F)
      → IsListing ticks m
      → IsListing ticks (price_map now m).0 × AnswersEach ticks m.tickers (price_map now m).1
  unfolding price_map
  price_map-AnswersEach law now m h = asked-IsListing m m.tickers _ h (
      ask_each-Asked (current now) (λ s e p. current-IsAnswer law ticks now s e p) m.tickers
        m.engine h.prices h.tickers)

  -- The symbols that an event reaches: every ticker, or its own, if that is a ticker.
  abbrev pub Reaches :
      Bool → Bool → Market F → String → Outcome ExchangeError (List PricePoint) → Type 0
  Reaches true listed m s r = AnswersEach ticks m.tickers r
  Reaches false true m s r = AnswersEach ticks (s ∷ []) r
  Reaches false false m s r = r ≡ err unsupported_symbol

  reach :
      (law : IsFloat F) (now : ℕ) (i : EventShockInput) (m : Market F) (g b : Bool)
      → IsListing ticks m
      → (b ≡ true → IsKnown (m.engine.configs i.symbol))
      → IsListing ticks (trigger_on now i m (choose_symbols g b i.symbol m.tickers)).0
        × Reaches g b m i.symbol (trigger_on now i m (choose_symbols g b i.symbol m.tickers)).1
  unfolding trigger_on choose_symbols
  reach law now i m true b h known = asked-IsListing m m.tickers _ h (
      ask_each-Asked (event_shock now i)
        (λ s e p. trigger_shock-IsAnswer law ticks _ s e i.multiplier_pct i.duration p) m.tickers
        m.engine h.prices h.tickers)
  reach law now i m false true h known = asked-IsListing m (i.symbol ∷ []) _ h (
      ask_each-Asked (event_shock now i)
        (λ s e p. trigger_shock-IsAnswer law ticks _ s e i.multiplier_pct i.duration p)
        (i.symbol ∷ []) m.engine h.prices (known refl, tt))
  reach law now i m false false h known = (h, refl)

  -- A market event on such a market answers with one price for every ticker, or for the one that it
  -- names, each a positive multiple of its tick, or refuses a symbol that is no ticker, and leaves
  -- such a market; every conversion gives an int64.
  pub trigger_market_event-Reaches :
      (law : IsFloat F) (now : ℕ) (i : EventShockInput) (m : Market F)
      → IsListing ticks m
      → IsListing ticks (trigger_market_event now i m).0
        × Reaches i.global
            (is_listed i.symbol m.tickers)
            m
            i.symbol
            (trigger_market_event now i m).1
  unfolding trigger_market_event affected_symbols
  trigger_market_event-Reaches law now i m h =
      reach law now i m i.global (is_listed i.symbol m.tickers) h
        (λ e. listed-IsKnown i.symbol m.tickers m.engine.configs e h.tickers)
