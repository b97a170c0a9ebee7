-- ===== src/Exchange/Engine/Prices.antt =====
-- The engine keeps every price on its ticker's grid.
use ssh_arena.Prelude.{
  ℕ, ◌≡◌, refl, sym, ap, ◌∙◌, subst, String, Bool, true, false, Option, none, some, List, [], ◌∷◌,
  if◌then◌else◌, if_true, if_false, Bool-cases, inl, inr, All,
}
use mathlib.Core.Option.{some-injective}
use ssh_arena.Prelude.Int.{ℤ}
use ssh_arena.Prelude.Text.{str_eq, eq_iff}
use ssh_arena.Prelude.Float.{Float, IsFloat}
use ssh_arena.OrderBook.Types.{Trade, Snapshot}
use ssh_arena.Exchange.Flows.Ticks.{OnTick}
use ssh_arena.Exchange.Engine.{
  Ticker, PricePoint, MarketState, PriceEngine, first_state, or_else, new,
}
use ssh_arena.Exchange.Engine.Moves.{
  refresh, apply, apply_with, shock_with, current_with, trigger_shock, current, write_state,
  ticker_of,
}
use ssh_arena.Exchange.Engine.Grid.{
  IsListed, OnGrid, apply_to-OnGrid, shock_to-OnGrid, refresh-OnGrid,
}

module _ {F : Type 0} where
  -- What the engine holds for a symbol: neither a ticker nor a state, or both,
  -- the ticker listed and the price on its grid.
  unfoldable pub Priced : Option Ticker → Option (MarketState F) → ℕ → Type 0
  Priced none none t = Unit
  Priced none (some s) t = ⊥
  Priced (some c) none t = ⊥
  Priced (some c) (some s) t = IsListed c t × OnGrid t s

  -- Every ticker is priced, for ticks by symbol.
  unfoldable pub IsPriced : (String → ℕ) → PriceEngine F → Type 0
  unfolding Priced
  IsPriced ticks e = (symbol : String) → Priced (e.configs symbol) (e.state symbol) (ticks symbol)

  -- The answer of an operation: an unknown ticker, or a price on its grid and a priced engine with
  -- the same tickers.
  unfoldable pub IsAnswer :
      (String → ℕ) → String → PriceEngine F → Option (PriceEngine F × PricePoint) → Type 0
  IsAnswer ticks symbol e none = e.configs symbol ≡ none
  IsAnswer ticks symbol e (some (d, p)) =
      IsPriced ticks d × (d.configs ≡ e.configs) × OnTick (ticks symbol) p.current_price

  Priced-IsListed :
      (c : Option Ticker) (m : Option (MarketState F)) (t : ℕ) (cfg : Ticker)
      → c ≡ some cfg
      → Priced c m t
      → IsListed cfg t
  unfolding Priced
  Priced-IsListed none m t cfg e h = cc
  Priced-IsListed (some c) none t cfg e h = absurd h
  Priced-IsListed (some c) (some s) t cfg e h =
      subst (λ x. IsListed x t) (some-injective c cfg e) h.0

  priced :
      (c : Option Ticker) (m : Option (MarketState F)) (t : ℕ) (cfg : Ticker) (s : MarketState F)
      → c ≡ some cfg
      → OnGrid t s
      → Priced c m t
      → Priced c (some s) t
  unfolding Priced
  priced none m t cfg s e fits h = cc
  priced (some c) none t cfg s e fits h = absurd h
  priced (some c) (some old) t cfg s e fits h = (h.0, fits)

  or_else-Priced :
      (c : Option Ticker) (m : Option (MarketState F)) (b : Bool) (cfg : Ticker) (s : MarketState F)
      (t : ℕ)
      → Priced c m t
      → (b ≡ true → IsListed cfg t × OnGrid t s)
      → Priced (or_else c (if b then some cfg else none)) (or_else m (if b then some s else none)) t
  unfolding Priced or_else
  or_else-Priced none none true cfg s t h fits = fits refl
  or_else-Priced none none false cfg s t h fits = tt
  or_else-Priced none (some m) b cfg s t h fits = absurd h
  or_else-Priced (some c) none b cfg s t h fits = absurd h
  or_else-Priced (some c) (some m) b cfg s t h fits = h

module _ {F : Type 0} ⦃f : Float F⦄ where
  write_state-IsPriced :
      (ticks : String → ℕ) (symbol : String) (e : PriceEngine F) (cfg : Ticker) (s : MarketState F)
      → IsPriced ticks e
      → e.configs symbol ≡ some cfg
      → OnGrid (ticks symbol) s
      → IsPriced ticks (write_state symbol s e)
  unfolding IsPriced
  write_state-IsPriced ticks symbol e cfg s h known fits j = elim (Bool-cases (str_eq j symbol)) [
    | inl same ↦
        let at = (eq_iff j symbol).0 same in
        subst (λ o. Priced (e.configs j) o (ticks j)) (sym (if_true (some s) (e.state j) same))
          (priced _ (e.state j) _ cfg s (ap e.configs at ∙ known)
            (subst (λ k. OnGrid (ticks k) s) (sym at) fits) (h j))
    | inr other ↦
        subst (λ o. Priced (e.configs j) o (ticks j)) (sym (if_false (some s) (e.state j) other))
          (h j)
  ]

  module _ (law : IsFloat F) (ticks : String → ℕ) (now : ℕ) (symbol : String)
      (e : PriceEngine F) where
    written :
        (cfg : Ticker) (s : MarketState F)
        → IsPriced ticks e
        → e.configs symbol ≡ some cfg
        → (IsListed cfg (ticks symbol) → OnGrid (ticks symbol) s)
        → IsAnswer ticks symbol e (some (write_state symbol s e, s.price))
    unfolding IsAnswer IsPriced OnGrid
    written cfg s h known fits =
        let fit = fits (
          Priced-IsListed (e.configs symbol) (e.state symbol) (ticks symbol) cfg known
            (h symbol)) in
        (write_state-IsPriced ticks symbol e cfg s h known fit, refl, fit)

    apply_with-IsAnswer :
        (trades : List Trade) (book : Snapshot) (c : Option Ticker)
        → IsPriced ticks e
        → e.configs symbol ≡ c
        → IsAnswer ticks symbol e (apply_with now symbol trades book e c)
    unfolding IsAnswer apply_with
    apply_with-IsAnswer trades book none h known = known
    apply_with-IsAnswer trades book (some cfg) h known =
        written cfg _ h known (λ listed. apply_to-OnGrid law cfg _ listed symbol now trades book _)

    shock_with-IsAnswer :
        (pct : ℤ) (duration : ℕ) (c : Option Ticker)
        → IsPriced ticks e
        → e.configs symbol ≡ c
        → IsAnswer ticks symbol e (shock_with now symbol pct duration e c)
    unfolding IsAnswer shock_with
    shock_with-IsAnswer pct duration none h known = known
    shock_with-IsAnswer pct duration (some cfg) h known =
        written cfg _ h known (λ listed. shock_to-OnGrid law cfg _ listed symbol now pct duration _)

    entry_at :
        (c : Option Ticker) (m : Option (MarketState F))
        → IsPriced ticks e
        → e.configs symbol ≡ c
        → e.state symbol ≡ m
        → Priced c m (ticks symbol)
    unfolding IsPriced
    entry_at c m h known held =
        subst (λ o. Priced o m (ticks symbol)) known
          (subst (λ o. Priced (e.configs symbol) o (ticks symbol)) held (h symbol))

    refreshed :
        (cfg : Ticker) (old : MarketState F)
        → e.configs symbol ≡ some cfg
        → OnGrid (ticks symbol) old
        → IsListed cfg (ticks symbol)
        → OnGrid (ticks symbol) (refresh (ticker_of (e.configs symbol)) symbol now old)
    refreshed cfg old known fits listed =
        subst (λ c. OnGrid (ticks symbol) (refresh (ticker_of c) symbol now old)) (sym known)
          (refresh-OnGrid law cfg (ticks symbol) listed symbol now old (inl fits))

    current_with-IsAnswer :
        (c : Option Ticker) (m : Option (MarketState F))
        → IsPriced ticks e
        → Priced c m (ticks symbol)
        → e.configs symbol ≡ c
        → IsAnswer ticks symbol e (current_with now symbol e m)
    unfolding IsAnswer Priced current_with
    current_with-IsAnswer none none h p known = known
    current_with-IsAnswer (some cfg) (some old) h p known =
        written cfg _ h known (refreshed cfg old known p.1)
    current_with-IsAnswer none (some old) h p known = absurd p
    current_with-IsAnswer (some cfg) none h p known = absurd p

    -- Of a priced engine `Apply` refuses only an unknown ticker, and otherwise gives a price that is
    -- a positive multiple of the tick, and a priced engine with the same
    -- tickers; every conversion gives an int64.
    pub apply-IsAnswer :
        (trades : List Trade) (book : Snapshot)
        → IsPriced ticks e
        → IsAnswer ticks symbol e (apply now symbol trades book e)
    unfolding apply
    apply-IsAnswer trades book h = apply_with-IsAnswer trades book _ h refl

    -- Of a priced engine `TriggerShock` refuses only an unknown ticker, and otherwise gives a price
    -- that is a positive multiple of the tick, whatever the percentage, and a priced engine with
    -- the same tickers.
    pub trigger_shock-IsAnswer :
        (pct : ℤ) (duration : ℕ)
        → IsPriced ticks e
        → IsAnswer ticks symbol e (trigger_shock now symbol pct duration e)
    unfolding trigger_shock
    trigger_shock-IsAnswer pct duration h = shock_with-IsAnswer pct duration _ h refl

    -- Of a priced engine `Current` refuses only an unknown ticker, and otherwise gives a price that
    -- is a positive multiple of the tick, and a priced engine with the same tickers.
    pub current-IsAnswer : IsPriced ticks e → IsAnswer ticks symbol e (current now symbol e)
    unfolding current
    current-IsAnswer h = current_with-IsAnswer _ _ h (entry_at _ _ h refl refl) refl

-- A fresh engine is priced, if the initial price of every ticker is a multiple of its tick.
pub new-IsPriced :
    (F : Type 0) ⦃f : Float F⦄ (ticks : String → ℕ) (now : ℕ) (tickers : List Ticker)
    → All (λ c. IsListed c (ticks c.symbol)) tickers
    → IsPriced {F = F} ticks (new now tickers)
unfolding IsPriced Priced new OnGrid
new-IsPriced F ticks now [] h j = tt
new-IsPriced F ticks now (c ∷ cs) h j =
    let e = new {F = F} now cs in
    or_else-Priced (e.configs j) (e.state j) (str_eq j c.symbol) c (first_state now c) (ticks j)
      (new-IsPriced F ticks now cs h.1 j)
      (λ same.
        let at = (eq_iff j c.symbol).0 same in
        let listed = subst (λ k. IsListed c (ticks k)) (sym at) h.0 in (listed, listed.initial))

-- The engines that the operations lead to from a fresh one.
pub data Reached (F : Type 0) ⦃f : Float F⦄ (tickers : List Ticker) : PriceEngine F → Type 0 where
  started : (now : ℕ) → Reached F tickers (new now tickers)
  applied :
      (e : PriceEngine F) (now : ℕ) (symbol : String) (trades : List Trade) (book : Snapshot)
      (d : PriceEngine F) (p : PricePoint)
      → Reached F tickers e
      → apply now symbol trades book e ≡ some (d, p)
      → Reached F tickers d
  shocked :
      (e : PriceEngine F) (now : ℕ) (symbol : String) (pct : ℤ) (duration : ℕ) (d : PriceEngine F)
      (p : PricePoint)
      → Reached F tickers e
      → trigger_shock now symbol pct duration e ≡ some (d, p)
      → Reached F tickers d
  looked_up :
      (e : PriceEngine F) (now : ℕ) (symbol : String) (d : PriceEngine F) (p : PricePoint)
      → Reached F tickers e
      → current now symbol e ≡ some (d, p)
      → Reached F tickers d

answered :
    {F : Type 0} (ticks : String → ℕ) (symbol : String) (e d : PriceEngine F) (p : PricePoint)
    (o : Option (PriceEngine F × PricePoint))
    → o ≡ some (d, p)
    → IsAnswer ticks symbol e o
    → IsPriced ticks d
unfolding IsAnswer
answered ticks symbol e d p o eq a = (subst (IsAnswer ticks symbol e) eq a).0

-- Whatever sequence of trades, shocks and queries a fresh engine goes through, every price that it
-- holds is a positive multiple of its ticker's tick, if that holds of the initial prices.
pub Reached-IsPriced :
    (F : Type 0) ⦃f : Float F⦄ (law : IsFloat F) (ticks : String → ℕ) (tickers : List Ticker)
    (e : PriceEngine F)
    → All (λ c. IsListed c (ticks c.symbol)) tickers
    → Reached F tickers e
    → IsPriced ticks e
Reached-IsPriced F law ticks tickers _ h (started now) = new-IsPriced F ticks now tickers h
Reached-IsPriced F law ticks tickers _ h (applied e now symbol trades book d p r eq) =
    answered ticks symbol e d p _ eq (
      apply-IsAnswer law ticks now symbol e trades book
        (Reached-IsPriced F law ticks tickers e h r))
Reached-IsPriced F law ticks tickers _ h (shocked e now symbol pct duration d p r eq) =
    answered ticks symbol e d p _ eq (
      trigger_shock-IsAnswer law ticks now symbol e pct duration
        (Reached-IsPriced F law ticks tickers e h r))
Reached-IsPriced F law ticks tickers _ h (looked_up e now symbol d p r eq) =
    answered ticks symbol e d p _ eq
      (current-IsAnswer law ticks now symbol e (Reached-IsPriced F law ticks tickers e h r))
