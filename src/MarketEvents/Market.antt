-- ===== src/MarketEvents/Market.antt =====
-- The engine of internal/marketevents/engine.go at work on the market of internal/exchange: a tick of
-- its timer takes a step, and an event that fires shocks the market.
use ssh_arena.Prelude.{ℕ, String, Bool, Option, none, some, List}
use ssh_arena.Prelude.Int.{ℤ, pos, pos_part, mul64}
use ssh_arena.Prelude.Outcome.{Outcome}
use ssh_arena.Prelude.Float.{Float}
use ssh_arena.Exchange.Engine.{PricePoint}
use ssh_arena.Exchange.Service.{Market, ExchangeError}
use ssh_arena.Exchange.Service.Events.{EventShockInput, trigger_market_event}
use ssh_arena.MarketEvents.{PlannedEvent, Engine, Draws, Stepped, step}
use ssh_arena.MarketEvents.Catalogue.{Prepared, choose_definition}
pub mod Fires
mod Tests

-- The event as the market gets it: its duration in nanoseconds is an int64 product, and the market
-- takes zero and what is negative alike.
unfoldable pub to_shock : PlannedEvent → EventShockInput
to_shock p = record {
  global = p.global;
  symbol = p.symbol;
  multiplier_pct = p.multiplier_pct;
  duration = pos_part (mul64 p.duration_seconds (pos 1_000_000_000));
  occurred_at = p.scheduled_at;
}

-- What the random generator answers for one plan.
pub record Rolls (F : Type 0) : Type 0 where
  pub share : F
  pub ticker : ℕ
  pub offset : ℕ

-- What a tick leaves: engine and market, and what the market answered to an event.
pub record Ticked (F : Type 0) : Type 0 where
  pub engine : Engine
  pub market : Market F
  pub answer : Option (Outcome ExchangeError (List PricePoint))

module _ {F : Type 0} ⦃f : Float F⦄ where
  unfoldable pub draws_of : List (Prepared F) → Rolls F → Draws
  draws_of defs r = record {
    chosen = choose_definition r.share defs;
    ticker = r.ticker;
    offset = r.offset;
  }

  -- `fire`, which only logs a refusal.
  unfoldable pub fire : ℕ → Engine → Market F → Option PlannedEvent → Ticked F
  unfolding to_shock
  fire now e m none = record { engine = e; market = m; answer = none }
  fire now e m (some p) =
      let r = trigger_market_event now (to_shock p) m in
      record { engine = e; market = r.0; answer = some r.1 }

  -- `step` with `fire`, on the tickers of the market.
  unfoldable pub tick :
      (String → String → ℤ → String)
      → (String → Bool)
      → List (Prepared F)
      → Rolls F
      → Rolls F
      → ℕ
      → Engine
      → Market F
      → Ticked F
  unfolding fire draws_of
  tick render is_blank defs r r' now e m =
      let s = step render is_blank (draws_of defs r) (draws_of defs r') m.tickers now e in
      fire now s.engine m s.fired
