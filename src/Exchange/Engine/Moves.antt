-- ===== src/Exchange/Engine/Moves.antt =====
-- The price moves of internal/exchange/price_engine.go: drift, orders, shocks.
use ssh_arena.Prelude.{
  ℕ, ◌+◌, ◌-◌, String, Bool, not, ◌||◌, Option, none, some, List, [], ◌∷◌, ◌++◌, leb, ◌==◌,
  if◌then◌else◌,
}
use ssh_arena.Prelude.Int.{ℤ, pos, sub64, eqb_ℤ, is_positive}
use ssh_arena.Prelude.Text.{assign}
use ssh_arena.Prelude.Float.{Float, ◌+F◌, ◌*F◌, ◌/F◌, round_to_int, clamp_float}
use ssh_arena.OrderBook.Types.{Trade, Snapshot}
use ssh_arena.Exchange.Flows.{trade_flows, top_depth, align_to_tick, settle_tick}
use ssh_arena.Exchange.Engine.{
  Ticker, PricePoint, quiet_point, abs64, MarketState, PriceEngine, trades_vwap, book_micro_price,
  normalized, percent_move, prune_expired, active_bias, state_of,
}

-- What `Apply` works out of the trades and the book.
pub record Impact (F : Type 0) : Type 0 where
  pub flow_imbalance : F
  pub micro_dislocation : F
  pub mean_reversion : F
  pub whale_impulse : F
  pub instant : F

-- The zero value that a missing key reads as.
abbrev pub ticker_of : Option Ticker → Ticker
ticker_of none = record {
  symbol = "";
  initial_price = pos 0;
  tick_size = pos 0;
  whale_threshold = pos 0;
}
ticker_of (some t) = t

module _ {F : Type 0} ⦃f : Float F⦄ where
  abbrev pub zero_F : F
  zero_F = f.of_int (pos 0)

  abbrev pub one_F : F
  one_F = f.of_int (pos 1)

  -- A missing price starts at the initial one.
  unfoldable pub start_price : Ticker → String → ℕ → MarketState F → MarketState F
  start_price cfg symbol now s = record s {
    price = quiet_point symbol cfg.initial_price cfg.initial_price (pos 0) (pos 0) now;
    fair_value = if f.equal s.fair_value zero_F then f.of_int cfg.initial_price else s.fair_value;
  }

  -- The price that a relative move leads to, before it is checked.
  unfoldable pub moved_price : Ticker → ℤ → F → ℤ
  moved_price cfg current move =
      align_to_tick (round_to_int (f.of_int current *F (one_F +F move))) cfg.tick_size

  unfoldable pub drift_step : MarketState F → F → ℕ → F
  drift_step s bias now =
      clamp_float
        (bias
          *F f.least (f.decimal 18 2) (f.seconds (now - s.price.updated_at) /F f.of_int (pos 30)))
        (f.neg (f.decimal 12 3)) (f.decimal 12 3)

  -- The early returns of the drift.
  unfoldable pub unmoved : MarketState F → ℕ → F → F → ℤ → Bool
  unmoved s now bias step next =
      leb now s.price.updated_at
      || f.equal bias zero_F
      || f.equal step zero_F
      || eqb_ℤ next s.price.current_price
      || not (is_positive next)

  unfoldable pub drifted : Ticker → String → ℕ → MarketState F → F → ℤ → MarketState F
  drifted cfg symbol now s step next = record s {
    price =
        quiet_point symbol s.price.current_price next (pos 10000)
          (round_to_int (step *F f.of_int (pos 10000))) now;
    fair_value =
        f.greatest (f.of_int cfg.tick_size) (s.fair_value *F (one_F +F step *F f.decimal 10 2));
  }

  -- Drift under the active effects, unless nothing would move.
  unfoldable pub drift : Ticker → String → ℕ → MarketState F → MarketState F
  unfolding moved_price unmoved drifted
  drift cfg symbol now s =
      let bias = active_bias s now in
      let step = drift_step s bias now in
      let next = moved_price cfg s.price.current_price step in
      if unmoved s now bias step next then s else drifted cfg symbol now s step next

  -- `refreshStateLocked`.
  unfoldable pub refresh : Ticker → String → ℕ → MarketState F → MarketState F
  unfolding prune_expired start_price drift drift_step
  refresh cfg symbol now s =
      let pruned = prune_expired s now in
      if eqb_ℤ pruned.price.current_price (pos 0)
      then start_price cfg symbol now pruned
      else drift cfg symbol now pruned

  -- `if current.CurrentPrice == 0`, as `Apply` and `TriggerShock` write it.
  unfoldable pub with_price : Ticker → MarketState F → MarketState F
  with_price cfg s =
      let p = s.price in
      if eqb_ℤ p.current_price (pos 0)
      then record s {
        price = record p { current_price = cfg.initial_price; previous_price = cfg.initial_price };
        fair_value = f.of_int cfg.initial_price;
      }
      else s

  -- `currentPrice` of `Apply`.
  abbrev pub base_price : Ticker → ℤ → F
  base_price cfg current =
      if f.less zero_F (f.of_int current) then f.of_int current else f.of_int cfg.initial_price

  unfoldable pub whale_impulse_of : Ticker → ℤ → F
  whale_impulse_of cfg signed =
      if is_positive cfg.whale_threshold
      then (f.of_int signed /F f.of_int cfg.whale_threshold) *F f.decimal 35 2
      else zero_F

  unfoldable pub fair_after : MarketState F → List Trade → F
  fair_after s trades =
      s.fair_value *F f.decimal 982 3 +F trades_vwap trades s.price.current_price *F f.decimal 18 3

  unfoldable pub impact_of : Ticker → MarketState F → List Trade → Snapshot → ℕ → Impact F
  unfolding whale_impulse_of fair_after
  impact_of cfg s trades book now =
      let flows = trade_flows trades in
      let depth = normalized (top_depth (pos 0) book.bids 5) (top_depth (pos 0) book.asks 5) in
      let flow = normalized flows.buy_volume flows.sell_volume in
      let price = base_price cfg s.price.current_price in
      let micro = percent_move (book_micro_price book.bids book.asks s.price.current_price) price in
      let reversion = percent_move (fair_after s trades) price *F f.decimal 18 2 in
      let whale = whale_impulse_of cfg flows.whale_signed in
      record {
        flow_imbalance = flow;
        micro_dislocation = micro;
        mean_reversion = reversion;
        whale_impulse = whale;
        instant =
            flow *F f.decimal 14 3
            +F depth *F f.decimal 8 3
            +F micro *F f.decimal 45 2
            +F reversion
            +F whale
            +F active_bias s now *F f.decimal 55 2;
      }

  -- The state with its new pressure, trend and fair value.
  unfoldable pub pressed : MarketState F → List Trade → Impact F → F → MarketState F
  pressed s trades i bias = record s {
    fair_value = fair_after s trades;
    pressure = s.pressure *F f.decimal 72 2 +F i.instant *F f.decimal 28 2;
    trend =
        s.trend *F f.decimal 82 2 +F i.flow_imbalance *F f.decimal 18 2 +F bias *F f.decimal 10 2;
  }

  unfoldable pub raw_move : MarketState F → List Trade → Impact F → F → F
  raw_move s [] i bias =
      i.mean_reversion *F f.decimal 65 2
      +F i.micro_dislocation *F f.decimal 20 2
      +F s.pressure *F f.decimal 10 2
      +F bias *F f.decimal 35 2
  raw_move s (t ∷ ts) i bias =
      i.instant +F s.pressure *F f.decimal 65 2 +F s.trend *F f.decimal 25 2

  unfoldable pub volatility_after : MarketState F → F → F
  volatility_after s move = s.volatility *F f.decimal 90 2 +F f.abs move *F f.decimal 10 2

  -- The move that is made, within 3.5 percent.
  unfoldable pub final_move : F → F → F
  final_move move volatility =
      clamp_float (move *F (one_F +F f.least (f.decimal 135 2) (volatility *F f.of_int (pos 18))))
        (f.neg (f.decimal 35 3)) (f.decimal 35 3)

  -- `Apply` on the state of one ticker.
  unfoldable pub apply_to :
      Ticker → String → ℕ → List Trade → Snapshot → MarketState F → MarketState F
  unfolding with_price impact_of pressed raw_move volatility_after final_move abs64
  apply_to cfg symbol now trades book old =
      let s = with_price cfg (refresh cfg symbol now old) in
      let bias = active_bias s now in
      let i = impact_of cfg s trades book now in
      let t = pressed s trades i bias in
      let move = raw_move t trades i bias in
      let volatility = volatility_after t move in
      let final = final_move move volatility in
      let price = base_price cfg s.price.current_price in
      let flows = trade_flows trades in
      record t {
        volatility = volatility;
        price = record {
          symbol = symbol;
          previous_price = s.price.current_price;
          current_price = settle_tick (round_to_int (price *F (one_F +F final))) cfg.tick_size;
          net_volume = sub64 flows.buy_volume flows.sell_volume;
          buy_pressure = flows.buy_volume;
          sell_pressure = flows.sell_volume;
          whale_volume = abs64 flows.whale_signed;
          whale_multiplier = f.to_int (
              f.of_int (pos 10000)
              +F f.least (f.of_int (pos 12000)) (f.abs i.whale_impulse *F f.of_int (pos 10000)));
          move_bps = round_to_int (final *F f.of_int (pos 10000));
          updated_at = now;
        };
      }

  unfoldable pub shock_move : ℤ → F
  shock_move pct =
      clamp_float (f.of_int pct /F f.of_int (pos 100)) (f.neg (f.decimal 35 2)) (f.decimal 35 2)

  -- `TriggerShock` on the state of one ticker; a duration of zero or less stands for thirty seconds.
  unfoldable pub shock_to : Ticker → String → ℕ → ℤ → ℕ → MarketState F → MarketState F
  unfolding with_price shock_move
  shock_to cfg symbol now pct duration old =
      let s = with_price cfg (refresh cfg symbol now old) in
      let move = shock_move pct in
      let lasting = if duration == 0 then 30_000_000_000 else duration in
      prune_expired
        (record {
          effects =
              s.effects
              ++ record {
                name = symbol;
                bias = move *F f.decimal 60 2;
                started_at = now;
                expires_at = now + lasting;
              }
                ∷ [];
          fair_value =
              f.greatest (f.of_int cfg.tick_size)
                (s.fair_value *F (one_F +F move *F f.decimal 55 2));
          trend =
              clamp_float (s.trend +F move *F f.decimal 35 2) (f.neg (f.decimal 6 1))
                (f.decimal 6 1);
          pressure =
              clamp_float (s.pressure +F move *F f.decimal 45 2) (f.neg (f.decimal 8 1))
                (f.decimal 8 1);
          volatility =
              clamp_float (s.volatility +F f.abs move *F f.decimal 25 2) zero_F (f.decimal 15 1);
          price =
              quiet_point symbol s.price.current_price
                (settle_tick (round_to_int (f.of_int s.price.current_price *F (one_F +F move)))
                  cfg.tick_size)
                (pos 10000) (round_to_int (move *F f.of_int (pos 10000))) now;
        })
        now

  abbrev pub write_state : String → MarketState F → PriceEngine F → PriceEngine F
  write_state symbol s e = record e { state = assign e.state symbol (some s) }

  -- `Apply`, `TriggerShock` and `Current`: the engine and the price, or `none` for an unknown ticker.
  unfoldable pub apply_with :
      ℕ
      → String
      → List Trade
      → Snapshot
      → PriceEngine F
      → Option Ticker
      → Option (PriceEngine F × PricePoint)
  apply_with now symbol trades book e none = none
  apply_with now symbol trades book e (some cfg) =
      let s = apply_to cfg symbol now trades book (state_of (e.state symbol)) in
      some (write_state symbol s e, s.price)

  unfoldable pub apply :
      ℕ → String → List Trade → Snapshot → PriceEngine F → Option (PriceEngine F × PricePoint)
  unfolding apply_with
  apply now symbol trades book e = apply_with now symbol trades book e (e.configs symbol)

  unfoldable pub shock_with :
      ℕ → String → ℤ → ℕ → PriceEngine F → Option Ticker → Option (PriceEngine F × PricePoint)
  shock_with now symbol pct duration e none = none
  shock_with now symbol pct duration e (some cfg) =
      let s = shock_to cfg symbol now pct duration (state_of (e.state symbol)) in
      some (write_state symbol s e, s.price)

  unfoldable pub trigger_shock :
      ℕ → String → ℤ → ℕ → PriceEngine F → Option (PriceEngine F × PricePoint)
  unfolding shock_with
  trigger_shock now symbol pct duration e = shock_with now symbol pct duration e (e.configs symbol)

  unfoldable pub current_with :
      ℕ → String → PriceEngine F → Option (MarketState F) → Option (PriceEngine F × PricePoint)
  current_with now symbol e none = none
  current_with now symbol e (some old) =
      let s = refresh (ticker_of (e.configs symbol)) symbol now old in
      some (write_state symbol s e, s.price)

  unfoldable pub current : ℕ → String → PriceEngine F → Option (PriceEngine F × PricePoint)
  unfolding current_with
  current now symbol e = current_with now symbol e (e.state symbol)
