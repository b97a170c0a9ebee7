-- ===== src/Charting/Tests.antt =====
-- Instances of the theorems on charts.
use ssh_arena.Prelude.{◌≡◌, refl, Bool, true, false, List, [], ◌∷◌}
use ssh_arena.Prelude.Int.{pos}
use ssh_arena.Prelude.Float.Fixed.{Fixed, fixed_float}
use ssh_arena.Prelude.Outcome.{Outcome, ok, err}
use ssh_arena.Exchange.Engine.{Ticker, new as open_prices}
use ssh_arena.Exchange.Engine.Moves.{current}
use ssh_arena.Exchange.Service.{Market, ExchangeError}
use ssh_arena.Exchange.Service.Events.{ChartSnapshot, chart_snapshot, open_market}
use ssh_arena.Charting.{
  Config, SubscriptionRequest, Point, Engine, new, states_of, subscribe, emit_tick,
}
use ssh_arena.Charting.Bounded.{Emitted, StaysBounded, IsBounded, emit_tick-Emitted, new-IsBounded}

abbrev config : Config
config = record { tick_interval = 3; history_limit = 2; orderbook_depth = 1 }

abbrev charts : Engine Fixed
charts = new config ("TECH" ∷ [])

abbrev tech : Ticker
tech = record {
  symbol = "TECH";
  initial_price = pos 100;
  tick_size = pos 5;
  whale_threshold = pos 10;
}

abbrev market : Market Fixed
market = open_market 0 (tech ∷ [])

abbrev chart : ChartSnapshot
chart = record {
  symbol = "TECH";
  price = record {
    symbol = "TECH";
    previous_price = pos 95;
    current_price = pos 100;
    net_volume = pos 0;
    buy_pressure = pos 0;
    sell_pressure = pos 0;
    whale_volume = pos 0;
    whale_multiplier = pos 0;
    move_bps = pos 0;
    updated_at = 0;
  };
  order_book = record {
    symbol = "TECH";
    last_trade_price = 100;
    sequence = 1;
    bids =
        record { price = 95; quantity = pos 4; order_count = 1 }
        ∷ record { price = 90; quantity = pos 4; order_count = 1 }
        ∷ [];
    asks = [];
    generated_at = 7;
  };
  recent_trades = [];
  captured_at = 7;
}

abbrev history : List (Point Fixed)
history =
    record { at = 1; price = record { units = pos 9000 }; volume = pos 1 }
    ∷ record { at = 5; price = record { units = pos 9500 }; volume = pos 2 }
    ∷ []

abbrev request : SubscriptionRequest
request = record { player_id = "p1"; ticker = "TECH"; history_limit = 0; depth = 0 }

abbrev watched : Engine Fixed
watched = (subscribe request charts).0

watched-IsBounded : IsBounded watched
unfolding subscribe new states_of IsBounded
watched-IsBounded = new-IsBounded Fixed config ("TECH" ∷ [])

emit_tick-Emitted_example :
    Emitted 7 "TECH" watched
      (chart_snapshot 7 "TECH" watched.cfg.orderbook_depth market).1
      (emit_tick 7 "TECH" market watched).1
    × StaysBounded (emit_tick 7 "TECH" market watched).1
emit_tick-Emitted_example = emit_tick-Emitted 7 "TECH" market watched watched-IsBounded

abbrev answered : {A : Type 0} → Outcome ExchangeError A → Bool
answered (ok a) = true
answered (err x) = false

-- The market answers for the ticker.
market_answers : answered (chart_snapshot 7 "TECH" watched.cfg.orderbook_depth market).1 ≡ true
unfolding chart_snapshot open_market subscribe new fixed_float current open_prices
market_answers = refl
