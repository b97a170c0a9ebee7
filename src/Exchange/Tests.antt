-- ===== src/Exchange/Tests.antt =====
-- Runs of the price engine and the market on numbers with four places, and instances of their theorems.
use ssh_arena.Prelude.{ℕ, refl, String, true, List, [], ◌∷◌, All, arith}
use ssh_arena.Prelude.Int.{pos}
use ssh_arena.Prelude.Float.Fixed.{Fixed, fixed_float, fixed-IsFloat}
use ssh_arena.OrderBook.Types.{Trade, Snapshot, Side, OrderType}
use ssh_arena.Exchange.Flows.Ticks.{OnTick}
use ssh_arena.Exchange.Engine.{Ticker, PriceEngine, new}
use ssh_arena.Exchange.Engine.Grid.{IsListed}
use ssh_arena.Exchange.Engine.Prices.{IsPriced, started, new-IsPriced, Reached-IsPriced}
use ssh_arena.Exchange.Service.{Market, PlaceOrderInput, place_order}
use ssh_arena.Exchange.Service.Events.{
  EventShockInput, open_market, trigger_market_event, is_listed,
}
use ssh_arena.Exchange.Service.Listed.{IsListing, Kept, place_order-Kept}
use ssh_arena.Exchange.Service.Listed.Asking.{Reaches, trigger_market_event-Reaches}
use ssh_arena.Exchange.Service.Listed.Opening.{open_market-IsListing}

abbrev tech : Ticker
tech = record {
  symbol = "TECH";
  initial_price = pos 100;
  tick_size = pos 5;
  whale_threshold = pos 10;
}

abbrev tickers : List Ticker
tickers = tech ∷ []

abbrev ticks : String → ℕ
ticks s = 5

abbrev engine : PriceEngine Fixed
engine = new 0 tickers

abbrev market : Market Fixed
market = open_market 0 tickers

abbrev trade : Trade
trade = record {
  id = record { request_id = "r"; number = 1 };
  symbol = "TECH";
  price = 105;
  quantity = 4;
  aggressor_side = Side.buy;
  buy_order_id = "b";
  sell_order_id = "s";
  buyer_id = "p1";
  buyer_role = "Buyer";
  seller_id = "p2";
  seller_role = "Whale";
  executed_at = 7;
}

abbrev book : Snapshot
book = record {
  symbol = "TECH";
  bids = [];
  asks = [];
  last_trade_price = 105;
  sequence = 1;
  generated_at = 7;
}

abbrev order : PlaceOrderInput
order = record {
  request_id = "r1";
  player_id = "p1";
  player_role = "Buyer";
  symbol = "TECH";
  side = Side.buy;
  kind = OrderType.limit;
  price = 100;
  quantity = 3;
}

abbrev crash : EventShockInput
crash = record {
  global = true;
  symbol = "";
  multiplier_pct = pos 20;
  duration = 60;
  occurred_at = 0;
}

listed : All (λ c. IsListed c (ticks c.symbol)) tickers
unfolding OnTick
listed = (record { tick = refl; positive = omega arith; initial = (19, refl) }, tt)

engine-IsPriced : IsPriced ticks engine
engine-IsPriced = new-IsPriced Fixed ticks 0 tickers listed

market-IsListing : IsListing ticks market
market-IsListing = open_market-IsListing ticks 0 tickers listed

Reached-IsPriced_example : IsPriced ticks engine
Reached-IsPriced_example =
    Reached-IsPriced Fixed fixed-IsFloat ticks tickers engine listed (started 0)

place_order-Kept_example : Kept ticks (place_order true 7 "o1" order market)
place_order-Kept_example =
    place_order-Kept ticks fixed-IsFloat true 7 "o1" order market market-IsListing

trigger_market_event-Reaches_example :
    IsListing ticks (trigger_market_event 7 crash market).0
    × Reaches ticks true
        (is_listed "" market.tickers)
        market
        ""
        (trigger_market_event 7 crash market).1
trigger_market_event-Reaches_example =
    trigger_market_event-Reaches ticks fixed-IsFloat 7 crash market market-IsListing
