-- ===== src/Gameplay/Orders/Tests.antt =====
-- A market that refuses an order, and the theorem on it.
use ssh_arena.Prelude.{◌≡◌, refl, true, none, [], ◌∷◌, arith}
use ssh_arena.Prelude.Int.{pos, div64, wrap64, ◌+ℤ◌, ◌-ℤ◌, ◌*ℤ◌}
use ssh_arena.Prelude.Float.Fixed.{Fixed, fixed_float}
use ssh_arena.Prelude.Outcome.{ok, err}
use ssh_arena.OrderBook.Types.{Side, OrderType}
use ssh_arena.Exchange.Service.{place_order, unsupported_symbol}
use ssh_arena.State.Player.{Player, set_player}
use ssh_arena.Gameplay.Fees.{bps_charge, estimate_exchange_fee}
use ssh_arena.Gameplay.Accounts.{
  Reservation, reserve_for_incoming, reserve_cash, cash_needed, exchange_failed,
}
use ssh_arena.Gameplay.Accounts.Reserving.{SameAccount}
use ssh_arena.Gameplay.Orders.{Engine, World, PlaceOrderPayload, to_input, submit}
use ssh_arena.Gameplay.Orders.Refusal.{submit-SameAccount}

abbrev player : Player
player = record {
  player_id = "p1";
  username = "ann";
  role = "Buyer";
  cash = pos 1000;
  reserved_cash = pos 100;
  portfolio = λ s. pos 5;
  reserved_stocks = λ s. pos 1;
  lots = λ s. [];
  created_at = 0;
  last_login_at = 0;
}

-- No symbol is listed.
abbrev engine : Engine Fixed
engine = record {
  players = ("ann", player) ∷ [];
  open_orders = [];
  symbols = [];
  records = record {
    market = record {
      books = λ s. none;
      tickers = [];
      engine = record { configs = λ s. none; state = λ s. none };
      recent_trades = λ s. [];
    };
    trade_history = record { max_records = 10; trades = [] };
    performance = record { max_snapshots = 10; snapshots = [] };
  };
}

abbrev world : World
world = record { written = true; settled = 2; cached = true; now = 5; fresh = "o1" }

abbrev payload : PlaceOrderPayload
payload = record {
  symbol = "TECH";
  side = Side.buy;
  kind = OrderType.limit;
  price = pos 10;
  quantity = pos 5;
}

abbrev reservation : Reservation
reservation = record {
  player = record player { reserved_cash = pos 151 };
  cash = pos 51;
  quantity = pos 0;
}

reserved :
    reserve_for_incoming none player "TECH" Side.buy OrderType.limit (pos 10) (pos 5)
    ≡ ok reservation
unfolding reserve_for_incoming reserve_cash cash_needed estimate_exchange_fee bps_charge div64
    wrap64 ◌+ℤ◌ ◌-ℤ◌ ◌*ℤ◌
reserved = refl

refused :
    (place_order true 5 "o1" (to_input "r1" payload reservation.player) engine.records.market).1
    ≡ err unsupported_symbol
unfolding place_order
refused = refl

submit-SameAccount_example :
    ((submit world "r1" payload reservation engine).1 ≡ err exchange_failed)
    × ((submit world "r1" payload reservation engine).0.open_orders ≡ [])
    × (back : Player) × SameAccount back player
    × ((submit world "r1" payload reservation engine).0.players
        ≡ set_player back.username back (set_player "ann" reservation.player engine.players))
submit-SameAccount_example =
    submit-SameAccount world "r1" payload engine none player reservation unsupported_symbol
      (100, refl, omega arith) (1, refl, omega arith) reserved refused
