-- ===== src/Gameplay/Tests.antt =====
-- Instances of the theorems on fees, reservations and tokens.
use ssh_arena.Prelude.{◌≡◌, refl, String, true, false, none, some, [], ◌∷◌, arith}
use ssh_arena.Prelude.Int.{pos, add64, sub64}
use ssh_arena.Prelude.Outcome.{ok, err}
use ssh_arena.OrderBook.Types.{Side, OrderType, OrderStatus, Trade}
use ssh_arena.State.Player.{Player}
use ssh_arena.Intel.Feeds as Feeds
use ssh_arena.Gameplay.IntelBuy.{World}
use ssh_arena.Gameplay.Accounts.{reserve_for_incoming}
use ssh_arena.Gameplay.Accounts.Reserving.{IsAmount, Answer, reserve_for_incoming-Answer}
use ssh_arena.Gameplay.Desk.{lookup, Desk, touch}
use ssh_arena.Gameplay.Trades.{Settling, touch_both, apply_trade}
use ssh_arena.Gameplay.Trades.Cash.{cash_of, at_player}
use ssh_arena.Gameplay.Trades.Payment.{income, payment, apply_trade-cash}
use ssh_arena.Gameplay.Tokens.{BootstrapGrant, Grants, consume_bootstrap_token, token_invalid}
use ssh_arena.Gameplay.Tokens.SingleUse.{consume_bootstrap_token-SingleUse}
use ssh_arena.Prelude.Text.{str_eq}

abbrev player : Player
player = record {
  player_id = "p1";
  username = "ann";
  role = "Buyer";
  cash = pos 1000;
  reserved_cash = pos 100;
  portfolio = λ s. pos 5;
  reserved_stocks = λ s. pos 1;
  lots = λ s. [];
  created_at = 0;
  last_login_at = 0;
}

hundred_ok : IsAmount (pos 100)
hundred_ok = (100, refl, omega arith)

one_ok : IsAmount (pos 1)
one_ok = (1, refl, omega arith)

reserve_for_incoming-Answer_example :
    Answer Side.buy "TECH" player
      (reserve_for_incoming none player "TECH" Side.buy OrderType.limit (pos 20) (pos 10))
reserve_for_incoming-Answer_example =
    reserve_for_incoming-Answer none player "TECH" Side.buy OrderType.limit (pos 20) (pos 10)
      hundred_ok one_ok

abbrev grant : BootstrapGrant
grant = record { player_id = "p1"; username = "ann"; expires_at = 50 }

abbrev grants : Grants
grants = ("t1", grant) ∷ ("t2", grant) ∷ []

found : lookup "t1" grants ≡ some grant
unfolding lookup
found = refl

consume_bootstrap_token-SingleUse_example :
    ((consume_bootstrap_token 10 "t1" grants).1 ≡ ok grant)
    × ((consume_bootstrap_token 20 "t1" (consume_bootstrap_token 10 "t1" grants).0).1
        ≡ err token_invalid)
    × ((other : String)
        → str_eq "t1" other ≡ false
        → lookup other (consume_bootstrap_token 10 "t1" grants).0 ≡ lookup other grants)
consume_bootstrap_token-SingleUse_example =
    consume_bootstrap_token-SingleUse 10 20 "t1" grant grants ((refl, tt), (tt, tt)) refl found

abbrev feed : Feeds.Definition
feed = record {
  id = "tip";
  kind = Feeds.Kind.insider;
  name = "Tip";
  description = "";
  price = pos 500;
  lead_time_seconds = 30;
  global = true;
  ticker = "";
  multiplier = record { low = pos 0; high = pos 0 };
}

abbrev intel : Feeds.Engine
intel = record { defs = λ id. some feed; ordered_defs = feed ∷ []; pending = []; next_event = none }

abbrev world : World
world = record {
  written = true;
  recorded = true;
  now = 5;
  tickers = "TECH" ∷ [];
  has_chart = λ s. true;
  index = 0;
}

abbrev seller : Player
seller = record player { player_id = "p2"; username = "bob" }

abbrev desk : Desk
desk = record { store = []; touched = ("p1", player) ∷ ("p2", seller) ∷ []; open_orders = [] }

abbrev trade : Trade
trade = record {
  id = record { request_id = "r"; number = 1 };
  symbol = "TECH";
  price = 100;
  quantity = 2;
  aggressor_side = Side.buy;
  buy_order_id = "o1";
  sell_order_id = "o2";
  buyer_id = "p1";
  seller_id = "p2";
  buyer_role = "Buyer";
  seller_role = "Buyer";
  executed_at = 9;
}

abbrev settling : Settling
settling = record {
  desk = desk;
  incoming = record {
    order = record {
      id = "o1";
      request_id = "r";
      player_id = "p1";
      player_role = "Buyer";
      symbol = "TECH";
      side = Side.buy;
      kind = OrderType.limit;
      price = 100;
      quantity = 2;
      remaining_quantity = 0;
      status = OrderStatus.filled;
      created_at = 1;
    };
    reserved_cash = pos 201;
    reserved_quantity = pos 0;
  };
  touched_orders = [];
}

both_touched : touch_both trade desk ≡ some desk
unfolding touch_both touch lookup
both_touched = refl

apply_trade-cash_example :
    (s' : Settling) × (apply_trade trade "o1" settling ≡ ok s')
    × ((who : String)
        → cash_of who s'.desk.touched
          ≡ at_player "p2"
              (λ c. add64 c (income trade "o1" settling))
              who
              (at_player "p1"
                (λ c. sub64 c (payment trade "o1" settling))
                who
                (cash_of who desk.touched)))
apply_trade-cash_example = apply_trade-cash trade "o1" settling desk both_touched
