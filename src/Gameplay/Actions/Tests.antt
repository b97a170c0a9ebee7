-- ===== src/Gameplay/Actions/Tests.antt =====
-- A player who buys a feed whose preview is due, a login, and instances of their theorems.
use ssh_arena.Prelude.{
  ℕ, ◌+◌, ◌≡◌, refl, String, true, false, none, some, List, [], ◌∷◌, if◌then◌else◌,
}
use ssh_arena.Prelude.Int.{pos, wrap64, ◌-ℤ◌}
use ssh_arena.Prelude.Text.{str_eq}
use ssh_arena.Prelude.Float.Fixed.{Fixed, fixed_float}
use ssh_arena.State.Player.{Player, get_by_player_id}
use ssh_arena.State.ChatStore.{ChatMessage}
use ssh_arena.Roles.{Random, Profile}
use ssh_arena.Intel.Feeds.{Kind, Definition, Scheduled}
use ssh_arena.Intel.Feeds as Feeds
use ssh_arena.Intel.Access.{is_early}
use ssh_arena.Gameplay.Orders.{World}
use ssh_arena.Gameplay.IntelBuy as Intel
use ssh_arena.Gameplay.Sessions.{Game, Login, ensure_player}
use ssh_arena.Gameplay.Sessions.Granted.{IsLogin, ensure_player-IsLogin}
use ssh_arena.MarketEvents.{PlannedEvent}
use ssh_arena.Gameplay.Notices.{free, held}
use ssh_arena.Gameplay.Actions.{
  Action, market_catalog, get_portfolio, buy_intel, Result, execute_action,
}
use ssh_arena.Gameplay.Actions.Locking.{execute_action_deadlocks}
use ssh_arena.Gameplay.Actions.Serving.{Request, Served, execute_all, execute_all-Served}

abbrev feed : Definition
feed = record {
  id = "tip";
  kind = Kind.insider;
  name = "Tip";
  description = "";
  price = pos 500;
  lead_time_seconds = 30;
  global = true;
  ticker = "";
  multiplier = record { low = pos 0; high = pos 0 };
}

abbrev scheduled : Scheduled
scheduled = record {
  event = record {
    id = 1;
    event_name = "crash";
    message = "sell";
    global = true;
    symbol = "";
    multiplier_pct = pos 3;
    duration_seconds = pos 30;
    scheduled_at = 50_000_000_000;
  };
  buyers = [];
  preview_sent = true;
}

abbrev feeds : Feeds.Engine
feeds = record {
  defs = λ id. if str_eq id "tip" then some feed else none;
  ordered_defs = feed ∷ [];
  pending = [];
  next_event = some scheduled;
}

abbrev player : Player
player = record {
  player_id = "p1";
  username = "ann";
  role = "Buyer";
  cash = pos 1000;
  reserved_cash = pos 100;
  portfolio = λ s. pos 5;
  reserved_stocks = λ s. pos 1;
  lots = λ s. [];
  created_at = 0;
  last_login_at = 0;
}

abbrev profile : Profile
profile = record { cash = pos 1000; base_holdings = λ s. pos 5; variance_pct = pos 10 }

-- A generator that counts, and gives halves.
abbrev random : Random Fixed ℕ
random = record { float64 = λ r. (fixed_float.decimal 5 1, r + 1); intn = λ n r. (0, r + 1) }

abbrev game : Game Fixed ℕ
game = record {
  orders = record {
    players = ("ann", player) ∷ [];
    open_orders = [];
    symbols = [];
    records = record {
      market = record {
        books = λ s. none;
        tickers = [];
        engine = record { configs = λ s. none; state = λ s. none };
        recent_trades = λ s. [];
      };
      trade_history = record { max_records = 10; trades = [] };
      performance = record { max_snapshots = 10; snapshots = [] };
    };
  };
  grants = [];
  chat = record { history = []; history_limit = 10; store = none };
  private_history = λ p. [];
  intel = some feeds;
  roles = record { buyer_profile = profile; holder_profile = profile; whale_profile = profile };
  rng = 0;
}

abbrev encode : ChatMessage → String
encode m = m.body

abbrev world : World
world = record { written = true; settled = 2; cached = true; now = 30_000_000_000; fresh = "o1" }

abbrev intel_side : Intel.World
intel_side = record {
  written = true;
  recorded = true;
  now = 30_000_000_000;
  tickers = [];
  has_chart = λ s. false;
  index = 0;
}

is_due : is_early 30_000_000_000 feed scheduled.event ≡ false
unfolding is_early
is_due = refl

known : get_by_player_id "p1" game.orders.players ≡ some player
unfolding get_by_player_id
known = refl

abbrev render_preview : String → PlannedEvent → ℕ → String
render_preview id ev now = ev.message

abbrev stuck : Result Fixed ℕ
stuck = execute_action encode render_preview world intel_side "r1" "p1" (buy_intel "tip") game free

execute_action_deadlocks_example :
    (stuck.1 ≡ none)
    × ((w' : World) (iw' : Intel.World) (later_id other_id : String) (a : Action)
          (g' : Game Fixed ℕ)
        → execute_action encode render_preview w' iw' later_id other_id a g' stuck.0 ≡ (held, none))
unfolding wrap64 ◌-ℤ◌
execute_action_deadlocks_example =
    execute_action_deadlocks encode render_preview world intel_side "r1" "p1" "tip" game feeds
      player feed scheduled refl known refl refl refl refl refl is_due refl refl

abbrev asks : Action → Request
asks a = record {
  world = world;
  intel_world = intel_side;
  request_id = "r1";
  player_id = "p1";
  action = a;
}

abbrev requests : List Request
requests = asks market_catalog ∷ asks (buy_intel "tip") ∷ asks get_portfolio ∷ []

execute_all-Served_example :
    Served encode render_preview requests game
      (execute_all encode render_preview requests game free)
execute_all-Served_example = execute_all-Served encode render_preview requests game

abbrev login : Login
login = record { written = true; now = 7; fresh_player = "p2"; fresh_token = "t1" }

ensure_player-IsLogin_example : IsLogin 7 9 (ensure_player random login "bob" game)
ensure_player-IsLogin_example = ensure_player-IsLogin random login 9 "bob" game refl
