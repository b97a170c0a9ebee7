-- ===== src/Client/Tests.antt =====
-- Instances of the theorems on the client.
use ssh_arena.Prelude.{
  ℕ, ◌+◌, ◌/◌, ◌≤◌, ◌<◌, ◌≡◌, refl, min, String, true, false, none, some, List, [], ◌∷◌, ◌++◌,
  length, arith,
}
use ssh_arena.Prelude.Int.{pos, wrap64, div64, ◌*ℤ◌}
use ssh_arena.Prelude.Outcome.{ok}
use ssh_arena.Prelude.Float.Fixed.{Fixed, fixed_float}
use ssh_arena.OrderBook.Types.{Side, limit}
use ssh_arena.Charting.{HistoryPoint, PriceChartTick}
use ssh_arena.Gameplay.Portfolio.{trading_rules_snapshot}
use ssh_arena.Prelude.Runes.{fields, join_words, trim_space, replace_all, scan_int, print_int}
use ssh_arena.Client.Chart.{
  timeframe_history, timeframe_start, compute_visible_points, Viewport, chart_viewport,
  window_start, start_after_zoom,
}
use ssh_arena.Client.Chart.Shown.{Shows, chart_viewport-Shows, start_after_zoom-KeepsCenter}
use ssh_arena.Client.State.{Rect, ChatNameRect, OrderTicket, UiState, connecting}
use ssh_arena.Client.Ticket.{
  FloatText, parse_whole_units, estimate_price, estimate_ticket_cost, fresh_stock_of,
}
use ssh_arena.Client.Ticket.Estimate.{settled_total, estimate_ticket_cost-Settled}
use ssh_arena.Client.Chat.{direct, build_chat_payload, copy_player_id_into_chat}
use ssh_arena.Client.Chat.Direct.{copy-build_chat_payload}
use ssh_arena.Client.Input.{Key}
use ssh_arena.Client.Screen.{tile_at, ticker_tiles}
use ssh_arena.Client.Loop.{Input, turns}
use ssh_arena.Client.Loop.Valid.{IsValid}
use ssh_arena.Client.Loop.Turns.{turns-IsValid}

abbrev point : ℕ → HistoryPoint Fixed
point ts = record { ts = ts; price = record { units = pos 10_000 }; volume = pos 1 }

abbrev history : List (HistoryPoint Fixed)
history = point 10_000 ∷ point 65_000 ∷ point 70_000 ∷ []

abbrev tick : PriceChartTick Fixed
tick = record {
  ticker = "TECH";
  timestamp = 70_000;
  current_price = record { units = pos 10_000 };
  volume_1m = pos 0;
  change_1m_pct = record { units = pos 0 };
  change_5m_pct = record { units = pos 0 };
  change_15m_pct = record { units = pos 0 };
  volatility_5m = record { units = pos 0 };
  vwap_5m = record { units = pos 0 };
  bids = [];
  asks = [];
  history = history;
}

-- Whole numbers are enough here.
abbrev fixed_text : FloatText Fixed
fixed_text = record {
  two_places = λ x. print_int x.units;
  scan = λ cs. elim (scan_int cs) [ none ↦ none | some z ↦ some (record { units = z }) ];
}

abbrev corner : Rect
corner = record { x1 = 0; y1 = 0; x2 = 9; y2 = 3 }

abbrev ticket : OrderTicket
ticket = record {
  active = true;
  side = Side.buy;
  kind = limit;
  price = b'2' ∷ b'0' ∷ b'0' ∷ b'0' ∷ b'0' ∷ [];
  quantity = b'3' ∷ [];
  field = 1;
}

abbrev client : UiState Fixed
client = record {
  symbols = "TECH" ∷ "BANK" ∷ [];
  selected = 0;
  status = connecting;
  ticks = λ s. some tick;
  ticker_rects = [];
  orderbook_rects = [];
  portfolio = none;
  rules = trading_rules_snapshot;
  ticket = ticket;
  chart_zoom = pos 0;
  chart_offset = pos 0;
  chart_plot_width = 40;
  timeframe = 0;
  chat_rect = corner;
  chat_name_rects = [];
  chat_lines = [];
  chat_input = [];
  chat_scroll = pos 0;
  chat_focus = false;
  insider_offer = none;
  insider_rect = none;
  banner = none;
}

-- Of three points two lie within the last minute.
chart_viewport-Shows_example :
    let total = length (timeframe_history history 60_000) in
    let count = compute_visible_points Fixed total 31 (pos 0) in
    (v : Viewport Fixed) × (chart_viewport history 30 (pos 0) (pos 5) 60_000 ≡ some v)
    × Shows history (timeframe_start history 60_000) count v
    × (0 < count)
    × (min 8 total ≤ count)
chart_viewport-Shows_example = chart_viewport-Shows history 30 (pos 0) (pos 5) 60_000 (omega arith)

start_after_zoom-KeepsCenter_example :
    let center = window_start 100 40 (pos 7) + 40 / 2 in
    let start = start_after_zoom 100 40 25 (pos 7) in
    (start ≤ center) × (center < start + 25) × (start + 25 ≤ 100)
start_after_zoom-KeepsCenter_example =
    start_after_zoom-KeepsCenter 100 40 25 (pos 7) (omega arith) (omega arith) (omega arith)
      (omega arith)

estimate_ticket_cost-Settled_example :
    (estimate_ticket_cost fixed_text client "TECH" tick).total
    ≡ settled_total fixed_text Side.buy limit (pos 200) (pos 3) (fresh_stock_of none "TECH")
unfolding parse_whole_units estimate_price trim_space fixed_float replace_all wrap64 div64 ◌*ℤ◌
estimate_ticket_cost-Settled_example =
    estimate_ticket_cost-Settled fixed_text client "TECH" tick (pos 3) (pos 200) refl refl refl refl
      refl

abbrev name : ChatNameRect
name = record { player_id = b'p' ∷ b'1' ∷ []; rect = corner }

-- "hi  you".
abbrev typed : List ℕ
typed = b'h' ∷ b'i' ∷ 32 ∷ 32 ∷ b'y' ∷ b'o' ∷ b'u' ∷ []

copy-build_chat_payload_example :
    build_chat_payload ((copy_player_id_into_chat name client).chat_input ++ typed)
    ≡ ok (direct (b'p' ∷ b'1' ∷ []) (join_words (fields typed)))
unfolding fields
copy-build_chat_payload_example =
    copy-build_chat_payload name client typed (refl, (refl, (refl, tt))) refl

abbrev inputs : List (Input Fixed)
inputs =
    Input.tiles 100 60 4
    ∷ Input.key Key.escape
    ∷ Input.key Key.right
    ∷ Input.key (Key.rune b'[')
    ∷ Input.mouse (record { x = 30; y = 5; wheel_up = false; wheel_down = false; button1 = true })
    ∷ []

turns-IsValid_example : IsValid (turns fixed_text inputs client)
turns-IsValid_example = turns-IsValid fixed_text inputs {s = client} (ground arith)

abbrev six_symbols : List String
six_symbols = "A" ∷ "B" ∷ "C" ∷ "D" ∷ "E" ∷ "F" ∷ []

-- On a screen 115 wide the tile of "E" is left out, and a click on the tile of "F" selects index 4.
left_out_tile : tile_at 2 11 0 (ticker_tiles 115 60 4 six_symbols) ≡ some 4
unfolding tile_at ticker_tiles
left_out_tile = refl
