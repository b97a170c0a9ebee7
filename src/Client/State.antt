-- ===== src/Client/State.antt =====
-- The state of the terminal client, `uiState` of cmd/game-client/main.go, and how its chart is moved.
-- A status line is given without the numbers that are printed in it. What a handler sends to the
-- network or to its own channel is a list of commands.
use ssh_arena.Prelude.{
  ℕ, ◌+◌, ◌-◌, ◌/◌, ◌%◌, String, Bool, Option, none, some, List, [], ◌∷◌, ◌==◌, if◌then◌else◌,
  length, get_elem?,
}
use ssh_arena.Prelude.Int.{ℤ, pos, pos_part, add64, eqb_ℤ}
use ssh_arena.Prelude.Float.{Float}
use ssh_arena.OrderBook.Types.{Side, OrderType, unknown}
use ssh_arena.Charting.{HistoryPoint, PriceChartTick}
use ssh_arena.Intel.Feeds.{CatalogItem}
use ssh_arena.Gameplay.Portfolio.{PortfolioSnapshot, TradeRulesSnapshot}
use ssh_arena.Client.Chart.{
  max_int, timeframe_duration, timeframe_presets, timeframe_history, compute_visible_points,
  clamped_offset, zoomed, start_after_zoom,
}

-- What the user typed is a list of code points.
pub record OrderTicket : Type 0 where
  pub active : Bool
  pub side : Side
  pub kind : OrderType
  pub price : List ℕ
  pub quantity : List ℕ
  pub field : ℕ

abbrev pub no_ticket : OrderTicket
no_ticket = record {
  active = Bool.false;
  side = Side.unsupported;
  kind = unknown;
  price = [];
  quantity = [];
  field = 0;
}

pub record Rect : Type 0 where
  pub x1 : ℕ
  pub y1 : ℕ
  pub x2 : ℕ
  pub y2 : ℕ

pub record TickerRect : Type 0 where
  pub symbol : String
  pub rect : Rect

pub record OrderbookRect (F : Type 0) : Type 0 where
  pub is_ask : Bool
  pub price : F
  pub quantity : ℤ
  pub rect : Rect

pub record ChatNameRect : Type 0 where
  pub player_id : List ℕ
  pub rect : Rect

pub record ChatEntry : Type 0 where
  pub kind : String
  pub channel : String
  pub player_id : String
  pub username : String
  pub role : String
  pub body : String
  pub recipient_id : String
  pub recipient_username : String
  pub sent_at : ℕ
  pub topic : String

pub record EventBanner : Type 0 where
  pub text : List ℕ
  pub started_at : ℕ
  pub expires_at : ℕ

pub data Status : Type 0 where
  connecting ticket_closed viewport_reset submitting loading_catalog : Status
  symbol_selected timeframe_shown ticket_ready book_ticket_ready buying_insider : Status
  chat_closed chat_focused sending_chat dm_prepared market_event live_tick : Status
  preview_received rules_loaded portfolio_refreshed insider_ready catalog_loaded : Status
  order_accepted insider_armed preview_delivered intel_purchased action_completed : Status
  error_shown : Status

pub record UiState (F : Type 0) : Type 0 where
  pub symbols : List String
  pub selected : ℕ
  pub status : Status
  pub ticks : String → Option (PriceChartTick F)
  pub ticker_rects : List TickerRect
  pub orderbook_rects : List (OrderbookRect F)
  pub portfolio : Option PortfolioSnapshot
  pub rules : TradeRulesSnapshot
  pub ticket : OrderTicket
  pub chart_zoom : ℤ
  pub chart_offset : ℤ
  pub chart_plot_width : ℕ
  pub timeframe : ℕ
  pub chat_rect : Rect
  pub chat_name_rects : List ChatNameRect
  pub chat_lines : List ChatEntry
  pub chat_input : List ℕ
  pub chat_scroll : ℤ
  pub chat_focus : Bool
  pub insider_offer : Option CatalogItem
  pub insider_rect : Option Rect
  pub banner : Option EventBanner

abbrev first_symbol : List String → String
first_symbol [] = ""
first_symbol (s ∷ ss) = s

-- `currentSymbol`.
unfoldable pub current_symbol : List String → ℕ → String
current_symbol symbols selected = elim (get_elem? symbols selected) [
  | none ↦ first_symbol symbols
  | some s ↦ s
]

-- `(i + delta + n) % n`, where the sum is not negative, since delta is at least -1.
abbrev pub cycle : ℕ → ℤ → ℕ → ℕ
cycle i delta n = pos_part (add64 (add64 (pos i) delta) (pos n)) % n

-- `effectiveChartPlotWidth`.
unfoldable pub effective_plot_width : ℕ → ℕ
effective_plot_width width = if width == 0 then 96 else width

module _ {F : Type 0} where
  abbrev tick_history : Option (PriceChartTick F) → List (HistoryPoint F)
  tick_history none = []
  tick_history (some t) = t.history

  -- The history of the ticker that is shown.
  unfoldable pub shown_history : UiState F → List (HistoryPoint F)
  unfolding current_symbol
  shown_history s = tick_history (s.ticks (current_symbol s.symbols s.selected))

  unfoldable pub shown_base : UiState F → List (HistoryPoint F)
  shown_base s = timeframe_history (shown_history s) (timeframe_duration s.timeframe)

  -- `resetViewport`.
  unfoldable pub reset_viewport : UiState F → UiState F
  reset_viewport s = record s { chart_zoom = pos 0; chart_offset = pos 0; status = viewport_reset }

module _ {F : Type 0} ⦃f : Float F⦄ where
  -- `clampViewport`.
  unfoldable pub clamp_viewport : UiState F → UiState F
  unfolding effective_plot_width
  clamp_viewport s = record s {
    chart_offset = pos (
        clamped_offset (shown_history s) (timeframe_duration s.timeframe)
          (effective_plot_width s.chart_plot_width) s.chart_zoom s.chart_offset);
  }

  -- `state.selected = i`, as a key or a click does it.
  unfoldable pub select : ℕ → UiState F → UiState F
  unfolding clamp_viewport
  select i s =
      let t = clamp_viewport (record s { selected = i; chart_offset = pos 0 }) in
      record t { status = symbol_selected }

  -- `moveSelection`.
  unfoldable pub move_selection : ℤ → UiState F → UiState F
  unfolding select
  move_selection delta s =
      if length s.symbols == 0 then s else select (cycle s.selected delta (length s.symbols)) s

  abbrev pub visible_points : UiState F → ℤ → ℕ
  visible_points s zoom =
      compute_visible_points F (length (shown_base s)) (effective_plot_width s.chart_plot_width)
        zoom

  -- `zoomChart`.
  unfoldable pub zoom_chart : ℤ → UiState F → UiState F
  unfolding clamp_viewport shown_base
  zoom_chart delta s =
      let total = length (shown_base s) in
      let zoom = zoomed s.chart_zoom delta in
      let visible = visible_points s zoom in
      let start = start_after_zoom total (visible_points s s.chart_zoom) visible s.chart_offset in
      if total == 0
      then record s { chart_zoom = pos 0; chart_offset = pos 0 }
      else clamp_viewport
          (record s { chart_zoom = zoom; chart_offset = pos (total - (start + visible)) })

  -- `panStep`.
  unfoldable pub pan_step : UiState F → ℕ
  unfolding max_int
  pan_step s = max_int 1 (visible_points s s.chart_zoom / 8)

  -- `panChart`.
  unfoldable pub pan_chart : ℤ → UiState F → UiState F
  unfolding clamp_viewport
  pan_chart delta s =
      if eqb_ℤ delta (pos 0)
      then s
      else clamp_viewport (record s { chart_offset = add64 s.chart_offset delta })

  -- `shiftTimeframe`.
  unfoldable pub shift_timeframe : ℤ → UiState F → UiState F
  unfolding clamp_viewport
  shift_timeframe delta s =
      let t = clamp_viewport (record s {
        timeframe = cycle s.timeframe delta timeframe_presets;
        chart_offset = pos 0;
      }) in
      record t { status = timeframe_shown }
