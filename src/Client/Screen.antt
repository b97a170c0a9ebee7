-- ===== src/Client/Screen.antt =====
-- Clicks, the layout of the ticker tiles and the width of the plot, of cmd/game-client/main.go, and
-- the event banner of event_banner.go.
use ssh_arena.Prelude.{
  ℕ, suc, ◌+◌, ◌-◌, ◌*◌, ◌/◌, ◌%◌, String, Bool, true, false, ◌||◌, Option, none, some, List, [],
  ◌∷◌, ltb, leb, if◌then◌else◌, length,
}
use ssh_arena.Prelude.Int.{pos, negsuc, ltb_ℤ}
use ssh_arena.Prelude.Float.{Float}
use ssh_arena.OrderBook.Types.{Side}
use ssh_arena.Prelude.Runes.{trim_space, is_nil}
use ssh_arena.Client.Chart.{max_int}
use ssh_arena.Client.State.{
  Rect, TickerRect, OrderbookRect, ChatNameRect, EventBanner, UiState, chat_focused, market_event,
  select, zoom_chart,
}
use ssh_arena.Client.Ticket.{FloatText, open_book_ticket}
use ssh_arena.Client.Chat.{scroll_chat, copy_player_id_into_chat}
use ssh_arena.Client.Input.{Handled, going, inside, buy_insider}

pub record Mouse : Type 0 where
  pub x : ℕ
  pub y : ℕ
  pub wheel_up : Bool
  pub wheel_down : Bool
  pub button1 : Bool

-- The tile of a symbol; tiles are 22 by 5, with a gap of one.
abbrev pub tile : String → ℕ → ℕ → TickerRect
tile symbol x y = record {
  symbol = symbol;
  rect = record { x1 = x; y1 = y; x2 = x + 21; y2 = y + 4 };
}

-- The loop of `render` over the symbols from an index on: a tile that does not fit is left out.
unfoldable pub tiles_from : ℕ → ℕ → ℕ → ℕ → ℕ → List String → List TickerRect
tiles_from w h tile_y cols i [] = []
tiles_from w h tile_y cols i (s ∷ ss) =
    let x = 1 + i % cols * 23 in
    let y = tile_y + i / cols * 6 in
    let rest = tiles_from w h tile_y cols (suc i) ss in
    if leb w (x + 22) || leb (h - 3) (y + 5) then rest else tile s x y ∷ rest

unfoldable pub ticker_tiles : ℕ → ℕ → ℕ → List String → List TickerRect
unfolding tiles_from max_int
ticker_tiles w h tile_y symbols = tiles_from w h tile_y (max_int 1 (w / 23)) 0 symbols

-- The index of the first tile under the mouse.
unfoldable pub tile_at : ℕ → ℕ → ℕ → List TickerRect → Option ℕ
tile_at x y i [] = none
tile_at x y i (t ∷ ts) =
    let later = tile_at x y (suc i) ts in if inside x y t.rect then some i else later

unfoldable pub name_at : ℕ → ℕ → List ChatNameRect → Option ChatNameRect
name_at x y [] = none
name_at x y (r ∷ rs) = let later = name_at x y rs in if inside x y r.rect then some r else later

unfoldable pub level_at : {F : Type 0} → ℕ → ℕ → List (OrderbookRect F) → Option (OrderbookRect F)
level_at x y [] = none
level_at x y (r ∷ rs) = let later = level_at x y rs in if inside x y r.rect then some r else later

-- A rectangle that is not drawn has no width.
abbrev pub inside_drawn : ℕ → ℕ → Option Rect → Bool
inside_drawn x y none = false
inside_drawn x y (some r) = if ltb r.x1 r.x2 then inside x y r else false

abbrev kept_banner : ℕ → Option EventBanner → Option EventBanner
kept_banner now none = none
kept_banner now (some b) = if ltb now b.expires_at then some b else none

module _ {F : Type 0} where
  abbrev pub click_chat : UiState F → Option ChatNameRect → UiState F
  click_chat s none = record s { chat_focus = true; status = chat_focused }
  click_chat s (some r) = copy_player_id_into_chat r s

  -- The tiles of `render`.
  unfoldable pub layout_tiles : ℕ → ℕ → ℕ → UiState F → UiState F
  layout_tiles w h tile_y s = record s { ticker_rects = ticker_tiles w h tile_y s.symbols }

  -- `state.chartPlotWidth = max(1, plotX2-plotX1+1)`.
  unfoldable pub set_plot_width : ℕ → ℕ → UiState F → UiState F
  unfolding max_int
  set_plot_width x1 x2 s = record s { chart_plot_width = max_int 1 (x2 + 1 - x1) }

  -- The chat that is scrolled back as far as it goes: the panel has two lines of border and one of
  -- input.
  abbrev max_scroll : Rect → UiState F → ℕ
  max_scroll r s = length s.chat_lines - max_int 1 (r.y2 - 1 - r.y1 - 2)

  -- What `renderChatPanel` writes into the state, with the names that it draws.
  unfoldable pub draw_chat_panel : Rect → List ChatNameRect → UiState F → UiState F
  unfolding max_int
  draw_chat_panel r names s =
      let limit = pos (max_scroll r s) in
      record s {
        chat_rect = r;
        chat_name_rects = names;
        chat_scroll = if ltb_ℤ limit s.chat_scroll then limit else s.chat_scroll;
      }

  -- The button and the rows that the sidebar draws.
  unfoldable pub draw_sidebar : Option Rect → List (OrderbookRect F) → UiState F → UiState F
  draw_sidebar button levels s = record s { insider_rect = button; orderbook_rects = levels }

  -- `activateMarketEvent`, of an event's message and name.
  unfoldable pub activate_market_event : ℕ → List ℕ → List ℕ → UiState F → UiState F
  unfolding trim_space
  activate_market_event now message name s =
      let first = trim_space message in
      let text = if is_nil first then trim_space name else first in
      if is_nil text then s else record s {
        banner = some (record { text = text; started_at = now; expires_at = now + 10_000_000_000 });
        status = market_event;
      }

  -- `bannerActive`, which forgets a banner whose time is over.
  unfoldable pub banner_active : ℕ → UiState F → UiState F
  banner_active now s = record s { banner = kept_banner now s.banner }

module _ {F : Type 0} ⦃f : Float F⦄ (fmt : FloatText F) where
  abbrev pub click_tile : UiState F → Option ℕ → Handled F
  click_tile s none = going s
  click_tile s (some i) = going (select i s)

  abbrev pub click_level : UiState F → Option ℕ → Option (OrderbookRect F) → Handled F
  click_level s t none = click_tile s t
  click_level s t (some r) =
      going (open_book_ticket fmt (if r.is_ask then Side.buy else Side.sell) r.price r.quantity s)

  unfoldable pub click : ℕ → ℕ → UiState F → Handled F
  unfolding tile_at name_at level_at
  click x y s =
      if inside x y s.chat_rect
      then going (click_chat s (name_at x y s.chat_name_rects))
      else if inside_drawn x y s.insider_rect
      then buy_insider s
      else click_level s (tile_at x y 0 s.ticker_rects) (level_at x y s.orderbook_rects)

  -- `handleMouseEvent`.
  unfoldable pub handle_mouse_event : Mouse → UiState F → Handled F
  unfolding click
  handle_mouse_event m s =
      let in_chat = inside m.x m.y s.chat_rect in
      if m.wheel_up
      then going (if in_chat then scroll_chat (pos 3) s else zoom_chart (pos 1) s)
      else if m.wheel_down
      then going (if in_chat then scroll_chat (negsuc 2) s else zoom_chart (negsuc 0) s)
      else if m.button1
      then click m.x m.y s
      else going s
