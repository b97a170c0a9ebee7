-- ===== src/Client/Loop.antt =====
-- The event loop of the terminal client, main of cmd/game-client/main.go: messages, which the network
-- goroutines have decoded, keys, clicks, and what drawing writes into the state: the places of the
-- sidebar's button and rows and of the chat's names come as arguments.
use ssh_arena.Prelude.{
  ℕ, String, Bool, true, false, not, Option, none, some, List, [], ◌∷◌, if◌then◌else◌,
}
use ssh_arena.Prelude.Int.{ℤ, pos}
use ssh_arena.Prelude.Text.{str_eq, assign}
use ssh_arena.Prelude.Float.{Float}
use ssh_arena.Charting.{PriceChartTick}
use ssh_arena.Intel.Feeds.{CatalogItem, Kind, is_insider}
use ssh_arena.Gameplay.Portfolio.{PortfolioSnapshot, TradeRulesSnapshot}
use ssh_arena.Client.State.{
  Rect, OrderbookRect, ChatNameRect, UiState, ChatEntry, Status, live_tick, preview_received,
  rules_loaded, portfolio_refreshed, insider_ready, catalog_loaded, order_accepted, insider_armed,
  preview_delivered, intel_purchased, action_completed, error_shown, current_symbol, clamp_viewport,
}
use ssh_arena.Client.Ticket.{FloatText}
use ssh_arena.Client.Chat.{append_chat_entry}
use ssh_arena.Client.Input.{Key, handle_key_event}
use ssh_arena.Client.Screen.{
  Mouse, handle_mouse_event, layout_tiles, set_plot_width, draw_chat_panel, draw_sidebar,
  activate_market_event, banner_active,
}
pub mod Valid
pub mod Turns

-- What an intel purchase answered with.
pub data Delivered : Type 0 where
  armed preview other : Delivered

-- A decoded answer; the last one is an answer that says nothing to the client.
pub data Response : Type 0 where
  rules : TradeRulesSnapshot → Response
  portfolio : PortfolioSnapshot → Response
  catalog : List CatalogItem → Response
  order : Option PortfolioSnapshot → Response
  intel : Option PortfolioSnapshot → Delivered → Response
  done : Response

pub data Input (F : Type 0) : Type 0 where
  response : Response → Input F
  tick : PriceChartTick F → Input F
  status : Status → Input F
  event : ℕ → List ℕ → List ℕ → Input F
  chat : ChatEntry → Input F
  stream_portfolio : PortfolioSnapshot → Input F
  error : Input F
  key : Key → Input F
  mouse : Mouse → Input F
  tiles : ℕ → ℕ → ℕ → Input F
  plot : ℕ → ℕ → Input F
  chat_panel : Rect → List ChatNameRect → Input F
  sidebar : Option Rect → List (OrderbookRect F) → Input F
  clock : ℕ → Input F

-- The first insider feed of a catalogue.
unfoldable pub first_insider : List CatalogItem → Option CatalogItem
first_insider [] = none
first_insider (i ∷ is) =
    let later = first_insider is in elim i.kind [ Kind.insider ↦ some i | _ ↦ later ]

abbrev delivered_status : Delivered → Status
delivered_status armed = insider_armed
delivered_status preview = preview_delivered
delivered_status other = intel_purchased

abbrev offer_status : Option CatalogItem → Status
offer_status none = catalog_loaded
offer_status (some i) = insider_ready

module _ {F : Type 0} where
  abbrev with_portfolio : Option PortfolioSnapshot → UiState F → UiState F
  with_portfolio none s = s
  with_portfolio (some p) s = record s { portfolio = some p; rules = p.rules }

  abbrev with_status : Status → UiState F → UiState F
  with_status x s = record s { status = x }

  -- `applyActionResponse`.
  unfoldable pub apply_action_response : Response → UiState F → UiState F
  unfolding first_insider
  apply_action_response (rules r) s = record s { rules = r; status = rules_loaded }
  apply_action_response (portfolio p) s =
      with_status portfolio_refreshed (with_portfolio (some p) s)
  apply_action_response (catalog items) s = record s {
    insider_offer = first_insider items;
    status = offer_status (first_insider items);
  }
  apply_action_response (order p) s = with_status order_accepted (with_portfolio p s)
  apply_action_response (intel p d) s = with_status (delivered_status d) (with_portfolio p s)
  apply_action_response done s = with_status action_completed s

module _ {F : Type 0} ⦃f : Float F⦄ (fmt : FloatText F) where
  -- A tick of a ticker.
  unfoldable pub note_tick : PriceChartTick F → UiState F → UiState F
  unfolding clamp_viewport
  note_tick t s =
      let s' = clamp_viewport (record s { ticks = assign s.ticks t.ticker (some t) }) in
      record s' {
        status =
            if str_eq t.ticker (current_symbol s.symbols s.selected) then live_tick else s.status;
      }

  -- A line of the chat.
  unfoldable pub note_entry : ChatEntry → UiState F → UiState F
  unfolding append_chat_entry
  note_entry e s =
      let s' = append_chat_entry e s in
      record s' {
        status = if str_eq e.kind "intel.insider.preview" then preview_received else s.status;
      }

  -- One turn of the loop.
  unfoldable pub turn : Input F → UiState F → UiState F
  unfolding apply_action_response note_tick note_entry
  turn (response r) s = apply_action_response r s
  turn (tick t) s = note_tick t s
  turn (status x) s = with_status x s
  turn (event now message name) s = activate_market_event now message name s
  turn (chat e) s = note_entry e s
  turn (stream_portfolio p) s = record s { portfolio = some p }
  turn error s = with_status error_shown s
  turn (key k) s = (handle_key_event fmt k s).state
  turn (mouse m) s = (handle_mouse_event fmt m s).state
  turn (tiles w h tile_y) s = layout_tiles w h tile_y s
  turn (plot x1 x2) s = set_plot_width x1 x2 s
  turn (chat_panel r names) s = draw_chat_panel r names s
  turn (sidebar button levels) s = draw_sidebar button levels s
  turn (clock now) s = banner_active now s

  unfoldable pub turns : List (Input F) → UiState F → UiState F
  unfolding turn
  turns [] s = s
  turns (i ∷ is) s = turns is (turn i s)
