-- ===== src/Client/Input.antt =====
-- Keys and clicks of the terminal client: handleKeyEvent, handleTicketKeyEvent and handleMouseEvent
-- of cmd/game-client/main.go, and handleChatKeyEvent of chat_ui.go.
use ssh_arena.Prelude.{
  ℕ, zero, suc, ◌+◌, ◌-◌, ◌%◌, String, Bool, true, false, ◌&&◌, ◌||◌, Option, none, some, List, [],
  ◌∷◌, ◌++◌, ltb, leb, ◌==◌, if◌then◌else◌, length, take,
}
use ssh_arena.Prelude.Int.{ℤ, pos, negsuc, sub_ℕ}
use ssh_arena.Prelude.Outcome.{Outcome, ok, err}
use ssh_arena.Prelude.Float.{Float}
use ssh_arena.OrderBook.Types.{Side, OrderType, limit, market}
use ssh_arena.Intel.Feeds.{CatalogItem}
use ssh_arena.Client.State.{
  OrderTicket, no_ticket, Rect, UiState, Status, ticket_closed, submitting, loading_catalog,
  buying_insider, current_symbol, reset_viewport, select, move_selection, zoom_chart, pan_step,
  pan_chart, shift_timeframe,
}
use ssh_arena.Client.Ticket.{FloatText, TicketError, build_order_payload, open_ticket}
use ssh_arena.Client.Chat.{ChatError, ChatPayload, build_chat_payload, scroll_chat, close_chat}

pub data Key : Type 0 where
  ctrl_c escape left right up down home end pg_up pg_dn tab backspace enter other : Key
  rune : ℕ → Key

-- What a handler starts: an action of the server, or an error for its own status line.
pub data Command : Type 0 where
  place_order : String → Side → OrderType → ℤ → ℤ → Command
  get_portfolio get_catalog : Command
  buy_intel : String → Command
  send_chat : ChatPayload → Command
  report_ticket : TicketError → Command
  report_chat : ChatError → Command

-- Whether the client goes on, its state, and what was started.
pub record Handled (F : Type 0) : Type 0 where
  pub running : Bool
  pub state : UiState F
  pub commands : List Command

-- A character, or the same as a capital.
abbrev pub either : ℕ → ℕ → Bool
either r c = r == c || r == c - 32

-- `xs[:len(xs)-1]`, if there is something to drop.
unfoldable pub drop_last : List ℕ → List ℕ
drop_last xs = take (length xs - 1) xs

unfoldable pub erase_in : ℕ → OrderTicket → OrderTicket
unfolding drop_last
erase_in zero t = t
erase_in (suc zero) t = record t { price = drop_last t.price }
erase_in (suc (suc zero)) t = record t { quantity = drop_last t.quantity }
erase_in (suc (suc (suc n))) t = t

-- A character that is typed into the field of the ticket.
unfoldable pub type_in : ℕ → OrderTicket → OrderTicket
type_in r t =
    let digit = leb b'0' r && leb r b'9' in
    if t.field == 0 && either r b'm'
    then record t { kind = market }
    else if t.field == 0 && either r b'l'
    then record t { kind = limit }
    else if t.field == 1 && (digit || r == b'.')
    then record t { price = t.price ++ r ∷ [] }
    else if t.field == 2 && digit
    then record t { quantity = t.quantity ++ r ∷ [] }
    else t

abbrev pub inside : ℕ → ℕ → Rect → Bool
inside x y r = leb r.x1 x && leb x r.x2 && leb r.y1 y && leb y r.y2

module _ {F : Type 0} where
  abbrev pub going : UiState F → Handled F
  going s = record { running = true; state = s; commands = [] }

  abbrev starting : UiState F → Command → Handled F
  starting s c = record { running = true; state = s; commands = c ∷ [] }

  abbrev buy_offer : UiState F → Option CatalogItem → Handled F
  buy_offer s none = starting (record s { status = loading_catalog }) get_catalog
  buy_offer s (some i) = starting (record s { status = buying_insider }) (buy_intel i.id)

  -- `buyInsiderAsync`.
  unfoldable pub buy_insider : UiState F → Handled F
  buy_insider s = buy_offer s s.insider_offer

  abbrev sent_chat : UiState F → Outcome ChatError ChatPayload → Handled F
  sent_chat s (err e) = starting s (report_chat e)
  sent_chat s (ok p) =
      starting (record s { chat_input = []; status = Status.sending_chat }) (send_chat p)

  -- `submitChatAsync`.
  unfoldable pub submit_chat : UiState F → Handled F
  submit_chat s = sent_chat s (build_chat_payload s.chat_input)

  -- `handleChatKeyEvent`.
  unfoldable pub handle_chat_key : Key → UiState F → Handled F
  unfolding submit_chat scroll_chat close_chat drop_last
  handle_chat_key escape s = going (close_chat s)
  handle_chat_key enter s = submit_chat s
  handle_chat_key backspace s = going (record s { chat_input = drop_last s.chat_input })
  handle_chat_key tab s = going (close_chat s)
  handle_chat_key pg_up s = going (scroll_chat (pos 5) s)
  handle_chat_key pg_dn s = going (scroll_chat (negsuc 4) s)
  handle_chat_key up s = going (scroll_chat (pos 1) s)
  handle_chat_key down s = going (scroll_chat (negsuc 0) s)
  handle_chat_key home s = going (record s { chat_scroll = pos 999_999 })
  handle_chat_key end s = going (record s { chat_scroll = pos 0 })
  handle_chat_key (rune r) s =
      going (if leb 32 r then record s { chat_input = s.chat_input ++ r ∷ [] } else s)
  handle_chat_key ctrl_c s = going s
  handle_chat_key left s = going s
  handle_chat_key right s = going s
  handle_chat_key other s = going s

  unfoldable pub close_ticket : UiState F → UiState F
  close_ticket s = record s { ticket = no_ticket; status = ticket_closed }

module _ {F : Type 0} ⦃f : Float F⦄ (fmt : FloatText F) where
  abbrev sent_order : UiState F → Outcome TicketError (ℤ × ℤ) → Handled F
  sent_order s (err e) = starting s (report_ticket e)
  sent_order s (ok (price, qty)) =
      starting (record s { ticket = no_ticket; status = submitting })
        (place_order (current_symbol s.symbols s.selected) s.ticket.side s.ticket.kind price qty)

  -- `submitOrderAsync`.
  unfoldable pub submit_order : UiState F → Handled F
  submit_order s = sent_order s (build_order_payload fmt s.ticket)

  -- `handleTicketKeyEvent`.
  unfoldable pub handle_ticket_key : Key → UiState F → Handled F
  unfolding submit_order close_ticket erase_in type_in
  handle_ticket_key escape s = going (close_ticket s)
  handle_ticket_key tab s =
      let t = s.ticket in going (record s { ticket = record t { field = (t.field + 1) % 3 } })
  handle_ticket_key backspace s = going (record s { ticket = erase_in s.ticket.field s.ticket })
  handle_ticket_key enter s = submit_order s
  handle_ticket_key (rune r) s =
      going (if either r b'q' then close_ticket s else record s { ticket = type_in r s.ticket })
  handle_ticket_key ctrl_c s = going s
  handle_ticket_key left s = going s
  handle_ticket_key right s = going s
  handle_ticket_key up s = going s
  handle_ticket_key down s = going s
  handle_ticket_key home s = going s
  handle_ticket_key end s = going s
  handle_ticket_key pg_up s = going s
  handle_ticket_key pg_dn s = going s
  handle_ticket_key other s = going s

  -- The keys `1` to `8`.
  unfoldable pub select_digit : ℕ → UiState F → UiState F
  unfolding select
  select_digit r s = if ltb (r - b'1') (length s.symbols) then select (r - b'1') s else s

  unfoldable pub handle_rune : ℕ → UiState F → Handled F
  unfolding select_digit buy_insider
  handle_rune r s =
      if either r b'q'
      then record { running = false; state = s; commands = [] }
      else if either r b'h'
      then going (move_selection (negsuc 0) s)
      else if either r b'l'
      then going (move_selection (pos 1) s)
      else if leb b'1' r && leb r b'8'
      then going (select_digit r s)
      else if r == b'+' || r == b'='
      then going (zoom_chart (pos 1) s)
      else if r == b'-' || r == b'_'
      then going (zoom_chart (negsuc 0) s)
      else if either r b'a'
      then going (pan_chart (pos (pan_step s)) s)
      else if either r b'd'
      then going (pan_chart (sub_ℕ 0 (pan_step s)) s)
      else if r == b'0'
      then going (reset_viewport s)
      else if r == b'[' || r == b'{' || either r b'w'
      then going (shift_timeframe (negsuc 0) s)
      else if r == b']' || r == b'}' || either r b't'
      then going (shift_timeframe (pos 1) s)
      else if either r b'b'
      then going (open_ticket fmt Side.buy s)
      else if either r b's'
      then going (open_ticket fmt Side.sell s)
      else if either r b'r'
      then starting s get_portfolio
      else if either r b'i'
      then buy_insider s
      else going s

  unfoldable pub handle_main_key : Key → UiState F → Handled F
  unfolding handle_rune
  handle_main_key ctrl_c s = record { running = false; state = s; commands = [] }
  handle_main_key escape s = record { running = false; state = s; commands = [] }
  handle_main_key left s = going (move_selection (negsuc 0) s)
  handle_main_key right s = going (move_selection (pos 1) s)
  handle_main_key up s = going (zoom_chart (pos 1) s)
  handle_main_key down s = going (zoom_chart (negsuc 0) s)
  handle_main_key home s = going (reset_viewport s)
  handle_main_key pg_up s = going (pan_chart (pos (pan_step s)) s)
  handle_main_key pg_dn s = going (pan_chart (sub_ℕ 0 (pan_step s)) s)
  handle_main_key (rune r) s = handle_rune r s
  handle_main_key end s = going s
  handle_main_key tab s = going s
  handle_main_key backspace s = going s
  handle_main_key enter s = going s
  handle_main_key other s = going s

  -- `handleKeyEvent`.
  unfoldable pub handle_key_event : Key → UiState F → Handled F
  unfolding handle_main_key handle_ticket_key handle_chat_key
  handle_key_event k s =
      if s.ticket.active
      then handle_ticket_key k s
      else if s.chat_focus
      then handle_chat_key k s
      else handle_main_key k s
