-- ===== src/Client/Loop/Turns.antt =====
-- Every turn of the client's loop keeps its state valid.
use ssh_arena.Prelude.{
  ℕ, ◌+◌, ◌-◌, ◌%◌, ◌<◌, subst, sym, Bool, Option, none, some, List, [], ◌∷◌, ltb, leb, ◌==◌, ◌&&◌,
  ◌||◌, if◌then◌else◌, if_cases, if_either, Option-cases, inl, inr, length, arith,
}
use ssh_arena.Prelude.Float.{Float}
use ssh_arena.OrderBook.Types.{Side}
use ssh_arena.Charting.{PriceChartTick}
use ssh_arena.Client.State.{Status, ChatEntry, UiState, OrderTicket, ChatNameRect, OrderbookRect}
use ssh_arena.Client.Ticket.{FloatText, open_ticket, open_book_ticket}
use ssh_arena.Client.Chat.{copy_player_id_into_chat, close_chat}
use ssh_arena.Client.Input
use ssh_arena.Client.Input.{Key, Handled, erase_in, type_in, drop_last, inside}
use ssh_arena.Client.Screen
use ssh_arena.Client.Screen.{Mouse, tile_at}
use ssh_arena.Client.Loop.{Input, turn, turns, note_tick, note_entry}
use ssh_arena.Client.Loop.Valid.{
  IsValid, ticker_tiles-le, erase_in-field, type_in-field, tile_at-lt, append_chat_entry-IsValid,
  scroll_chat-IsValid, select-IsValid, zoom_chart-IsValid, pan_chart-IsValid,
  shift_timeframe-IsValid, move_selection-IsValid, reset_viewport-IsValid,
}

-- A ticket whose field is one of three.
with_ticket-IsValid :
    {F : Type 0} (t : OrderTicket) {s : UiState F}
    → t.field < 3
    → IsValid s
    → IsValid (record s { ticket = t })
with_ticket-IsValid t h v = ground (arith, v.selected)

with_status-IsValid :
    {F : Type 0} (x : Status) {s : UiState F} → IsValid s → IsValid (record s { status = x })
with_status-IsValid x v = ground (arith, v.selected)

module _ {F : Type 0} where
  buy_insider-IsValid : {s : UiState F} → IsValid s → IsValid (Input.buy_insider s).state
  unfolding Input.buy_insider
  buy_insider-IsValid v = ground (arith, v.selected)

  submit_chat-IsValid : {s : UiState F} → IsValid s → IsValid (Input.submit_chat s).state
  unfolding Input.submit_chat
  submit_chat-IsValid v = ground (arith, v.selected)

  close_chat-IsValid : {s : UiState F} → IsValid s → IsValid (close_chat s)
  unfolding close_chat
  close_chat-IsValid v = ground (arith, v.selected)

  close_ticket-IsValid : {s : UiState F} → IsValid s → IsValid (Input.close_ticket s)
  unfolding Input.close_ticket
  close_ticket-IsValid v = ground (arith, v.selected)

  handle_chat_key-IsValid :
      (k : Key) {s : UiState F} → IsValid s → IsValid (Input.handle_chat_key k s).state
  unfolding Input.handle_chat_key
  handle_chat_key-IsValid Key.escape v = close_chat-IsValid v
  handle_chat_key-IsValid Key.enter v = submit_chat-IsValid v
  handle_chat_key-IsValid Key.backspace v = ground (arith, v.selected)
  handle_chat_key-IsValid Key.tab v = close_chat-IsValid v
  handle_chat_key-IsValid Key.pg_up v = scroll_chat-IsValid _ v
  handle_chat_key-IsValid Key.pg_dn v = scroll_chat-IsValid _ v
  handle_chat_key-IsValid Key.up v = scroll_chat-IsValid _ v
  handle_chat_key-IsValid Key.down v = scroll_chat-IsValid _ v
  handle_chat_key-IsValid Key.home v = ground (arith, v.selected)
  handle_chat_key-IsValid Key.end v = ground (arith, v.selected)
  handle_chat_key-IsValid (Key.rune r) v = ground (arith, v.selected)
  handle_chat_key-IsValid Key.ctrl_c v = v
  handle_chat_key-IsValid Key.left v = v
  handle_chat_key-IsValid Key.right v = v
  handle_chat_key-IsValid Key.other v = v

module _ {F : Type 0} ⦃f : Float F⦄ (fmt : FloatText F) where
  submit_order-IsValid : {s : UiState F} → IsValid s → IsValid (Input.submit_order fmt s).state
  unfolding Input.submit_order
  submit_order-IsValid v = ground (arith, v.selected)

  open_ticket-IsValid : (side : Side) {s : UiState F} → IsValid s → IsValid (open_ticket fmt side s)
  unfolding open_ticket
  open_ticket-IsValid side v = ground (arith, v.selected)

  handle_ticket_key-IsValid :
      (k : Key) {s : UiState F} → IsValid s → IsValid (Input.handle_ticket_key fmt k s).state
  unfolding Input.handle_ticket_key
  handle_ticket_key-IsValid Key.escape v = close_ticket-IsValid v
  handle_ticket_key-IsValid Key.tab {s} v =
      let t = s.ticket in
      with_ticket-IsValid (record t { field = (t.field + 1) % 3 }) (omega arith) v
  handle_ticket_key-IsValid Key.backspace {s} v =
      with_ticket-IsValid (erase_in s.ticket.field s.ticket)
        (subst (λ n. n < 3) (sym (erase_in-field s.ticket.field s.ticket)) v.field) v
  handle_ticket_key-IsValid Key.enter v = submit_order-IsValid v
  handle_ticket_key-IsValid (Key.rune r) {s} v =
      if_either IsValid (Input.either r b'q') _ _ (close_ticket-IsValid v) (
        with_ticket-IsValid (type_in r s.ticket)
          (subst (λ n. n < 3) (sym (type_in-field r s.ticket)) v.field) v)
  handle_ticket_key-IsValid Key.ctrl_c v = v
  handle_ticket_key-IsValid Key.left v = v
  handle_ticket_key-IsValid Key.right v = v
  handle_ticket_key-IsValid Key.up v = v
  handle_ticket_key-IsValid Key.down v = v
  handle_ticket_key-IsValid Key.home v = v
  handle_ticket_key-IsValid Key.end v = v
  handle_ticket_key-IsValid Key.pg_up v = v
  handle_ticket_key-IsValid Key.pg_dn v = v
  handle_ticket_key-IsValid Key.other v = v

  abbrev Fine : Handled F → Type 0
  Fine h = IsValid h.state

  -- One test of a chain, whose branches are fine.
  or_else : (b : Bool) (x y : Handled F) → Fine x → Fine y → Fine (if b then x else y)
  or_else b x y p q = if_either Fine b x y p q

  select_digit-IsValid : (r : ℕ) {s : UiState F} → IsValid s → IsValid (Input.select_digit fmt r s)
  unfolding Input.select_digit
  select_digit-IsValid r {s} v =
      if_cases IsValid (ltb (r - b'1') (length s.symbols)) _ _
        (λ small. select-IsValid (r - b'1') (λ h. ground (arith, small)) v) (λ big. v)

  handle_rune-IsValid : (r : ℕ) {s : UiState F} → IsValid s → Fine (Input.handle_rune fmt r s)
  unfolding Input.handle_rune
  handle_rune-IsValid r {s} v = or_else (Input.either r b'q') _ _ v (
      or_else (Input.either r b'h') _ _ (move_selection-IsValid _ v) (
        or_else (Input.either r b'l') _ _ (move_selection-IsValid _ v) (
          or_else (leb b'1' r && leb r b'8') _ _ (select_digit-IsValid r v) (
            or_else (r == b'+' || r == b'=') _ _ (zoom_chart-IsValid _ v) (
              or_else (r == b'-' || r == b'_') _ _ (zoom_chart-IsValid _ v) (
                or_else (Input.either r b'a') _ _ (pan_chart-IsValid _ v) (
                  or_else (Input.either r b'd') _ _ (pan_chart-IsValid _ v) (
                    or_else (r == b'0') _ _ (reset_viewport-IsValid v) (
                      or_else (r == b'[' || r == b'{' || Input.either r b'w') _ _
                        (shift_timeframe-IsValid _ v)
                        (or_else (r == b']' || r == b'}' || Input.either r b't') _ _
                          (shift_timeframe-IsValid _ v)
                          (or_else (Input.either r b'b') _ _ (open_ticket-IsValid Side.buy v) (
                            or_else (Input.either r b's') _ _ (open_ticket-IsValid Side.sell v) (
                              or_else (Input.either r b'r') _ _ v (
                                or_else (Input.either r b'i') _ _ (buy_insider-IsValid v)
                                  v))))))))))))))

  handle_main_key-IsValid :
      (k : Key) {s : UiState F} → IsValid s → Fine (Input.handle_main_key fmt k s)
  unfolding Input.handle_main_key
  handle_main_key-IsValid Key.ctrl_c v = v
  handle_main_key-IsValid Key.escape v = v
  handle_main_key-IsValid Key.left v = move_selection-IsValid _ v
  handle_main_key-IsValid Key.right v = move_selection-IsValid _ v
  handle_main_key-IsValid Key.up v = zoom_chart-IsValid _ v
  handle_main_key-IsValid Key.down v = zoom_chart-IsValid _ v
  handle_main_key-IsValid Key.home v = reset_viewport-IsValid v
  handle_main_key-IsValid Key.pg_up v = pan_chart-IsValid _ v
  handle_main_key-IsValid Key.pg_dn v = pan_chart-IsValid _ v
  handle_main_key-IsValid (Key.rune r) v = handle_rune-IsValid r v
  handle_main_key-IsValid Key.end v = v
  handle_main_key-IsValid Key.tab v = v
  handle_main_key-IsValid Key.backspace v = v
  handle_main_key-IsValid Key.enter v = v
  handle_main_key-IsValid Key.other v = v

  handle_key_event-IsValid :
      (k : Key) {s : UiState F} → IsValid s → Fine (Input.handle_key_event fmt k s)
  unfolding Input.handle_key_event
  handle_key_event-IsValid k {s} v =
      or_else s.ticket.active _ _ (handle_ticket_key-IsValid k v)
        (or_else s.chat_focus _ _ (handle_chat_key-IsValid k v) (handle_main_key-IsValid k v))

  click_tile-IsValid :
      (x y : ℕ) {s : UiState F}
      → IsValid s
      → Fine (Screen.click_tile fmt s (tile_at x y 0 s.ticker_rects))
  click_tile-IsValid x y {s} v = elim (Option-cases (tile_at x y 0 s.ticker_rects)) [
    | inl missed ↦ subst (λ o. Fine (Screen.click_tile fmt s o)) (sym missed) v
    | inr (i, hit) ↦
        subst (λ o. Fine (Screen.click_tile fmt s o)) (sym hit)
          (select-IsValid i (λ h. omega (arith, tile_at-lt x y 0 s.ticker_rects hit, v.tiles)) v)
  ]

  click_level-IsValid :
      (t : Option ℕ) (o : Option (OrderbookRect F)) {s : UiState F}
      → IsValid s
      → Fine (Screen.click_tile fmt s t)
      → Fine (Screen.click_level fmt s t o)
  unfolding open_book_ticket
  click_level-IsValid t none v h = h
  click_level-IsValid t (some r) v h = ground (arith, v.selected)

  click_chat-IsValid :
      (o : Option ChatNameRect) {s : UiState F} → IsValid s → IsValid (Screen.click_chat s o)
  unfolding copy_player_id_into_chat
  click_chat-IsValid none v = ground (arith, v.selected)
  click_chat-IsValid (some r) v = ground (arith, v.selected)

  handle_mouse_event-IsValid :
      (m : Mouse) {s : UiState F} → IsValid s → Fine (Screen.handle_mouse_event fmt m s)
  unfolding Screen.handle_mouse_event Screen.click
  handle_mouse_event-IsValid m {s} v =
      let in_chat = inside m.x m.y s.chat_rect in
      or_else m.wheel_up _ _
        (if_either IsValid in_chat _ _ (scroll_chat-IsValid _ v) (zoom_chart-IsValid _ v))
        (or_else m.wheel_down _ _
          (if_either IsValid in_chat _ _ (scroll_chat-IsValid _ v) (zoom_chart-IsValid _ v))
          (or_else m.button1 _ _
            (or_else in_chat _ _ (click_chat-IsValid _ v) (
              or_else (Screen.inside_drawn m.x m.y s.insider_rect) _ _ (buy_insider-IsValid v)
                (click_level-IsValid _ _ v (click_tile-IsValid m.x m.y v))))
            v))

  note_tick-IsValid :
      (t : PriceChartTick F) {s : UiState F} → IsValid s → IsValid (note_tick fmt t s)
  unfolding note_tick
  note_tick-IsValid t v = ground (arith, v.selected)

  note_entry-IsValid : (e : ChatEntry) {s : UiState F} → IsValid s → IsValid (note_entry fmt e s)
  unfolding note_entry
  note_entry-IsValid e {s} v = with_status-IsValid _ (append_chat_entry-IsValid e v)

  activate_market_event-IsValid :
      (now : ℕ) (message name : List ℕ) {s : UiState F}
      → IsValid s
      → IsValid (Screen.activate_market_event now message name s)
  unfolding Screen.activate_market_event
  activate_market_event-IsValid now message name v = ground (arith, v.selected)

  layout_tiles-IsValid :
      (w h y : ℕ) {s : UiState F} → IsValid s → IsValid (Screen.layout_tiles w h y s)
  unfolding Screen.layout_tiles
  layout_tiles-IsValid w h y {s} v = ground (arith, v.selected, ticker_tiles-le w h y s.symbols)

  turn-IsValid : (i : Input F) {s : UiState F} → IsValid s → IsValid (turn fmt i s)
  unfolding turn Screen.set_plot_width Screen.banner_active Screen.draw_chat_panel
      Screen.draw_sidebar
  turn-IsValid (Input.response r) v = ground (arith, v.selected)
  turn-IsValid (Input.tick t) v = note_tick-IsValid t v
  turn-IsValid (Input.status x) v = ground (arith, v.selected)
  turn-IsValid (Input.event now message name) v = activate_market_event-IsValid now message name v
  turn-IsValid (Input.chat e) v = note_entry-IsValid e v
  turn-IsValid (Input.stream_portfolio p) v = ground (arith, v.selected)
  turn-IsValid Input.error v = ground (arith, v.selected)
  turn-IsValid (Input.key k) v = handle_key_event-IsValid k v
  turn-IsValid (Input.mouse m) v = handle_mouse_event-IsValid m v
  turn-IsValid (Input.tiles w h tile_y) v = layout_tiles-IsValid w h tile_y v
  turn-IsValid (Input.plot x1 x2) v = ground (arith, v.selected)
  turn-IsValid (Input.chat_panel r names) v = ground (arith, v.selected)
  turn-IsValid (Input.sidebar button levels) v = ground (arith, v.selected)
  turn-IsValid (Input.clock now) v = ground (arith, v.selected)

  -- Whatever messages, keys, clicks and drawings follow one another, the state stays valid: every index
  -- into the symbols and the timeframe presets is one of theirs, the zoom stays between -6 and 12, the
  -- offset is not negative, and the chat keeps its limit.
  pub turns-IsValid :
      (inputs : List (Input F)) {s : UiState F} → IsValid s → IsValid (turns fmt inputs s)
  unfolding turns
  turns-IsValid [] v = v
  turns-IsValid (i ∷ is) v = turns-IsValid is (turn-IsValid i v)
