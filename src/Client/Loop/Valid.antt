-- ===== src/Client/Loop/Valid.antt =====
-- What holds of the client's state between two turns.
use ssh_arena.Prelude.{
  ℕ, zero, suc, ◌+◌, ◌-◌, ◌≤◌, ◌<◌, ◌≡◌, refl, String, some, List, [], ◌∷◌, ◌++◌, ltb, ◌==◌,
  if_cases, if_either, length, drop, length-drop, arith,
}
use native.Mathlib.Nat.{mod-lt}
use ssh_arena.Prelude.Int.{ℤ, pos, negsuc, neg_part, eqb_ℤ, ◌≤ℤ◌}
use ssh_arena.Prelude.Float.{Float}
use ssh_arena.Client.Chart.{timeframe_presets, zoomed}
use ssh_arena.Client.State
use ssh_arena.Client.State.{UiState, OrderTicket, no_ticket, ChatEntry, TickerRect}
use ssh_arena.Client.Chat.{chat_limit, append_chat_entry, scroll_chat}
use ssh_arena.Client.Input.{erase_in, type_in}
use ssh_arena.Client.Screen.{tiles_from, ticker_tiles, tile_at}

-- The selected index is one of a symbol, the timeframe is a preset, the zoom is in its range and the
-- offset of the chart not negative, the ticket's field is one of three, there are no more tiles than
-- symbols, and the chat keeps its limit.
pub record IsValid {F : Type 0} (s : UiState F) : Type 0 where
  pub selected : 0 < length s.symbols → s.selected < length s.symbols
  pub timeframe : s.timeframe < timeframe_presets
  pub zoom_low : negsuc 5 ≤ℤ s.chart_zoom
  pub zoom_high : s.chart_zoom ≤ℤ pos 12
  pub offset : neg_part s.chart_offset ≡ 0
  pub field : s.ticket.field < 3
  pub tiles : length s.ticker_rects ≤ length s.symbols
  pub lines : length s.chat_lines ≤ chat_limit

zoomed_bounds : (z d : ℤ) → (negsuc 5 ≤ℤ zoomed z d) × (zoomed z d ≤ℤ pos 12)
unfolding zoomed
zoomed_bounds z d = ground arith

tiles_from-le :
    (w h y cols i : ℕ) (ss : List String) → length (tiles_from w h y cols i ss) ≤ length ss
unfolding tiles_from
tiles_from-le w h y cols i [] = omega arith
tiles_from-le w h y cols i (s ∷ ss) = ground (arith, tiles_from-le w h y cols (suc i) ss)

pub ticker_tiles-le : (w h y : ℕ) (ss : List String) → length (ticker_tiles w h y ss) ≤ length ss
unfolding ticker_tiles
ticker_tiles-le w h y ss = tiles_from-le w h y _ 0 ss

pub erase_in-field : (n : ℕ) (t : OrderTicket) → (erase_in n t).field ≡ t.field
unfolding erase_in
erase_in-field zero t = refl
erase_in-field (suc zero) t = refl
erase_in-field (suc (suc zero)) t = refl
erase_in-field (suc (suc (suc n))) t = refl

pub type_in-field : (r : ℕ) (t : OrderTicket) → (type_in r t).field ≡ t.field
unfolding type_in
type_in-field r t = ground arith

pub tile_at-lt :
    (x y i : ℕ) (ts : List TickerRect) {j : ℕ} → tile_at x y i ts ≡ some j → j < i + length ts
unfolding tile_at
tile_at-lt x y i [] h = cc h
tile_at-lt x y i (t ∷ ts) {j} h = ground (arith, h, tile_at-lt x y (suc i) ts {j = j})

module _ {F : Type 0} where
  pub append_chat_entry-IsValid :
      (e : ChatEntry) {s : UiState F} → IsValid s → IsValid (append_chat_entry e s)
  unfolding append_chat_entry
  append_chat_entry-IsValid e {s} v =
      let all = s.chat_lines ++ e ∷ [] in
      record {
        selected = v.selected;
        timeframe = v.timeframe;
        zoom_low = v.zoom_low;
        zoom_high = v.zoom_high;
        offset = v.offset;
        field = v.field;
        tiles = v.tiles;
        lines =
            if_cases (λ ls. length ls ≤ chat_limit) (ltb chat_limit (length all))
              (drop (length all - chat_limit) all) all
              (λ long. ground (arith, length-drop (length all - chat_limit) all))
              (λ short. ground (arith, short));
      }

  pub scroll_chat-IsValid : (d : ℤ) {s : UiState F} → IsValid s → IsValid (scroll_chat d s)
  unfolding scroll_chat
  scroll_chat-IsValid d v = ground (arith, v.selected)

module _ {F : Type 0} ⦃f : Float F⦄ where
  pub select-IsValid :
      (i : ℕ) {s : UiState F}
      → (0 < length s.symbols → i < length s.symbols)
      → IsValid s
      → IsValid (State.select i s)
  unfolding State.select
  select-IsValid i h v = ground (arith, h, v.timeframe)

  pub clamp_viewport-IsValid : {s : UiState F} → IsValid s → IsValid (State.clamp_viewport s)
  unfolding State.clamp_viewport
  clamp_viewport-IsValid v = ground (arith, v.selected)

  pub zoom_chart-IsValid : (d : ℤ) {s : UiState F} → IsValid s → IsValid (State.zoom_chart d s)
  unfolding State.zoom_chart
  zoom_chart-IsValid d {s} v =
      if_either IsValid (length (State.shown_base s) == 0) _ _ (ground (arith, v.selected))
        (ground (arith, v.selected, zoomed_bounds s.chart_zoom d))

  pub pan_chart-IsValid : (d : ℤ) {s : UiState F} → IsValid s → IsValid (State.pan_chart d s)
  unfolding State.pan_chart
  pan_chart-IsValid d {s} v = if_either IsValid (eqb_ℤ d (pos 0)) _ _ v (ground (arith, v.selected))

  pub shift_timeframe-IsValid :
      (d : ℤ) {s : UiState F} → IsValid s → IsValid (State.shift_timeframe d s)
  unfolding State.shift_timeframe
  shift_timeframe-IsValid d v = ground (arith, v.selected)

  pub move_selection-IsValid :
      (d : ℤ) {s : UiState F} → IsValid s → IsValid (State.move_selection d s)
  unfolding State.move_selection
  move_selection-IsValid d {s} v =
      if_cases IsValid (length s.symbols == 0) _ _ (λ none_there. v)
        (λ some_there.
          select-IsValid (State.cycle s.selected d (length s.symbols)) (λ h. mod-lt _ h) v)

  pub reset_viewport-IsValid : {s : UiState F} → IsValid s → IsValid (State.reset_viewport s)
  unfolding State.reset_viewport
  reset_viewport-IsValid v = ground (arith, v.selected)
