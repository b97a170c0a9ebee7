-- ===== src/Client/Chart.antt =====
-- The viewport of the chart in cmd/game-client/main.go: which points of a history are shown. Times
-- are in milliseconds, and the width of the plot, which is positive, is a natural number.
use ssh_arena.Prelude.{
  ℕ, zero, suc, ◌+◌, ◌-◌, ◌/◌, String, Bool, true, false, ◌||◌, Option, none, some, List, [], ◌∷◌,
  ltb, leb, ◌==◌, if◌then◌else◌, length, drop, take,
}
use ssh_arena.Prelude.Int.{ℤ, pos, negsuc, pos_part, ltb_ℤ, add64}
use ssh_arena.Prelude.Float.{Float, ◌/F◌, round_to_int}
pub mod Shown
use ssh_arena.Charting.{HistoryPoint}

-- The durations of the presets, zero for the whole history.
unfoldable pub timeframe_duration : ℕ → ℕ
timeframe_duration zero = 60_000
timeframe_duration (suc zero) = 300_000
timeframe_duration (suc (suc zero)) = 900_000
timeframe_duration (suc (suc (suc zero))) = 1_800_000
timeframe_duration (suc (suc (suc (suc zero)))) = 3_600_000
timeframe_duration (suc (suc (suc (suc (suc n))))) = 0

abbrev pub timeframe_presets : ℕ
timeframe_presets = 6

-- `max` and `clampInt`, on lengths.
unfoldable pub max_int : ℕ → ℕ → ℕ
max_int a b = if ltb b a then a else b

unfoldable pub clamp_int : ℕ → ℕ → ℕ → ℕ
clamp_int value low high = if ltb value low then low else if ltb high value then high else value

-- An offset that may be negative, kept between zero and a maximum.
unfoldable pub clamp_offset : ℤ → ℕ → ℕ
clamp_offset offset max_offset =
    if ltb_ℤ offset (pos 0)
    then 0
    else if ltb_ℤ (pos max_offset) offset
    then max_offset
    else pos_part offset

-- `xs[a:b]`, which panics unless a ≤ b ≤ len(xs).
unfoldable pub slice {ℓ} : {A : Type ℓ} → List A → ℕ → ℕ → Option (List A)
slice xs a b =
    if leb a b then (if leb b (length xs) then some (take (b - a) (drop a xs)) else none) else none

-- What `chartViewport` returns.
pub record Viewport (F : Type 0) : Type 0 where
  pub shown : List (HistoryPoint F)
  pub first : ℕ
  pub last : ℕ

-- `state.chartZoom += delta`, between -6 and 12.
unfoldable pub zoomed : ℤ → ℤ → ℤ
zoomed zoom delta =
    let z = add64 zoom delta in
    let z' = if ltb_ℤ z (negsuc 5) then negsuc 5 else z in if ltb_ℤ (pos 12) z' then pos 12 else z'

abbrev pub window_start : ℕ → ℕ → ℤ → ℕ
window_start total visible offset =
    max_int 0 (total - clamp_offset offset (max_int 0 (total - visible)) - visible)

-- The start of the window after a zoom: the point in the middle of the old window is the middle of
-- the new one, as far as the ends allow.
unfoldable pub start_after_zoom : ℕ → ℕ → ℕ → ℤ → ℕ
unfolding clamp_int max_int clamp_offset
start_after_zoom total old_visible new_visible offset =
    let old_center = window_start total old_visible offset + old_visible / 2 in
    clamp_int (old_center - new_visible / 2) 0 (max_int 0 (total - new_visible))

module _ {F : Type 0} where
  unfoldable pub latest_of : HistoryPoint F → List (HistoryPoint F) → ℕ
  latest_of p [] = p.ts
  latest_of p (q ∷ qs) = latest_of q qs

  -- The first index whose time is not before the cutoff, which lies `duration` before the latest.
  unfoldable pub first_since : ℕ → ℕ → ℕ → List (HistoryPoint F) → ℕ
  first_since latest duration index [] = 0
  first_since latest duration index (p ∷ ps) =
      let later = first_since latest duration (suc index) ps in
      if leb latest (p.ts + duration) then index else later

  -- `timeframeHistoryWithStart`: the start of the history that the timeframe covers.
  unfoldable pub timeframe_start : List (HistoryPoint F) → ℕ → ℕ
  unfolding latest_of first_since
  timeframe_start [] duration = 0
  timeframe_start (p ∷ ps) duration =
      if duration == 0 then 0 else first_since (latest_of p ps) duration 0 (p ∷ ps)

  unfoldable pub timeframe_history : List (HistoryPoint F) → ℕ → List (HistoryPoint F)
  unfolding timeframe_start
  timeframe_history history duration = drop (timeframe_start history duration) history

module _ (F : Type 0) ⦃f : Float F⦄ where
  -- The zoom factor, `math.Pow(1.6, zoom)`.
  unfoldable pub chart_zoom_factor : ℤ → F
  chart_zoom_factor zoom = f.pow (f.decimal 16 1) (f.of_int zoom)

  -- The number of points before it is cut to the total.
  unfoldable pub scaled_points : ℕ → ℤ → ℕ
  unfolding chart_zoom_factor
  scaled_points base_visible zoom =
      let factor = chart_zoom_factor zoom in
      let z = f.of_int (pos 0) in
      let scale = if f.less factor z || f.equal factor z then f.of_int (pos 1) else factor in
      let count = round_to_int (f.of_int (pos base_visible) /F scale) in
      let count' = if ltb_ℤ count (pos 8) then pos 8 else count in
      pos_part (if ltb_ℤ count' (pos 2) then pos 2 else count')

  -- `computeVisiblePoints`.
  unfoldable pub compute_visible_points : ℕ → ℕ → ℤ → ℕ
  unfolding scaled_points max_int clamp_int
  compute_visible_points total plot_width zoom =
      if total == 0
      then 0
      else (let count = scaled_points (clamp_int (max_int 12 (plot_width - 2)) 8 total) zoom in
          if ltb total count then total else count)

module _ {F : Type 0} ⦃f : Float F⦄ where
  abbrev viewport_of :
      List (HistoryPoint F) → ℕ → ℕ → ℕ → Option (List (HistoryPoint F)) → Option (Viewport F)
  viewport_of base base_start start end none = none
  viewport_of base base_start start end (some shown) =
      some (record { shown = shown; first = base_start + start; last = base_start + end })

  -- The window of `visible` points that ends `offset` points before the end of the base.
  unfoldable pub window_of : List (HistoryPoint F) → ℕ → ℕ → ℤ → Option (Viewport F)
  unfolding clamp_offset slice max_int
  window_of base base_start visible offset =
      let end = length base - clamp_offset offset (max_int 0 (length base - visible)) in
      let start = max_int 0 (end - visible) in
      viewport_of base base_start start end (slice base start end)

  -- `chartViewport`; `none` is a slice out of range.
  unfoldable pub chart_viewport : List (HistoryPoint F) → ℕ → ℤ → ℤ → ℕ → Option (Viewport F)
  unfolding window_of timeframe_history compute_visible_points
  chart_viewport [] plot_width zoom offset duration =
      some (record { shown = []; first = 0; last = 0 })
  chart_viewport (p ∷ ps) plot_width zoom offset duration =
      let base = timeframe_history (p ∷ ps) duration in
      if length base == 0
      then some (record { shown = p ∷ ps; first = 0; last = length (p ∷ ps) })
      else window_of base (timeframe_start (p ∷ ps) duration)
          (compute_visible_points F (length base) (plot_width + 1) zoom) offset

  -- The offset that `clampViewport` leaves.
  unfoldable pub clamped_offset : List (HistoryPoint F) → ℕ → ℕ → ℤ → ℤ → ℕ
  unfolding timeframe_history compute_visible_points clamp_offset max_int
  clamped_offset history duration plot_width zoom offset =
      if length history == 0
      then 0
      else (let total = length (timeframe_history history duration) in
          clamp_offset offset (max_int 0 (total - compute_visible_points F total plot_width zoom)))
