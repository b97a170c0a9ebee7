-- ===== src/Client/Chart/Shown.antt =====
-- What the viewport shows.
use ssh_arena.Prelude.{
  ℕ, zero, suc, ◌+◌, ◌-◌, ◌/◌, ◌≤◌, ◌<◌, min, ◌≡◌, refl, sym, ap, ◌∙◌, some, List, [], ◌∷◌, leb,
  ◌==◌, if_true, if_false, length, drop, take, length-drop, arith,
}
use native.Mathlib.Nat.{suc-add}
use ssh_arena.Prelude.Int.{ℤ}
use ssh_arena.Prelude.Float.{Float}
use ssh_arena.Charting.{HistoryPoint}
use ssh_arena.Client.Chart.{
  max_int, clamp_int, clamp_offset, slice, Viewport, latest_of, first_since, timeframe_start,
  timeframe_history, scaled_points, compute_visible_points, viewport_of, window_of, chart_viewport,
  window_start, start_after_zoom,
}

drop-nil {ℓ} : {A : Type ℓ} (n : ℕ) → drop {A = A} n [] ≡ []
drop-nil zero = refl
drop-nil (suc n) = refl

drop-drop {ℓ} : {A : Type ℓ} (a b : ℕ) (xs : List A) → drop a (drop b xs) ≡ drop (b + a) xs
drop-drop a zero xs = ap (λ n. drop n xs) (omega arith)
drop-drop a (suc b) [] = drop-nil a ∙ sym (ap (λ n. drop n []) (suc-add b a))
drop-drop a (suc b) (x ∷ xs) = drop-drop a b xs ∙ sym (ap (λ n. drop n (x ∷ xs)) (suc-add b a))

slice_lem {ℓ} :
    {A : Type ℓ} (xs : List A) (a b : ℕ)
    → a ≤ b
    → b ≤ length xs
    → slice xs a b ≡ some (take (b - a) (drop a xs))
unfolding slice
slice_lem xs a b h k =
    if_true {b = leb a b} _ _ (ground arith) ∙ if_true {b = leb b (length xs)} _ _ (ground arith)

pub clamp_offset-le : (offset : ℤ) (n : ℕ) → clamp_offset offset n ≤ n
unfolding clamp_offset
clamp_offset-le offset n = ground arith

first_since-lt :
    {F : Type 0} (latest duration i : ℕ) (ps : List (HistoryPoint F))
    → 0 < i + length ps
    → first_since latest duration i ps < i + length ps
unfolding first_since
first_since-lt latest duration i [] h = h
first_since-lt latest duration i (p ∷ ps) h =
    ground (arith, first_since-lt latest duration (suc i) ps)

pub timeframe_start-lt :
    {F : Type 0} (history : List (HistoryPoint F)) (duration : ℕ)
    → 0 < length history
    → timeframe_start history duration < length history
unfolding timeframe_start
timeframe_start-lt [] duration h = absurd (omega arith)
timeframe_start-lt (p ∷ ps) duration h =
    ground (arith, first_since-lt (latest_of p ps) duration 0 (p ∷ ps))

module _ (F : Type 0) ⦃f : Float F⦄ where
  scaled_points-le : (base : ℕ) (zoom : ℤ) → 8 ≤ scaled_points F base zoom
  unfolding scaled_points
  scaled_points-le base zoom = ground arith

  -- At least eight points, or all there are.
  pub compute_visible_points_bounds :
      (total plot_width : ℕ) (zoom : ℤ)
      → (min 8 total ≤ compute_visible_points F total plot_width zoom)
        × (compute_visible_points F total plot_width zoom ≤ total)
  unfolding compute_visible_points
  compute_visible_points_bounds total plot_width zoom =
      ground (arith, scaled_points-le (clamp_int (max_int 12 (plot_width - 2)) 8 total) zoom)

module _ {F : Type 0} ⦃f : Float F⦄ where
  -- A viewport shows a stretch of the history, of a certain length, within the timeframe.
  pub record Shows (history : List (HistoryPoint F)) (start count : ℕ) (v : Viewport F)
      : Type 0 where
    pub stretch : v.shown ≡ take count (drop v.first history)
    pub measured : v.last ≡ v.first + count
    pub covered : start ≤ v.first
    pub within : v.last ≤ length history

  window_of-Shows :
      (history : List (HistoryPoint F)) (start visible : ℕ) (offset : ℤ)
      → start ≤ length history
      → visible ≤ length history - start
      → (v : Viewport F) × (window_of (drop start history) start visible offset ≡ some v)
        × Shows history start visible v
  unfolding window_of max_int
  window_of-Shows history start visible offset h k =
      let base = drop start history in
      let total = length base in
      let off = clamp_offset offset (max_int 0 (total - visible)) in
      let end = total - off in
      let first = max_int 0 (end - visible) in
      let sized : total ≡ length history - start = length-drop start history in
      let bound : off ≤ max_int 0 (total - visible) =
        clamp_offset-le offset (max_int 0 (total - visible)) in
      let cut : end - first ≡ visible = ground (arith, sized, bound, k) in
      (
        record {
          shown = take (end - first) (drop first base);
          first = start + first;
          last = start + end;
        },
        ap (viewport_of base start first end)
            (slice_lem base first end (ground (arith, sized, bound, k)) (ground arith)),
        record {
          stretch =
              ap (λ n. take n (drop first base)) cut
              ∙ ap (take visible) (drop-drop first start history);
          measured = ground (arith, cut);
          covered = ground arith;
          within = ground (arith, sized, h);
        },
      )

  -- For a history with a point in it, the chart never slices out of range. What it shows is a stretch
  -- of the timeframe's history, of as many points as fit, at least eight if there are as many, and
  -- the two positions in its label are those of the stretch.
  pub chart_viewport-Shows :
      (history : List (HistoryPoint F)) (plot_width : ℕ) (zoom offset : ℤ) (duration : ℕ)
      → 0 < length history
      → let total = length (timeframe_history history duration) in
        let count = compute_visible_points F total (plot_width + 1) zoom in
        (v : Viewport F) × (chart_viewport history plot_width zoom offset duration ≡ some v)
        × Shows history (timeframe_start history duration) count v
        × (0 < count)
        × (min 8 total ≤ count)
  unfolding chart_viewport timeframe_history
  chart_viewport-Shows [] w zoom offset duration h = absurd (omega arith)
  chart_viewport-Shows (p ∷ ps) w zoom offset duration h =
      let history = p ∷ ps in
      let start = timeframe_start history duration in
      let total = length (drop start history) in
      let inside : start < length history = timeframe_start-lt history duration h in
      let sized : total ≡ length history - start = length-drop start history in
      let bounds = compute_visible_points_bounds F total (w + 1) zoom in
      let count = compute_visible_points F total (w + 1) zoom in
      let (v, same, shows) =
        window_of-Shows history start count offset (omega (arith, inside))
          (omega (arith, sized, bounds)) in
      (
        v,
        if_false {b = total == 0} _ _ (ground (arith, sized, inside)) ∙ same,
        shows,
        omega (arith, sized, inside, bounds),
        bounds.0,
      )

-- A zoom keeps the point in the middle of the old window within the new one, which lies within the
-- timeframe, whatever the offset was, if both windows have a point and are no longer than it.
pub start_after_zoom-KeepsCenter :
    (total old_visible new_visible : ℕ) (offset : ℤ)
    → 0 < old_visible
    → old_visible ≤ total
    → 0 < new_visible
    → new_visible ≤ total
    → let center = window_start total old_visible offset + old_visible / 2 in
      let start = start_after_zoom total old_visible new_visible offset in
      (start ≤ center) × (center < start + new_visible) × (start + new_visible ≤ total)
unfolding start_after_zoom clamp_int max_int
start_after_zoom-KeepsCenter total old_visible new_visible offset h k i j =
    ground (arith, clamp_offset-le offset (max_int 0 (total - old_visible)))
