-- ===== src/Charting/Bounded.antt =====
-- Histories, order books and ticks stay within their limits.
use ssh_arena.Prelude.{
  ℕ, zero, suc, ◌-◌, ◌≤◌, ◌<◌, ◌≡◌, refl, ap, String, ◌||◌, Option, none, some, List, false, [],
  ◌∷◌, ◌++◌, ◌⊎◌, ltb, ◌==◌, if◌then◌else◌, if_true, if_false, if_cases, if_either, length,
  length-drop, drop, take, take-append-drop, map, arith,
}
use ssh_arena.Prelude.Text.{str_eq, str_eq_refl, assign}
use ssh_arena.Prelude.Outcome.{Outcome, ok, err}
use ssh_arena.Prelude.Float.{Float}
use ssh_arena.OrderBook.Types.{Level}
use ssh_arena.State.TradeStore.{last_n}
use ssh_arena.State.TradeStore.Bounded.{last_n-suffix, last_n-cut}
use ssh_arena.Exchange.Service.{Market, ExchangeError}
use ssh_arena.Exchange.Service.Events.{ChartSnapshot, chart_snapshot}
use ssh_arena.Charting.{
  Config, Point, states_of, new, PriceChartTick, Engine, or_default, trimmed_history,
  project_levels, build_tick, SubscriptionRequest, point_of, ticks_for, emit_known, emit_on,
  emit_tick, to_history_point,
}

abbrev kept_points : ℕ → ℕ → ℕ
kept_points limit n = if limit == 0 || ltb n limit then n else limit

kept_points_bound :
    (limit n : ℕ)
    → (kept_points limit n ≤ n)
      × (kept_points limit n ≤ or_default limit n)
      × (n ≤ 0 ⊎ (0 < kept_points limit n))
kept_points_bound zero n = (ground arith, ground arith, ground arith)
kept_points_bound (suc limit) n = (ground arith, ground arith, ground arith)

dropped {ℓ} :
    {A : Type ℓ} (k bound : ℕ) (xs : List A)
    → k ≤ length xs
    → k ≤ bound
    → (length xs ≤ 0) ⊎ (0 < k)
    → (length (if ltb 0 k then drop (length xs - k) xs else xs) ≤ bound)
      × (older : List A) × (older ++ (if ltb 0 k then drop (length xs - k) xs else xs) ≡ xs)
dropped k bound xs below within full =
    if_cases (λ ys. (length ys ≤ bound) × (older : List _) × (older ++ ys ≡ xs)) (ltb 0 k) _ _
      (λ e. (
        omega (arith, length-drop (length xs - k) xs),
        take (length xs - k) xs,
        take-append-drop (length xs - k) xs,
      ))
      (λ e. (ground (arith, e, full), [], refl))

-- A tick shows the newest points of the history, as many as its limit, or all for a limit of zero.
pub trimmed_history-suffix {ℓ} :
    {A : Type ℓ} (limit : ℕ) (xs : List A)
    → (length (trimmed_history limit xs) ≤ or_default limit (length xs))
      × (older : List A) × (older ++ trimmed_history limit xs ≡ xs)
unfolding trimmed_history
trimmed_history-suffix limit xs =
    let b = kept_points_bound limit (length xs) in
    dropped (kept_points limit (length xs)) (or_default limit (length xs)) xs b.0 b.1 b.2

project_levels_bound :
    (F : Type 0) ⦃f : Float F⦄ (depth : ℕ) (ls : List Level)
    → length (project_levels {F = F} depth ls) ≤ depth
unfolding project_levels
project_levels_bound F zero ls = omega arith
project_levels_bound F (suc depth) [] = omega arith
project_levels_bound F (suc depth) (l ∷ ls) = omega (arith, project_levels_bound F depth ls)

length-map {ℓ κ} :
    {A : Type ℓ} {B : Type κ} (g : A → B) (xs : List A) → length (map g xs) ≡ length xs
length-map g [] = refl
length-map g (x ∷ xs) = ap suc (length-map g xs)

-- A tick has at most `depth` levels on each side, ten if the depth is zero, and at most `limit`
-- points of the history, all if the limit is zero.
pub build_tick-Bounded :
    {F : Type 0} ⦃f : Float F⦄ (s : ChartSnapshot) (history : List (Point F)) (now depth limit : ℕ)
    → (length (build_tick s history now depth limit).bids ≤ or_default depth 10)
      × (length (build_tick s history now depth limit).asks ≤ or_default depth 10)
      × (length (build_tick s history now depth limit).history ≤ or_default limit (length history))
unfolding build_tick
build_tick-Bounded {F = F} s history now depth limit = (
  project_levels_bound F (or_default depth 10) s.order_book.bids,
  project_levels_bound F (or_default depth 10) s.order_book.asks,
  omega (
    arith,
    (trimmed_history-suffix limit history).0,
    length-map to_history_point (trimmed_history limit history),
  ),
)

-- A missing state, or a history within a limit.
abbrev pub Within : {F : Type 0} → ℕ → Option (List (Point F)) → Type 0
Within limit none = Unit
Within limit (some h) = length h ≤ limit

unfoldable pub IsBounded : {F : Type 0} → Engine F → Type 0
IsBounded e = (s : String) → Within e.cfg.history_limit (e.states s)

empty_Within :
    (F : Type 0) (limit : ℕ) (ts : List String) (s : String) → Within {F = F} limit (states_of ts s)
unfolding states_of
empty_Within F limit [] s = tt
empty_Within F limit (t ∷ ts) s =
    if_either (Within {F = F} limit) (str_eq s t) _ _ (omega arith) (empty_Within F limit ts s)

-- A new engine is within its limits.
pub new-IsBounded :
    (F : Type 0) (cfg : Config) (tickers : List String) → IsBounded {F = F} (new cfg tickers)
unfolding new IsBounded
new-IsBounded F cfg tickers s = empty_Within F (or_default cfg.history_limit 240) tickers s

module _ {F : Type 0} ⦃f : Float F⦄ where
  -- Each subscription gets a tick with its id, within the limits that it asked for.
  abbrev pub Serves :
      List (Point F) → List (ℕ × SubscriptionRequest) → List (ℕ × PriceChartTick F) → Type 0
  Serves history [] [] = Unit
  Serves history [] (t ∷ ts) = ⊥
  Serves history (r ∷ rs) [] = ⊥
  Serves history ((id, r) ∷ rs) ((i, t) ∷ ts) =
      (i ≡ id)
      × (length t.bids ≤ or_default r.depth 10)
      × (length t.asks ≤ or_default r.depth 10)
      × (length t.history ≤ or_default r.history_limit (length history))
      × Serves history rs ts

  -- What a tick leaves, by the answer of the market: nothing happens if that refuses, and there is no
  -- state of a ticker that the engine does not have. Otherwise the history of the ticker gets a point
  -- and loses its oldest points beyond the limit, no other history changes, and the subscribers of
  -- the ticker get their ticks.
  pub data Emitted (now : ℕ) (ticker : String) (e : Engine F)
      : Outcome ExchangeError ChartSnapshot
        → Option (Engine F × List (ℕ × PriceChartTick F))
        → Type 0 where
    refused : (x : ExchangeError) → Emitted now ticker e (err x) (some (e, []))
    no_state : (s : ChartSnapshot) → e.states ticker ≡ none → Emitted now ticker e (ok s) none
    emitted :
        (s : ChartSnapshot) (d : Engine F) (ticks : List (ℕ × PriceChartTick F))
        (old older kept : List (Point F))
        → e.states ticker ≡ some old
        → older ++ kept ≡ old ++ point_of now e.cfg s ∷ []
        → (older ≡ []) ⊎ (length kept ≡ e.cfg.history_limit)
        → d.states ticker ≡ some kept
        → ((other : String) → str_eq other ticker ≡ false → d.states other ≡ e.states other)
        → (d.cfg ≡ e.cfg) × (d.subscribers ≡ e.subscribers)
        → Serves kept (e.subscribers ticker) ticks
        → Emitted now ticker e (ok s) (some (d, ticks))

  -- Every history stays within the limit.
  abbrev pub StaysBounded : Option (Engine F × List (ℕ × PriceChartTick F)) → Type 0
  StaysBounded none = Unit
  StaysBounded (some (d, ticks)) = IsBounded d

  Within-last_n :
      (limit : ℕ) (ticker : String) (states : String → Option (List (Point F))) (h : List (Point F))
      → ((s : String) → Within limit (states s))
      → (s : String) → Within limit (assign states ticker (some (last_n limit h)) s)
  Within-last_n limit ticker states h within s =
      if_cases (Within {F = F} limit) (str_eq s ticker) _ _ (λ e. (last_n-suffix limit h).0)
        (λ e. within s)

  ticks_for-Serves :
      (s : ChartSnapshot) (history : List (Point F)) (now : ℕ) (rs : List (ℕ × SubscriptionRequest))
      → Serves history rs (ticks_for s history now rs)
  unfolding ticks_for
  ticks_for-Serves s history now [] = tt
  ticks_for-Serves s history now ((id, r) ∷ rs) =
      let (bids, asks, points) = build_tick-Bounded s history now r.depth r.history_limit in
      (refl, bids, asks, points, ticks_for-Serves s history now rs)

  emit_known-Emitted :
      (now : ℕ) (ticker : String) (e : Engine F) (s : ChartSnapshot) (o : Option (List (Point F)))
      → e.states ticker ≡ o
      → IsBounded e
      → Emitted now ticker e (ok s) (emit_known now ticker e s o)
        × StaysBounded (emit_known now ticker e s o)
  unfolding emit_known IsBounded
  emit_known-Emitted now ticker e s none here h = (no_state s here, tt)
  emit_known-Emitted now ticker e s (some old) here h =
      let limit = e.cfg.history_limit in
      let full = old ++ point_of now e.cfg s ∷ [] in
      let cut = last_n-cut limit full in
      (
        emitted s _ _ old cut.0 (last_n limit full) here cut.1 cut.2
            (if_true _ (e.states ticker) (str_eq_refl ticker))
            (λ other apart. if_false (some (last_n limit full)) (e.states other) apart) (refl, refl)
            (ticks_for-Serves s (last_n limit full) now (e.subscribers ticker)),
        Within-last_n limit ticker e.states full h,
      )

  emit_on-Emitted :
      (now : ℕ) (ticker : String) (e : Engine F) (o : Outcome ExchangeError ChartSnapshot)
      → IsBounded e
      → Emitted now ticker e o (emit_on now ticker e o) × StaysBounded (emit_on now ticker e o)
  unfolding emit_on
  emit_on-Emitted now ticker e (err x) h = (refused x, h)
  emit_on-Emitted now ticker e (ok s) h = emit_known-Emitted now ticker e s (e.states ticker) refl h

  -- What emitTick does before it sends: if the market refuses, it ends with nothing changed; a ticker
  -- without a state, which the market knows, makes it fail; otherwise the history of the ticker is the
  -- old one with the point that is made of the market's answer, less the oldest beyond the limit, the
  -- other histories stay, and each subscription of the ticker gets one tick, under its id and within
  -- its depth and its limit. Every history that was within the limit of the engine stays within it.
  pub emit_tick-Emitted :
      (now : ℕ) (ticker : String) (m : Market F) (e : Engine F)
      → IsBounded e
      → Emitted now ticker e
          (chart_snapshot now ticker e.cfg.orderbook_depth m).1
          (emit_tick now ticker m e).1
        × StaysBounded (emit_tick now ticker m e).1
  unfolding emit_tick
  emit_tick-Emitted now ticker m e h =
      emit_on-Emitted now ticker e (chart_snapshot now ticker e.cfg.orderbook_depth m).1 h
