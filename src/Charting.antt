-- ===== src/Charting.antt =====
-- internal/charting/engine.go: the history of prices of each ticker and the ticks made of it.
-- The sends of a tick are in Channels/Unlocked.antt. Depths and limits of zero stand for those that are
-- not positive; times are in nanoseconds.
use ssh_arena.Prelude.{
  ℕ, zero, suc, ◌+◌, ◌-◌, ◌*◌, ◌/◌, ◌^◌, String, Bool, true, false, ◌||◌, Option, none, some, List,
  [], ◌∷◌, ◌++◌, ltb, leb, ◌==◌, if◌then◌else◌, length, drop, take, map, keep_if,
}
use ssh_arena.Prelude.Int.{ℤ, pos, add64, mul64, eqb_ℤ}
use ssh_arena.Prelude.Text.{str_eq, is_empty, assign}
use ssh_arena.Prelude.Outcome.{Outcome, ok, err}
use ssh_arena.Prelude.Float.{Float, ◌+F◌, ◌-F◌, ◌*F◌, ◌/F◌}
use ssh_arena.OrderBook.Types.{Trade, Level}
use ssh_arena.State.TradeStore.{last_n}
use ssh_arena.Exchange.Service.{Market, ExchangeError}
use ssh_arena.Exchange.Service.Events.{ChartSnapshot, chart_snapshot}
pub mod Bounded
mod Tests

pub record Config : Type 0 where
  pub tick_interval : ℕ
  pub history_limit : ℕ
  pub orderbook_depth : ℕ

pub record SubscriptionRequest : Type 0 where
  pub player_id : String
  pub ticker : String
  pub history_limit : ℕ
  pub depth : ℕ

pub record ChartLevel (F : Type 0) : Type 0 where
  pub price : F
  pub qty : ℤ

pub record HistoryPoint (F : Type 0) : Type 0 where
  pub ts : ℕ
  pub price : F
  pub volume : ℤ

pub record Point (F : Type 0) : Type 0 where
  pub at : ℕ
  pub price : F
  pub volume : ℤ

pub record PriceChartTick (F : Type 0) : Type 0 where
  pub ticker : String
  pub timestamp : ℕ
  pub current_price : F
  pub volume_1m : ℤ
  pub change_1m_pct : F
  pub change_5m_pct : F
  pub change_15m_pct : F
  pub volatility_5m : F
  pub vwap_5m : F
  pub bids : List (ChartLevel F)
  pub asks : List (ChartLevel F)
  pub history : List (HistoryPoint F)

pub data ChartError : Type 0 where
  ticker_required unsupported_ticker : ChartError

pub record Engine (F : Type 0) : Type 0 where
  pub cfg : Config
  pub states : String → Option (List (Point F))
  pub subscribers : String → List (ℕ × SubscriptionRequest)
  pub next_id : ℕ

abbrev pub minute : ℕ
minute = 60_000_000_000

abbrev or_default : ℕ → ℕ → ℕ
or_default n default = if n == 0 then default else n

unfoldable pub states_of {ℓ} : {A : Type ℓ} → List String → String → Option (List A)
states_of [] s = none
states_of (t ∷ ts) s = if str_eq s t then some [] else states_of ts s

-- `NewEngine`.
unfoldable pub new : {F : Type 0} → Config → List String → Engine F
unfolding states_of
new cfg tickers = record {
  cfg = record {
    tick_interval = or_default cfg.tick_interval 3_000_000_000;
    history_limit = or_default cfg.history_limit 240;
    orderbook_depth = or_default cfg.orderbook_depth 10;
  };
  states = states_of tickers;
  subscribers = λ s. [];
  next_id = 0;
}

unfoldable pub subscribe_known :
    {F : Type 0}
    → SubscriptionRequest
    → Engine F
    → Option (List (Point F))
    → Engine F × Outcome ChartError ℕ
subscribe_known req e none = (e, err unsupported_ticker)
subscribe_known req e (some history) =
    let full : SubscriptionRequest = record req {
      history_limit = or_default req.history_limit e.cfg.history_limit;
      depth = or_default req.depth e.cfg.orderbook_depth;
    } in
    (
      record e {
        subscribers =
            assign e.subscribers req.ticker (e.subscribers req.ticker ++ (e.next_id, full) ∷ []);
        next_id = suc e.next_id;
      },
      ok e.next_id,
    )

-- `Subscribe`: the id of the subscription.
unfoldable pub subscribe :
    {F : Type 0} → SubscriptionRequest → Engine F → Engine F × Outcome ChartError ℕ
unfolding subscribe_known
subscribe req e =
    if is_empty req.ticker
    then (e, err ticker_required)
    else subscribe_known req e (e.states req.ticker)

-- `tradeVolumeSince`.
unfoldable pub trade_volume_since : List Trade → ℕ → ℤ → ℤ
trade_volume_since [] cutoff volume = volume
trade_volume_since (t ∷ ts) cutoff volume =
    trade_volume_since ts cutoff
      (if ltb t.executed_at cutoff then volume else add64 volume (pos t.quantity))

-- The sums of `vwap`: volume and turnover.
unfoldable pub turnover_since : List Trade → ℕ → ℤ → ℤ → ℤ × ℤ
turnover_since [] cutoff volume turnover = (volume, turnover)
turnover_since (t ∷ ts) cutoff volume turnover =
    if ltb t.executed_at cutoff
    then turnover_since ts cutoff volume turnover
    else turnover_since ts cutoff (add64 volume (pos t.quantity))
        (add64 turnover (mul64 (pos t.price) (pos t.quantity)))

-- The points that a tick shows.
unfoldable pub trimmed_history {ℓ} : {A : Type ℓ} → ℕ → List A → List A
trimmed_history limit history =
    let n = length history in
    let kept = if limit == 0 || ltb n limit then n else limit in
    if ltb 0 kept then drop (n - kept) history else history

module _ {F : Type 0} ⦃f : Float F⦄ where
  abbrev zero_F : F
  zero_F = f.of_int (pos 0)

  -- `round`.
  unfoldable pub round_places : F → ℕ → F
  round_places value precision =
      let power = f.of_int (pos (10 ^ precision)) in f.round (value *F power) /F power

  unfoldable pub price_to_float : ℤ → F
  unfolding round_places
  price_to_float price = round_places (f.of_int price /F f.of_int (pos 100)) 4

  unfoldable pub vwap : List Trade → ℕ → ℤ → F
  unfolding turnover_since price_to_float round_places
  vwap trades cutoff fallback =
      let sums = turnover_since trades cutoff (pos 0) (pos 0) in
      if eqb_ℤ sums.0 (pos 0)
      then price_to_float fallback
      else round_places (f.of_int sums.1 /F f.of_int sums.0 /F f.of_int (pos 100)) 4

  unfoldable pub project_levels : ℕ → List Level → List (ChartLevel F)
  unfolding price_to_float
  project_levels zero levels = []
  project_levels (suc depth) [] = []
  project_levels (suc depth) (l ∷ ls) =
      record { price = price_to_float (pos l.price); qty = l.quantity } ∷ project_levels depth ls

  -- The first price that is not before the cutoff, or else the first of all.
  unfoldable pub base_since : ℕ → F → List (Point F) → F
  base_since cutoff base [] = base
  base_since cutoff base (p ∷ ps) = if ltb p.at cutoff then base_since cutoff base ps else p.price

  unfoldable pub last_price : F → List (Point F) → F
  last_price price [] = price
  last_price price (p ∷ ps) = last_price p.price ps

  unfoldable pub change_pct : List (Point F) → ℕ → F
  unfolding base_since last_price round_places
  change_pct [] cutoff = zero_F
  change_pct (p ∷ ps) cutoff =
      let current = last_price p.price ps in
      let base = base_since cutoff p.price (p ∷ ps) in
      if f.equal base zero_F
      then zero_F
      else round_places (((current -F base) /F base) *F f.of_int (pos 100)) 4

  unfoldable pub returns_of : List F → List F
  returns_of [] = []
  returns_of (x ∷ []) = []
  returns_of (x ∷ y ∷ xs) =
      let rest = returns_of (y ∷ xs) in if f.equal x zero_F then rest else (y -F x) /F x ∷ rest

  unfoldable pub sum_F : F → List F → F
  sum_F total [] = total
  sum_F total (x ∷ xs) = sum_F (total +F x) xs

  -- The square root of the mean squared distance from the mean.
  unfoldable pub deviation : List F → F
  unfolding sum_F round_places
  deviation [] = zero_F
  deviation (r ∷ rs) =
      let n = f.of_int (pos (length (r ∷ rs))) in
      let mean = sum_F zero_F (r ∷ rs) /F n in
      round_places (f.sqrt (sum_F zero_F (map (λ v. (v -F mean) *F (v -F mean)) (r ∷ rs)) /F n)) 6

  unfoldable pub volatility : List (Point F) → ℕ → F
  unfolding returns_of deviation
  volatility history cutoff =
      deviation (returns_of (map (λ p. p.price) (keep_if (λ p. leb cutoff p.at) history)))

  abbrev to_history_point : Point F → HistoryPoint F
  to_history_point p = record { ts = p.at / 1_000_000; price = p.price; volume = p.volume }

  -- `buildTick`.
  unfoldable pub build_tick : ChartSnapshot → List (Point F) → ℕ → ℕ → ℕ → PriceChartTick F
  unfolding trimmed_history trade_volume_since change_pct volatility vwap project_levels
  build_tick s history now depth limit =
      let levels = or_default depth 10 in
      record {
        ticker = s.symbol;
        timestamp = now;
        current_price = price_to_float s.price.current_price;
        volume_1m = trade_volume_since s.recent_trades (now - minute) (pos 0);
        change_1m_pct = change_pct history (now - minute);
        change_5m_pct = change_pct history (now - 5 * minute);
        change_15m_pct = change_pct history (now - 15 * minute);
        volatility_5m = volatility history (now - 5 * minute);
        vwap_5m = vwap s.recent_trades (now - 5 * minute) s.price.current_price;
        bids = project_levels levels s.order_book.bids;
        asks = project_levels levels s.order_book.asks;
        history = map to_history_point (trimmed_history limit history);
      }

  unfoldable pub point_of : ℕ → Config → ChartSnapshot → Point F
  unfolding trade_volume_since price_to_float
  point_of now cfg s = record {
    at = now;
    price = price_to_float s.price.current_price;
    volume = trade_volume_since s.recent_trades (now - cfg.tick_interval) (pos 0);
  }

  -- The ticks for the subscribers of a ticker, each with the id of its subscription.
  unfoldable pub ticks_for :
      ChartSnapshot
      → List (Point F)
      → ℕ
      → List (ℕ × SubscriptionRequest)
      → List (ℕ × PriceChartTick F)
  unfolding build_tick
  ticks_for s history now [] = []
  ticks_for s history now ((id, r) ∷ subs) =
      (id, build_tick s history now r.depth r.history_limit) ∷ ticks_for s history now subs

  unfoldable pub emit_known :
      ℕ
      → String
      → Engine F
      → ChartSnapshot
      → Option (List (Point F))
      → Option (Engine F × List (ℕ × PriceChartTick F))
  unfolding point_of ticks_for last_n
  emit_known now ticker e s none = none
  emit_known now ticker e s (some old) =
      let history = last_n e.cfg.history_limit (old ++ point_of now e.cfg s ∷ []) in
      some (
        record e { states = assign e.states ticker (some history) },
        ticks_for s history now (e.subscribers ticker),
      )

  unfoldable pub emit_on :
      ℕ
      → String
      → Engine F
      → Outcome ExchangeError ChartSnapshot
      → Option (Engine F × List (ℕ × PriceChartTick F))
  unfolding emit_known
  emit_on now ticker e (err x) = some (e, [])
  emit_on now ticker e (ok s) = emit_known now ticker e s (e.states ticker)

  -- `emitTick` up to the sends: `none` for the nil state of a ticker that the engine does not have.
  unfoldable pub emit_tick :
      ℕ → String → Market F → Engine F → Market F × Option (Engine F × List (ℕ × PriceChartTick F))
  unfolding emit_on
  emit_tick now ticker m e =
      let asked = chart_snapshot now ticker e.cfg.orderbook_depth m in
      (asked.0, emit_on now ticker e asked.1)
