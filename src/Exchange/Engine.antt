-- ===== src/Exchange/Engine.antt =====
-- internal/exchange/price_engine.go: the price of each ticker. Floats are those of an instance.
use ssh_arena.Prelude.{
  ℕ, zero, suc, ◌+◌, ◌-◌, ◌*◌, String, Bool, true, false, not, ◌||◌, Option, none, some, List, [],
  ◌∷◌, ◌++◌, ltb, leb, ◌==◌, if◌then◌else◌, keep_if,
}
use ssh_arena.Prelude.Int.{ℤ, pos, add64, sub64, mul64, eqb_ℤ, is_positive, is_negative}
use ssh_arena.Prelude.Text.{str_eq, assign}
use ssh_arena.Prelude.Float.{Float, ◌+F◌, ◌-F◌, ◌*F◌, ◌/F◌, round_to_int, clamp_float}
use ssh_arena.OrderBook.Types.{Trade, Level, Snapshot}
use ssh_arena.Exchange.Flows.{Flow, trade_flows, top_depth, align_to_tick, settle_tick}
pub mod Moves
pub mod Grid
pub mod Prices

pub record Ticker : Type 0 where
  pub symbol : String
  pub initial_price : ℤ
  pub tick_size : ℤ
  pub whale_threshold : ℤ

pub record PricePoint : Type 0 where
  pub symbol : String
  pub previous_price : ℤ
  pub current_price : ℤ
  pub net_volume : ℤ
  pub buy_pressure : ℤ
  pub sell_pressure : ℤ
  pub whale_volume : ℤ
  pub whale_multiplier : ℤ
  pub move_bps : ℤ
  pub updated_at : ℕ

-- A price without volumes; `bps` and `whale` tell a fresh price from a moved one.
abbrev pub quiet_point : String → ℤ → ℤ → ℤ → ℤ → ℕ → PricePoint
quiet_point symbol previous current whale bps now = record {
  symbol = symbol;
  previous_price = previous;
  current_price = current;
  net_volume = pos 0;
  buy_pressure = pos 0;
  sell_pressure = pos 0;
  whale_volume = pos 0;
  whale_multiplier = whale;
  move_bps = bps;
  updated_at = now;
}

-- `-value` wraps at the least int64.
unfoldable pub abs64 : ℤ → ℤ
abs64 value = if is_negative value then sub64 (pos 0) value else value

-- What the later part of a list writes, or else the earlier.
unfoldable pub or_else {ℓ} : {A : Type ℓ} → Option A → Option A → Option A
or_else none o = o
or_else (some x) o = some x

-- The sums of `tradesVWAP`: turnover and volume.
unfoldable pub turnover_of : List Trade → ℤ → ℤ → ℤ × ℤ
turnover_of [] turnover volume = (turnover, volume)
turnover_of (t ∷ ts) turnover volume =
    turnover_of ts (add64 turnover (mul64 (pos t.price) (pos t.quantity)))
      (add64 volume (pos t.quantity))

pub record Effect (F : Type 0) : Type 0 where
  pub name : String
  pub bias : F
  pub started_at : ℕ
  pub expires_at : ℕ

pub record MarketState (F : Type 0) : Type 0 where
  pub price : PricePoint
  pub fair_value : F
  pub trend : F
  pub pressure : F
  pub volatility : F
  pub effects : List (Effect F)

pub record PriceEngine (F : Type 0) : Type 0 where
  pub configs : String → Option Ticker
  pub state : String → Option (MarketState F)

module _ {F : Type 0} ⦃f : Float F⦄ where
  unfoldable pub trades_vwap : List Trade → ℤ → F
  unfolding turnover_of
  trades_vwap trades fallback =
      let (turnover, volume) = turnover_of trades (pos 0) (pos 0) in
      if eqb_ℤ volume (pos 0) then f.of_int fallback else f.of_int turnover /F f.of_int volume

  micro_price : Level → Level → ℤ → F
  micro_price bid ask fallback =
      let denominator = f.of_int (add64 bid.quantity ask.quantity) in
      if f.equal denominator (f.of_int (pos 0))
      then f.of_int fallback
      else (f.of_int (pos ask.price) *F f.of_int bid.quantity
          +F f.of_int (pos bid.price) *F f.of_int ask.quantity)
        /F denominator

  -- `bookMicroPrice`.
  unfoldable pub book_micro_price : List Level → List Level → ℤ → F
  unfolding micro_price
  book_micro_price (bid ∷ bids) (ask ∷ asks) fallback = micro_price bid ask fallback
  book_micro_price bids asks fallback = f.of_int fallback

  unfoldable pub normalized : ℤ → ℤ → F
  normalized a b =
      let total = f.of_int (add64 a b) in
      if f.equal total (f.of_int (pos 0)) then f.of_int (pos 0) else f.of_int (sub64 a b) /F total

  unfoldable pub percent_move : F → F → F
  percent_move target current =
      if f.equal current (f.of_int (pos 0))
      then f.of_int (pos 0)
      else (target -F current) /F current

  -- `pruneExpiredLocked`.
  unfoldable pub prune_expired : MarketState F → ℕ → MarketState F
  prune_expired s now = record s { effects = keep_if (λ e. ltb now e.expires_at) s.effects }

  -- The loop of `activeBias`.
  unfoldable pub sum_bias : ℕ → F → List (Effect F) → F
  sum_bias now bias [] = bias
  sum_bias now bias (e ∷ es) =
      sum_bias now
        (if leb e.expires_at e.started_at || leb e.expires_at now
          then bias
          else bias
            +F e.bias
              *F (f.seconds (e.expires_at - now) /F f.seconds (e.expires_at - e.started_at)))
        es

  unfoldable pub active_bias : MarketState F → ℕ → F
  unfolding sum_bias
  active_bias s now =
      clamp_float (sum_bias now (f.of_int (pos 0)) s.effects) (f.neg (f.decimal 45 2))
        (f.decimal 45 2)

  -- The zero value that a missing key reads as.
  abbrev pub blank_state : MarketState F
  blank_state = record {
    price = quiet_point "" (pos 0) (pos 0) (pos 0) (pos 0) 0;
    fair_value = f.of_int (pos 0);
    trend = f.of_int (pos 0);
    pressure = f.of_int (pos 0);
    volatility = f.of_int (pos 0);
    effects = [];
  }

  abbrev pub state_of : Option (MarketState F) → MarketState F
  state_of none = blank_state
  state_of (some s) = s

  abbrev pub first_state : ℕ → Ticker → MarketState F
  first_state now t = record blank_state {
    price = quiet_point t.symbol t.initial_price t.initial_price (pos 0) (pos 0) now;
    fair_value = f.of_int t.initial_price;
  }

  -- `NewPriceEngine`: a later ticker of the same symbol replaces an earlier one.
  unfoldable pub new : ℕ → List Ticker → PriceEngine F
  unfolding or_else
  new now [] = record { configs = λ _. none; state = λ _. none }
  new now (t ∷ ts) =
      let e = new now ts in
      record {
        configs = λ s. or_else (e.configs s) (if str_eq s t.symbol then some t else none);
        state =
            λ s. or_else (e.state s) (if str_eq s t.symbol then some (first_state now t) else none);
      }
