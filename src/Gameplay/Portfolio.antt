-- ===== src/Gameplay/Portfolio.antt =====
-- `snapshotPlayer` and `tradingRulesSnapshot` of internal/gameplay/engine.go. The maps of a snapshot
-- are the player's own; those that are computed are lists in the order of the symbols.
use ssh_arena.Prelude.{ℕ, ◌/◌, String, List, map}
use ssh_arena.Prelude.Int.{ℤ, pos, sub64, max64}
use ssh_arena.State.Player.{Player}
use ssh_arena.Gameplay.Fees.{
  exchange_fee_bps, market_order_surcharge_bps, rapid_flip_tax_bps, rapid_flip_window,
}
use ssh_arena.Gameplay.Lots.{rapid_flip_exposure}

pub record TradeRulesSnapshot : Type 0 where
  pub exchange_fee_bps : ℤ
  pub market_order_surcharge_bps : ℤ
  pub rapid_flip_tax_bps : ℤ
  pub rapid_flip_window_seconds : ℤ

pub record PortfolioSnapshot : Type 0 where
  pub player_id : String
  pub username : String
  pub role : String
  pub cash : ℤ
  pub reserved_cash : ℤ
  pub available_cash : ℤ
  pub portfolio : String → ℤ
  pub reserved_stocks : String → ℤ
  pub available_stock : List (String × ℤ)
  pub fresh_stock : List (String × ℤ)
  pub rules : TradeRulesSnapshot
  pub updated_at : ℕ

unfoldable pub trading_rules_snapshot : TradeRulesSnapshot
trading_rules_snapshot = record {
  exchange_fee_bps = exchange_fee_bps;
  market_order_surcharge_bps = market_order_surcharge_bps;
  rapid_flip_tax_bps = rapid_flip_tax_bps;
  rapid_flip_window_seconds = pos (rapid_flip_window / 1_000_000_000);
}

abbrev available_of : Player → String → ℤ
available_of p s = sub64 (p.portfolio s) (p.reserved_stocks s)

-- What was bought within the window and is not reserved.
abbrev fresh_of : ℕ → Player → String → ℤ
fresh_of now p s = max64 (pos 0) (sub64 (rapid_flip_exposure p s now) (p.reserved_stocks s))

unfoldable pub snapshot_player : ℕ → List String → Player → PortfolioSnapshot
unfolding trading_rules_snapshot
snapshot_player now symbols p = record {
  player_id = p.player_id;
  username = p.username;
  role = p.role;
  cash = p.cash;
  reserved_cash = p.reserved_cash;
  available_cash = sub64 p.cash p.reserved_cash;
  portfolio = p.portfolio;
  reserved_stocks = p.reserved_stocks;
  available_stock = map (λ s. (s, available_of p s)) symbols;
  fresh_stock = map (λ s. (s, fresh_of now p s)) symbols;
  rules = trading_rules_snapshot;
  updated_at = now;
}
