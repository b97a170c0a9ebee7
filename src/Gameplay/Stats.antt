-- ===== src/Gameplay/Stats.antt =====
-- internal/gameplay/stats_support.go: trade records and equity snapshots of a settlement, and the
-- queries on them. Both stores are configured; `written` tells whether their files can be written.
use ssh_arena.Prelude.{
  ℕ, ◌-◌, ◌*◌, String, Bool, Option, none, some, List, [], ◌∷◌, ◌==◌, map, if◌then◌else◌,
}
use ssh_arena.Prelude.Int.{ℤ, pos, add64, mul64}
use ssh_arena.Prelude.Text.{str_eq, sort_texts}
use ssh_arena.Prelude.Outcome.{Outcome, ok, err}
use ssh_arena.Prelude.Float.{Float}
use ssh_arena.OrderBook.Types.{Trade}
use ssh_arena.Exchange.Engine.{PricePoint}
use ssh_arena.Exchange.Service.{Market, ExchangeError}
use ssh_arena.Exchange.Service.Events.{price_map}
use ssh_arena.State.Player.{Player}
use ssh_arena.State.TradeStore.{TradeStore, TradeRecord, TradeQuery, query, all}
use ssh_arena.State.TradeStore as TradeStore
use ssh_arena.State.Performance.{EquitySnapshot, PerformanceStore, LeaderboardEntry, leaderboard}
use ssh_arena.State.Performance as Performance
use ssh_arena.Gameplay.Accounts.{GameError, exchange_failed, store_failed}
use ssh_arena.Gameplay.Desk.{lookup}

-- The market and the two stores.
pub record Records (F : Type 0) : Type 0 where
  pub market : Market F
  pub trade_history : TradeStore
  pub performance : PerformanceStore

-- `usernameOrEmpty`.
unfoldable pub username_or_empty : Option Player → String
username_or_empty none = ""
username_or_empty (some p) = p.username

-- The record of a trade in `persistTradeEffects`.
unfoldable pub record_of : List (String × Player) → Trade → TradeRecord
unfolding lookup username_or_empty
record_of players t = record {
  id = t.id;
  symbol = t.symbol;
  price = pos t.price;
  quantity = pos t.quantity;
  notional = mul64 (pos t.price) (pos t.quantity);
  aggressor_side = t.aggressor_side;
  buy_order_id = t.buy_order_id;
  sell_order_id = t.sell_order_id;
  buyer_id = t.buyer_id;
  buyer_username = username_or_empty (lookup t.buyer_id players);
  buyer_role = t.buyer_role;
  seller_id = t.seller_id;
  seller_username = username_or_empty (lookup t.seller_id players);
  seller_role = t.seller_role;
  executed_at = t.executed_at;
}

-- `prices[symbol].CurrentPrice`, zero for a missing symbol.
unfoldable pub price_in : List String → List PricePoint → String → ℤ
price_in [] ps symbol = pos 0
price_in (s ∷ ss) [] symbol = pos 0
price_in (s ∷ ss) (p ∷ ps) symbol =
    if str_eq s symbol then p.current_price else price_in ss ps symbol

-- The inner loop of `buildPerformanceSnapshots`.
unfoldable pub holdings_value : (String → ℤ) → Player → List String → ℤ → ℤ
holdings_value prices p [] value = value
holdings_value prices p (s ∷ ss) value =
    holdings_value prices p ss (add64 value (mul64 (p.portfolio s) (prices s)))

unfoldable pub snapshot_of : ℕ → List String → (String → ℤ) → Player → EquitySnapshot
unfolding holdings_value
snapshot_of now symbols prices p =
    let value = holdings_value prices p symbols (pos 0) in
    record {
      player_id = p.player_id;
      username = p.username;
      role = p.role;
      cash = p.cash;
      holdings_value = value;
      total_equity = add64 p.cash value;
      captured_at = now;
    }

-- The players in the order of their ids.
unfoldable pub snapshots_for :
    ℕ → List String → (String → ℤ) → List (String × Player) → List String → List EquitySnapshot
unfolding snapshot_of lookup
snapshots_for now symbols prices players [] = []
snapshots_for now symbols prices players (id ∷ ids) =
    let rest = snapshots_for now symbols prices players ids in
    elim (lookup id players) [ none ↦ rest | some p ↦ snapshot_of now symbols prices p ∷ rest ]

abbrev ids_of : List (String × Player) → List String
ids_of players = sort_texts (map (λ e. e.0) players)

module _ {F : Type 0} ⦃f : Float F⦄ where
  -- `buildPerformanceSnapshots`, on the answer of `PriceMap`.
  unfoldable pub build_snapshots :
      ℕ
      → List String
      → List (String × Player)
      → Market F × Outcome ExchangeError (List PricePoint)
      → Market F × Outcome GameError (List EquitySnapshot)
  unfolding snapshots_for price_in
  build_snapshots now symbols players (m, err x) = (m, err exchange_failed)
  build_snapshots now symbols players (m, ok ps) =
      (m, ok (snapshots_for now symbols (price_in m.tickers ps) players (ids_of players)))

  unfoldable pub keep_snapshots :
      Bool
      → Records F
      → Market F × Outcome GameError (List EquitySnapshot)
      → Records F × Outcome GameError (Unit {0})
  keep_snapshots written r (m, err x) = (record r { market = m }, err x)
  keep_snapshots written r (m, ok snaps) =
      let kept = Performance.append written snaps r.performance in
      (record r { market = m; performance = kept.0 }, if kept.1 then ok tt else err store_failed)

  -- `recordPerformanceSnapshots`.
  unfoldable pub record_snapshots :
      Bool
      → ℕ
      → List String
      → List (String × Player)
      → Records F
      → Records F × Outcome GameError (Unit {0})
  unfolding build_snapshots keep_snapshots
  record_snapshots written now symbols [] r = (r, ok tt)
  record_snapshots written now symbols (p ∷ ps) r =
      keep_snapshots written r (build_snapshots now symbols (p ∷ ps) (price_map now r.market))

  -- `persistTradeEffects`.
  unfoldable pub persist_trade_effects :
      Bool
      → ℕ
      → List String
      → List (String × Player)
      → List Trade
      → Records F
      → Records F × Outcome GameError (Unit {0})
  unfolding record_of record_snapshots
  persist_trade_effects written now symbols players [] r = (r, ok tt)
  persist_trade_effects written now symbols players (t ∷ ts) r =
      let kept = TradeStore.append written (map (record_of players) (t ∷ ts)) r.trade_history in
      let r' : Records F = record r { trade_history = kept.0 } in
      if kept.1 then record_snapshots written now symbols players r' else (r', err store_failed)

  -- `recordPlayerSnapshot`.
  unfoldable pub record_player_snapshot :
      Bool → ℕ → List String → Player → Records F → Records F × Outcome GameError (Unit {0})
  unfolding record_snapshots
  record_player_snapshot written now symbols p r =
      record_snapshots written now symbols ((p.player_id, p) ∷ []) r

  -- `handleLeaderboard`; a window or limit of zero stands for one that is not positive.
  unfoldable pub handle_leaderboard : ℕ → ℕ → ℕ → Records F → List (LeaderboardEntry F)
  handle_leaderboard now window_seconds limit r =
      leaderboard ((if window_seconds == 0 then 3600 else window_seconds) * 1_000_000_000) now
        (all r.trade_history) (if limit == 0 then 10 else limit) r.performance

-- `handleTradeHistory` on a decoded payload.
pub record TradeHistoryPayload : Type 0 where
  pub player_id : String
  pub symbol : String
  pub since_seconds : ℕ
  pub limit : ℕ

unfoldable pub handle_trade_history : ℕ → TradeHistoryPayload → TradeStore → List TradeRecord
handle_trade_history now q s =
    query
      (record {
        player_id = q.player_id;
        symbol = q.symbol;
        since = if q.since_seconds == 0 then 0 else now - q.since_seconds * 1_000_000_000;
        until = 0;
        limit = q.limit;
      })
      s
