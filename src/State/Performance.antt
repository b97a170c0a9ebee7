-- ===== src/State/Performance.antt =====
-- internal/state/performance_store.go: equity snapshots and the leaderboard. Times are in
-- nanoseconds; a window or limit of zero stands for one that is not positive.
use ssh_arena.Prelude.{
  ℕ, zero, suc, ◌+◌, ◌-◌, String, Bool, true, false, not, ◌&&◌, ◌||◌, Option, none, some, List, [],
  ◌∷◌, ◌++◌, ltb, leb, ◌==◌, if◌then◌else◌, take,
}
use ssh_arena.Prelude.Int.{ℤ, pos, add64, sub64, ltb_ℤ, eqb_ℤ, is_positive}
use ssh_arena.Prelude.Text.{str_eq}
use ssh_arena.Prelude.Float.{Float, ◌*F◌, ◌/F◌}
use ssh_arena.State.TradeStore.{TradeRecord, last_n}
pub mod Ranking

pub record EquitySnapshot : Type 0 where
  pub player_id : String
  pub username : String
  pub role : String
  pub cash : ℤ
  pub holdings_value : ℤ
  pub total_equity : ℤ
  pub captured_at : ℕ

pub record LeaderboardEntry (F : Type 0) : Type 0 where
  pub rank : ℕ
  pub player_id : String
  pub username : String
  pub role : String
  pub window_start : ℕ
  pub window_end : ℕ
  pub equity_then : ℤ
  pub equity_now : ℤ
  pub pnl : ℤ
  pub return_pct : F
  pub trade_count : ℕ
  pub buy_volume : ℤ
  pub sell_volume : ℤ
  pub turnover : ℤ
  pub last_updated_at : ℕ

pub record PerformanceStore : Type 0 where
  pub max_snapshots : ℕ
  pub snapshots : List EquitySnapshot

-- `LoadPerformanceStore` on the snapshots of the file.
unfoldable pub load : ℕ → List EquitySnapshot → PerformanceStore
load max_snapshots snaps = record {
  max_snapshots = if max_snapshots == 0 then 100_000 else max_snapshots;
  snapshots = snaps;
}

-- `Append`; the second component says whether the file was written.
unfoldable pub append : Bool → List EquitySnapshot → PerformanceStore → PerformanceStore × Bool
append written [] s = (s, true)
append written (r ∷ rs) s =
    (record s { snapshots = last_n s.max_snapshots (s.snapshots ++ r ∷ rs) }, written)

pub record PlayerStats : Type 0 where
  pub baseline : Option EquitySnapshot
  pub latest : Option EquitySnapshot
  pub trades : ℕ
  pub buy_qty : ℤ
  pub sell_qty : ℤ
  pub turnover : ℤ

abbrev pub no_stats : PlayerStats
no_stats = record {
  baseline = none;
  latest = none;
  trades = 0;
  buy_qty = pos 0;
  sell_qty = pos 0;
  turnover = pos 0;
}

-- `ensure`, and the change of what it gives: the entry of a key, made if it is missing.
unfoldable pub ensure {ℓ} :
    {A : Type ℓ} → A → String → (A → A) → List (String × A) → List (String × A)
ensure blank k f [] = (k, f blank) ∷ []
ensure blank k f ((j, a) ∷ m) = if str_eq j k then (j, f a) ∷ m else (j, a) ∷ ensure blank k f m

-- `!has || snap.CapturedAt.After(kept.CapturedAt)`.
unfoldable pub newer : EquitySnapshot → Option EquitySnapshot → Bool
newer snap none = true
newer snap (some kept) = ltb kept.captured_at snap.captured_at

unfoldable pub baseline_after : ℕ → EquitySnapshot → Option EquitySnapshot → Option EquitySnapshot
unfolding newer
baseline_after start snap none = some snap
baseline_after start snap (some kept) =
    if leb snap.captured_at start && newer snap (some kept) then some snap else some kept

unfoldable pub latest_after : EquitySnapshot → Option EquitySnapshot → Option EquitySnapshot
unfolding newer
latest_after snap kept = if newer snap kept then some snap else kept

-- The first loop of `Leaderboard`.
unfoldable pub note_snapshot : ℕ → EquitySnapshot → PlayerStats → PlayerStats
unfolding baseline_after latest_after
note_snapshot start snap s = record s {
  baseline = baseline_after start snap s.baseline;
  latest = latest_after snap s.latest;
}

unfoldable pub note_snapshots :
    ℕ → List EquitySnapshot → List (String × PlayerStats) → List (String × PlayerStats)
unfolding ensure note_snapshot
note_snapshots start [] m = m
note_snapshots start (snap ∷ snaps) m =
    note_snapshots start snaps (ensure no_stats snap.player_id (note_snapshot start snap) m)

abbrev pub note_buy : TradeRecord → PlayerStats → PlayerStats
note_buy t s = record s {
  trades = suc s.trades;
  buy_qty = add64 s.buy_qty t.quantity;
  turnover = add64 s.turnover t.notional;
}

abbrev pub note_sale : TradeRecord → PlayerStats → PlayerStats
note_sale t s = record s {
  trades = suc s.trades;
  sell_qty = add64 s.sell_qty t.quantity;
  turnover = add64 s.turnover t.notional;
}

-- The second loop of `Leaderboard`.
unfoldable pub note_trades :
    ℕ → ℕ → List TradeRecord → List (String × PlayerStats) → List (String × PlayerStats)
unfolding ensure
note_trades start now [] m = m
note_trades start now (t ∷ ts) m = note_trades start now ts (
    if ltb t.executed_at start || ltb now t.executed_at
    then m
    else ensure no_stats t.seller_id (note_sale t) (ensure no_stats t.buyer_id (note_buy t) m))

-- The ranks from `n` on.
unfoldable pub number_from :
    {F : Type 0} → ℕ → List (LeaderboardEntry F) → List (LeaderboardEntry F)
number_from n [] = []
number_from n (e ∷ es) = record e { rank = n } ∷ number_from (suc n) es

-- Insertion by a test that says whether its first argument comes before its second.
unfoldable pub insert_by {ℓ} : {A : Type ℓ} → (A → A → Bool) → A → List A → List A
insert_by before x [] = x ∷ []
insert_by before x (y ∷ ys) =
    let rest = insert_by before x ys in if before y x then y ∷ rest else x ∷ y ∷ ys

unfoldable pub sort_by {ℓ} : {A : Type ℓ} → (A → A → Bool) → List A → List A
unfolding insert_by
sort_by before [] = []
sort_by before (x ∷ xs) = insert_by before x (sort_by before xs)

abbrev pub window_start : ℕ → ℕ → ℕ
window_start window now = now - (if window == 0 then 3_600_000_000_000 else window)

abbrev pub limit_of : ℕ → ℕ
limit_of limit = if limit == 0 then 10 else limit

module _ {F : Type 0} ⦃f : Float F⦄ where
  unfoldable pub return_pct : ℤ → ℤ → F
  return_pct pnl base =
      if is_positive base
      then f.round ((f.of_int pnl /F f.of_int base) *F f.of_int (pos 10000)) /F f.of_int (pos 100)
      else f.of_int (pos 0)

  unfoldable pub entry_of :
      ℕ → ℕ → String → PlayerStats → EquitySnapshot → EquitySnapshot → LeaderboardEntry F
  unfolding return_pct
  entry_of start now id s base latest =
      let pnl = sub64 latest.total_equity base.total_equity in
      record {
        rank = 0;
        player_id = id;
        username = latest.username;
        role = latest.role;
        window_start = start;
        window_end = now;
        equity_then = base.total_equity;
        equity_now = latest.total_equity;
        pnl = pnl;
        return_pct = return_pct pnl base.total_equity;
        trade_count = s.trades;
        buy_volume = s.buy_qty;
        sell_volume = s.sell_qty;
        turnover = s.turnover;
        last_updated_at = latest.captured_at;
      }

  -- Players without a snapshot have no entry.
  unfoldable pub entries_of : ℕ → ℕ → List (String × PlayerStats) → List (LeaderboardEntry F)
  unfolding entry_of
  entries_of start now [] = []
  entries_of start now ((id, s) ∷ m) =
      let rest = entries_of start now m in
      elim s.baseline [
        | none ↦ rest
        | some base ↦ elim s.latest [
          | none ↦ rest
          | some latest ↦ entry_of start now id s base latest ∷ rest
        ]
      ]

  -- The comparison of `sort.Slice`.
  unfoldable pub outranks : LeaderboardEntry F → LeaderboardEntry F → Bool
  outranks a b =
      if eqb_ℤ a.pnl b.pnl
      then (if f.equal a.return_pct b.return_pct
          then ltb_ℤ b.turnover a.turnover
          else f.less b.return_pct a.return_pct)
      else ltb_ℤ b.pnl a.pnl

  -- The entries of all players, before they are sorted.
  unfoldable pub candidates :
      ℕ → ℕ → List TradeRecord → PerformanceStore → List (LeaderboardEntry F)
  unfolding note_snapshots note_trades entries_of
  candidates window now trades s =
      let start = window_start window now in
      entries_of start now (note_trades start now trades (note_snapshots start s.snapshots []))

  -- `Leaderboard`.
  unfoldable pub leaderboard :
      ℕ → ℕ → List TradeRecord → ℕ → PerformanceStore → List (LeaderboardEntry F)
  unfolding candidates sort_by number_from
  leaderboard window now trades limit s =
      number_from 1 (take (limit_of limit) (sort_by outranks (candidates window now trades s)))
