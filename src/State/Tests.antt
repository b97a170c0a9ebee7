-- ===== src/State/Tests.antt =====
-- Runs of the stores, and instances of their theorems.
use ssh_arena.Prelude.{String, ℕ, ◌≡◌, ◌≤◌, true, refl, List, [], ◌∷◌, length, take}
use mathlib.Core.List.{reverse}
use mathlib.Core.List.{Perm}
use ssh_arena.Prelude.Int.{ℤ, pos}
use ssh_arena.Prelude.Float.Fixed.{Fixed, fixed_float, fixed-IsFloat}
use ssh_arena.State.Performance.{
  EquitySnapshot, PerformanceStore, LeaderboardEntry, number_from, candidates, outranks,
  leaderboard,
}
use ssh_arena.State.Performance.Ranking.{Ordered, leaderboard-Ordered}
use ssh_arena.OrderBook.Types.{Side}
use ssh_arena.State.TradeStore.{TradeRecord, TradeQuery, TradeStore, append, query, collect, last_n}
use ssh_arena.State.TradeStore.Answers.{Matches, IsFront, query-IsFront}

abbrev trade : ℕ → TradeRecord
trade at = record {
  id = record { request_id = "r"; number = at };
  symbol = "TECH";
  price = pos 10;
  quantity = pos 2;
  notional = pos 20;
  aggressor_side = Side.buy;
  buy_order_id = "b";
  sell_order_id = "s";
  buyer_id = "p1";
  buyer_username = "ann";
  buyer_role = "Buyer";
  seller_id = "p2";
  seller_username = "bob";
  seller_role = "Holder";
  executed_at = at;
}

abbrev store : TradeStore
store = record { max_records = 2; trades = trade 1 ∷ trade 2 ∷ [] }

abbrev since_two : TradeQuery
since_two = record { player_id = "p2"; symbol = ""; since = 2; until = 0; limit = 1 }

append_run : (append true (trade 3 ∷ []) store).0.trades ≡ trade 2 ∷ trade 3 ∷ []
unfolding append last_n
append_run = refl

query_run : query since_two store ≡ trade 2 ∷ []
unfolding query collect
query_run = refl

query-IsFront_example : IsFront (Matches since_two) 1 (reverse store.trades) (query since_two store)
query-IsFront_example = query-IsFront since_two store

abbrev equity : String → ℤ → ℕ → EquitySnapshot
equity id total at = record {
  player_id = id;
  username = id;
  role = "Buyer";
  cash = total;
  holdings_value = pos 0;
  total_equity = total;
  captured_at = at;
}

abbrev growth : PerformanceStore
growth = record {
  max_snapshots = 10;
  snapshots =
      equity "ann" (pos 100) 1
      ∷ equity "bob" (pos 100) 2
      ∷ equity "ann" (pos 130) 3
      ∷ equity "bob" (pos 90) 4
      ∷ [];
}

leaderboard-Ordered_example :
    (length (leaderboard {F = Fixed} 2 4 (trade 3 ∷ []) 1 growth) ≤ 1)
    × (sorted : List (LeaderboardEntry Fixed)) × Perm (candidates 2 4 (trade 3 ∷ []) growth) sorted
    × Ordered outranks sorted
    × (leaderboard 2 4 (trade 3 ∷ []) 1 growth ≡ number_from 1 (take 1 sorted))
leaderboard-Ordered_example = leaderboard-Ordered fixed-IsFloat 2 4 (trade 3 ∷ []) 1 growth
