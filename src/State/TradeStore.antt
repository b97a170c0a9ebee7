-- ===== src/State/TradeStore.antt =====
-- internal/state/trade_store.go: a bounded history of trades, and queries on it, newest first.
use ssh_arena.Prelude.{
  ℕ, zero, suc, ◌+◌, ◌-◌, String, Bool, true, false, not, ◌&&◌, ◌||◌, Option, none, some, List, [],
  ◌∷◌, ◌++◌, ltb, leb, ◌==◌, if◌then◌else◌, length, drop, keep_if, take,
}
use mathlib.Core.List.{reverse}
use ssh_arena.Prelude.Int.{ℤ}
use ssh_arena.Prelude.Text.{str_eq, is_empty}
use ssh_arena.OrderBook.Types.{TradeId, Side}
pub mod Bounded
pub mod Answers

pub record TradeRecord : Type 0 where
  pub id : TradeId
  pub symbol : String
  pub price : ℤ
  pub quantity : ℤ
  pub notional : ℤ
  pub aggressor_side : Side
  pub buy_order_id : String
  pub sell_order_id : String
  pub buyer_id : String
  pub buyer_username : String
  pub buyer_role : String
  pub seller_id : String
  pub seller_username : String
  pub seller_role : String
  pub executed_at : ℕ

-- A zero time is no bound, and a limit of zero or less stands for a hundred.
pub record TradeQuery : Type 0 where
  pub player_id : String
  pub symbol : String
  pub since : ℕ
  pub until : ℕ
  pub limit : ℕ

pub record TradeStore : Type 0 where
  pub max_records : ℕ
  pub trades : List TradeRecord

-- `LoadTradeStore` on the records of the file.
unfoldable pub load : ℕ → List TradeRecord → TradeStore
load max_records ts = record {
  max_records = if max_records == 0 then 50000 else max_records;
  trades = ts;
}

-- The newest `n` entries, which come last.
unfoldable pub last_n {ℓ} : {A : Type ℓ} → ℕ → List A → List A
last_n n xs = if ltb n (length xs) then drop (length xs - n) xs else xs

-- `Append`; the second component says whether the file was written.
unfoldable pub append : Bool → List TradeRecord → TradeStore → TradeStore × Bool
append written [] s = (s, true)
append written (r ∷ rs) s =
    (record s { trades = last_n s.max_records (s.trades ++ r ∷ rs) }, written)

abbrev pub matches_query : TradeQuery → TradeRecord → Bool
matches_query q t =
    (is_empty q.symbol || str_eq t.symbol q.symbol)
    && ((is_empty q.player_id || str_eq t.buyer_id q.player_id || str_eq t.seller_id q.player_id)
        && ((q.since == 0 || leb q.since t.executed_at)
            && (q.until == 0 || leb t.executed_at q.until)))

-- The loop of `Query` over the trades from the newest on; `room` more may be taken.
unfoldable pub collect {ℓ} : {A : Type ℓ} → (A → Bool) → ℕ → List A → List A
collect p room [] = []
collect p zero (t ∷ ts) = []
collect p (suc room) (t ∷ ts) =
    let found = collect p room ts in
    let passed = collect p (suc room) ts in if p t then t ∷ found else passed

unfoldable pub query : TradeQuery → TradeStore → List TradeRecord
unfolding collect
query q s = collect (matches_query q) (if q.limit == 0 then 100 else q.limit) (reverse s.trades)

-- `All`.
unfoldable pub all : TradeStore → List TradeRecord
all s = s.trades
