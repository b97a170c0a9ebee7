-- ===== src/Intel/Shop.antt =====
-- `Buy` of internal/intel/engine.go.
pub mod Immediate
use ssh_arena.Prelude.{ℕ, String, Bool, none, some, List, if◌then◌else◌}
use ssh_arena.Prelude.Outcome.{Outcome, ok, err}
use ssh_arena.Intel.Feeds.{IntelError, not_found, not_purchasable, Engine, is_insider, is_sold}
use ssh_arena.Intel.Access.{Purchase, buy_insider}
use ssh_arena.Intel.Analytics.{Report, build_analytics}

pub data Bought : Type 0 where
  insider_bought : Purchase → Bought
  analysed : Report → Bought

with_purchase : Engine × Outcome IntelError Purchase → Engine × Outcome IntelError Bought
with_purchase (e, err x) = (e, err x)
with_purchase (e, ok p) = (e, ok (insider_bought p))

with_report : Outcome IntelError Report → Outcome IntelError Bought
with_report (err x) = err x
with_report (ok r) = ok (analysed r)

-- `Buy`, without the notification of a preview that is sent at once.
unfoldable pub buy :
    (String → Bool)
    → ℕ
    → List String
    → ℕ
    → String
    → String
    → Engine
    → Engine × Outcome IntelError Bought
unfolding with_purchase with_report
buy has_chart i tickers now player_id id e = elim (e.defs id) [
  | none ↦ (e, err not_found)
  | some d ↦
      if is_insider d
      then with_purchase (buy_insider now player_id d e)
      else if is_sold d
      then (e, with_report (build_analytics has_chart i tickers d))
      else (e, err not_purchasable)
]
