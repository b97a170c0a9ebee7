-- ===== src/Gameplay/IntelBuy.antt =====
-- `handleIntelBuy` of internal/gameplay/intel_support.go, on a decoded payload. The snapshot of the
-- portfolio that is recorded afterwards is told by whether it could be written; the intel engine is
-- configured.
pub mod Payment
use ssh_arena.Prelude.{ℕ, String, Bool, Option, none, some, List, if◌then◌else◌}
use ssh_arena.Prelude.Int.{ℤ, add64, sub64, ltb_ℤ}
use ssh_arena.Prelude.Outcome.{Outcome, ok, err}
use ssh_arena.State.Player.{Player, Players, get_by_player_id, set_player}
use ssh_arena.Gameplay.Accounts.{
  GameError, player_not_found, insufficient_cash, store_failed, intel_refused,
}
use ssh_arena.Intel.Feeds.{CatalogItem, quote}
use ssh_arena.Intel.Feeds as Feeds
use ssh_arena.Intel.Shop.{Bought, buy}

-- What the outside world answers: whether the player and the snapshot can be written, the time, the
-- tickers, which symbols have a chart, and a random index into the tickers.
pub record World : Type 0 where
  pub written : Bool
  pub recorded : Bool
  pub now : ℕ
  pub tickers : List String
  pub has_chart : String → Bool
  pub index : ℕ

abbrev pub charge : ℤ → Player → Player
charge price p = record p { cash = sub64 p.cash price }

-- `player.Cash += quote.Price`.
abbrev pub give_back : ℤ → Player → Player
give_back price p = record p { cash = add64 p.cash price }

after_buy :
    World
    → ℤ
    → Player
    → Players
    → Feeds.Engine × Outcome Feeds.IntelError Bought
    → Players × Feeds.Engine × Outcome GameError Bought
after_buy w price p ps (e, err x) =
    let back = give_back price p in (set_player back.username back ps, e, err intel_refused)
after_buy w price p ps (e, ok b) = (ps, e, if w.recorded then ok b else err store_failed)

pay :
    World
    → String
    → ℤ
    → Player
    → Players
    → Feeds.Engine
    → Players × Feeds.Engine × Outcome GameError Bought
unfolding after_buy
pay w id price p ps e =
    let paid = charge price p in
    let ps' = set_player paid.username paid ps in
    if ltb_ℤ (sub64 p.cash p.reserved_cash) price
    then (ps, e, err insufficient_cash)
    else if w.written
    then after_buy w price paid ps' (buy w.has_chart w.index w.tickers w.now paid.player_id id e)
    else (ps', e, err store_failed)

quoted :
    World
    → String
    → Player
    → Players
    → Feeds.Engine
    → Outcome Feeds.IntelError CatalogItem
    → Players × Feeds.Engine × Outcome GameError Bought
unfolding pay
quoted w id p ps e (err x) = (ps, e, err intel_refused)
quoted w id p ps e (ok item) = pay w id item.price p ps e

unfoldable pub handle_intel_buy :
    World
    → String
    → String
    → Players
    → Feeds.Engine
    → Players × Feeds.Engine × Outcome GameError Bought
unfolding quoted
handle_intel_buy w player_id id ps e = elim (get_by_player_id player_id ps) [
  | none ↦ (ps, e, err player_not_found)
  | some p ↦ quoted w id p ps e (quote e id)
]
