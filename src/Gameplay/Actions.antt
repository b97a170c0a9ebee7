-- ===== src/Gameplay/Actions.antt =====
-- `ExecuteAction` of internal/gameplay/engine.go: the dispatch under the engine's lock, which is held
-- until the action is done. `handleIntelBuy` calls the intel engine under it, and that calls
-- `NotifyPlayer`, which takes the same lock, where a preview is due at once. Requests come decoded and
-- trimmed; a reply's text is left out, and that of a preview is a parameter.
use ssh_arena.Prelude.{
  ℕ, String, Bool, true, false, ◌&&◌, not, Option, none, some, List, [], ◌∷◌, if◌then◌else◌,
}
use ssh_arena.Prelude.Int.{ℤ, sub64, ltb_ℤ}
use ssh_arena.Prelude.Text.{is_empty}
use ssh_arena.Prelude.Outcome.{Outcome, ok, err}
use ssh_arena.Prelude.Float.{Float}
use ssh_arena.OrderBook.Types.{Order}
use ssh_arena.OrderBook.Place.{PlacementResult}
use ssh_arena.Exchange.Service.{ExchangeError}
use ssh_arena.Exchange.Service.Events.{ChartSnapshot, chart_snapshot}
use ssh_arena.State.Player.{Player, Players, get_by_player_id}
use ssh_arena.State.ChatStore.{ChatMessage}
use ssh_arena.State.TradeStore.{TradeRecord}
use ssh_arena.State.Performance.{LeaderboardEntry}
use ssh_arena.Gameplay.Accounts.{
  GameError, player_not_found, exchange_failed, intel_not_configured, unsupported_action,
  no_markets,
}
use ssh_arena.Gameplay.Orders.{
  Engine, World, PlaceOrderPayload, handle_place_order, handle_cancel_order,
}
use ssh_arena.Gameplay.Stats.{
  Records, record_player_snapshot, TradeHistoryPayload, handle_trade_history, handle_leaderboard,
}
use ssh_arena.Gameplay.Portfolio.{
  PortfolioSnapshot, TradeRulesSnapshot, snapshot_player, trading_rules_snapshot,
}
use ssh_arena.Gameplay.Sessions.{Game, with_players, with_records, send_chat, exchange_token}
use ssh_arena.Gameplay.Notices.{Mutex, Locked, with_lock, and_then, notify_player}
use ssh_arena.MarketEvents.{PlannedEvent}
use ssh_arena.Gameplay.IntelBuy.{handle_intel_buy, charge}
use ssh_arena.Gameplay.IntelBuy as Intel
use ssh_arena.Intel.Feeds.{CatalogItem, IntelError, catalog, quote}
use ssh_arena.Intel.Feeds as Feeds
use ssh_arena.Intel.Access.{Purchase, armed_for_future, armed_for, previewed}
use ssh_arena.Intel.Shop.{Bought, insider_bought, analysed, buy}
pub mod Locking
pub mod Serving
mod Tests

pub data Action : Type 0 where
  place_order : PlaceOrderPayload → Action
  cancel_order : String → String → Action
  get_portfolio market_catalog intel_catalog unsupported : Action
  send_message : String → String → Action
  market_snapshot exchange_grant buy_intel : String → Action
  trade_history : TradeHistoryPayload → Action
  show_leaderboard : ℕ → ℕ → Action

pub data Reply (F : Type 0) : Type 0 where
  placed : PlacementResult → Reply F
  cancelled : Order → Reply F
  portfolio : PortfolioSnapshot → Reply F
  sent : String → Reply F
  snapshot : ChartSnapshot → Reply F
  listed : List String → TradeRulesSnapshot → Reply F
  exchanged : Player → Reply F
  trades : List TradeRecord → Reply F
  leaders : List (LeaderboardEntry F) → Reply F
  intel_items : List CatalogItem → Reply F
  bought : Bought → Reply F

-- The event whose preview a purchase sends at once, through `NotifyPlayer`.
unfoldable pub preview_of : Outcome IntelError Bought → Option PlannedEvent
preview_of (err x) = none
preview_of (ok (analysed r)) = none
preview_of (ok (insider_bought armed_for_future)) = none
preview_of (ok (insider_bought (armed_for ev))) = none
preview_of (ok (insider_bought (previewed ev))) = some ev

-- That event, if a request gets as far as such a purchase.
unfoldable pub purchase_preview :
    Intel.World → String → String → Players → Feeds.Engine → Option PlannedEvent
unfolding preview_of
purchase_preview w player_id id ps e = elim (get_by_player_id player_id ps) [
  | none ↦ none
  | some p ↦ elim (quote e id) [
    | err x ↦ none
    | ok item ↦
        let covered = not (ltb_ℤ (sub64 p.cash p.reserved_cash) item.price) in
        let answer = buy w.has_chart w.index w.tickers w.now p.player_id id e in
        if covered && w.written then preview_of answer.1 else none
  ]
]

-- The market's tickers, in the order in which they are asked for, and the random index.
abbrev intel_world : World → (String → Bool) → ℕ → List String → Intel.World
intel_world w has_chart index symbols = record {
  written = w.written;
  recorded = w.written;
  now = w.now;
  tickers = symbols;
  has_chart = has_chart;
  index = index;
}

unfoldable pub with_reply {ℓ κ} :
    {A : Type ℓ} {B : Type κ} → (A → B) → Outcome GameError A → Outcome GameError B
with_reply k (err x) = err x
with_reply k (ok a) = ok (k a)

-- The mutex, and the engine afterwards with the answer, or a goroutine that waits.
abbrev pub Result : Type 0 → Type 0 → Type 0
Result F R = Locked (Game F R × Outcome GameError (Reply F))

-- `handleMarketSnapshot`: an empty symbol stands for the first market.
unfoldable pub chosen_market : String → List String → Option String
chosen_market symbol [] = if is_empty symbol then none else some symbol
chosen_market symbol (s ∷ ss) = some (if is_empty symbol then s else symbol)

module _ {F R : Type 0} ⦃f : Float F⦄ where
  abbrev with_orders : Game F R → Engine F → Game F R
  with_orders g e = record g { orders = e }

  -- `recordPlayerSnapshot` of the buyer, as the store has it, after a purchase.
  unfoldable pub record_purchase :
      World → String → Game F R → Outcome GameError Bought → Game F R × Outcome GameError (Reply F)
  record_purchase w player_id g (err x) = (g, err x)
  record_purchase w player_id g (ok b) = elim (get_by_player_id player_id g.orders.players) [
    | none ↦ (g, ok (bought b))
    | some p ↦
        let kept = record_player_snapshot w.written w.now g.orders.symbols p g.orders.records in
        (with_records kept.0 g, with_reply (λ u. bought b) kept.1)
  ]

  unfoldable pub complete_purchase :
      World
      → String
      → Game F R
      → Players × Feeds.Engine × Outcome GameError Bought
      → Game F R × Outcome GameError (Reply F)
  unfolding record_purchase
  complete_purchase w player_id g r =
      record_purchase w player_id (with_players r.0 (record g { intel = some r.1 })) r.2

  abbrev after_chart :
      Game F R × Outcome ExchangeError ChartSnapshot → Game F R × Outcome GameError (Reply F)
  after_chart (g, err x) = (g, err exchange_failed)
  after_chart (g, ok c) = (g, ok (snapshot c))

  unfoldable pub market_snapshot_of : ℕ → String → Game F R → Game F R × Outcome GameError (Reply F)
  unfolding chosen_market
  market_snapshot_of now symbol g = elim (chosen_market symbol g.orders.symbols) [
    | none ↦ (g, err no_markets)
    | some s ↦
        let r = g.orders.records in
        let asked = chart_snapshot now s 10 r.market in
        after_chart (with_records (record r { market = asked.0 }) g, asked.1)
  ]

  unfoldable pub portfolio_of : ℕ → String → Game F R → Outcome GameError (Reply F)
  portfolio_of now player_id g = elim (get_by_player_id player_id g.orders.players) [
    | none ↦ err player_not_found
    | some p ↦ ok (portfolio (snapshot_player now g.orders.symbols p))
  ]

module _ (render_preview : String → PlannedEvent → ℕ → String) where
  -- A preview goes to the player through `NotifyPlayer`, whoever holds the mutex.
  unfoldable pub deliver :
      ℕ
      → String
      → String
      → Option PlannedEvent
      → (String → List String)
      → Mutex
      → Locked (String → List String)
  unfolding notify_player
  deliver now player_id id none history x = (x, some history)
  deliver now player_id id (some ev) history x =
      notify_player player_id (render_preview id ev now) history x

  -- `handleIntelBuy`.
  unfoldable pub buy_under_lock :
      {F R : Type 0} ⦃f : Float F⦄
      → World
      → Intel.World
      → String
      → String
      → Game F R
      → Option Feeds.Engine
      → Mutex
      → Result F R
  unfolding deliver complete_purchase
  buy_under_lock w iw player_id id g none x = (x, some (g, err intel_not_configured))
  buy_under_lock w iw player_id id g (some e) x =
      let ps = g.orders.players in
      let preview = purchase_preview iw player_id id ps e in
      and_then (deliver iw.now player_id id preview g.private_history x) (λ history y. (
        y,
        some (
            complete_purchase w player_id (record g { private_history = history })
              (handle_intel_buy iw player_id id ps e)),
      ))

module _ {F R : Type 0} ⦃f : Float F⦄ (encode : ChatMessage → String)
    (render_preview : String → PlannedEvent → ℕ → String) where
  -- The switch of `ExecuteAction`.
  unfoldable pub perform :
      World → Intel.World → String → String → Action → Game F R → Mutex → Result F R
  unfolding market_snapshot_of portfolio_of buy_under_lock with_reply
  perform w iw request_id player_id (place_order q) g x =
      let r = handle_place_order w request_id player_id q g.orders in
      (x, some (with_orders g r.0, with_reply placed r.1))
  perform w iw request_id player_id (cancel_order symbol id) g x =
      let r = handle_cancel_order w player_id symbol id g.orders in
      (x, some (with_orders g r.0, with_reply cancelled r.1))
  perform w iw request_id player_id get_portfolio g x =
      (x, some (g, portfolio_of w.now player_id g))
  perform w iw request_id player_id market_catalog g x =
      (x, some (g, ok (listed g.orders.symbols trading_rules_snapshot)))
  perform w iw request_id player_id intel_catalog g x = (
    x,
    some (
      g,
      elim g.intel [ none ↦ err intel_not_configured | some e ↦ ok (intel_items (catalog e)) ],
    ),
  )
  perform w iw request_id player_id unsupported g x = (x, some (g, err unsupported_action))
  perform w iw request_id player_id (send_message body to) g x =
      let r = send_chat encode w.written w.now player_id body to g in
      (x, some (r.0, with_reply sent r.1))
  perform w iw request_id player_id (market_snapshot symbol) g x =
      (x, some (market_snapshot_of w.now symbol g))
  perform w iw request_id player_id (exchange_grant token) g x =
      let r = exchange_token w.now token g in (x, some (r.0, with_reply exchanged r.1))
  perform w iw request_id player_id (buy_intel id) g x =
      buy_under_lock render_preview w iw player_id id g g.intel x
  perform w iw request_id player_id (trade_history q) g x =
      (x, some (g, ok (trades (handle_trade_history w.now q g.orders.records.trade_history))))
  perform w iw request_id player_id (show_leaderboard window limit) g x =
      (x, some (g, ok (leaders (handle_leaderboard w.now window limit g.orders.records))))

  -- `ExecuteAction`.
  unfoldable pub execute_action :
      World → Intel.World → String → String → Action → Game F R → Mutex → Result F R
  unfolding perform
  execute_action w iw request_id player_id a g = with_lock (perform w iw request_id player_id a g)
