-- ===== src/Gameplay/Orders.antt =====
-- `handlePlaceOrder` and `handleCancelOrder` of internal/gameplay/engine.go, and the engine that
-- they change. Requests come decoded and trimmed; replies are left out.
pub mod Refusal
mod Tests
use ssh_arena.Prelude.{
  ℕ, zero, suc, String, Bool, true, false, not, ◌||◌, ◌&&◌, Option, none, some, List, [], ◌∷◌,
  if◌then◌else◌,
}
use ssh_arena.Prelude.Int.{ℤ, pos_part, is_positive}
use ssh_arena.Prelude.Text.{str_eq, is_empty}
use ssh_arena.Prelude.Outcome.{Outcome, ok, err}
use ssh_arena.OrderBook.Types.{Side, OrderType, Order, Trade, Snapshot, is_buy}
use ssh_arena.OrderBook.Place.{PlacementResult}
use ssh_arena.Prelude.Float.{Float}
use ssh_arena.Exchange.Service.{Market, PlaceOrderInput, place_order, cancel_order}
use ssh_arena.Exchange.Service.Events.{chart_snapshot}
use ssh_arena.Gameplay.Stats.{Records, persist_trade_effects}
use ssh_arena.State.Player.{Player, Players, get_by_player_id, set_player}
use ssh_arena.Gameplay.Accounts.{
  GameError, player_not_found, symbol_and_quantity_required, exchange_failed, store_failed,
  order_not_found, belongs_to_another, Reservation, reserve_for_incoming,
  release_incoming_reservation,
}
use ssh_arena.Gameplay.Desk.{
  OpenOrder, Desk, lookup, store_at, change_player, cleanup_open_order, normalize_open_order,
  trimmed, refund,
}
use ssh_arena.Gameplay.Trades.{Settling, apply_trade}

pub record Engine (F : Type 0) : Type 0 where
  pub players : Players
  pub open_orders : List (String × OpenOrder)
  pub symbols : List String
  pub records : Records F

-- What the outside world answers during an action: whether files and the cache can be written, how
-- many of the players that an order has touched are written before a write fails, the time, and a
-- fresh id.
pub record World : Type 0 where
  pub written : Bool
  pub settled : ℕ
  pub cached : Bool
  pub now : ℕ
  pub fresh : String

pub record PlaceOrderPayload : Type 0 where
  pub symbol : String
  pub side : Side
  pub kind : OrderType
  pub price : ℤ
  pub quantity : ℤ

-- The trades in turn, up to the first that fails; open orders keep what was done to them.
unfoldable pub apply_trades : List Trade → String → Settling → Settling × Option GameError
apply_trades [] id s = (s, none)
apply_trades (t ∷ ts) id s = elim (apply_trade t id s) [
  | err x ↦ (s, some x)
  | ok s' ↦ apply_trades ts id s'
]

-- The rest of an order stays open, or its reservation goes back.
unfoldable pub close_incoming : String → String → Side → PlacementResult → Settling → Settling
unfolding trimmed refund
close_incoming player_id symbol side r s = elim r.resting [
  | none ↦ record s {
    desk =
        change_player player_id
          (release_incoming_reservation symbol side s.incoming.reserved_cash
            s.incoming.reserved_quantity)
          s.desk;
  }
  | some o ↦
      let open_order : OpenOrder = record (s.incoming) { order = o } in
      let kept = change_player player_id (refund symbol side open_order) s.desk in
      record {
        desk = record kept {
          open_orders = store_at o.id (trimmed side open_order) kept.open_orders;
        };
        incoming = trimmed side open_order;
        touched_orders = o.id ∷ s.touched_orders;
      }
]

unfoldable pub cleanup_all : List String → Desk → Desk
cleanup_all [] d = d
cleanup_all (id ∷ ids) d = cleanup_all ids (cleanup_open_order id d)

unfoldable pub normalize_all : List String → Desk → Desk
normalize_all [] d = d
normalize_all (id ∷ ids) d = normalize_all ids (normalize_open_order id d)

-- The players in turn, up to the first that cannot be written, which the store in memory still gets;
-- and whether all were written.
unfoldable pub upsert_all : ℕ → List (String × Player) → Players → Players × Bool
upsert_all n [] ps = (ps, true)
upsert_all zero ((id, p) ∷ rest) ps = (set_player p.username p ps, false)
upsert_all (suc n) ((id, p) ∷ rest) ps = upsert_all n rest (set_player p.username p ps)

-- The input of `PlaceOrder`, from a payload and the player who sent it.
abbrev pub to_input : String → PlaceOrderPayload → Player → PlaceOrderInput
to_input request_id q p = record {
  request_id = request_id;
  player_id = p.player_id;
  player_role = p.role;
  symbol = q.symbol;
  side = q.side;
  kind = q.kind;
  price = pos_part q.price;
  quantity = pos_part q.quantity;
}

module _ {F : Type 0} ⦃f : Float F⦄ where
  -- `persistTradeEffects` and the answer.
  unfoldable pub persist :
      World
      → List (String × Player)
      → PlacementResult
      → Engine F
      → Engine F × Outcome GameError PlacementResult
  persist w touched r e =
      let kept = persist_trade_effects w.written w.now e.symbols touched r.trades e.records in
      (record e { records = kept.0 }, elim kept.1 [ err x ↦ err x | ok u ↦ ok r ])

  -- Everything after the market has accepted the order.
  unfoldable pub settle_order :
      World
      → Player
      → String
      → Side
      → Reservation
      → PlacementResult
      → Engine F
      → Engine F × Outcome GameError PlacementResult
  unfolding persist
  settle_order w p symbol side res r e =
      let start : Settling = record {
        desk = record {
          store = e.players;
          touched = (p.player_id, p) ∷ [];
          open_orders = e.open_orders;
        };
        incoming = record {
          order = r.order;
          reserved_cash = res.cash;
          reserved_quantity = res.quantity;
        };
        touched_orders = [];
      } in
      let (s, failed) = apply_trades r.trades r.order.id start in
      elim failed [
        | some x ↦ (record e { open_orders = s.desk.open_orders }, err x)
        | none ↦
            let closed = close_incoming p.player_id symbol side r s in
            let cleaned = cleanup_all r.removed closed.desk in
            let d = normalize_all closed.touched_orders cleaned in
            let stored = upsert_all w.settled d.touched e.players in
            let settled : Engine F = record e { players = stored.0; open_orders = d.open_orders } in
            if stored.1 then persist w d.touched r settled else (settled, err store_failed)
      ]

  -- After the reservation: the market, then the settlement, or the reservation back.
  unfoldable pub submit :
      World
      → String
      → PlaceOrderPayload
      → Reservation
      → Engine F
      → Engine F × Outcome GameError PlacementResult
  submit w request_id q res e =
      let p = res.player in
      let reserved = set_player p.username p e.players in
      let placed = place_order w.cached w.now w.fresh (to_input request_id q p) e.records.market in
      let records : Records F = record (e.records) { market = placed.0 } in
      elim placed.1 [
        | err x ↦
            let back = release_incoming_reservation q.symbol q.side res.cash res.quantity p in
            (
              record e { players = set_player back.username back reserved; records = records },
              err exchange_failed,
            )
        | ok r ↦
            settle_order w p q.symbol q.side res r
              (record e { players = reserved; records = records })
      ]

  -- The price that a reservation without a price asks the market for, which brings it up to date.
  unfoldable pub quoted_price : ℕ → PlaceOrderPayload → Market F → Market F × Option ℤ
  quoted_price now q m =
      let chart = chart_snapshot now q.symbol 1 m in
      if is_buy q.side && not (is_positive q.price)
      then (chart.0, elim chart.1 [ err x ↦ none | ok c ↦ some c.price.current_price ])
      else (m, none)

  -- A store that cannot be written stops the action after the reservation.
  reserve_and_submit :
      World
      → String
      → PlaceOrderPayload
      → Engine F
      → Player
      → Engine F × Outcome GameError PlacementResult
  unfolding quoted_price
  reserve_and_submit w request_id q old p =
      let asked = quoted_price w.now q old.records.market in
      let e : Engine F = record old { records = record (old.records) { market = asked.0 } } in
      elim (reserve_for_incoming asked.1 p q.symbol q.side q.kind q.price q.quantity) [
        | err x ↦ (e, err x)
        | ok res ↦ if w.written then submit w request_id q res e else (
          record e { players = set_player res.player.username res.player e.players },
          err store_failed,
        )
      ]

  -- `handlePlaceOrder`.
  unfoldable pub handle_place_order :
      World
      → String
      → String
      → PlaceOrderPayload
      → Engine F
      → Engine F × Outcome GameError PlacementResult
  unfolding reserve_and_submit
  handle_place_order w request_id player_id q e = elim (get_by_player_id player_id e.players) [
    | none ↦ (e, err player_not_found)
    | some p ↦
        if is_empty q.symbol || not (is_positive q.quantity)
        then (e, err symbol_and_quantity_required)
        else reserve_and_submit w request_id q e p
  ]

  -- The clean-up of a cancelled order, and the store.
  unfoldable pub settle_cancel :
      World → Player → String → Order → Engine F → Engine F × Outcome GameError Order
  settle_cancel w p id o e =
      let d = cleanup_open_order id (record {
        store = e.players;
        touched = (p.player_id, p) ∷ [];
        open_orders = e.open_orders;
      }) in
      let q : Player = elim (lookup p.player_id d.touched) [ none ↦ p | some x ↦ x ] in
      (
        record e { players = set_player q.username q e.players; open_orders = d.open_orders },
        if w.written then ok o else err store_failed,
      )

  cancel_open :
      World → Player → String → String → OpenOrder → Engine F → Engine F × Outcome GameError Order
  cancel_open w p symbol id o e =
      if not (str_eq o.order.player_id p.player_id)
      then (e, err belongs_to_another)
      else (let (m, answer) =
            cancel_order w.now (if is_empty symbol then o.order.symbol else symbol) id
              e.records.market in
          let records : Records F = record (e.records) { market = m } in
          elim answer [
            | err x ↦ (record e { records = records }, err exchange_failed)
            | ok c ↦ settle_cancel w p id c (record e { records = records })
          ])

  -- `handleCancelOrder`.
  unfoldable pub handle_cancel_order :
      World → String → String → String → Engine F → Engine F × Outcome GameError Order
  unfolding cancel_open
  handle_cancel_order w player_id symbol id e = elim (get_by_player_id player_id e.players) [
    | none ↦ (e, err player_not_found)
    | some p ↦ elim (lookup id e.open_orders) [
      | none ↦ (e, err order_not_found)
      | some o ↦ cancel_open w p symbol id o e
    ]
  ]
