-- ===== src/Gameplay/Trades.antt =====
-- `applyTrade` of internal/gameplay/engine.go: one trade settled between two players.
use ssh_arena.Prelude.{ℕ, ◌-◌, String, Bool, ◌&&◌, Option, none, some, List, ◌∷◌, if◌then◌else◌}
use ssh_arena.Prelude.Int.{ℤ, pos, add64, sub64, mul64, sub_clamped}
use ssh_arena.Prelude.Text.{str_eq, assign}
use ssh_arena.Prelude.Outcome.{Outcome, ok, err}
use ssh_arena.OrderBook.Types.{Trade, OrderType, is_market}
use ssh_arena.State.Player.{Player}
use ssh_arena.Gameplay.Fees.{
  estimate_exchange_fee, estimate_market_surcharge, estimate_rapid_flip_tax,
}
use ssh_arena.Gameplay.Lots.{consume_lots_for_sale, add_acquired_lot}
use ssh_arena.Gameplay.Accounts.{GameError, player_not_found, release_cash, release_stock}
use ssh_arena.Gameplay.Desk.{OpenOrder, Desk, lookup, touch, change_player, change_order}
pub mod Cash
pub mod Payment

unfoldable pub cost : Trade → ℤ
cost t = mul64 (pos t.price) (pos t.quantity)

-- The surcharge on the side whose order came in as a market order.
unfoldable pub surcharge : Bool → OrderType → ℤ → ℤ
surcharge incoming kind amount =
    if incoming && is_market kind then estimate_market_surcharge amount else pos 0

-- `cost + buyerFee + buyerSurcharge`.
unfoldable pub buyer_pays : Bool → OrderType → ℤ → ℤ
unfolding surcharge
buyer_pays incoming kind amount =
    add64 (add64 amount (estimate_exchange_fee amount)) (surcharge incoming kind amount)

-- `cost - sellerFee - sellerSurcharge - sellerFlipTax`.
unfoldable pub seller_gets : Bool → OrderType → ℤ → ℤ → ℤ
unfolding surcharge
seller_gets incoming kind amount tax =
    sub64 (sub64 (sub64 amount (estimate_exchange_fee amount)) (surcharge incoming kind amount)) tax

unfoldable pub debit_buyer : Trade → ℤ → Player → Player
unfolding add_acquired_lot
debit_buyer t total p =
    add_acquired_lot t.symbol (pos t.quantity) (pos t.price) t.executed_at (record p {
      cash = sub64 p.cash total;
      portfolio = assign p.portfolio t.symbol (add64 (p.portfolio t.symbol) (pos t.quantity));
    })

unfoldable pub credit_seller : Trade → ℤ → Player → Player
unfolding sub_clamped
credit_seller t total p = record p {
  cash = add64 p.cash total;
  portfolio = assign p.portfolio t.symbol (sub_clamped (p.portfolio t.symbol) (pos t.quantity));
}

abbrev use_cash : ℤ → OpenOrder → OpenOrder
use_cash total o = record o { reserved_cash = sub_clamped o.reserved_cash total }

abbrev use_stock : ℤ → OpenOrder → OpenOrder
use_stock qty o = record o { reserved_quantity = sub_clamped o.reserved_quantity qty }

-- An open order has so much less left; at zero or below it counts as done.
abbrev use_quantity : ℕ → OpenOrder → OpenOrder
use_quantity qty o =
    let old = o.order in
    record o { order = record old { remaining_quantity = old.remaining_quantity - qty } }

-- What one trade works on: the desk, the incoming order, the orders that it has touched.
pub record Settling : Type 0 where
  pub desk : Desk
  pub incoming : OpenOrder
  pub touched_orders : List String

abbrev mark : String → Settling → Settling
mark id s = record s { touched_orders = id ∷ s.touched_orders }

settle_open_buy : Trade → ℤ → Settling → Settling
settle_open_buy t total s = mark t.buy_order_id (record s {
  desk =
      change_player t.buyer_id (release_cash total)
        (change_order t.buy_order_id (λ o. use_cash total (use_quantity t.quantity o)) s.desk);
})

-- The buyer's reservation: of the incoming order, of an open one, or of none.
unfoldable pub settle_buy : Trade → String → ℤ → Settling → Settling
unfolding settle_open_buy
settle_buy t incoming_id total s =
    if str_eq t.buy_order_id incoming_id
    then record s {
      desk = change_player t.buyer_id (release_cash total) s.desk;
      incoming = use_cash total s.incoming;
    }
    else elim (lookup t.buy_order_id s.desk.open_orders) [
      | none ↦ s
      | some o ↦ settle_open_buy t total s
    ]

settle_open_sell : Trade → Settling → Settling
settle_open_sell t s = mark t.sell_order_id (record s {
  desk = change_player t.seller_id (release_stock t.symbol (pos t.quantity)) (
      change_order t.sell_order_id (λ o. use_stock (pos t.quantity) (use_quantity t.quantity o))
        s.desk);
})

unfoldable pub settle_sell : Trade → String → Settling → Settling
unfolding settle_open_sell
settle_sell t incoming_id s =
    if str_eq t.sell_order_id incoming_id
    then record s {
      desk = change_player t.seller_id (release_stock t.symbol (pos t.quantity)) s.desk;
      incoming = use_stock (pos t.quantity) s.incoming;
    }
    else elim (lookup t.sell_order_id s.desk.open_orders) [
      | none ↦ s
      | some o ↦ settle_open_sell t s
    ]

-- The quantity of a sale that was bought within the window.
taxed_quantity : Trade → Desk → ℤ
taxed_quantity t d = elim (lookup t.seller_id d.touched) [
  | none ↦ pos 0
  | some p ↦ (consume_lots_for_sale t.symbol (pos t.quantity) t.executed_at p).0
]

settle_trade : Trade → String → Settling → Settling
settle_trade t incoming_id s =
    let amount = cost t in
    let kind = s.incoming.order.kind in
    let tax = estimate_rapid_flip_tax (mul64 (pos t.price) (taxed_quantity t s.desk)) in
    let total = buyer_pays (str_eq t.buy_order_id incoming_id) kind amount in
    let income = seller_gets (str_eq t.sell_order_id incoming_id) kind amount tax in
    let sold =
      change_player t.seller_id
        (λ p. (consume_lots_for_sale t.symbol (pos t.quantity) t.executed_at p).1) s.desk in
    let bought = change_player t.buyer_id (debit_buyer t total) sold in
    let paid = settle_buy t incoming_id total (record s { desk = bought }) in
    let credited = record paid {
      desk = change_player t.seller_id (credit_seller t income) paid.desk;
    } in
    settle_sell t incoming_id credited

unfoldable pub touch_both : Trade → Desk → Option Desk
touch_both t d = elim (touch t.buyer_id d) [ none ↦ none | some d' ↦ touch t.seller_id d' ]

-- `applyTrade`.
unfoldable pub apply_trade : Trade → String → Settling → Outcome GameError Settling
unfolding touch_both settle_trade taxed_quantity
apply_trade t incoming_id s = elim (touch_both t s.desk) [
  | none ↦ err player_not_found
  | some d ↦ ok (settle_trade t incoming_id (record s { desk = d }))
]
