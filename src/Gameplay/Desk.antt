-- ===== src/Gameplay/Desk.antt =====
-- The working state of one place or cancel action of internal/gameplay/engine.go: the players it
-- has touched (`touchedPlayers`, pointers by player id), the open orders, and the store behind.
-- A player is written through its id, so that a buyer who is the seller is one player.
use ssh_arena.Prelude.{◌==◌, String, Option, none, some, List, [], ◌∷◌, if◌then◌else◌}
use ssh_arena.Prelude.Int.{ℤ, pos, mul64, sub64, ltb_ℤ, is_positive}
use ssh_arena.Prelude.Text.{str_eq}
use ssh_arena.OrderBook.Types.{Side, Order, is_buy}
use ssh_arena.State.Player.{Player, Players, get_by_player_id}
use ssh_arena.Gameplay.Accounts.{release_cash, release_stock}

pub record OpenOrder : Type 0 where
  pub order : Order
  pub reserved_cash : ℤ
  pub reserved_quantity : ℤ

-- A Go map from texts, as a list of its entries.
module _ {ℓ} {A : Type ℓ} where
  unfoldable pub lookup : String → List (String × A) → Option A
  lookup k [] = none
  lookup k ((j, a) ∷ m) = if str_eq j k then some a else lookup k m

  unfoldable pub store_at : String → A → List (String × A) → List (String × A)
  store_at k a [] = (k, a) ∷ []
  store_at k a ((j, b) ∷ m) = if str_eq j k then (j, a) ∷ m else (j, b) ∷ store_at k a m

  unfoldable pub change : String → (A → A) → List (String × A) → List (String × A)
  change k f [] = []
  change k f ((j, b) ∷ m) = if str_eq j k then (j, f b) ∷ m else (j, b) ∷ change k f m

  unfoldable pub remove : String → List (String × A) → List (String × A)
  remove k [] = []
  remove k ((j, b) ∷ m) = if str_eq j k then m else (j, b) ∷ remove k m

pub record Desk : Type 0 where
  pub store : Players
  pub touched : List (String × Player)
  pub open_orders : List (String × OpenOrder)

abbrev add_touched : String → Desk → Option Player → Option Desk
add_touched id d none = none
add_touched id d (some p) = some (record d { touched = store_at id p d.touched })

-- `getTouchedPlayer`: `none` if no player has the id.
unfoldable pub touch : String → Desk → Option Desk
unfolding lookup store_at
touch id d = elim (lookup id d.touched) [
  | some p ↦ some d
  | none ↦ add_touched id d (get_by_player_id id d.store)
]

unfoldable pub change_player : String → (Player → Player) → Desk → Desk
unfolding change
change_player id f d = record d { touched = change id f d.touched }

unfoldable pub change_order : String → (OpenOrder → OpenOrder) → Desk → Desk
unfolding change
change_order id f d = record d { open_orders = change id f d.open_orders }

-- What a clean-up gives back to the owner of an open order.
unfoldable pub give_back : OpenOrder → Player → Player
unfolding release_cash release_stock
give_back o p =
    let q = if is_positive o.reserved_cash then release_cash o.reserved_cash p else p in
    if is_positive o.reserved_quantity
    then release_stock o.order.symbol o.reserved_quantity q
    else q

cleanup_found : String → Desk → OpenOrder → Desk
cleanup_found id d o =
    let paid : Desk = elim (touch o.order.player_id d) [
      | none ↦ d
      | some d' ↦ change_player o.order.player_id (give_back o) d'
    ] in
    record paid { open_orders = remove id paid.open_orders }

-- `cleanupOpenOrder`.
unfoldable pub cleanup_open_order : String → Desk → Desk
unfolding cleanup_found
cleanup_open_order id d = elim (lookup id d.open_orders) [
  | none ↦ d
  | some o ↦ cleanup_found id d o
]

-- What an open order needs to keep reserved.
abbrev pub cash_target : Order → ℤ
cash_target o = mul64 (pos o.price) (pos o.remaining_quantity)

-- A reservation above its target is cut to it, and the player gets the difference back.
unfoldable pub trimmed : Side → OpenOrder → OpenOrder
trimmed Side.buy o =
    let target = cash_target o.order in
    if ltb_ℤ target o.reserved_cash then record o { reserved_cash = target } else o
trimmed Side.sell o =
    let target = pos o.order.remaining_quantity in
    if ltb_ℤ target o.reserved_quantity then record o { reserved_quantity = target } else o
trimmed Side.unsupported o = o

unfoldable pub refund : String → Side → OpenOrder → Player → Player
unfolding release_cash release_stock
refund symbol Side.buy o p =
    let target = cash_target o.order in
    if ltb_ℤ target o.reserved_cash then release_cash (sub64 o.reserved_cash target) p else p
refund symbol Side.sell o p =
    let target = pos o.order.remaining_quantity in
    if ltb_ℤ target o.reserved_quantity
    then release_stock symbol (sub64 o.reserved_quantity target) p
    else p
refund symbol Side.unsupported o p = p

-- `finalizeRestingReservation`, on the order and on the player.
unfoldable pub finalize_resting_reservation :
    String → Side → OpenOrder → Player → OpenOrder × Player
unfolding trimmed refund
finalize_resting_reservation symbol side o p = (trimmed side o, refund symbol side o p)

-- An open order is a buy or else counts as a sale.
abbrev trade_side : Order → Side
trade_side o = if is_buy o.side then Side.buy else Side.sell

normalize_found : String → Desk → OpenOrder → Desk
normalize_found id d o = elim (touch o.order.player_id d) [
  | none ↦ d
  | some d' ↦
      if o.order.remaining_quantity == 0
      then cleanup_open_order id d'
      else change_order id (trimmed (trade_side o.order))
          (change_player o.order.player_id (refund o.order.symbol (trade_side o.order) o) d')
]

-- `normalizeOpenOrder`.
unfoldable pub normalize_open_order : String → Desk → Desk
unfolding normalize_found
normalize_open_order id d = elim (lookup id d.open_orders) [
  | none ↦ d
  | some o ↦ normalize_found id d o
]
