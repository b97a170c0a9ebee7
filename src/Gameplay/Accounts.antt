-- ===== src/Gameplay/Accounts.antt =====
-- Reservations of internal/gameplay/engine.go. `quoted` is the current price of the symbol, if the
-- market has one. The float product with 1.25 is exact for prices below 2 ^ 50.
use ssh_arena.Prelude.{ℕ, String, Bool, true, false, not, Option, none, some, if◌then◌else◌}
use ssh_arena.Prelude.Int.{ℤ, pos, add64, sub64, mul64, div64, ltb_ℤ, is_positive, sub_clamped}
use ssh_arena.Prelude.Text.{assign}
use ssh_arena.Prelude.Outcome.{Outcome, ok, err, ◌>>=◌, ◌>>◌, fail_if}
use ssh_arena.OrderBook.Types.{Side, OrderType, is_market}
use ssh_arena.State.Player.{Player}
use ssh_arena.Gameplay.Fees.{estimate_exchange_fee, estimate_market_surcharge}
pub mod Reserving

pub data GameError : Type 0 where
  player_not_found symbol_and_quantity_required insufficient_cash insufficient_stock : GameError
  unsupported_side no_quote exchange_failed store_failed order_not_found : GameError
  belongs_to_another : GameError
  intel_not_configured intel_refused : GameError
  chat_body_required token_refused unsupported_action no_markets : GameError

-- The price to reserve for, before the markup of a market order.
abbrev quote : Option ℤ → ℤ → Outcome GameError ℤ
quote quoted price = if is_positive price then ok price else elim quoted [
  | none ↦ err no_quote
  | some current ↦ ok (if is_positive current then current else pos 100)
]

-- `int64(float64(price) * 1.25)`.
unfoldable pub marked_up : ℤ → ℤ
unfolding div64
marked_up price = div64 (mul64 price (pos 5)) 4

-- What a buy order of a quantity at a reserve price sets aside.
unfoldable pub cash_needed : OrderType → ℤ → ℤ → ℤ
unfolding marked_up
cash_needed kind price qty =
    let notional = mul64 (if is_market kind then marked_up price else price) qty in
    let charged = add64 notional (estimate_exchange_fee notional) in
    if is_market kind then add64 charged (estimate_market_surcharge notional) else charged

pub record Reservation : Type 0 where
  pub player : Player
  pub cash : ℤ
  pub quantity : ℤ

unfoldable pub reserve_cash : Player → ℤ → Outcome GameError Reservation
reserve_cash p need =
    if ltb_ℤ (sub64 p.cash p.reserved_cash) need
    then err insufficient_cash
    else ok (record {
      player = record p { reserved_cash = add64 p.reserved_cash need };
      cash = need;
      quantity = pos 0;
    })

unfoldable pub reserve_stock : Player → String → ℤ → Outcome GameError Reservation
reserve_stock p symbol qty =
    if ltb_ℤ (sub64 (p.portfolio symbol) (p.reserved_stocks symbol)) qty
    then err insufficient_stock
    else ok (record {
      player = record p {
        reserved_stocks = assign p.reserved_stocks symbol (add64 (p.reserved_stocks symbol) qty);
      };
      cash = pos 0;
      quantity = qty;
    })

-- `reserveForIncoming`.
unfoldable pub reserve_for_incoming :
    Option ℤ → Player → String → Side → OrderType → ℤ → ℤ → Outcome GameError Reservation
unfolding reserve_cash reserve_stock
reserve_for_incoming quoted p symbol Side.buy kind price qty = do
  reserve_price ← quote quoted price
  reserve_cash p (cash_needed kind reserve_price qty)
reserve_for_incoming quoted p symbol Side.sell kind price qty = reserve_stock p symbol qty
reserve_for_incoming quoted p symbol Side.unsupported kind price qty = err unsupported_side

unfoldable pub release_cash : ℤ → Player → Player
unfolding sub_clamped
release_cash amount p = record p { reserved_cash = sub_clamped p.reserved_cash amount }

unfoldable pub release_stock : String → ℤ → Player → Player
unfolding sub_clamped
release_stock symbol qty p = record p {
  reserved_stocks = assign p.reserved_stocks symbol (sub_clamped (p.reserved_stocks symbol) qty);
}

-- `releaseIncomingReservation`.
unfoldable pub release_incoming_reservation : String → Side → ℤ → ℤ → Player → Player
unfolding release_cash release_stock
release_incoming_reservation symbol Side.buy cash qty p = release_cash cash p
release_incoming_reservation symbol Side.sell cash qty p = release_stock symbol qty p
release_incoming_reservation symbol Side.unsupported cash qty p = p
