-- ===== src/Client/Ticket/Estimate.antt =====
-- The client's estimate, next to what the server charges.
use ssh_arena.Prelude.{String, some, ◌≡◌, refl, ap, ◌∙◌, true, if◌then◌else◌}
use ssh_arena.Prelude.Int.{ℤ, mul64, min64, is_positive}
use ssh_arena.Prelude.Float.{Float}
use ssh_arena.OrderBook.Types.{Side, OrderType}
use ssh_arena.Charting.{PriceChartTick}
use ssh_arena.Gameplay.Fees.{
  bps_charge, estimate_exchange_fee, estimate_market_surcharge, estimate_rapid_flip_tax,
}
use ssh_arena.Gameplay.Trades.{surcharge, buyer_pays, seller_gets}
use ssh_arena.Gameplay.Portfolio.{trading_rules_snapshot}
use ssh_arena.Client.State.{UiState}
use ssh_arena.Client.Ticket.{
  FloatText, no_estimate, estimate_quantity, parse_whole_units, charge_bps, fresh_stock_of,
  estimate_price, estimate_at, estimate_ticket_cost,
}

-- Client and server round a charge in the same way.
pub charge_bps-bps_charge : (amount bps : ℤ) → charge_bps amount bps ≡ bps_charge amount bps
unfolding charge_bps bps_charge
charge_bps-bps_charge amount bps = refl

module _ {F : Type 0} ⦃f : Float F⦄ (fmt : FloatText F) where
  -- What the server settles for an incoming order of a quantity, at a price, on a side.
  pub settled_total : Side → OrderType → ℤ → ℤ → ℤ → ℤ
  settled_total Side.sell kind price qty fresh =
      seller_gets true kind (mul64 price qty)
        (estimate_rapid_flip_tax (mul64 price (min64 qty fresh)))
  settled_total Side.buy kind price qty fresh = buyer_pays true kind (mul64 price qty)
  settled_total Side.unsupported kind price qty fresh = buyer_pays true kind (mul64 price qty)

  charged :
      (s : UiState F) (symbol : String) (price qty : ℤ) (side : Side)
      → s.rules ≡ trading_rules_snapshot
      → s.ticket.side ≡ side
      → (estimate_at fmt s symbol price qty).total
        ≡ settled_total side s.ticket.kind price qty (fresh_stock_of s.portfolio symbol)
  unfolding estimate_at settled_total seller_gets buyer_pays trading_rules_snapshot charge_bps
      surcharge estimate_exchange_fee estimate_market_surcharge estimate_rapid_flip_tax
  charged s symbol price qty Side.buy rules here = rw (here, rules)
  charged s symbol price qty Side.sell rules here = rw (here, rules)
  charged s symbol price qty Side.unsupported rules here = rw (here, rules)

  -- For a ticket whose quantity and price can be read and are positive, and with the rules that the
  -- server sends, the client's total is what the server settles when the order comes in and trades at
  -- that price: what a buyer pays, or what a seller gets if as many of the shares are taxed as the
  -- client's portfolio shows to be fresh.
  pub estimate_ticket_cost-Settled :
      (s : UiState F) (symbol : String) (tick : PriceChartTick F) (qty price : ℤ)
      → s.rules ≡ trading_rules_snapshot
      → parse_whole_units s.ticket.quantity ≡ some qty
      → is_positive qty ≡ true
      → estimate_price fmt s.ticket tick.current_price ≡ price
      → is_positive price ≡ true
      → (estimate_ticket_cost fmt s symbol tick).total
        ≡ settled_total s.ticket.side s.ticket.kind price qty (fresh_stock_of s.portfolio symbol)
  unfolding estimate_ticket_cost
  estimate_ticket_cost-Settled s symbol tick qty price rules scanned many quoted dear =
      ap
        (λ o.
          (estimate_quantity fmt s symbol (estimate_price fmt s.ticket tick.current_price) o).total)
        scanned
      ∙ ap (λ p. (estimate_quantity fmt s symbol p (some qty)).total) quoted
      ∙ ap
          (λ b.
            (if b
              then (if is_positive price then estimate_at fmt s symbol price qty else no_estimate)
              else no_estimate).total)
          many
      ∙ ap (λ b. (if b then estimate_at fmt s symbol price qty else no_estimate).total) dear
      ∙ charged s symbol price qty s.ticket.side rules refl
