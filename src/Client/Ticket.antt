-- ===== src/Client/Ticket.antt =====
-- The order ticket of cmd/game-client/main.go: how it is filled, what order it sends, and what the
-- client says the order will cost.
use ssh_arena.Prelude.{
  ℕ, ◌+◌, ◌%◌, ◌-◌, String, Bool, true, false, not, ◌||◌, ◌&&◌, Option, none, some, List, [], ◌∷◌,
  ◌==◌, if◌then◌else◌, length, take,
}
use ssh_arena.Prelude.Int.{ℤ, pos, add64, sub64, mul64, div64, min64, is_positive}
use ssh_arena.Prelude.Text.{str_eq}
use ssh_arena.Prelude.Outcome.{Outcome, ok, err, ◌>>=◌}
use ssh_arena.Prelude.Float.{Float, ◌*F◌, round_to_int}
use ssh_arena.OrderBook.Types.{Side, OrderType, limit, market, is_market, is_limit}
use ssh_arena.Charting.{PriceChartTick}
use ssh_arena.Gameplay.Portfolio.{PortfolioSnapshot}
use ssh_arena.Prelude.Runes.{trim_space, replace_all, scan_int, print_int}
use ssh_arena.Client.State.{
  OrderTicket, no_ticket, UiState, ticket_ready, book_ticket_ready, current_symbol, Status,
}
pub mod Estimate

pub data TicketError : Type 0 where
  bad_quantity bad_price : TicketError

-- How package fmt prints and scans a floating point number, as `%.2f` and `%f`.
pub record FloatText (F : Type 0) : Type 0 where
  pub two_places : F → List ℕ
  pub scan : List ℕ → Option F

pub record TicketCostEstimate : Type 0 where
  pub notional : ℤ
  pub exchange_fee : ℤ
  pub market_order_surcharge : ℤ
  pub rapid_flip_tax : ℤ
  pub total : ℤ

abbrev pub no_estimate : TicketCostEstimate
no_estimate = record {
  notional = pos 0;
  exchange_fee = pos 0;
  market_order_surcharge = pos 0;
  rapid_flip_tax = pos 0;
  total = pos 0;
}

-- `parseWholeUnits`; `none` is an error.
unfoldable pub parse_whole_units : List ℕ → Option ℤ
unfolding scan_int
parse_whole_units raw = scan_int (trim_space raw)

-- `chargeBps`.
unfoldable pub charge_bps : ℤ → ℤ → ℤ
charge_bps amount bps =
    if not (is_positive amount) || not (is_positive bps)
    then pos 0
    else div64 (add64 (mul64 amount bps) (pos 9999)) 10000

-- A value that is missing in a map reads as zero.
unfoldable pub stock_of : List (String × ℤ) → String → ℤ
stock_of [] symbol = pos 0
stock_of ((s, n) ∷ rest) symbol =
    let later = stock_of rest symbol in if str_eq s symbol then n else later

unfoldable pub fresh_stock_of : Option PortfolioSnapshot → String → ℤ
unfolding stock_of
fresh_stock_of none symbol = pos 0
fresh_stock_of (some p) symbol = stock_of p.fresh_stock symbol

module _ {F : Type 0} ⦃f : Float F⦄ (fmt : FloatText F) where
  abbrev cents : Option F → Option ℤ
  cents none = none
  cents (some amount) = some (round_to_int (amount *F f.of_int (pos 100)))

  -- `parseMoneyToCents`; `none` is an error.
  unfoldable pub parse_money_to_cents : List ℕ → Option ℤ
  parse_money_to_cents raw =
      let value = trim_space (replace_all b',' b'.' raw) in
      if length value == 0 then none else cents (fmt.scan value)

  abbrev if_positive : TicketError → Option ℤ → Outcome TicketError ℤ
  if_positive e none = err e
  if_positive e (some n) = if is_positive n then ok n else err e

  -- `buildOrderPayload`: the price and the quantity.
  unfoldable pub build_order_payload : OrderTicket → Outcome TicketError (ℤ × ℤ)
  unfolding parse_whole_units parse_money_to_cents
  build_order_payload t = do
    qty ← if_positive bad_quantity (parse_whole_units t.quantity)
    (if is_market t.kind
        then ok (pos 0, qty)
        else if_positive bad_price (parse_money_to_cents t.price) >>= λ price. ok (price, qty))

  abbrev tick_price : Option (PriceChartTick F) → List ℕ
  tick_price none = b'0' ∷ b'.' ∷ b'0' ∷ b'0' ∷ []
  tick_price (some t) =
      if f.less (f.of_int (pos 0)) t.current_price
      then fmt.two_places t.current_price
      else b'0' ∷ b'.' ∷ b'0' ∷ b'0' ∷ []

  -- `openTicket`.
  unfoldable pub open_ticket : Side → UiState F → UiState F
  open_ticket side s = record s {
    ticket = record {
      active = true;
      side = side;
      kind = limit;
      price = tick_price (s.ticks (current_symbol s.symbols s.selected));
      quantity = b'1' ∷ [];
      field = 1;
    };
    status = ticket_ready;
  }

  -- `openBookTicket`.
  unfoldable pub open_book_ticket : Side → F → ℤ → UiState F → UiState F
  open_book_ticket side price qty s = record s {
    ticket = record {
      active = true;
      side = side;
      kind = limit;
      price = fmt.two_places price;
      quantity = print_int (if is_positive qty then qty else pos 1);
      field = 2;
    };
    status = book_ticket_ready;
  }

  abbrev parsed_price : ℤ → Option ℤ → ℤ
  parsed_price current none = current
  parsed_price current (some n) = if is_positive n then n else current

  -- The price that the estimate takes: of a limit order its own, if it can be read.
  unfoldable pub estimate_price : OrderTicket → F → ℤ
  unfolding parse_money_to_cents
  estimate_price t current =
      let now = round_to_int (current *F f.of_int (pos 100)) in
      if is_limit t.kind then parsed_price now (parse_money_to_cents t.price) else now

  abbrev is_sale : Side → Bool
  is_sale Side.sell = true
  is_sale Side.buy = false
  is_sale Side.unsupported = false

  -- What an order of a quantity at a price costs or brings in.
  unfoldable pub estimate_at : UiState F → String → ℤ → ℤ → TicketCostEstimate
  unfolding charge_bps fresh_stock_of min64
  estimate_at s symbol price qty =
      let notional = mul64 price qty in
      let fee = charge_bps notional s.rules.exchange_fee_bps in
      let surcharge =
        if is_market s.ticket.kind
        then charge_bps notional s.rules.market_order_surcharge_bps
        else pos 0 in
      let fresh = fresh_stock_of s.portfolio symbol in
      let tax = charge_bps (mul64 price (min64 qty fresh)) s.rules.rapid_flip_tax_bps in
      if is_sale s.ticket.side
      then record {
        notional = notional;
        exchange_fee = fee;
        market_order_surcharge = surcharge;
        rapid_flip_tax = tax;
        total = sub64 (sub64 (sub64 notional fee) surcharge) tax;
      }
      else record {
        notional = notional;
        exchange_fee = fee;
        market_order_surcharge = surcharge;
        rapid_flip_tax = pos 0;
        total = add64 (add64 notional fee) surcharge;
      }

  abbrev estimate_quantity : UiState F → String → ℤ → Option ℤ → TicketCostEstimate
  estimate_quantity s symbol price none = no_estimate
  estimate_quantity s symbol price (some qty) =
      if is_positive qty
      then (if is_positive price then estimate_at s symbol price qty else no_estimate)
      else no_estimate

  -- `estimateTicketCost`.
  unfoldable pub estimate_ticket_cost : UiState F → String → PriceChartTick F → TicketCostEstimate
  unfolding estimate_price estimate_at parse_whole_units
  estimate_ticket_cost s symbol tick =
      estimate_quantity s symbol (estimate_price s.ticket tick.current_price)
        (parse_whole_units s.ticket.quantity)
