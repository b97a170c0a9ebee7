-- ===== src/Gameplay/Fees.antt =====
-- Charges of internal/gameplay/engine.go, in basis points, rounded up.
use ssh_arena.Prelude.{ℕ, Bool, ◌&&◌, ◌||◌, if◌then◌else◌, not}
use ssh_arena.Prelude.Int.{ℤ, pos, add64, mul64, div64, is_positive}
use ssh_arena.OrderBook.Types.{OrderType, is_market}
pub mod Rounding

abbrev pub exchange_fee_bps : ℤ
exchange_fee_bps = pos 10

abbrev pub market_order_surcharge_bps : ℤ
market_order_surcharge_bps = pos 15

abbrev pub rapid_flip_tax_bps : ℤ
rapid_flip_tax_bps = pos 35

-- Five minutes, in nanoseconds.
abbrev pub rapid_flip_window : ℕ
rapid_flip_window = 300_000_000_000

unfoldable pub bps_charge : ℤ → ℤ → ℤ
unfolding div64
bps_charge amount bps =
    if not (is_positive amount) || not (is_positive bps)
    then pos 0
    else div64 (add64 (mul64 amount bps) (pos 9999)) 10000

unfoldable pub estimate_exchange_fee : ℤ → ℤ
unfolding bps_charge
estimate_exchange_fee notional = bps_charge notional exchange_fee_bps

unfoldable pub estimate_market_surcharge : ℤ → ℤ
unfolding bps_charge
estimate_market_surcharge notional = bps_charge notional market_order_surcharge_bps

unfoldable pub estimate_rapid_flip_tax : ℤ → ℤ
unfolding bps_charge
estimate_rapid_flip_tax notional = bps_charge notional rapid_flip_tax_bps

unfoldable pub buy_reservation_target : ℤ → ℤ → OrderType → ℤ
unfolding estimate_exchange_fee estimate_market_surcharge
buy_reservation_target price qty kind =
    if not (is_positive price) || not (is_positive qty)
    then pos 0
    else (let notional = mul64 price qty in
        let total = add64 notional (estimate_exchange_fee notional) in
        if is_market kind then add64 total (estimate_market_surcharge notional) else total)
