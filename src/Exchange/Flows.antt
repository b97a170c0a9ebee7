-- ===== src/Exchange/Flows.antt =====
-- The integer helpers of internal/exchange/price_engine.go: volumes by side, depth, ticks.
use ssh_arena.Prelude.{ℕ, zero, suc, ◌+◌, ◌*◌, String, Bool, List, [], ◌∷◌, ltb, if◌then◌else◌}
use ssh_arena.Prelude.Int.{
  ℤ, pos, add64, sub64, mul64, div64, pos_part, ltb_ℤ, is_positive, is_negative, wrap64,
}
use ssh_arena.Prelude.Text.{str_eq}
use ssh_arena.OrderBook.Types.{Side, Trade, Level}
pub mod Ticks

pub record Flow : Type 0 where
  pub buy_volume : ℤ
  pub sell_volume : ℤ
  pub whale_signed : ℤ

abbrev by_side : Side → ℤ → Flow → Flow
by_side Side.buy q f = record f { buy_volume = add64 f.buy_volume q }
by_side Side.sell q f = record f { sell_volume = add64 f.sell_volume q }
by_side Side.unsupported q f = f

unfoldable pub add_flow : Flow → Trade → Flow
add_flow f t =
    let q = pos t.quantity in
    let g = by_side t.aggressor_side q f in
    let bought = if str_eq t.buyer_role "Whale" then add64 g.whale_signed q else g.whale_signed in
    record g { whale_signed = if str_eq t.seller_role "Whale" then sub64 bought q else bought }

flows_from : Flow → List Trade → Flow
flows_from f [] = f
flows_from f (t ∷ ts) = flows_from (add_flow f t) ts

-- `tradeFlows`.
unfoldable pub trade_flows : List Trade → Flow
unfolding flows_from add_flow
trade_flows = flows_from (record { buy_volume = pos 0; sell_volume = pos 0; whale_signed = pos 0 })

-- `topDepth`.
unfoldable pub top_depth : ℤ → List Level → ℕ → ℤ
top_depth total [] n = total
top_depth total (l ∷ ls) zero = total
top_depth total (l ∷ ls) (suc n) = top_depth (add64 total l.quantity) ls n

-- `alignToTick`, with Go's division, which rounds towards zero.
unfoldable pub align_to_tick : ℤ → ℤ → ℤ
unfolding div64
align_to_tick price tick =
    if is_positive tick
    then (if ltb_ℤ price tick then tick else mul64 (div64 price (pos_part tick)) tick)
    else price

-- The price that `Apply` and `TriggerShock` settle on, from the rounded float.
unfoldable pub settle_tick : ℤ → ℤ → ℤ
unfolding align_to_tick
settle_tick raw tick = let next = align_to_tick raw tick in if is_positive next then next else tick
