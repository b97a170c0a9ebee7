-- ===== src/Gameplay/Lots.antt =====
-- Position lots of internal/gameplay/engine.go: bought shares by age, sold oldest first.
use ssh_arena.Prelude.{ℕ, ◌+◌, String, Bool, List, [], ◌∷◌, ◌++◌, leb, if◌then◌else◌}
use ssh_arena.Prelude.Int.{ℤ, pos, add64, sub64, min64, is_positive}
use ssh_arena.Prelude.Text.{assign}
use ssh_arena.State.Player.{PositionLot, Player}
use ssh_arena.Gameplay.Fees.{rapid_flip_window}

-- Bought so recently that a sale is taxed.
abbrev pub is_fresh : ℕ → PositionLot → Bool
is_fresh now lot = leb now (lot.acquired_at + rapid_flip_window)

unfoldable pub add_acquired_lot : String → ℤ → ℤ → ℕ → Player → Player
add_acquired_lot symbol qty price acquired_at p =
    if is_positive qty
    then record p {
      lots = assign p.lots symbol (
          p.lots symbol
          ++ record { quantity = qty; price = price; acquired_at = acquired_at } ∷ []);
    }
    else p

-- The loop of `consumeLotsForSale`: the taxable quantity, and the lots that stay.
unfoldable pub consume_lots : ℕ → ℤ → ℤ → List PositionLot → ℤ × List PositionLot
unfolding min64
consume_lots now taxable remaining [] = (taxable, [])
consume_lots now taxable remaining (lot ∷ lots) =
    let consumed = min64 remaining lot.quantity in
    let left = sub64 lot.quantity consumed in
    let (later_tax, later) =
      consume_lots now
        (if is_positive remaining
          then (if is_fresh now lot then add64 taxable consumed else taxable)
          else taxable)
        (if is_positive remaining then sub64 remaining consumed else remaining) lots in
    if is_positive remaining
    then (later_tax, if is_positive left then record lot { quantity = left } ∷ later else later)
    else (later_tax, lot ∷ later)

-- `consumeLotsForSale`.
unfoldable pub consume_lots_for_sale : String → ℤ → ℕ → Player → ℤ × Player
unfolding consume_lots
consume_lots_for_sale symbol qty now p =
    let (taxable, kept) = consume_lots now (pos 0) qty (p.lots symbol) in
    if is_positive qty then (taxable, record p { lots = assign p.lots symbol kept }) else (pos 0, p)

-- `rapidFlipExposure`.
fresh_quantity : ℕ → ℤ → List PositionLot → ℤ
fresh_quantity now total [] = total
fresh_quantity now total (lot ∷ lots) =
    fresh_quantity now (if is_fresh now lot then add64 total lot.quantity else total) lots

unfoldable pub rapid_flip_exposure : Player → String → ℕ → ℤ
unfolding fresh_quantity
rapid_flip_exposure p symbol now = fresh_quantity now (pos 0) (p.lots symbol)
