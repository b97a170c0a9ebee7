-- ===== src/OrderBook/Snapshot/Exact.antt =====
-- The int64 sums of a snapshot are the true ones while the level's total fits.
use ssh_arena.Prelude.{ℕ, ◌+◌, ◌^◌, ◌<◌, ◌≡◌, refl, ap, ◌∙◌, List, [], ◌∷◌, length, arith}
use ssh_arena.Prelude.Int.{pos, ◌+ℤ◌, wrap64, wrap64_lem}
use ssh_arena.OrderBook.Types.{Order}
use ssh_arena.OrderBook.Snapshot.{add_quantities, level_from_orders}
use ssh_arena.OrderBook.Place.Totals.{open_quantity}

add_pos : (a b : ℕ) → a + b < 2 ^ 63 → wrap64 (pos a +ℤ pos b) ≡ pos (a + b)
unfolding ◌+ℤ◌
add_pos a b h =
    let sum : pos a +ℤ pos b ≡ pos (a + b) = ground arith in
    ap wrap64 sum ∙ wrap64_lem (pos (a + b)) (omega arith)

add_quantities-pos :
    (a : ℕ) (os : List Order)
    → a + open_quantity os < 2 ^ 63
    → add_quantities (pos a) os ≡ pos (a + open_quantity os)
unfolding add_quantities
add_quantities-pos a [] h = ap pos (omega arith)
add_quantities-pos a (o ∷ os) h =
    ap (λ z. add_quantities z os) (add_pos a o.remaining_quantity (omega arith))
    ∙ add_quantities-pos (a + o.remaining_quantity) os (omega arith)
    ∙ ap pos (omega arith)

-- A level of the snapshot shows the orders' total remaining quantity, if that fits an int64, and
-- their number.
pub level_from_orders_exact :
    (price : ℕ) (os : List Order)
    → open_quantity os < 2 ^ 63
    → ((level_from_orders price os).quantity ≡ pos (open_quantity os))
      × ((level_from_orders price os).order_count ≡ length os)
unfolding level_from_orders
level_from_orders_exact price os h =
    (add_quantities-pos 0 os (omega arith) ∙ ap pos (omega arith), refl)
