-- ===== src/OrderBook/Ladder.antt =====
-- One side of a Book: its map from prices to orders (`bids` or `asks`) and its sorted price slice
-- (`bidPrices` or `askPrices`). The source writes each operation twice, once for each side.
pub mod Prices
pub mod Contents
pub mod Updates
pub mod Resting
use ssh_arena.Prelude.{
  ℕ, Bool, true, false, Option, none, some, List, [], ◌∷◌, ◌++◌, ltb, ◌==◌, if◌then◌else◌,
}
use ssh_arena.Prelude.Outcome.{Outcome, ok, err}
use ssh_arena.OrderBook.Types.{Order, BookError, no_orders, empty_level, missing_level}

pub data Half : Type 0 where
  bids asks : Half

pub record Ladder : Type 0 where
  pub levels : ℕ → Option (List Order)
  pub prices : List ℕ

abbrev pub empty_ladder : Ladder
empty_ladder = record { levels = λ _. none; prices = [] }

-- Best first: bids fall, asks rise.
abbrev pub before : Half → ℕ → ℕ → Bool
before Half.bids a b = ltb b a
before Half.asks a b = ltb a b

-- A missing key reads as the empty slice.
abbrev pub level : (ℕ → Option (List Order)) → ℕ → List Order
level m p = elim (m p) [ none ↦ [] | some os ↦ os ]

abbrev pub contains : (ℕ → Option (List Order)) → ℕ → Bool
contains m p = elim (m p) [ none ↦ false | some os ↦ true ]

abbrev pub put : (ℕ → Option (List Order)) → ℕ → List Order → ℕ → Option (List Order)
put m p os q = if q == p then some os else m q

abbrev pub delete : (ℕ → Option (List Order)) → ℕ → ℕ → Option (List Order)
delete m p q = if q == p then none else m q

-- `slices.Sort` and `slices.SortFunc` on distinct prices.
unfoldable pub sort_insert : Half → ℕ → List ℕ → List ℕ
sort_insert h p [] = p ∷ []
sort_insert h p (q ∷ qs) = if before h p q then p ∷ q ∷ qs else q ∷ sort_insert h p qs

unfoldable pub sort : Half → List ℕ → List ℕ
unfolding sort_insert
sort h [] = []
sort h (p ∷ ps) = sort_insert h p (sort h ps)

unfoldable pub remove_price : List ℕ → ℕ → List ℕ
remove_price [] target = []
remove_price (p ∷ ps) target = if p == target then ps else p ∷ remove_price ps target

-- Replace the orders at a price; a level that is left empty disappears with its price.
unfoldable pub set_level : Ladder → ℕ → List Order → Ladder
unfolding remove_price
set_level l p [] = record { levels = delete l.levels p; prices = remove_price l.prices p }
set_level l p (o ∷ os) = record l { levels = put l.levels p (o ∷ os) }

-- `addResting` on one side.
unfoldable pub add_resting : Half → Ladder → Order → Ladder
unfolding sort
add_resting h l o =
    if ltb 0 o.remaining_quantity
    then record {
      levels = put l.levels o.price (level l.levels o.price ++ o ∷ []);
      prices = if contains l.levels o.price then l.prices else sort h (l.prices ++ o.price ∷ []);
    }
    else l

drop_head : Ladder → ℕ → List Order → Outcome BookError Ladder
drop_head l p [] = err missing_level
drop_head l p (o ∷ os) = ok (set_level l p os)

-- `removeHead` on one side.
unfoldable pub remove_head : Ladder → ℕ → Outcome BookError Ladder
unfolding drop_head set_level
remove_head l p = drop_head l p (level l.levels p)

first_order : List Order → Outcome BookError Order
first_order [] = err empty_level
first_order (o ∷ os) = ok o

best_of : (ℕ → Option (List Order)) → List ℕ → Outcome BookError Order
best_of m [] = err no_orders
best_of m (p ∷ ps) = first_order (level m p)

-- `bestOpposingOrder` on one side.
unfoldable pub best_order : Ladder → Outcome BookError Order
unfolding best_of first_order
best_order l = best_of l.levels l.prices

set_first : (ℕ → Option (List Order)) → ℕ → List Order → Order → ℕ → Option (List Order)
set_first m p [] o = m
set_first m p (x ∷ xs) o = put m p (o ∷ xs)

write_best : (ℕ → Option (List Order)) → List ℕ → Order → ℕ → Option (List Order)
write_best m [] o = m
write_best m (p ∷ ps) o = set_first m p (level m p) o

-- A write through the pointer that `bestOpposingOrder` returned.
unfoldable pub write_head : Ladder → Order → Ladder
unfolding set_first write_best
write_head l o = record l { levels = write_best l.levels l.prices o }
