-- ===== src/OrderBook/Place/Round.antt =====
-- One round of the matching loop on a well-formed book: the tests, the choice of the resting
-- order, and the book that the trade leaves.
use ssh_arena.Prelude.{
  ℕ, ◌+◌, ◌-◌, ◌<◌, ◌≤◌, ◌≡◌, refl, ap, ◌∙◌, true, false, some, List, ◌∷◌, leb, ◌==◌, min, arith,
}
use ssh_arena.Prelude.Outcome.{ok}
use ssh_arena.OrderBook.Types.{Order, Side}
use ssh_arena.OrderBook.Ladder.{Half, Ladder, set_level, remove_head}
use ssh_arena.OrderBook.Ladder.Contents.{Rests, side_of}
use ssh_arena.OrderBook.Ladder.Updates.{Best, best_order-Best, write_head-Best, remove_head-Best}
use ssh_arena.OrderBook.Place.{
  Book, Matching, ladder, set_ladder, opposing, own_half, crosses, crosses_best, can_cross,
  best_opposing_order, book_remove_head, book_write_head, min_quantity, trade_price, after_fill,
  trade_on, execute,
}
use ssh_arena.OrderBook.Place.Sweep.{Progress, fill, reduce}

abbrev pub other : Half → Half
other Half.bids = Half.asks
other Half.asks = Half.bids

pub ladder-set_ladder : (h : Half) (b : Book) (l : Ladder) → ladder h (set_ladder h b l) ≡ l
ladder-set_ladder Half.bids b l = refl
ladder-set_ladder Half.asks b l = refl

own_half-side_of : (h : Half) → own_half (side_of h) ≡ some h
own_half-side_of Half.bids = refl
own_half-side_of Half.asks = refl

-- The book after a trade, with a new ladder on the half that was hit.
abbrev pub traded : Half → Book → Ladder → ℕ → Book
traded h b l price = record (set_ladder h b l) {
  last_trade_price = price;
  sequence = b.sequence + 1;
}

pub ladder-traded :
    (h : Half) (b : Book) (l : Ladder) (price : ℕ) → ladder h (traded h b l price) ≡ l
ladder-traded Half.bids b l price = refl
ladder-traded Half.asks b l price = refl

pub ladder-traded_other :
    (h : Half) (b : Book) (l : Ladder) (price : ℕ)
    → ladder (other h) (traded h b l price) ≡ ladder (other h) b
ladder-traded_other Half.bids b l price = refl
ladder-traded_other Half.asks b l price = refl

set_ladder-traded :
    (h : Half) (b : Book) (l k : Ladder) (price : ℕ)
    → set_ladder h (traded h b l price) k ≡ traded h b k price
set_ladder-traded Half.bids b l k price = refl
set_ladder-traded Half.asks b l k price = refl

min_quantity-min : (a b : ℕ) → min_quantity a b ≡ min a b
unfolding min_quantity
min_quantity-min a b = ground arith

trade_price-Rests :
    (h : Half) (p last : ℕ) (o r : Order) → Rests h p r → trade_price last o r ≡ r.price
unfolding trade_price
trade_price-Rests h p last o r w = ground arith

after_fill-reduce :
    (r : Order) (qty : ℕ) → qty < r.remaining_quantity → after_fill r qty ≡ reduce qty r
unfolding after_fill reduce
after_fill-reduce r qty h = ground arith

unfoldable pub progress : Matching → Progress
progress m = record {
  order = m.order;
  trades = m.trades;
  removed = m.removed;
  last_trade_price = m.book.last_trade_price;
  sequence = m.book.sequence;
}

-- The loop variables that go with a progress and a book.
abbrev pub at : Book → Progress → Matching
at b p = record { book = b; order = p.order; trades = p.trades; removed = p.removed }

book_remove_head_own :
    (h : Half) (b : Book) (s : Side) (price : ℕ) {l : Ladder}
    → own_half s ≡ some h
    → remove_head (ladder h b) price ≡ ok l
    → book_remove_head b s price ≡ ok (set_ladder h b l)
unfolding book_remove_head
book_remove_head_own h b s price e f = rw (book_remove_head, e, f)

module _ (h : Half) (now : ℕ) (m : Matching) (p : ℕ) (ps : List ℕ) (r : Order) (os : List Order)
    (faces : opposing m.order.side ≡ some h) (best : Best h (ladder h m.book) p ps r os) where
  pub can_cross-Best : can_cross m.book m.order ≡ crosses h m.order r.price
  unfolding can_cross
  can_cross-Best = rw (can_cross, faces, best.top, crosses_best, best.rests.priced)

  pub best_opposing_order-Best : best_opposing_order m.book m.order.side ≡ ok r
  unfolding best_opposing_order
  best_opposing_order-Best =
      rw (best_opposing_order, faces) (best_order-Best h (ladder h m.book) p ps r os best)

  trade_on-Best :
      (price qty : ℕ)
      → trade_on m.book m.order r price qty
        ≡ traded h m.book (set_level (ladder h m.book) p (after_fill r qty ∷ os)) price
  unfolding trade_on book_write_head
  trade_on-Best price qty = rw (
    trade_on,
    book_write_head,
    faces,
    write_head-Best h (ladder h m.book) p ps r os best (after_fill r qty),
  )

  book_remove_head-Best :
      (price qty : ℕ)
      → book_remove_head
          (traded h m.book (set_level (ladder h m.book) p (after_fill r qty ∷ os)) price)
          r.side
          r.price
        ≡ ok (traded h m.book (set_level (ladder h m.book) p os) price)
  book_remove_head-Best price qty =
      book_remove_head_own h _ r.side r.price (ap own_half best.rests.sided ∙ own_half-side_of h)
        (ap (remove_head _) best.rests.priced ∙ removed)
      ∙ ap ok (set_ladder-traded h m.book _ _ price)
    where
      hit : Ladder
      hit = set_level (ladder h m.book) p (after_fill r qty ∷ os)

      removed :
          remove_head (ladder h (traded h m.book hit price)) p
          ≡ ok (set_level (ladder h m.book) p os)
      removed =
          ap (λ l. remove_head l p) (ladder-traded h m.book hit price)
          ∙ remove_head-Best h (ladder h m.book) p ps r os best (after_fill r qty)

  -- A resting order that is used up leaves the book.
  pub execute_used_up :
      r.remaining_quantity ≤ m.order.remaining_quantity
      → execute now m r
        ≡ ok (
            at
              (traded h m.book (set_level (ladder h m.book) p os) r.price)
              (fill now (progress m) r))
  unfolding execute fill progress
  execute_used_up le = rw (
    min_quantity-min m.order.remaining_quantity r.remaining_quantity,
    trade_price-Rests h p m.book.last_trade_price m.order r best.rests,
    spent,
    all,
    trade_on-Best r.price (min m.order.remaining_quantity r.remaining_quantity),
    book_remove_head-Best r.price (min m.order.remaining_quantity r.remaining_quantity),
  )
    where
      spent :
          (r.remaining_quantity - min m.order.remaining_quantity r.remaining_quantity == 0) ≡ true
      spent = ground arith

      all : leb r.remaining_quantity m.order.remaining_quantity ≡ true
      all = ground arith

  -- A larger one stays in front, with less to sell or to buy.
  pub execute_left_over :
      m.order.remaining_quantity < r.remaining_quantity
      → execute now m r
        ≡ ok (
            at
              (traded h m.book
                (set_level (ladder h m.book) p (reduce m.order.remaining_quantity r ∷ os))
                r.price)
              (fill now (progress m) r))
  unfolding execute fill progress
  execute_left_over lt = rw (
    min_quantity-min m.order.remaining_quantity r.remaining_quantity,
    trade_price-Rests h p m.book.last_trade_price m.order r best.rests,
    left,
    not_all,
    trade_on-Best r.price (min m.order.remaining_quantity r.remaining_quantity),
    whole,
    after_fill-reduce r m.order.remaining_quantity lt,
  )
    where
      left :
          (r.remaining_quantity - min m.order.remaining_quantity r.remaining_quantity == 0) ≡ false
      left = ground (arith, best.rests)

      not_all : leb r.remaining_quantity m.order.remaining_quantity ≡ false
      not_all = ground arith

      whole : min m.order.remaining_quantity r.remaining_quantity ≡ m.order.remaining_quantity
      whole = omega arith
