-- ===== src/OrderBook/Place/Refine.antt =====
-- The matching loop implements `sweep`: on a well-formed book it always ends, without an error.
use ssh_arena.Prelude.{
  ℕ, zero, suc, ◌-◌, ◌<◌, ◌≡◌, refl, sym, ap, ◌∙◌, subst, true, false, ◌&&◌, some, List, [], ◌∷◌,
  ◌++◌, ltb, leb, min, arith, Bool-cases, inl, inr, All,
}
use ssh_arena.Prelude.Outcome.{ok}
use ssh_arena.OrderBook.Types.{Order}
use ssh_arena.OrderBook.Ladder.{Half, Ladder, set_level}
use ssh_arena.OrderBook.Ladder.Contents.{Rests, IsValid, orders, queue}
use ssh_arena.OrderBook.Ladder.Updates.{
  Best, best_cases, orders-Best, elem-Best, orders-set_level_Best, set_level-IsValid,
}
use ssh_arena.OrderBook.Place.{
  Book, Matching, ladder, opposing, crosses_best, can_cross, match_loop, execute,
}
use ssh_arena.OrderBook.Place.Sweep.{Progress, fill, reduce, meets, sweep}
use ssh_arena.OrderBook.Place.Round.{
  other, traded, ladder-traded, ladder-traded_other, progress, at, can_cross-Best,
  best_opposing_order-Best, execute_used_up, execute_left_over,
}

leb-false→lt : (a b : ℕ) → leb a b ≡ false → b < a
leb-false→lt a b e = ground arith

pub sweep-stop :
    (h : Half) (now : ℕ) (p : Progress) (r : Order) (rs : List Order)
    → meets h p.order r ≡ false
    → sweep h now p (r ∷ rs) ≡ (p, r ∷ rs)
unfolding sweep
sweep-stop h now p r rs e = rw e

pub sweep-used_up :
    (h : Half) (now : ℕ) (p : Progress) (r : Order) (rs : List Order)
    → meets h p.order r ≡ true
    → leb r.remaining_quantity p.order.remaining_quantity ≡ true
    → sweep h now p (r ∷ rs) ≡ sweep h now (fill now p r) rs
unfolding sweep
sweep-used_up h now p r rs e f = rw (e, f)

pub sweep-left_over :
    (h : Half) (now : ℕ) (p : Progress) (r : Order) (rs : List Order)
    → meets h p.order r ≡ true
    → leb r.remaining_quantity p.order.remaining_quantity ≡ false
    → sweep h now p (r ∷ rs) ≡ (fill now p r, reduce p.order.remaining_quantity r ∷ rs)
unfolding sweep fill reduce
sweep-left_over h now p r rs e f = rw (e, f)

-- What the loop has made of its variables.
pub record Matched (h : Half) (now : ℕ) (m m' : Matching) : Type 0 where
  pub swept :
      (progress m', orders (ladder h m'.book)) ≡ sweep h now (progress m) (orders (ladder h m.book))
  pub valid : IsValid h (ladder h m'.book)
  pub untouched : ladder (other h) m'.book ≡ ladder (other h) m.book
  pub named : m'.book.symbol ≡ m.book.symbol

abbrev Ends : Half → ℕ → ℕ → Matching → Type 0
Ends h now fuel m = (m' : Matching) × (match_loop fuel now m ≡ ok m') × Matched h now m m'

symbol-traded :
    (h : Half) (b : Book) (l : Ladder) (price : ℕ) → (traded h b l price).symbol ≡ b.symbol
symbol-traded Half.bids b l price = refl
symbol-traded Half.asks b l price = refl

match_loop-stop :
    (fuel now : ℕ) (m : Matching)
    → (ltb 0 m.order.remaining_quantity && can_cross m.book m.order) ≡ false
    → match_loop (suc fuel) now m ≡ ok m
unfolding match_loop
match_loop-stop fuel now m e = rw (match_loop, e)

stop_empty :
    (h : Half) (now fuel : ℕ) (m : Matching)
    → opposing m.order.side ≡ some h
    → IsValid h (ladder h m.book)
    → (ladder h m.book).prices ≡ []
    → Ends h now (suc fuel) m
unfolding sweep can_cross
stop_empty h now fuel m faces v e = (
  m,
  match_loop-stop fuel now m (rw blocked (ground arith)),
  record { swept = rw (e, sweep, queue); valid = v; untouched = refl; named = refl },
)
  where
    blocked : can_cross m.book m.order ≡ false
    blocked = rw (can_cross, faces, e, crosses_best)

module _ (h : Half) (now : ℕ) (m : Matching) (p : ℕ) (ps : List ℕ) (r : Order) (os : List Order)
    (faces : opposing m.order.side ≡ some h) (v : IsValid h (ladder h m.book))
    (best : Best h (ladder h m.book) p ps r os) where
  stop_best : (fuel : ℕ) → meets h m.order r ≡ false → Ends h now (suc fuel) m
  unfolding progress
  stop_best fuel e = (
    m,
    match_loop-stop fuel now m (rw (can_cross-Best h now m p ps r os faces best) e),
    record {
      swept =
          rw (orders-Best h (ladder h m.book) p ps r os best)
            (sym (sweep-stop h now (progress m) r (os ++ queue (ladder h m.book).levels ps) e));
      valid = v;
      untouched = refl;
      named = refl;
    },
  )

  -- One round, whose trade leaves the orders `xs` at the best price.
  module _ (xs : List Order) (fits : All (Rests h p) xs) where
    hit : Matching
    hit = at (traded h m.book (set_level (ladder h m.book) p xs) r.price) (fill now (progress m) r)

    hit-IsValid : IsValid h (ladder h hit.book)
    unfolding hit
    hit-IsValid = subst (IsValid h) (sym (ladder-traded h m.book _ r.price)) (
        set_level-IsValid h (ladder h m.book) p xs v (elem-Best h (ladder h m.book) p ps r os best)
          fits)

    hit-orders : orders (ladder h hit.book) ≡ xs ++ queue (ladder h m.book).levels ps
    unfolding hit
    hit-orders =
        ap orders (ladder-traded h m.book _ r.price)
        ∙ orders-set_level_Best h (ladder h m.book) p ps r os best xs v.sorted

    go_on :
        (fuel : ℕ)
        → meets h m.order r ≡ true
        → execute now m r ≡ ok hit
        → match_loop (suc fuel) now m ≡ match_loop fuel now hit
    unfolding match_loop
    go_on fuel e run = rw (
      match_loop,
      can_cross-Best h now m p ps r os faces best,
      e,
      best_opposing_order-Best h now m p ps r os faces best,
      run,
    )

    -- What the later rounds do, seen from before this one.
    pass :
        (fuel : ℕ)
        → match_loop (suc fuel) now m ≡ match_loop fuel now hit
        → sweep h now (progress m) (orders (ladder h m.book))
          ≡ sweep h now (progress hit) (orders (ladder h hit.book))
        → Ends h now fuel hit
        → Ends h now (suc fuel) m
    unfolding hit
    pass fuel same later (m', run, d) = (
      m',
      same ∙ run,
      record {
        swept = d.swept ∙ sym later;
        valid = d.valid;
        untouched = d.untouched ∙ ladder-traded_other h m.book _ r.price;
        named = d.named ∙ symbol-traded h m.book _ r.price;
      },
    )

  module _ (used : leb r.remaining_quantity m.order.remaining_quantity ≡ true)
      (e : meets h m.order r ≡ true) where
    pass_used_up : (fuel : ℕ) → Ends h now fuel (hit os best.others) → Ends h now (suc fuel) m
    unfolding hit progress fill
    pass_used_up fuel =
        pass os best.others fuel
          (go_on os best.others fuel e
            (execute_used_up h now m p ps r os faces best (ground arith)))
          (ap (sweep h now (progress m)) (orders-Best h (ladder h m.book) p ps r os best)
            ∙ sweep-used_up h now (progress m) r _ e used
            ∙ ap (sweep h now (fill now (progress m) r)) (sym (hit-orders os best.others)))

  reduce-Rests :
      m.order.remaining_quantity < r.remaining_quantity
      → Rests h p (reduce m.order.remaining_quantity r)
  unfolding reduce
  reduce-Rests lt = record {
    priced = best.rests.priced;
    positive = best.rests.positive;
    remains = omega arith;
    sided = best.rests.sided;
    limited = best.rests.limited;
  }

  module _ (left : m.order.remaining_quantity < r.remaining_quantity)
      (e : meets h m.order r ≡ true) where
    kept : List Order
    kept = reduce m.order.remaining_quantity r ∷ os

    kept-fits : All (Rests h p) kept
    unfolding kept
    kept-fits = (reduce-Rests left, best.others)

    pass_left_over : (fuel : ℕ) → Ends h now fuel (hit kept kept-fits) → Ends h now (suc fuel) m
    unfolding hit progress kept fill
    pass_left_over fuel =
        pass kept kept-fits fuel
          (go_on kept kept-fits fuel e (execute_left_over h now m p ps r os faces best left))
          (ap (sweep h now (progress m)) (orders-Best h (ladder h m.book) p ps r os best)
            ∙ sweep-left_over h now (progress m) r _ e (ground arith)
            ∙ sym (sweep-stop h now _ _ _ (ground arith))
            ∙ ap (sweep h now (fill now (progress m) r)) (sym (hit-orders kept kept-fits)))

  shrinks :
      (fuel : ℕ)
      → meets h m.order r ≡ true
      → m.order.remaining_quantity < suc fuel
      → m.order.remaining_quantity - min m.order.remaining_quantity r.remaining_quantity < fuel
  shrinks fuel e lt = let some_left = best.rests.remains in ground arith

  round :
      (fuel : ℕ)
      → m.order.remaining_quantity < suc fuel
      → ((xs : List Order) (fits : All (Rests h p) xs)
          → opposing (hit xs fits).order.side ≡ some h
          → IsValid h (ladder h (hit xs fits).book)
          → (hit xs fits).order.remaining_quantity < fuel
          → Ends h now fuel (hit xs fits))
      → Ends h now (suc fuel) m
  unfolding hit fill progress
  round fuel lt onward = elim (Bool-cases (meets h m.order r)) [
    | inr stops ↦ stop_best fuel stops
    | inl e ↦ elim (Bool-cases (leb r.remaining_quantity m.order.remaining_quantity)) [
      | inl used ↦
          pass_used_up used e fuel
            (onward os best.others faces (hit-IsValid os best.others) (shrinks fuel e lt))
      | inr more ↦
          let left = leb-false→lt r.remaining_quantity m.order.remaining_quantity more in
          pass_left_over left e fuel (
            onward (kept left e) (kept-fits left e) faces
              (hit-IsValid (kept left e) (kept-fits left e)) (shrinks fuel e lt))
    ]
  ]

-- On a well-formed half the loop ends within the fuel, and does what `sweep` does.
pub match_loop-Matched :
    (h : Half) (now fuel : ℕ) (m : Matching)
    → opposing m.order.side ≡ some h
    → IsValid h (ladder h m.book)
    → m.order.remaining_quantity < fuel
    → (m' : Matching) × (match_loop fuel now m ≡ ok m') × Matched h now m m'
match_loop-Matched h now zero m faces v lt = absurd (omega arith)
match_loop-Matched h now (suc fuel) m faces v lt = elim (best_cases h (ladder h m.book) v) [
  | inl none_left ↦ stop_empty h now fuel m faces v none_left
  | inr (p, ps, r, os, best) ↦
      round h now m p ps r os faces v best fuel lt
        λ xs fits. match_loop-Matched h now fuel (hit h now m p ps r os faces v best xs fits)
]
