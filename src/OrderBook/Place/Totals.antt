-- ===== src/OrderBook/Place/Totals.antt =====
-- What `sweep` keeps: quantities, the limit, the shape of the order, and the order of the queue.
use ssh_arena.Prelude.{
  ℕ, ◌+◌, ◌-◌, ◌<◌, ◌≤◌, ◌≡◌, refl, true, false, List, [], ◌∷◌, ◌++◌, leb, min, arith, Bool-cases,
  inl, inr, All, ◌⊎◌, All-append,
}
use ssh_arena.OrderBook.Types.{Order, Trade}
use ssh_arena.OrderBook.Ladder.{Half}
use ssh_arena.OrderBook.Place.{crosses, make_trade}
use ssh_arena.OrderBook.Place.Sweep.{Progress, fill, reduce, meets, sweep}
use ssh_arena.OrderBook.Place.Refine.{sweep-stop, sweep-used_up, sweep-left_over}

-- The quantity that some trades moved, and the quantity that some orders still offer.
abbrev pub volume : List Trade → ℕ
volume [] = 0
volume (t ∷ ts) = t.quantity + volume ts

abbrev pub open_quantity : List Order → ℕ
open_quantity [] = 0
open_quantity (o ∷ os) = o.remaining_quantity + open_quantity os

pub volume-append : (ts us : List Trade) → volume (ts ++ us) ≡ volume ts + volume us
volume-append [] us = omega arith
volume-append (t ∷ ts) us = omega (arith, volume-append ts us)

pub open_quantity-append :
    (xs ys : List Order) → open_quantity (xs ++ ys) ≡ open_quantity xs + open_quantity ys
open_quantity-append [] ys = omega arith
open_quantity-append (x ∷ xs) ys = omega (arith, open_quantity-append xs ys)

-- The front of the queue, if there is one, is not met.
abbrev pub Stopped : Half → Order → List Order → Type 0
Stopped h o [] = Unit
Stopped h o (r ∷ rs) = meets h o r ≡ false

-- An induction over `sweep`: a relation between progress and queue, before and after.
module _ {ℓ} (h : Half) (now : ℕ) (P : Progress → List Order → Progress → List Order → Type ℓ)
    (ends : (p : Progress) (rs : List Order) → Stopped h p.order rs → P p rs p rs)
    (uses : (p q : Progress) (r : Order) (rs qs : List Order)
      → meets h p.order r ≡ true
      → r.remaining_quantity ≤ p.order.remaining_quantity
      → P (fill now p r) rs q qs
      → P p (r ∷ rs) q qs)
    (leaves : (p : Progress) (r : Order) (rs : List Order)
      → meets h p.order r ≡ true
      → p.order.remaining_quantity < r.remaining_quantity
      → P p (r ∷ rs) (fill now p r) (reduce p.order.remaining_quantity r ∷ rs)) where
  pub sweep_induction :
      (p : Progress) (rs : List Order) → P p rs (sweep h now p rs).0 (sweep h now p rs).1
  sweep_induction p [] = unfold sweep in ends p [] tt
  sweep_induction p (r ∷ rs) =
      step (sweep_induction (fill now p r) rs) (Bool-cases (meets h p.order r))
        (Bool-cases (leb r.remaining_quantity p.order.remaining_quantity))
    where
      step :
          P (fill now p r) rs (sweep h now (fill now p r) rs).0 (sweep h now (fill now p r) rs).1
          → (meets h p.order r ≡ true) ⊎ (meets h p.order r ≡ false)
          → (leb r.remaining_quantity p.order.remaining_quantity ≡ true)
            ⊎ (leb r.remaining_quantity p.order.remaining_quantity ≡ false)
          → P p (r ∷ rs) (sweep h now p (r ∷ rs)).0 (sweep h now p (r ∷ rs)).1
      step ih (inr e) d = rw (sweep-stop h now p r rs e) (ends p (r ∷ rs) e)
      step ih (inl e) (inl u) =
          rw (sweep-used_up h now p r rs e u) (uses p _ r rs _ e (ground arith) ih)
      step ih (inl e) (inr l) =
          rw (sweep-left_over h now p r rs e l) (leaves p r rs e (ground arith))

-- What the incoming order loses, the trades have moved.
abbrev pub SameTotal : Progress → List Order → Progress → List Order → Type 0
SameTotal p rs q qs =
    (volume q.trades + q.order.remaining_quantity ≡ volume p.trades + p.order.remaining_quantity)
    × (volume q.trades + open_quantity qs ≡ volume p.trades + open_quantity rs)

fill-volume :
    (now : ℕ) (p : Progress) (r : Order)
    → volume (fill now p r).trades
      ≡ volume p.trades + min p.order.remaining_quantity r.remaining_quantity
unfolding fill make_trade
fill-volume now p r = omega (arith, volume-append p.trades)

fill-remaining :
    (now : ℕ) (p : Progress) (r : Order)
    → (fill now p r).order.remaining_quantity
      ≡ p.order.remaining_quantity - min p.order.remaining_quantity r.remaining_quantity
unfolding fill
fill-remaining now p r = refl

pub sweep-SameTotal :
    (h : Half) (now : ℕ) (p : Progress) (rs : List Order)
    → SameTotal p rs (sweep h now p rs).0 (sweep h now p rs).1
sweep-SameTotal h now =
    sweep_induction h now SameTotal (λ p rs st. (refl, refl))
      (λ p q r rs qs e le ih. omega (arith, fill-volume now p r, fill-remaining now p r))
      (λ p r rs e lt. unfold reduce in omega (arith, fill-volume now p r, fill-remaining now p r))

-- The order that comes out differs from the one that went in by its remaining quantity only.
abbrev pub SameOrder : Order → Order → Type 0
SameOrder o x = x ≡ record o { remaining_quantity = x.remaining_quantity }

fill-SameOrder : (now : ℕ) (p : Progress) (r : Order) → SameOrder p.order (fill now p r).order
unfolding fill
fill-SameOrder now p r = refl

pub sweep-SameOrder :
    (h : Half) (now : ℕ) (p : Progress) (rs : List Order)
    → SameOrder p.order (sweep h now p rs).0.order
sweep-SameOrder h now =
    sweep_induction h now (λ p rs q qs. SameOrder p.order q.order) (λ p rs st. refl)
      (λ p q r rs qs e le ih. unfold fill in ih) (λ p r rs e lt. fill-SameOrder now p r)

-- Every trade is at a price that the incoming order accepts.
abbrev pub Accepts : Half → Order → Trade → Type 0
Accepts h o t = crosses h o t.price ≡ true

fill-Accepts :
    (h : Half) (now : ℕ) (p : Progress) (r : Order)
    → meets h p.order r ≡ true
    → All (Accepts h p.order) p.trades
    → All (Accepts h (fill now p r).order) (fill now p r).trades
unfolding fill make_trade
fill-Accepts h now p r e a = All-append _ p.trades _ a (ground arith, tt)

pub sweep-Accepts :
    (h : Half) (now : ℕ) (p : Progress) (rs : List Order)
    → All (Accepts h p.order) p.trades
    → All (Accepts h (sweep h now p rs).0.order) (sweep h now p rs).0.trades
sweep-Accepts h now =
    sweep_induction h now
      (λ p rs q qs. All (Accepts h p.order) p.trades → All (Accepts h q.order) q.trades)
      (λ p rs st a. a) (λ p q r rs qs e le ih a. ih (fill-Accepts h now p r e a))
      (λ p r rs e lt a. fill-Accepts h now p r e a)

-- Matching goes on until the order is filled or the front of the queue is out of reach.
pub sweep-Stopped :
    (h : Half) (now : ℕ) (p : Progress) (rs : List Order)
    → Stopped h (sweep h now p rs).0.order (sweep h now p rs).1
sweep-Stopped h now =
    sweep_induction h now (λ p rs q qs. Stopped h q.order qs) (λ p rs st. st)
      (λ p q r rs qs e le ih. ih) (λ p r rs e lt. unfold fill reduce in ground arith)

-- The orders that stay in the queue keep their prices.
pub sweep-prices :
    (h : Half) (now : ℕ) (R : ℕ → Type 0) (p : Progress) (rs : List Order)
    → All (λ o. R o.price) rs
    → All (λ o. R o.price) (sweep h now p rs).1
sweep-prices h now R =
    sweep_induction h now (λ p rs q qs. All (λ o. R o.price) rs → All (λ o. R o.price) qs)
      (λ p rs st a. a) (λ p q r rs qs e le ih a. ih a.1) (λ p r rs e lt a. unfold reduce in a)
