-- ===== src/OrderBook/Place/Uncrossed.antt =====
-- Bids below asks: the relation between the two halves of a book.
use ssh_arena.Prelude.{
  ℕ, ◌≡◌, subst, true, false, List, [], ◌∷◌, ltb, arith, Bool-cases, inl, inr, All, All-append,
}
use ssh_arena.OrderBook.Types.{Order, is_market}
use ssh_arena.OrderBook.Ladder.{Half, Ladder, before}
use ssh_arena.OrderBook.Ladder.Contents.{
  Rests, IsLevel, IsValid, orders, queue, OrdersAfter, queue-after,
}
use ssh_arena.OrderBook.Ladder.Updates.{Best, best_cases, orders-Best}
use ssh_arena.OrderBook.Ladder.Resting.{enqueue}
use ssh_arena.OrderBook.Place.{reaches}
use ssh_arena.OrderBook.Place.Sweep.{meets}
use ssh_arena.OrderBook.Place.Round.{other}
use ssh_arena.OrderBook.Place.Totals.{Stopped}

-- Would an order with this limit stay clear of all these orders?
abbrev pub Clear : Half → List Order → ℕ → Type 0
Clear h ys price = All (λ y. reaches h price y.price ≡ false) ys

-- No order of `xs` reaches one of `ys`, which rest in `h`.
abbrev pub Apart : Half → List Order → List Order → Type 0
Apart h xs ys = All (λ x. Clear h ys x.price) xs

pub All-enqueue :
    (P : Order → Type 0) (h : Half) (o : Order) (xs : List Order)
    → P o
    → All P xs
    → All P (enqueue h o xs)
All-enqueue P h o [] p a = (p, tt)
All-enqueue P h o (x ∷ xs) p a = elim (Bool-cases (before h o.price x.price)) [
  | inl first ↦ rw first (p, a)
  | inr later ↦ rw later (a.0, All-enqueue P h o xs p a.1)
]

reaches-other : (h : Half) (a b : ℕ) → reaches h a b ≡ false → reaches (other h) b a ≡ false
reaches-other Half.bids a b e = e
reaches-other Half.asks a b e = e

Apart-cons :
    (h : Half) (y : Order) (ys xs : List Order)
    → Clear (other h) xs y.price
    → Apart h xs ys
    → Apart h xs (y ∷ ys)
Apart-cons Half.bids y ys [] c a = tt
Apart-cons Half.bids y ys (x ∷ xs) c a = ((c.0, a.0), Apart-cons Half.bids y ys xs c.1 a.1)
Apart-cons Half.asks y ys [] c a = tt
Apart-cons Half.asks y ys (x ∷ xs) c a = ((c.0, a.0), Apart-cons Half.asks y ys xs c.1 a.1)

Apart-nil : (h : Half) (xs : List Order) → Apart h xs []
Apart-nil h [] = tt
Apart-nil h (x ∷ xs) = (tt, Apart-nil h xs)

pub Apart-swap : (h : Half) (xs ys : List Order) → Apart (other h) ys xs → Apart h xs ys
Apart-swap h xs [] a = Apart-nil h xs
Apart-swap h xs (y ∷ ys) a = Apart-cons h y ys xs a.0 (Apart-swap h xs ys a.1)

-- A limit that does not reach a price does not reach a worse one.
reaches-before :
    (h : Half) (a p q : ℕ) → reaches h a p ≡ false → before h p q ≡ true → reaches h a q ≡ false
reaches-before Half.bids a p q e b = ground arith
reaches-before Half.asks a p q e b = ground arith

Clear-after :
    (h : Half) (a p : ℕ) (ys : List Order)
    → reaches h a p ≡ false
    → OrdersAfter h p ys
    → Clear h ys a
Clear-after h a p [] e o = tt
Clear-after h a p (y ∷ ys) e o = (reaches-before h a p y.price e o.0, Clear-after h a p ys e o.1)

Clear-Rests :
    (h : Half) (a p : ℕ) (ys : List Order)
    → reaches h a p ≡ false
    → All (Rests h p) ys
    → Clear h ys a
Clear-Rests h a p [] e r = tt
Clear-Rests h a p (y ∷ ys) e r = (rw (r.0.priced) e, Clear-Rests h a p ys e r.1)

later-after :
    (h : Half) (l : Ladder) (p : ℕ) (ps : List ℕ) (r : Order) (os : List Order)
    → IsValid h l
    → Best h l p ps r os
    → OrdersAfter h p (queue l.levels ps)
later-after h l p ps r os v best =
    let f = subst (All (λ q. IsLevel h q (l.levels q))) best.top v.filled in
    queue-after h l.levels p ps best.later f.1

-- On a well-formed half, an order that stops before the first resting order is clear of them all.
pub Stopped-Clear :
    (h : Half) (l : Ladder) (o : Order)
    → IsValid h l
    → ltb 0 o.remaining_quantity ≡ true
    → is_market o.kind ≡ false
    → Stopped h o (orders l)
    → Clear h (orders l) o.price
Stopped-Clear h l o v some_left limited st = elim (best_cases h l v) [
  | inl none_left ↦ rw (none_left, queue) tt
  | inr (p, ps, r, os, best) ↦
      let front : meets h o r ≡ false = subst (Stopped h o) (orders-Best h l p ps r os best) st in
      let short : reaches h o.price r.price ≡ false = ground arith in
      let short_p : reaches h o.price p ≡ false =
        subst (λ x. reaches h o.price x ≡ false) best.rests.priced short in
      rw (orders-Best h l p ps r os best) (
        short,
        All-append _ os (queue l.levels ps) (Clear-Rests h o.price p os short_p best.others) (
            Clear-after h o.price p (queue l.levels ps) short_p (later-after h l p ps r os v best)),
      )
]
