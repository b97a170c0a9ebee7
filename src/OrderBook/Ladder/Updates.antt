-- ===== src/OrderBook/Ladder/Updates.antt =====
-- `set_level` keeps a ladder well formed and replaces one level in the queue; the best level.
use mathlib.Core.Path.{fun_ext}
use ssh_arena.Prelude.{
  ℕ, ◌≡◌, refl, sym, ap, ◌∙◌, subst, true, false, Option, none, some, List, [], ◌∷◌, ◌++◌, arith,
  ◌==◌, if◌then◌else◌, All, Bool-cases, ◌⊎◌, inl, inr,
}
use ssh_arena.Prelude.Outcome.{ok}
use ssh_arena.OrderBook.Types.{Order}
use ssh_arena.OrderBook.Ladder.{
  Half, Ladder, level, put, delete, set_level, remove_price, remove_head, drop_head, best_order,
  best_of, write_head, write_best,
}
use ssh_arena.OrderBook.Ladder.Prices.{
  elem, AllAfter, Sorted, before-ne_sym, remove_price-Sorted, elem-remove_price_ne,
}
use ssh_arena.OrderBook.Ladder.Contents.{
  Rests, IsLevel, IsValid, queue, orders, queue-Agree, filled-Agree, delete-Agree,
}

-- The queue with the orders at one price replaced.
abbrev pub splice : (ℕ → Option (List Order)) → ℕ → List Order → List ℕ → List Order
splice m p os [] = []
splice m p os (q ∷ qs) = (if q == p then os else level m q) ++ splice m p os qs

pub splice_absent :
    (h : Half) (m : ℕ → Option (List Order)) (p : ℕ) (os : List Order) (ps : List ℕ)
    → AllAfter h p ps
    → splice m p os ps ≡ queue m ps
splice_absent h m p os [] a = refl
splice_absent h m p os (q ∷ ps) a =
    rw (before-ne_sym h p q a.0) (ap (◌++◌ (level m q)) (splice_absent h m p os ps a.1))

level-put :
    (m : ℕ → Option (List Order)) (p q : ℕ) (os : List Order)
    → level (put m p os) q ≡ (if q == p then os else level m q)
level-put m p q os = elim (Bool-cases (q == p)) [
  | inl hit ↦ rw (hit, level, put)
  | inr miss ↦ rw (miss, level, put)
]

level-delete_ne :
    (m : ℕ → Option (List Order)) (p q : ℕ) → (q == p) ≡ false → level (delete m p) q ≡ level m q
level-delete_ne m p q miss = rw (level, delete, miss)

pub queue-put :
    (m : ℕ → Option (List Order)) (p : ℕ) (os : List Order) (ps : List ℕ)
    → queue (put m p os) ps ≡ splice m p os ps
queue-put m p os [] = refl
queue-put m p os (q ∷ ps) = rw (level-put m p q os, queue-put m p os ps)

queue-delete :
    (h : Half) (m : ℕ → Option (List Order)) (p : ℕ) (ps : List ℕ)
    → Sorted h ps
    → queue (delete m p) (remove_price ps p) ≡ splice m p [] ps
unfolding remove_price
queue-delete h m p [] s = refl
queue-delete h m p (q ∷ ps) s = elim (Bool-cases (q == p)) [
  | inl hit ↦
      let same : q ≡ p = ground arith in
      let later : AllAfter h p ps = subst (λ x. AllAfter h x ps) same s.0 in
      rw hit (
        queue-Agree (delete m p) m ps (delete-Agree h m p ps later)
        ∙ sym (splice_absent h m p [] ps later))
  | inr miss ↦ rw (miss, level-delete_ne m p q miss, queue-delete h m p ps s.1)
]

pub orders-set_level :
    (h : Half) (l : Ladder) (p : ℕ) (os : List Order)
    → Sorted h l.prices
    → orders (set_level l p os) ≡ splice l.levels p os l.prices
unfolding set_level
orders-set_level h l p [] s = queue-delete h l.levels p l.prices s
orders-set_level h l p (o ∷ os) s = queue-put l.levels p (o ∷ os) l.prices

pub put-IsLevel :
    (h : Half) (m : ℕ → Option (List Order)) (p q : ℕ) (os : List Order)
    → IsLevel h p (some os)
    → IsLevel h q (m q)
    → IsLevel h q (put m p os q)
put-IsLevel h m p q os g f = elim (Bool-cases (q == p)) [
  | inl hit ↦
      let same : q ≡ p = ground arith in
      rw (hit, put) (subst (λ x. IsLevel h x (some os)) (sym same) g)
  | inr miss ↦ rw (miss, put) f
]

pub filled-put :
    (h : Half) (m : ℕ → Option (List Order)) (p : ℕ) (os : List Order) (ps : List ℕ)
    → IsLevel h p (some os)
    → All (λ q. IsLevel h q (m q)) ps
    → All (λ q. IsLevel h q (put m p os q)) ps
filled-put h m p os [] g f = tt
filled-put h m p os (q ∷ ps) g f = (put-IsLevel h m p q os g f.0, filled-put h m p os ps g f.1)

filled-delete :
    (h : Half) (m : ℕ → Option (List Order)) (p : ℕ) (ps : List ℕ)
    → Sorted h ps
    → All (λ q. IsLevel h q (m q)) ps
    → All (λ q. IsLevel h q (delete m p q)) (remove_price ps p)
unfolding remove_price
filled-delete h m p [] s f = tt
filled-delete h m p (q ∷ ps) s f = elim (Bool-cases (q == p)) [
  | inl hit ↦
      let same : q ≡ p = ground arith in
      let later : AllAfter h p ps = subst (λ x. AllAfter h x ps) same s.0 in
      rw hit (filled-Agree h (delete m p) m ps (delete-Agree h m p ps later) f.1)
  | inr miss ↦ rw miss (rw (miss, delete) f.0, filled-delete h m p ps s.1 f.1)
]

closed-delete :
    (m : ℕ → Option (List Order)) (p : ℕ) (ps : List ℕ)
    → ((q : ℕ) → elem q ps ≡ false → m q ≡ none)
    → (q : ℕ) → elem q (remove_price ps p) ≡ false
    → delete m p q ≡ none
closed-delete m p ps c q e = elim (Bool-cases (q == p)) [
  | inl hit ↦ rw (hit, delete)
  | inr miss ↦ rw (miss, delete) (c q (sym (elem-remove_price_ne p q ps miss) ∙ e))
]

pub closed-put :
    (m : ℕ → Option (List Order)) (p : ℕ) (os : List Order) (ps : List ℕ)
    → elem p ps ≡ true
    → ((q : ℕ) → elem q ps ≡ false → m q ≡ none)
    → (q : ℕ) → elem q ps ≡ false
    → put m p os q ≡ none
closed-put m p os ps here c q e = elim (Bool-cases (q == p)) [
  | inl hit ↦
      let same : q ≡ p = ground arith in
      let gone : elem p ps ≡ false = subst (λ x. elem x ps ≡ false) same e in cc (here, gone)
  | inr miss ↦ rw (miss, put) (c q e)
]

pub set_level-IsValid :
    (h : Half) (l : Ladder) (p : ℕ) (os : List Order)
    → IsValid h l
    → elem p l.prices ≡ true
    → All (Rests h p) os
    → IsValid h (set_level l p os)
unfolding set_level
set_level-IsValid h l p [] v e r = record {
  sorted = remove_price-Sorted h p l.prices v.sorted;
  filled = filled-delete h l.levels p l.prices v.sorted v.filled;
  closed = closed-delete l.levels p l.prices v.closed;
}
set_level-IsValid h l p (o ∷ os) v e r = record {
  sorted = v.sorted;
  filled = filled-put h l.levels p (o ∷ os) l.prices r v.filled;
  closed = closed-put l.levels p (o ∷ os) l.prices e v.closed;
}

put_twice :
    (m : ℕ → Option (List Order)) (p : ℕ) (xs ys : List Order) → put (put m p xs) p ys ≡ put m p ys
put_twice m p xs ys = fun_ext λ q. ground arith

delete-put :
    (m : ℕ → Option (List Order)) (p : ℕ) (xs : List Order) → delete (put m p xs) p ≡ delete m p
delete-put m p xs = fun_ext λ q. ground arith

pub set_level_twice :
    (l : Ladder) (p : ℕ) (o : Order) (xs ys : List Order)
    → set_level (set_level l p (o ∷ xs)) p ys ≡ set_level l p ys
unfolding set_level
set_level_twice l p o xs [] =
    λ i. record { levels = delete-put l.levels p (o ∷ xs) i; prices = remove_price l.prices p }
set_level_twice l p o xs (y ∷ ys) =
    λ i. record { levels = put_twice l.levels p (o ∷ xs) (y ∷ ys) i; prices = l.prices }

-- The best level of a ladder: its price, the later prices, its first order and the others.
pub record Best (h : Half) (l : Ladder) (p : ℕ) (ps : List ℕ) (o : Order) (os : List Order)
    : Type 0 where
  pub top : l.prices ≡ p ∷ ps
  pub there : l.levels p ≡ some (o ∷ os)
  pub rests : Rests h p o
  pub others : All (Rests h p) os
  pub later : AllAfter h p ps

abbrev pub HasBest : Half → Ladder → Type 0
HasBest h l = (p : ℕ) × (ps : List ℕ) × (o : Order) × (os : List Order) × Best h l p ps o os

-- A well-formed ladder is empty or has a best order.
pub best_cases : (h : Half) (l : Ladder) → IsValid h l → (l.prices ≡ []) ⊎ HasBest h l
best_cases h l v = go l.prices refl v.sorted v.filled
  where
    pick :
        (p : ℕ) (ps : List ℕ) (x : Option (List Order))
        → l.prices ≡ p ∷ ps
        → l.levels p ≡ x
        → AllAfter h p ps
        → IsLevel h p x
        → HasBest h l
    pick p ps none t e a f = elim f [ ]
    pick p ps (some []) t e a f = elim f [ ]
    pick p ps (some (o ∷ os)) t e a f =
        (p, ps, o, os, record { top = t; there = e; rests = f.0; others = f.1; later = a })

    go :
        (ps : List ℕ)
        → l.prices ≡ ps
        → Sorted h ps
        → All (λ p. IsLevel h p (l.levels p)) ps
        → (l.prices ≡ []) ⊎ HasBest h l
    go [] e s f = inl e
    go (p ∷ ps) e s f = inr (pick p ps (l.levels p) e refl s.0 f.0)

module _ (h : Half) (l : Ladder) (p : ℕ) (ps : List ℕ) (o : Order) (os : List Order)
    (b : Best h l p ps o os) where
  pub orders-Best : orders l ≡ o ∷ os ++ queue l.levels ps
  orders-Best = rw (b.top, queue, level, b.there)

  pub elem-Best : elem p l.prices ≡ true
  elem-Best = rw b.top (ground arith)

  pub best_order-Best : best_order l ≡ ok o
  unfolding best_order
  best_order-Best = rw (b.top, best_of, level, b.there)

  pub write_head-Best : (x : Order) → write_head l x ≡ set_level l p (x ∷ os)
  unfolding write_head set_level
  write_head-Best x = rw (b.top, write_best, level, b.there)

  head_level : (x : Order) → level (set_level l p (x ∷ os)).levels p ≡ x ∷ os
  unfolding set_level
  head_level x = ground arith

  pub remove_head-Best :
      (x : Order) → remove_head (set_level l p (x ∷ os)) p ≡ ok (set_level l p os)
  unfolding remove_head
  remove_head-Best x = rw (head_level x, drop_head) (ap ok (set_level_twice l p x os os))

  pub orders-set_level_Best :
      (xs : List Order) → Sorted h l.prices → orders (set_level l p xs) ≡ xs ++ queue l.levels ps
  orders-set_level_Best xs s =
      orders-set_level h l p xs s
      ∙ rw b.top (ground (arith, splice_absent h l.levels p xs ps b.later))
