-- ===== src/OrderBook/Ladder/Contents.antt =====
-- A well-formed ladder, and the ladder read as one queue of orders in price-time priority.
use ssh_arena.Prelude.{
  ℕ, ◌≡◌, refl, ◌<◌, true, false, Option, none, some, List, [], ◌∷◌, ◌++◌, arith, All, All-append,
  Bool-cases, inl, inr,
}
use ssh_arena.OrderBook.Types.{Order, Side, is_market}
use ssh_arena.OrderBook.Ladder.{Half, Ladder, before, level, contains, empty_ladder, put, delete}
use ssh_arena.OrderBook.Ladder.Prices.{elem, AllAfter, Sorted, All-elem, before-ne}

abbrev pub side_of : Half → Side
side_of Half.bids = Side.buy
side_of Half.asks = Side.sell

-- What an order that rests at a price is like.
pub record Rests (h : Half) (p : ℕ) (o : Order) : Type 0 where
  pub priced : o.price ≡ p
  pub positive : 0 < p
  pub remains : 0 < o.remaining_quantity
  pub sided : o.side ≡ side_of h
  pub limited : is_market o.kind ≡ false

-- A level is there and not empty, and its orders rest at its price.
abbrev pub IsLevel : Half → ℕ → Option (List Order) → Type 0
IsLevel h p none = ⊥
IsLevel h p (some []) = ⊥
IsLevel h p (some (o ∷ os)) = Rests h p o × All (Rests h p) os

pub record IsValid (h : Half) (l : Ladder) : Type 0 where
  pub sorted : Sorted h l.prices
  pub filled : All (λ p. IsLevel h p (l.levels p)) l.prices
  pub closed : (p : ℕ) → elem p l.prices ≡ false → l.levels p ≡ none

pub empty_ladder-IsValid : (h : Half) → IsValid h empty_ladder
empty_ladder-IsValid h = record { sorted = tt; filled = tt; closed = λ p e. refl }

-- The orders of the levels at some prices.
abbrev pub queue : (ℕ → Option (List Order)) → List ℕ → List Order
queue m [] = []
queue m (p ∷ ps) = level m p ++ queue m ps

abbrev pub orders : Ladder → List Order
orders l = queue l.levels l.prices

-- Two maps that agree on some prices hold the same there.
abbrev pub Agree : (ℕ → Option (List Order)) → (ℕ → Option (List Order)) → List ℕ → Type 0
Agree m n = All (λ p. m p ≡ n p)

pub queue-Agree :
    (m n : ℕ → Option (List Order)) (ps : List ℕ) → Agree m n ps → queue m ps ≡ queue n ps
queue-Agree m n [] a = refl
queue-Agree m n (p ∷ ps) a = rw (a.0, level, queue-Agree m n ps a.1)

pub filled-Agree :
    (h : Half) (m n : ℕ → Option (List Order)) (ps : List ℕ)
    → Agree m n ps
    → All (λ p. IsLevel h p (n p)) ps
    → All (λ p. IsLevel h p (m p)) ps
filled-Agree h m n [] a f = tt
filled-Agree h m n (p ∷ ps) a f = (rw a.0 f.0, filled-Agree h m n ps a.1 f.1)

pub put-Agree :
    (h : Half) (m : ℕ → Option (List Order)) (p : ℕ) (os : List Order) (ps : List ℕ)
    → AllAfter h p ps
    → Agree (put m p os) m ps
put-Agree h m p os [] a = tt
put-Agree h m p os (q ∷ ps) a = (ground (arith, before-ne h p q a.0), put-Agree h m p os ps a.1)

pub delete-Agree :
    (h : Half) (m : ℕ → Option (List Order)) (p : ℕ) (ps : List ℕ)
    → AllAfter h p ps
    → Agree (delete m p) m ps
delete-Agree h m p [] a = tt
delete-Agree h m p (q ∷ ps) a = (ground (arith, before-ne h p q a.0), delete-Agree h m p ps a.1)

-- A level that holds only resting orders, as a list.
pub level-Rests :
    (h : Half) (p : ℕ) (m : ℕ → Option (List Order))
    → IsLevel h p (m p)
    → All (Rests h p) (level m p)
level-Rests h p m f = go (m p) f
  where
    go :
        (x : Option (List Order))
        → IsLevel h p x
        → All (Rests h p) (elim x [ none ↦ [] | some os ↦ os ])
    go none f = elim f [ ]
    go (some []) f = elim f [ ]
    go (some (o ∷ os)) f = f

contains_some :
    (h : Half) (p : ℕ) (x : Option (List Order))
    → IsLevel h p x
    → (elim x [ none ↦ false | some _ ↦ true ]) ≡ true
contains_some h p none f = elim f [ ]
contains_some h p (some os) f = refl

-- The map has a key exactly for the prices of the slice.
pub contains-elem :
    (h : Half) (l : Ladder) (p : ℕ) → IsValid h l → contains l.levels p ≡ elem p l.prices
contains-elem h l p v = elim (Bool-cases (elem p l.prices)) [
  | inl here ↦ rw here (
      contains_some h p (l.levels p)
        (All-elem (λ q. IsLevel h q (l.levels q)) p l.prices v.filled here))
  | inr gone ↦ rw (gone, v.closed p gone, contains)
]

-- Every order of the queue at later prices comes after `p`.
abbrev pub OrdersAfter : Half → ℕ → List Order → Type 0
OrdersAfter h p = All (λ o. before h p o.price ≡ true)

Rests-after :
    (h : Half) (p q : ℕ) (os : List Order)
    → before h p q ≡ true
    → All (Rests h q) os
    → OrdersAfter h p os
Rests-after h p q [] b r = tt
Rests-after h p q (o ∷ os) b r = (rw (r.0.priced) b, Rests-after h p q os b r.1)

pub queue-after :
    (h : Half) (m : ℕ → Option (List Order)) (p : ℕ) (ps : List ℕ)
    → AllAfter h p ps
    → All (λ q. IsLevel h q (m q)) ps
    → OrdersAfter h p (queue m ps)
queue-after h m p [] a f = tt
queue-after h m p (q ∷ ps) a f =
    All-append _ (level m q) (queue m ps)
      (Rests-after h p q (level m q) a.0 (level-Rests h q m f.0)) (queue-after h m p ps a.1 f.1)
