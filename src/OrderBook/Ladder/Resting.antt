-- ===== src/OrderBook/Ladder/Resting.antt =====
-- `add_resting` against its specification: a new order goes behind every order of the same or a
-- better price, and before the others.
use ssh_arena.Prelude.{
  ℕ, ◌≡◌, refl, sym, ap, ◌∙◌, subst, true, false, Option, none, some, List, [], ◌∷◌, ◌++◌, arith,
  ltb, ◌==◌, if◌then◌else◌, All, All-append, Bool-cases, inl, inr, append_assoc,
}
use ssh_arena.OrderBook.Types.{Order}
use ssh_arena.OrderBook.Ladder.{Half, Ladder, before, level, put, add_resting, sort_insert}
use ssh_arena.OrderBook.Ladder.Prices.{
  elem, AllAfter, Sorted, All-elem, before_irrefl, before-asym, sort-append, sort_insert-Sorted,
  elem-sort_insert, AllAfter-trans,
}
use ssh_arena.OrderBook.Ladder.Contents.{
  Rests, IsLevel, IsValid, queue, orders, contains-elem, OrdersAfter, queue-after, level-Rests,
}
use ssh_arena.OrderBook.Ladder.Updates.{
  splice, splice_absent, queue-put, filled-put, put-IsLevel, closed-put,
}

-- Insertion in price-time priority.
abbrev pub enqueue : Half → Order → List Order → List Order
enqueue h o [] = o ∷ []
enqueue h o (x ∷ xs) = if before h o.price x.price then o ∷ x ∷ xs else x ∷ enqueue h o xs

enqueue-front :
    (h : Half) (o : Order) (xs : List Order) → OrdersAfter h o.price xs → enqueue h o xs ≡ o ∷ xs
enqueue-front h o [] a = refl
enqueue-front h o (x ∷ xs) a = rw (a.0)

-- The orders that `o` waits for.
abbrev NotAfter : Half → ℕ → List Order → Type 0
NotAfter h p = All (λ x. before h p x.price ≡ false)

enqueue-append :
    (h : Half) (o : Order) (xs ys : List Order)
    → NotAfter h o.price xs
    → enqueue h o (xs ++ ys) ≡ xs ++ enqueue h o ys
enqueue-append h o [] ys a = refl
enqueue-append h o (x ∷ xs) ys a = rw (a.0) (ap (◌∷◌ x) (enqueue-append h o xs ys a.1))

Rests-NotAfter :
    (h : Half) (p q : ℕ) (os : List Order)
    → before h p q ≡ false
    → All (Rests h q) os
    → NotAfter h p os
Rests-NotAfter h p q [] b r = tt
Rests-NotAfter h p q (o ∷ os) b r = (rw (r.0.priced) b, Rests-NotAfter h p q os b r.1)

module _ (h : Half) (m : ℕ → Option (List Order)) (o : Order) where
  -- At a price that is there already, the order joins the end of its level.
  splice-enqueue :
      (ps : List ℕ)
      → Sorted h ps
      → elem o.price ps ≡ true
      → All (λ q. IsLevel h q (m q)) ps
      → splice m o.price (level m o.price ++ o ∷ []) ps ≡ enqueue h o (queue m ps)
  splice-enqueue [] s e f = cc
  splice-enqueue (q ∷ ps) s e f = elim (Bool-cases (q == o.price)) [
    | inl hit ↦
        let same : o.price ≡ q = ground arith in
        let later : AllAfter h o.price ps = subst (λ x. AllAfter h x ps) (sym same) s.0 in
        let fits : All (Rests h q) (level m q) = level-Rests h q m f.0 in
        let equal : before h o.price q ≡ false =
          subst (λ x. before h o.price x ≡ false) same (before_irrefl h o.price) in
        rw
          (
            hit,
            splice_absent h m o.price (level m o.price ++ o ∷ []) ps later,
            enqueue-append h o (level m q) (queue m ps)
                (Rests-NotAfter h o.price q (level m q) equal fits),
            enqueue-front h o (queue m ps) (queue-after h m o.price ps later f.1),
          )
          (subst (λ x. (level m x ++ o ∷ []) ++ queue m ps ≡ level m q ++ (o ∷ queue m ps))
            (sym same) (append_assoc (level m q) (o ∷ []) (queue m ps)))
    | inr miss ↦
        let here : elem o.price ps ≡ true = ground arith in
        let earlier : before h q o.price ≡ true =
          All-elem (λ x. before h q x ≡ true) o.price ps s.0 here in
        rw
          (
            miss,
            enqueue-append h o (level m q) (queue m ps) (
                Rests-NotAfter h o.price q (level m q) (before-asym h q o.price earlier)
                  (level-Rests h q m f.0)),
          )
          (ap (◌++◌ (level m q)) (splice-enqueue ps s.1 here f.1))
  ]

  -- At a new price, it is the only order of a level in the right place.
  insert-enqueue :
      (ps : List ℕ)
      → Sorted h ps
      → elem o.price ps ≡ false
      → All (λ q. IsLevel h q (m q)) ps
      → splice m o.price (o ∷ []) (sort_insert h o.price ps) ≡ enqueue h o (queue m ps)
  unfolding sort_insert
  insert-enqueue [] s e f = ground arith
  insert-enqueue (q ∷ ps) s e f = elim (Bool-cases (q == o.price)) [
    | inl hit ↦ ground arith
    | inr miss ↦ elim (Bool-cases (before h o.price q)) [
      | inl first ↦
          let later : AllAfter h o.price (q ∷ ps) =
            (first, AllAfter-trans h o.price q ps first s.0) in
          rw
            (
              first,
              splice_absent h m o.price (o ∷ []) (q ∷ ps) later,
              enqueue-front h o (queue m (q ∷ ps)) (queue-after h m o.price (q ∷ ps) later f),
            )
            (ground arith)
      | inr behind ↦
          rw
            (
              behind,
              miss,
              enqueue-append h o (level m q) (queue m ps)
                  (Rests-NotAfter h o.price q (level m q) behind (level-Rests h q m f.0)),
            )
            (ap (◌++◌ (level m q)) (insert-enqueue ps s.1 (ground arith) f.1))
    ]
  ]

-- A map without the price of the order is a map with an empty level there.
level-none : (m : ℕ → Option (List Order)) (p : ℕ) → m p ≡ none → level m p ≡ []
level-none m p e = rw (level, e)

put_self : (m : ℕ → Option (List Order)) (p : ℕ) (os : List Order) → put m p os p ≡ some os
put_self m p os = ground arith

filled_insert :
    (h : Half) (m : ℕ → Option (List Order)) (p : ℕ) (os : List Order) (ps : List ℕ)
    → IsLevel h p (some os)
    → All (λ q. IsLevel h q (m q)) ps
    → All (λ q. IsLevel h q (put m p os q)) (sort_insert h p ps)
unfolding sort_insert
filled_insert h m p os [] g f = (rw (put_self m p os) g, tt)
filled_insert h m p os (q ∷ ps) g f = elim (Bool-cases (before h p q)) [
  | inl first ↦ rw first (rw (put_self m p os) g, filled-put h m p os (q ∷ ps) g f)
  | inr later ↦ rw later (put-IsLevel h m p q os g f.0, filled_insert h m p os ps g f.1)
]

closed_insert :
    (h : Half) (m : ℕ → Option (List Order)) (p : ℕ) (os : List Order) (ps : List ℕ)
    → ((q : ℕ) → elem q ps ≡ false → m q ≡ none)
    → (q : ℕ) → elem q (sort_insert h p ps) ≡ false
    → put m p os q ≡ none
closed_insert h m p os ps c q e = elim (Bool-cases (q == p)) [
  | inl hit ↦ ground (arith, elem-sort_insert h p q ps)
  | inr miss ↦ rw (miss, put) (c q (ground (arith, elem-sort_insert h p q ps)))
]

IsLevel-snoc :
    (h : Half) (p : ℕ) (xs : List Order) (o : Order)
    → All (Rests h p) xs
    → Rests h p o
    → IsLevel h p (some (xs ++ o ∷ []))
IsLevel-snoc h p [] o a r = (r, tt)
IsLevel-snoc h p (x ∷ xs) o a r = (a.0, All-append _ xs (o ∷ []) a.1 (r, tt))

module _ (h : Half) (l : Ladder) (o : Order) (v : IsValid h l) (fits : Rests h o.price o) where
  remains : ltb 0 o.remaining_quantity ≡ true
  remains = let r = fits.remains in ground arith

  add_resting_old :
      elem o.price l.prices ≡ true
      → add_resting h l o ≡ record {
        levels = put l.levels o.price (level l.levels o.price ++ o ∷ []);
        prices = l.prices;
      }
  unfolding add_resting
  add_resting_old e = rw (remains, contains-elem h l o.price v, e)

  add_resting_new :
      elem o.price l.prices ≡ false
      → add_resting h l o
        ≡ record { levels = put l.levels o.price (o ∷ []); prices = sort_insert h o.price l.prices }
  unfolding add_resting
  add_resting_new e = rw (
    remains,
    contains-elem h l o.price v,
    e,
    sort-append h o.price l.prices v.sorted e,
    level-none l.levels o.price (v.closed o.price e),
  )

  -- On a well-formed half, adding an order that fits it puts the order into the half's queue by price
  -- and then time: behind every order of a better or equal price, before the others.
  pub orders-add_resting : orders (add_resting h l o) ≡ enqueue h o (orders l)
  orders-add_resting = elim (Bool-cases (elem o.price l.prices)) [
    | inl here ↦ rw (add_resting_old here) (
        queue-put l.levels o.price (level l.levels o.price ++ o ∷ []) l.prices
        ∙ splice-enqueue h l.levels o l.prices v.sorted here v.filled)
    | inr gone ↦ rw (add_resting_new gone) (
        queue-put l.levels o.price (o ∷ []) (sort_insert h o.price l.prices)
        ∙ insert-enqueue h l.levels o l.prices v.sorted gone v.filled)
  ]

  pub add_resting-IsValid : IsValid h (add_resting h l o)
  add_resting-IsValid = elim (Bool-cases (elem o.price l.prices)) [
    | inl here ↦ rw (add_resting_old here) (record {
      sorted = v.sorted;
      filled = filled-put h l.levels o.price _ l.prices (snoc here) v.filled;
      closed = closed-put l.levels o.price _ l.prices here v.closed;
    })
    | inr gone ↦ rw (add_resting_new gone) (record {
      sorted = sort_insert-Sorted h o.price l.prices gone v.sorted;
      filled = filled_insert h l.levels o.price (o ∷ []) l.prices (fits, tt) v.filled;
      closed = closed_insert h l.levels o.price (o ∷ []) l.prices v.closed;
    })
  ]
    where
      snoc :
          elem o.price l.prices ≡ true → IsLevel h o.price (some (level l.levels o.price ++ o ∷ []))
      snoc here =
          IsLevel-snoc h o.price (level l.levels o.price) o
            (level-Rests h o.price l.levels
              (All-elem (λ q. IsLevel h q (l.levels q)) o.price l.prices v.filled here))
            fits
