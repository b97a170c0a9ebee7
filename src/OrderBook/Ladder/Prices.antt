-- ===== src/OrderBook/Ladder/Prices.antt =====
-- The sorted price slice: membership, order, and what `sort` makes of one appended price.
use ssh_arena.Prelude.{
  ℕ, ◌≡◌, refl, subst, Bool, true, false, List, [], ◌∷◌, ◌++◌, arith, ◌==◌, if◌then◌else◌, All,
  Bool-cases, inl, inr,
}
use ssh_arena.OrderBook.Ladder.{Half, before, sort_insert, sort, remove_price}

abbrev pub elem : ℕ → List ℕ → Bool
elem p [] = false
elem p (q ∷ qs) = if q == p then true else elem p qs

abbrev pub AllAfter : Half → ℕ → List ℕ → Type 0
AllAfter h p = All (λ q. before h p q ≡ true)

-- Best first, and no price twice.
abbrev pub Sorted : Half → List ℕ → Type 0
Sorted h [] = Unit
Sorted h (p ∷ ps) = AllAfter h p ps × Sorted h ps

pub before_trans :
    (h : Half) (a b c : ℕ) → before h a b ≡ true → before h b c ≡ true → before h a c ≡ true
before_trans Half.bids a b c p q = ground arith
before_trans Half.asks a b c p q = ground arith

pub before-ne : (h : Half) (a b : ℕ) → before h a b ≡ true → (a == b) ≡ false
before-ne Half.bids a b p = ground arith
before-ne Half.asks a b p = ground arith

pub before-ne_sym : (h : Half) (a b : ℕ) → before h a b ≡ true → (b == a) ≡ false
before-ne_sym Half.bids a b p = ground arith
before-ne_sym Half.asks a b p = ground arith

pub before-asym : (h : Half) (a b : ℕ) → before h a b ≡ true → before h b a ≡ false
before-asym Half.bids a b p = ground arith
before-asym Half.asks a b p = ground arith

pub before_total :
    (h : Half) (a b : ℕ) → (b == a) ≡ false → before h a b ≡ false → before h b a ≡ true
before_total Half.bids a b n p = ground arith
before_total Half.asks a b n p = ground arith

pub before_irrefl : (h : Half) (a : ℕ) → before h a a ≡ false
before_irrefl Half.bids a = ground arith
before_irrefl Half.asks a = ground arith

pub AllAfter-trans :
    (h : Half) (a b : ℕ) (ps : List ℕ) → before h a b ≡ true → AllAfter h b ps → AllAfter h a ps
AllAfter-trans h a b [] p q = tt
AllAfter-trans h a b (x ∷ ps) p q = (before_trans h a b x p q.0, AllAfter-trans h a b ps p q.1)

pub AllAfter-not_elem : (h : Half) (p : ℕ) (ps : List ℕ) → AllAfter h p ps → elem p ps ≡ false
AllAfter-not_elem h p [] a = refl
AllAfter-not_elem h p (q ∷ ps) a = rw (before-ne_sym h p q a.0) (AllAfter-not_elem h p ps a.1)

-- A property of all prices of a list holds of one that is in it.
pub All-elem {ℓ} : (P : ℕ → Type ℓ) (p : ℕ) (ps : List ℕ) → All P ps → elem p ps ≡ true → P p
All-elem P p [] a e = cc
All-elem P p (x ∷ ps) a e = elim (Bool-cases (x == p)) [
  | inl hit ↦ let same : x ≡ p = ground arith in subst P same a.0
  | inr miss ↦ All-elem P p ps a.1 (ground arith)
]

remove_price-AllAfter :
    (h : Half) (q p : ℕ) (ps : List ℕ) → AllAfter h q ps → AllAfter h q (remove_price ps p)
unfolding remove_price
remove_price-AllAfter h q p [] a = tt
remove_price-AllAfter h q p (x ∷ ps) a = elim (Bool-cases (x == p)) [
  | inl hit ↦ rw hit a.1
  | inr miss ↦ rw miss (a.0, remove_price-AllAfter h q p ps a.1)
]

pub remove_price-Sorted :
    (h : Half) (p : ℕ) (ps : List ℕ) → Sorted h ps → Sorted h (remove_price ps p)
unfolding remove_price
remove_price-Sorted h p [] s = tt
remove_price-Sorted h p (x ∷ ps) s = elim (Bool-cases (x == p)) [
  | inl hit ↦ rw hit s.1
  | inr miss ↦ rw miss (remove_price-AllAfter h x p ps s.0, remove_price-Sorted h p ps s.1)
]

pub elem-remove_price_ne :
    (p q : ℕ) (ps : List ℕ) → (q == p) ≡ false → elem q (remove_price ps p) ≡ elem q ps
unfolding remove_price
elem-remove_price_ne p q [] n = refl
elem-remove_price_ne p q (x ∷ ps) n = ground (arith, elem-remove_price_ne p q ps n)

sort_insert-AllAfter :
    (h : Half) (q p : ℕ) (ps : List ℕ)
    → before h q p ≡ true
    → AllAfter h q ps
    → AllAfter h q (sort_insert h p ps)
unfolding sort_insert
sort_insert-AllAfter h q p [] b a = (b, tt)
sort_insert-AllAfter h q p (x ∷ ps) b a = elim (Bool-cases (before h p x)) [
  | inl first ↦ rw first (b, a)
  | inr later ↦ rw later (a.0, sort_insert-AllAfter h q p ps b a.1)
]

sort_insert-front : (h : Half) (p : ℕ) (ps : List ℕ) → AllAfter h p ps → sort_insert h p ps ≡ p ∷ ps
unfolding sort_insert
sort_insert-front h p [] a = refl
sort_insert-front h p (x ∷ ps) a = rw a.0

pub sort_insert-Sorted :
    (h : Half) (p : ℕ) (ps : List ℕ)
    → elem p ps ≡ false
    → Sorted h ps
    → Sorted h (sort_insert h p ps)
unfolding sort_insert
sort_insert-Sorted h p [] e s = (tt, tt)
sort_insert-Sorted h p (x ∷ ps) e s = elim (Bool-cases (x == p)) [
  | inl hit ↦ ground arith
  | inr miss ↦ elim (Bool-cases (before h p x)) [
    | inl first ↦ rw first ((first, AllAfter-trans h p x ps first s.0), s)
    | inr later ↦ rw later (
      sort_insert-AllAfter h x p ps (before_total h p x miss later) s.0,
      sort_insert-Sorted h p ps (ground arith) s.1,
    )
  ]
]

pub elem-sort_insert :
    (h : Half) (p q : ℕ) (ps : List ℕ)
    → elem q (sort_insert h p ps) ≡ (if p == q then true else elem q ps)
unfolding sort_insert
elem-sort_insert h p q [] = refl
elem-sort_insert h p q (x ∷ ps) = elim (Bool-cases (before h p x)) [
  | inl first ↦ rw first
  | inr later ↦ rw (later, elem-sort_insert h p q ps) (ground arith)
]

-- Sorting a sorted slice with one new price at its end puts that price in its place.
pub sort-append :
    (h : Half) (p : ℕ) (ps : List ℕ)
    → Sorted h ps
    → elem p ps ≡ false
    → sort h (ps ++ p ∷ []) ≡ sort_insert h p ps
unfolding sort
sort-append h p [] s e = refl
sort-append h p (x ∷ ps) s e = elim (Bool-cases (x == p)) [
  | inl hit ↦ ground arith
  | inr miss ↦ rw (sort-append h p ps s.1 (ground arith)) (elim (Bool-cases (before h p x)) [
    | inl first ↦ rw (
      sort_insert-front h p ps (AllAfter-trans h p x ps first s.0),
      first,
      before-asym h p x first,
      sort_insert-front h x ps s.0,
    )
    | inr later ↦ rw later (
        sort_insert-front h x (sort_insert h p ps)
          (sort_insert-AllAfter h x p ps (before_total h p x miss later) s.0))
  ])
]
