-- ===== src/OrderBook/Place/Promises.antt =====
-- What a client of `place` may rely on, drawn from its refinement of `sweep`.
use ssh_arena.Prelude.{
  ℕ, ◌+◌, ◌≡◌, refl, sym, ap, ◌∙◌, subst, true, false, some, List, [], ◌∷◌, arith, Bool-cases, inl,
  inr, ◌⊎◌, All, All-mono,
}
use ssh_arena.Prelude.Outcome.{Outcome, ok, err}
use ssh_arena.OrderBook.Types.{Order, BookError}
use ssh_arena.OrderBook.Ladder.{Half}
use ssh_arena.OrderBook.Ladder.Contents.{orders}
use ssh_arena.OrderBook.Ladder.Contents as Contents
use ssh_arena.OrderBook.Place.{
  Book, PlacementResult, ladder, opposing, validate, prepare, normalize_order, rests, place,
  reaches,
}
use ssh_arena.OrderBook.Place.Sweep.{sweep}
use ssh_arena.OrderBook.Place.Round.{other}
use ssh_arena.OrderBook.Place.Settled.{supported-opposing}
use ssh_arena.OrderBook.Place.Totals.{
  volume, open_quantity, Accepts, Stopped, sweep-SameTotal, sweep-SameOrder, sweep-Accepts,
  sweep-Stopped, sweep-prices,
}
use ssh_arena.OrderBook.Place.Uncrossed.{Apart, Clear, All-enqueue, Apart-swap, Stopped-Clear}
use ssh_arena.OrderBook.Place.Outcomes.{IsValid, validate-IsAccepted, start, Placed, place-Placed}

Outcome-cases : (x : Outcome BookError (Unit {0})) → (x ≡ ok tt) ⊎ ((e : BookError) × (x ≡ err e))
Outcome-cases (ok u) = inl refl
Outcome-cases (err e) = inr (e, refl)

ok-injective : {A : Type 0} {x y : A} → ◌≡◌ {A = Outcome BookError A} (ok x) (ok y) → x ≡ y
ok-injective e = cc

place-refused :
    (now : ℕ) (b : Book) (o : Order) (x : BookError) → validate o ≡ err x → place now b o ≡ err x
unfolding place
place-refused now b o x bad = rw (place, bad)

-- A successful call is one that `place-Placed` describes.
pub Placed-of_ok :
    (now : ℕ) (b : Book) (o : Order) (b' : Book) (r : PlacementResult)
    → IsValid b
    → place now b o ≡ ok (b', r)
    → (h : Half) × (opposing o.side ≡ some h) × Placed h now b o b' r
Placed-of_ok now b o b' r v e = elim (Outcome-cases (validate o)) [
  | inr (x, bad) ↦ cc (place-refused now b o x bad)
  | inl good ↦
      let (h, faces) = supported-opposing o.side (validate-IsAccepted o good).supported in
      let (c, s, run, d) = place-Placed h now b o v good faces in
      let same : (c, s) ≡ (b', r) = ok-injective (sym run ∙ e) in
      (h, faces, subst (λ t. Placed h now b o t.0 t.1) same d)
]

-- Both halves are well formed, and no bid reaches an ask.
pub record IsSound (b : Book) : Type 0 where
  pub valid : IsValid b
  pub uncrossed : Apart Half.asks (orders b.bids) (orders b.asks)

Apart-halves :
    (h : Half) (b : Book) → IsSound b → Apart h (orders (ladder (other h) b)) (orders (ladder h b))
Apart-halves Half.asks b s = s.uncrossed
Apart-halves Half.bids b s = Apart-swap Half.bids (orders b.asks) (orders b.bids) s.uncrossed

IsSound-of_halves :
    (h : Half) (b : Book)
    → Contents.IsValid h (ladder h b)
    → Contents.IsValid (other h) (ladder (other h) b)
    → Apart h (orders (ladder (other h) b)) (orders (ladder h b))
    → IsSound b
IsSound-of_halves Half.asks b v w a = record {
  valid = record { bids_valid = w; asks_valid = v };
  uncrossed = a;
}
IsSound-of_halves Half.bids b v w a = record {
  valid = record { bids_valid = v; asks_valid = w };
  uncrossed = Apart-swap Half.asks (orders b.bids) (orders b.asks) a;
}

Stopped-normalize :
    (h : Half) (o : Order) (rs : List Order) → Stopped h o rs → Stopped h (normalize_order o) rs
Stopped-normalize h o [] s = tt
Stopped-normalize h o (r ∷ rs) s = unfold normalize_order in s

module _ (h : Half) (now : ℕ) (b : Book) (o : Order) (b' : Book) (r : PlacementResult)
    (d : Placed h now b o b' r) where
  final_queue : List Order
  final_queue = (sweep h now (start now b o) (orders (ladder h b))).1

  stopped : Stopped h r.order (orders (ladder h b'))
  stopped =
      rw (d.opposite, d.order_done)
        (Stopped-normalize h _ _ (sweep-Stopped h now (start now b o) (orders (ladder h b))))

  clear : rests r.order ≡ true → Clear h (orders (ladder h b')) r.order.price
  clear t = Stopped-Clear h (ladder h b') r.order d.hit_valid (ground arith) (ground arith) stopped

  older-Apart :
      Apart h (orders (ladder (other h) b)) (orders (ladder h b))
      → Apart h (orders (ladder (other h) b)) (orders (ladder h b'))
  older-Apart a =
      All-mono _ _ (orders (ladder (other h) b))
        (λ x c. rw d.opposite (
          sweep-prices h now (λ q. reaches h x.price q ≡ false) (start now b o)
            (orders (ladder h b)) c))
        a

  still-Apart :
      Apart h (orders (ladder (other h) b)) (orders (ladder h b))
      → Apart h (orders (ladder (other h) b')) (orders (ladder h b'))
  still-Apart a = elim (Bool-cases (rests r.order)) [
    | inl stays ↦
        rw (d.own, stays)
          (All-enqueue (λ x. Clear h (orders (ladder h b')) x.price) (other h) r.order
            (orders (ladder (other h) b)) (clear stays) (older-Apart a))
    | inr gone ↦ rw (d.own, gone) (older-Apart a)
  ]

  volumes :
      (volume r.trades + r.order.remaining_quantity ≡ (prepare now o).remaining_quantity)
      × (volume r.trades + open_quantity (orders (ladder h b'))
          ≡ open_quantity (orders (ladder h b)))
  unfolding normalize_order
  volumes = omega (
    arith,
    ap volume d.traded,
    ap (λ x. x.remaining_quantity) d.order_done,
    ap open_quantity d.opposite,
    sweep-SameTotal h now (start now b o) (orders (ladder h b)),
  )

  accepted : All (Accepts h o) r.trades
  unfolding prepare
  accepted = subst (All (Accepts h o)) (sym d.traded) (
      All-mono _ (Accepts h o) _
        (λ t c.
          subst (λ x. Accepts h x t) (sweep-SameOrder h now (start now b o) (orders (ladder h b)))
            c)
        (sweep-Accepts h now (start now b o) (orders (ladder h b)) tt))

-- A successful `place` on a sound book leaves it sound: prices sorted, no level empty, every
-- resting order where it belongs, and no bid at or above an ask.
pub place-IsSound :
    (now : ℕ) (b : Book) (o : Order) (b' : Book) (r : PlacementResult)
    → IsSound b
    → place now b o ≡ ok (b', r)
    → IsSound b'
place-IsSound now b o b' r s e =
    let (h, faces, d) = Placed-of_ok now b o b' r s.valid e in
    IsSound-of_halves h b' d.hit_valid d.own_valid
      (still-Apart h now b o b' r d (Apart-halves h b s))

-- After a successful `place` on a well-formed book, the traded volume and what remains of the order
-- add up to what the order came with, and the traded volume and what is open in the opposing half
-- add up to what was open there before.
pub place_conserves :
    (now : ℕ) (b : Book) (o : Order) (b' : Book) (r : PlacementResult)
    → IsValid b
    → place now b o ≡ ok (b', r)
    → (h : Half) × (opposing o.side ≡ some h)
      × (volume r.trades + r.order.remaining_quantity ≡ (prepare now o).remaining_quantity)
      × (volume r.trades + open_quantity (orders (ladder h b'))
          ≡ open_quantity (orders (ladder h b)))
place_conserves now b o b' r v e =
    let (h, faces, d) = Placed-of_ok now b o b' r v e in
    let t = volumes h now b o b' r d in (h, faces, t.0, t.1)

-- Every trade of a successful `place` on a well-formed book is at a price that the order accepts: a
-- limit buy pays no more than its limit, a limit sale gets no less, a market order takes any price.
pub place-Accepts :
    (now : ℕ) (b : Book) (o : Order) (b' : Book) (r : PlacementResult)
    → IsValid b
    → place now b o ≡ ok (b', r)
    → (h : Half) × (opposing o.side ≡ some h) × All (Accepts h o) r.trades
place-Accepts now b o b' r v e =
    let (h, faces, d) = Placed-of_ok now b o b' r v e in (h, faces, accepted h now b o b' r d)

-- After a successful `place` on a well-formed book, matching has not stopped early: either nothing is
-- left of the order, or the best opposing order that stays in the book, if any, is out of its reach.
pub place-Stopped :
    (now : ℕ) (b : Book) (o : Order) (b' : Book) (r : PlacementResult)
    → IsValid b
    → place now b o ≡ ok (b', r)
    → (h : Half) × (opposing o.side ≡ some h) × Stopped h r.order (orders (ladder h b'))
place-Stopped now b o b' r v e =
    let (h, faces, d) = Placed-of_ok now b o b' r v e in (h, faces, stopped h now b o b' r d)
