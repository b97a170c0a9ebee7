-- ===== src/OrderBook/Place/Outcomes.antt =====
-- `place` as a whole: a well-formed book, and what an accepted order does to it.
use ssh_arena.Prelude.{
  ℕ, suc, ◌<◌, ◌≡◌, refl, sym, ap, ◌∙◌, subst, true, false, none, some, [], if◌then◌else◌, arith,
  Bool-cases, inl, inr,
}
use ssh_arena.Prelude.Outcome.{ok}
use ssh_arena.OrderBook.Types.{Order, is_market}
use ssh_arena.OrderBook.Ladder.{Half}
use ssh_arena.OrderBook.Ladder.Contents.{Rests, side_of, orders}
use ssh_arena.OrderBook.Ladder.Contents as Contents
use ssh_arena.OrderBook.Ladder.Resting.{enqueue, orders-add_resting, add_resting-IsValid}
use ssh_arena.OrderBook.Place.{
  Book, Matching, PlacementResult, ladder, opposing, own_half, is_supported, validate, prepare,
  normalize_order, rests, settle, place,
}
use ssh_arena.OrderBook.Place.Sweep.{Progress, sweep}
use ssh_arena.OrderBook.Place.Round.{other, progress}
use ssh_arena.OrderBook.Place.Refine.{Matched, match_loop-Matched}
use ssh_arena.OrderBook.Place.Settled.{
  opposing-own, opposing-side_of, put_back_counters, settled_book, settled_hit, settled_own,
  settled_result, settled_resting,
}
use ssh_arena.OrderBook.Place.Totals.{SameOrder, sweep-SameOrder}

-- The halves are well formed.
pub record IsValid (b : Book) : Type 0 where
  pub bids_valid : Contents.IsValid Half.bids b.bids
  pub asks_valid : Contents.IsValid Half.asks b.asks

pub ladder-IsValid : (h : Half) (b : Book) → IsValid b → Contents.IsValid h (ladder h b)
ladder-IsValid Half.bids b v = v.bids_valid
ladder-IsValid Half.asks b v = v.asks_valid

-- What `validate` has found of an order that it lets pass.
pub record IsAccepted (o : Order) : Type 0 where
  pub counted : 0 < o.quantity
  pub supported : is_supported o.side ≡ true
  pub priced : is_market o.kind ≡ false → 0 < o.price

pub validate-IsAccepted : (o : Order) → validate o ≡ ok tt → IsAccepted o
unfolding validate
validate-IsAccepted o e = ground arith

-- The start of the matching loop.
abbrev pub start : ℕ → Book → Order → Progress
start now b o = record {
  order = prepare now o;
  trades = [];
  removed = [];
  last_trade_price = b.last_trade_price;
  sequence = b.sequence;
}

-- What `place` promises, in terms of queues: the incoming order sweeps the opposing queue, and
-- what is left of a limit order is queued behind its own side's equal and better prices.
pub record Placed (h : Half) (now : ℕ) (b : Book) (o : Order) (b' : Book) (r : PlacementResult)
    : Type 0 where
  pub opposite : orders (ladder h b') ≡ (sweep h now (start now b o) (orders (ladder h b))).1
  pub order_done :
      r.order ≡ normalize_order (sweep h now (start now b o) (orders (ladder h b))).0.order
  pub traded : r.trades ≡ (sweep h now (start now b o) (orders (ladder h b))).0.trades
  pub removed : r.removed ≡ (sweep h now (start now b o) (orders (ladder h b))).0.removed
  pub resting : r.resting ≡ (if rests r.order then some r.order else none)
  pub own : orders (ladder (other h) b') ≡ (
      if rests r.order
      then enqueue (other h) r.order (orders (ladder (other h) b))
      else orders (ladder (other h) b))
  pub priced :
      b'.last_trade_price ≡ (sweep h now (start now b o) (orders (ladder h b))).0.last_trade_price
  pub hit_valid : Contents.IsValid h (ladder h b')
  pub own_valid : Contents.IsValid (other h) (ladder (other h) b')

-- An order of an accepted kind that is not filled and not a market order may rest.
normalized-Rests :
    (k : Half) (o x : Order)
    → IsAccepted o
    → o.side ≡ side_of k
    → SameOrder o x
    → rests (normalize_order x) ≡ true
    → Rests k (normalize_order x).price (normalize_order x)
unfolding normalize_order
normalized-Rests k o x a s e t = record {
  priced = refl;
  positive = rw (ap (λ y. y.price) e) (a.priced (sym (ap (λ y. is_market y.kind) e) ∙ limited));
  remains = ground arith;
  sided = ap (λ y. y.side) e ∙ s;
  limited = limited;
}
  where
    limited : is_market x.kind ≡ false
    limited = ground arith

prepare-IsAccepted : (now : ℕ) (o : Order) → IsAccepted o → IsAccepted (prepare now o)
unfolding prepare
prepare-IsAccepted now o a = record {
  counted = a.counted;
  supported = a.supported;
  priced = a.priced;
}

module _ (h : Half) (now : ℕ) (b : Book) (o : Order) (v : IsValid b)
    (faces : opposing o.side ≡ some h) (sided : o.side ≡ side_of (other h)) (a : IsAccepted o)
    (m : Matching)
    (d : Matched h now
      (record { book = b; order = prepare now o; trades = []; removed = [] })
      m) where
  begin : Progress
  begin = start now b o

  swept : (progress m, orders (ladder h m.book)) ≡ sweep h now begin (orders (ladder h b))
  unfolding progress begin
  swept = d.swept

  reached : progress m ≡ (sweep h now begin (orders (ladder h b))).0
  reached = ap (λ t. t.0) swept

  order_reached : m.order ≡ (sweep h now begin (orders (ladder h b))).0.order
  unfolding progress
  order_reached = ap (λ p. p.order) reached

  same : SameOrder (prepare now o) m.order
  unfolding begin
  same = rw order_reached (sweep-SameOrder h now begin (orders (ladder h b)))

  own : own_half m.order.side ≡ some (other h)
  unfolding prepare
  own = ap own_half (ap (λ x. x.side) same) ∙ opposing-own o.side h faces

  other-IsValid : Contents.IsValid (other h) (ladder (other h) m.book)
  other-IsValid =
      subst (Contents.IsValid (other h)) (sym d.untouched) (ladder-IsValid (other h) b v)

  fits :
      rests (normalize_order m.order) ≡ true
      → Rests (other h) (normalize_order m.order).price (normalize_order m.order)
  unfolding prepare
  fits = normalized-Rests (other h) (prepare now o) m.order (prepare-IsAccepted now o a) sided same

  own_orders : orders (ladder (other h) (settle m).0) ≡ (
      if rests (normalize_order m.order)
      then enqueue (other h) (normalize_order m.order) (orders (ladder (other h) b))
      else orders (ladder (other h) b))
  own_orders = elim (Bool-cases (rests (normalize_order m.order))) [
    | inl stays ↦
        rw (settled_own h m own, stays)
          (orders-add_resting (other h) (ladder (other h) m.book) (normalize_order m.order)
              other-IsValid (fits stays)
            ∙ ap (λ l. enqueue (other h) (normalize_order m.order) (orders l)) d.untouched)
    | inr gone ↦ rw (settled_own h m own, gone) (ap orders d.untouched)
  ]

  own_well : Contents.IsValid (other h) (ladder (other h) (settle m).0)
  own_well = elim (Bool-cases (rests (normalize_order m.order))) [
    | inl stays ↦
        rw (settled_own h m own, stays)
          (add_resting-IsValid (other h) (ladder (other h) m.book) (normalize_order m.order)
            other-IsValid (fits stays))
    | inr gone ↦ rw (settled_own h m own, gone) other-IsValid
  ]

  placed : Placed h now b o (settle m).0 (settle m).1
  unfolding progress begin
  placed = record {
    opposite = ap orders (settled_hit h m own) ∙ ap (λ t. t.1) swept;
    order_done = ap (λ r. r.order) (settled_result m) ∙ ap normalize_order order_reached;
    traded = ap (λ r. r.trades) (settled_result m) ∙ ap (λ p. p.trades) reached;
    removed = ap (λ r. r.removed) (settled_result m) ∙ ap (λ p. p.removed) reached;
    resting = settled_resting m;
    own = rw (ap (λ r. r.order) (settled_result m)) own_orders;
    priced =
        ap (λ c. c.last_trade_price) (settled_book h m own)
        ∙ (put_back_counters (other h) _ m.book _).0
        ∙ ap (λ p. p.last_trade_price) reached;
    hit_valid = subst (Contents.IsValid h) (sym (settled_hit h m own)) d.valid;
    own_valid = own_well;
  }

-- On a well-formed book, `place` of an order that `validate` accepts never fails, and its outcome is
-- the one that `sweep` over the opposing queue and `enqueue` into the own queue describe.
pub place-Placed :
    (h : Half) (now : ℕ) (b : Book) (o : Order)
    → IsValid b
    → validate o ≡ ok tt
    → opposing o.side ≡ some h
    → (b' : Book) × (r : PlacementResult) × (place now b o ≡ ok (b', r)) × Placed h now b o b' r
unfolding place
place-Placed h now b o v e faces =
    let (m, run, d) =
      match_loop-Matched h now (suc (prepare now o).remaining_quantity)
        (record { book = b; order = prepare now o; trades = []; removed = [] })
        (unfold prepare in faces) (ladder-IsValid h b v) (omega arith) in
    (
      (settle m).0,
      (settle m).1,
      rw (place, e, run),
      placed h now b o v faces (opposing-side_of o.side h faces) (validate-IsAccepted o e) m d,
    )
