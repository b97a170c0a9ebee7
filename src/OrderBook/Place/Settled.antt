-- ===== src/OrderBook/Place/Settled.antt =====
-- The end of `place`: the book and the result that the `switch` after the loop leaves.
use ssh_arena.Prelude.{◌+◌, ◌≡◌, refl, ap, ◌∙◌, Bool, true, false, none, some, if◌then◌else◌}
use ssh_arena.OrderBook.Types.{Order, Side}
use ssh_arena.OrderBook.Ladder.{Half, Ladder, add_resting}
use ssh_arena.OrderBook.Ladder.Contents.{side_of}
use ssh_arena.OrderBook.Place.{
  Book, Matching, ladder, set_ladder, opposing, own_half, is_supported, final_status,
  normalize_order, rests, book_add_resting, settle,
}
use ssh_arena.OrderBook.Place.Round.{other}

pub opposing-own : (s : Side) (h : Half) → opposing s ≡ some h → own_half s ≡ some (other h)
opposing-own Side.buy Half.asks e = refl
opposing-own Side.buy Half.bids e = cc
opposing-own Side.sell Half.bids e = refl
opposing-own Side.sell Half.asks e = cc
opposing-own Side.unsupported h e = cc

pub opposing-side_of : (s : Side) (h : Half) → opposing s ≡ some h → s ≡ side_of (other h)
opposing-side_of Side.buy Half.asks e = refl
opposing-side_of Side.buy Half.bids e = cc
opposing-side_of Side.sell Half.bids e = refl
opposing-side_of Side.sell Half.asks e = cc
opposing-side_of Side.unsupported h e = cc

pub supported-opposing : (s : Side) → is_supported s ≡ true → (h : Half) × (opposing s ≡ some h)
supported-opposing Side.buy e = (Half.asks, refl)
supported-opposing Side.sell e = (Half.bids, refl)
supported-opposing Side.unsupported e = cc

pub normalize_order-normalize_order :
    (o : Order) → normalize_order (normalize_order o) ≡ normalize_order o
unfolding normalize_order final_status
normalize_order-normalize_order o = refl

abbrev pub put_back : Half → Bool → Book → Ladder → Book
put_back k t b l =
    let c = if t then set_ladder k b l else b in record c { sequence = c.sequence + 1 }

pub put_back_hit :
    (h : Half) (t : Bool) (b : Book) (l : Ladder) → ladder h (put_back (other h) t b l) ≡ ladder h b
put_back_hit Half.bids true b l = refl
put_back_hit Half.bids false b l = refl
put_back_hit Half.asks true b l = refl
put_back_hit Half.asks false b l = refl

put_back_own :
    (k : Half) (t : Bool) (b : Book) (l : Ladder)
    → ladder k (put_back k t b l) ≡ (if t then l else ladder k b)
put_back_own Half.bids true b l = refl
put_back_own Half.bids false b l = refl
put_back_own Half.asks true b l = refl
put_back_own Half.asks false b l = refl

pub put_back_counters :
    (k : Half) (t : Bool) (b : Book) (l : Ladder)
    → ((put_back k t b l).last_trade_price ≡ b.last_trade_price)
      × ((put_back k t b l).sequence ≡ b.sequence + 1)
      × ((put_back k t b l).symbol ≡ b.symbol)
put_back_counters Half.bids true b l = (refl, refl, refl)
put_back_counters Half.bids false b l = (refl, refl, refl)
put_back_counters Half.asks true b l = (refl, refl, refl)
put_back_counters Half.asks false b l = (refl, refl, refl)

module _ (h : Half) (m : Matching) (own : own_half m.order.side ≡ some (other h)) where
  pub settled_book :
      (settle m).0
      ≡ put_back
          (other h)
          (rests (normalize_order m.order))
          m.book
          (add_resting (other h) (ladder (other h) m.book) (normalize_order m.order))
  unfolding settle book_add_resting normalize_order
  settled_book = rw (settle, book_add_resting, own)

  pub settled_hit : ladder h (settle m).0 ≡ ladder h m.book
  settled_hit = ap (ladder h) settled_book ∙ put_back_hit h _ m.book _

  pub settled_own : ladder (other h) (settle m).0 ≡ (
      if rests (normalize_order m.order)
      then add_resting (other h) (ladder (other h) m.book) (normalize_order m.order)
      else ladder (other h) m.book)
  settled_own = ap (ladder (other h)) settled_book ∙ put_back_own (other h) _ m.book _

pub settled_result :
    (m : Matching)
    → (settle m).1 ≡ record {
      order = normalize_order m.order;
      trades = m.trades;
      resting = if rests (normalize_order m.order) then some (normalize_order m.order) else none;
      removed = m.removed;
    }
unfolding settle normalize_order final_status
settled_result m = refl

pub settled_resting :
    (m : Matching)
    → (settle m).1.resting ≡ (if rests (settle m).1.order then some (settle m).1.order else none)
unfolding settle normalize_order final_status
settled_resting m = refl
