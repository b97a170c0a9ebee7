-- ===== src/OrderBook/Place/Fuel.antt =====
-- The matching loop ends, and what it gives does not depend on the fuel.
use ssh_arena.Prelude.{
  ℕ, zero, suc, ◌+◌, ◌≤◌, ◌<◌, ◌≡◌, subst, Bool, true, false, ◌&&◌, some, leb, ltb, Bool-cases, inl,
  inr, arith,
}
use ssh_arena.Prelude.Outcome.{Outcome, ok, err, ◌>>=◌}
use ssh_arena.OrderBook.Types.{BookError}
use ssh_arena.OrderBook.Ladder.{Half}
use ssh_arena.OrderBook.Ladder.Contents.{IsValid}
use ssh_arena.OrderBook.Place.{
  Matching, match_loop, best_opposing_order, execute, can_cross, opposing, ladder,
}
use ssh_arena.OrderBook.Place.Refine.{match_loop-Matched}

bind_keeps :
    {A B : Type 0} (o : Outcome BookError A) (k l : A → Outcome BookError B) (b : B)
    → ((a : A) → k a ≡ ok b → l a ≡ ok b)
    → (o >>= k) ≡ ok b
    → (o >>= l) ≡ ok b
bind_keeps (ok a) k l b keep h = keep a h
bind_keeps (err e) k l b keep h = h

-- One round, and then the loop as `next`.
abbrev round_with :
    ℕ → Matching → (Matching → Outcome BookError Matching) → Bool → Outcome BookError Matching
round_with now m next more = elim more [
  | false ↦ ok m
  | true ↦ do r ← best_opposing_order m.book m.order.side; m' ← execute now m r; next m'
]

round_keeps :
    (now : ℕ) (m m' : Matching) (k l : Matching → Outcome BookError Matching) (more : Bool)
    → ((n : Matching) → k n ≡ ok m' → l n ≡ ok m')
    → round_with now m k more ≡ ok m'
    → round_with now m l more ≡ ok m'
round_keeps now m m' k l false keep h = h
round_keeps now m m' k l true keep h =
    bind_keeps (best_opposing_order m.book m.order.side) _ _ m'
      (λ r e. bind_keeps (execute now m r) k l m' keep e) h

-- One more unit of fuel changes no result.
match_loop_keeps :
    (fuel now : ℕ) (m m' : Matching)
    → match_loop fuel now m ≡ ok m'
    → match_loop (suc fuel) now m ≡ ok m'
unfolding match_loop
match_loop_keeps zero now m m' h = cc
match_loop_keeps (suc fuel) now m m' h =
    round_keeps now m m' (match_loop fuel now) (match_loop (suc fuel) now)
      (ltb 0 m.order.remaining_quantity && can_cross m.book m.order)
      (λ n e. match_loop_keeps fuel now n m' e) h

match_loop_from :
    (fuel now : ℕ) (m m' : Matching)
    → match_loop fuel now m ≡ ok m'
    → (more : ℕ) → fuel ≤ more
    → match_loop more now m ≡ ok m'
match_loop_from fuel now m m' h zero below =
    subst (λ n. match_loop n now m ≡ ok m') (omega (arith, below)) h
match_loop_from fuel now m m' h (suc more) below = elim (Bool-cases (leb fuel more)) [
  | inl e ↦
      match_loop_keeps more now m m' (match_loop_from fuel now m m' h more (ground (arith, e)))
  | inr e ↦ subst (λ n. match_loop n now m ≡ ok m') (ground (arith, e, below)) h
]

-- On a well-formed half the loop ends without an error, with one and the same result, for any two
-- amounts of fuel above the quantity that is left of the order.
pub match_loop_terminates :
    (h : Half) (now fuel other : ℕ) (m : Matching)
    → opposing m.order.side ≡ some h
    → IsValid h (ladder h m.book)
    → m.order.remaining_quantity < fuel
    → m.order.remaining_quantity < other
    → (m' : Matching) × (match_loop fuel now m ≡ ok m') × (match_loop other now m ≡ ok m')
match_loop_terminates h now fuel other m faces v lt lt' =
    let enough = m.order.remaining_quantity + 1 in
    let found = match_loop-Matched h now enough m faces v (omega arith) in
    (
      found.0,
      match_loop_from enough now m found.0 found.1 fuel (omega (arith, lt)),
      match_loop_from enough now m found.0 found.1 other (omega (arith, lt')),
    )
