-- ===== src/OrderBook/Cancel/Removal.antt =====
-- `cancel` removes the first order with the id from the queue of one half, and nothing else.
use ssh_arena.Prelude.{
  ℕ, ◌+◌, ◌≡◌, refl, ◌∙◌, subst, String, true, false, Option, none, some, List, [], ◌∷◌, ◌++◌,
  arith, ◌==◌, All, Bool-cases, Option-cases, ◌⊎◌, inl, inr,
}
use ssh_arena.Prelude.Text.{str_eq}
use ssh_arena.Prelude.Outcome.{ok, err}
use ssh_arena.OrderBook.Types.{Order, order_not_found}
use ssh_arena.OrderBook.Ladder.{Half, Ladder, level, set_level, before}
use ssh_arena.OrderBook.Ladder.Prices.{elem, AllAfter, Sorted, All-elem, before-ne}
use ssh_arena.OrderBook.Ladder.Contents.{Rests, IsLevel, queue, orders, level-Rests}
use ssh_arena.OrderBook.Ladder.Contents as Contents
use ssh_arena.OrderBook.Ladder.Updates.{splice, splice_absent, orders-set_level, set_level-IsValid}
use ssh_arena.OrderBook.Place.{Book, ladder}
use ssh_arena.OrderBook.Place.Round.{other}
use ssh_arena.OrderBook.Place.Outcomes.{IsValid}
use ssh_arena.OrderBook.Cancel.{take_out, cancel_scan, cancel, as_cancelled}

take_out-append_none :
    (id : String) (xs ys : List Order)
    → take_out id xs ≡ none
    → take_out id ys ≡ none
    → take_out id (xs ++ ys) ≡ none
unfolding take_out
take_out-append_none id [] ys e f = f
take_out-append_none id (x ∷ xs) ys e f = ground (arith, take_out-append_none id xs ys)

take_out-append_left :
    (id : String) (xs ys : List Order) (o : Order) (rest : List Order)
    → take_out id xs ≡ some (o, rest)
    → take_out id (xs ++ ys) ≡ some (o, rest ++ ys)
unfolding take_out
take_out-append_left id [] ys o rest e = cc
take_out-append_left id (x ∷ xs) ys o rest e = elim (Option-cases (take_out id xs)) [
  | inl gone ↦ ground arith
  | inr ((y, r), found) ↦ ground (arith, take_out-append_left id xs ys y r found)
]

take_out-append_right :
    (id : String) (xs ys : List Order) (o : Order) (rest : List Order)
    → take_out id xs ≡ none
    → take_out id ys ≡ some (o, rest)
    → take_out id (xs ++ ys) ≡ some (o, xs ++ rest)
unfolding take_out
take_out-append_right id [] ys o rest e f = f
take_out-append_right id (x ∷ xs) ys o rest e f = elim (Option-cases (take_out id xs)) [
  | inl gone ↦ ground (arith, take_out-append_right id xs ys o rest gone f)
  | inr ((y, r), found) ↦ ground arith
]

take_out-All :
    (P : Order → Type 0) (id : String) (xs : List Order) (o : Order) (rest : List Order)
    → All P xs
    → take_out id xs ≡ some (o, rest)
    → All P rest
unfolding take_out
take_out-All P id [] o rest a e = cc
take_out-All P id (x ∷ xs) o rest a e = elim (Bool-cases (str_eq x.id id)) [
  | inl hit ↦ let s : xs ≡ rest = ground arith in subst (All P) s a.1
  | inr miss ↦ elim (Option-cases (take_out id xs)) [
    | inl gone ↦ absurd (ground arith)
    | inr ((y, r), found) ↦
        let s : x ∷ r ≡ rest = ground arith in
        subst (All P) s (a.0, take_out-All P id xs y r a.1 found)
  ]
]

-- What a scan of the prices `ps` finds, told of the queue: nothing, or the level to replace.
abbrev Scans : Half → String → Ladder → List ℕ → Type 0
Scans h id l ps =
    ((cancel_scan id l ps ≡ none) × (take_out id (queue l.levels ps) ≡ none))
    ⊎ ((o : Order) × (p : ℕ) × (os : List Order) × (cancel_scan id l ps
          ≡ some (o, set_level l p os))
        × (take_out id (queue l.levels ps) ≡ some (o, splice l.levels p os ps))
        × (elem p ps ≡ true)
        × All (Rests h p) os)

module _ (h : Half) (id : String) (l : Ladder) where
  scan_miss :
      (p : ℕ) (ps : List ℕ)
      → AllAfter h p ps
      → take_out id (level l.levels p) ≡ none
      → Scans h id l ps
      → Scans h id l (p ∷ ps)
  unfolding cancel_scan
  scan_miss p ps a e (inl (none_found, absent)) = inl (
    rw (e, cancel_scan) none_found,
    take_out-append_none id (level l.levels p) (queue l.levels ps) e absent,
  )
  scan_miss p ps a e (inr (o, q, os, found, out, here, fits)) =
      let apart : (p == q) ≡ false =
        before-ne h p q (All-elem (λ x. before h p x ≡ true) q ps a here) in
      inr (
        o,
        q,
        os,
        rw (e, cancel_scan) found,
        rw apart (
            take_out-append_right id (level l.levels p) (queue l.levels ps) o
              (splice l.levels q os ps) e out),
        rw apart here,
        fits,
      )

  scan_hit :
      (p : ℕ) (ps : List ℕ) (o : Order) (os : List Order)
      → AllAfter h p ps
      → IsLevel h p (l.levels p)
      → take_out id (level l.levels p) ≡ some (o, os)
      → Scans h id l (p ∷ ps)
  unfolding cancel_scan
  scan_hit p ps o os a f e = inr (
    o,
    p,
    os,
    rw (e, cancel_scan),
    take_out-append_left id (level l.levels p) (queue l.levels ps) o os e ∙ same_splice,
    here,
    take_out-All (Rests h p) id (level l.levels p) o os (level-Rests h p l.levels f) e,
  )
    where
      here : elem p (p ∷ ps) ≡ true
      here = ground arith

      same_splice :
          ◌≡◌ {A = Option (Order × List Order)}
            (some (o, os ++ queue l.levels ps))
            (some (o, splice l.levels p os (p ∷ ps)))
      same_splice = ground (arith, splice_absent h l.levels p os ps a)

  scan : (ps : List ℕ) → Sorted h ps → All (λ p. IsLevel h p (l.levels p)) ps → Scans h id l ps
  unfolding cancel_scan take_out
  scan [] s f = inl (refl, refl)
  scan (p ∷ ps) s f = elim (Option-cases (take_out id (level l.levels p))) [
    | inl gone ↦ scan_miss p ps s.0 gone (scan ps s.1 f.1)
    | inr ((o, os), found) ↦ scan_hit p ps o os s.0 f.0 found
  ]

  -- The scan of a whole half: it takes the first order with the id out of the queue.
  pub cancel_scan-take_out :
      Contents.IsValid h l
      → ((cancel_scan id l l.prices ≡ none) × (take_out id (orders l) ≡ none))
        ⊎ ((o : Order) × (k : Ladder) × (cancel_scan id l l.prices ≡ some (o, k))
            × (take_out id (orders l) ≡ some (o, orders k))
            × Contents.IsValid h k)
  cancel_scan-take_out v = elim (scan l.prices v.sorted v.filled) [
    | inl absent ↦ inl absent
    | inr (o, p, os, found, out, here, fits) ↦ inr (
      o,
      set_level l p os,
      found,
      rw (orders-set_level h l p os v.sorted) out,
      set_level-IsValid h l p os v here fits,
    )
  ]

-- A cancellation: the half that held the order, and the orders that stay there.
pub record Cancelled (h : Half) (id : String) (b : Book) (x : Order) (b' : Book) : Type 0 where
  pub original : Order
  pub taken : take_out id (orders (ladder h b)) ≡ some (original, orders (ladder h b'))
  pub answered : x ≡ as_cancelled original
  pub untouched : ladder (other h) b' ≡ ladder (other h) b
  pub counted : b'.sequence ≡ b.sequence + 1
  pub valid : IsValid b'

-- On a well-formed book, `cancel` fails and there is no order with the id in either half, or it takes
-- out the first such order of a half, and only that one.
pub cancel-Cancelled :
    (b : Book) (id : String)
    → IsValid b
    → ((cancel b id ≡ err order_not_found)
        × (take_out id (orders b.bids) ≡ none)
        × (take_out id (orders b.asks) ≡ none))
      ⊎ ((h : Half) × (x : Order) × (b' : Book) × (cancel b id ≡ ok (x, b'))
          × Cancelled h id b x b')
unfolding cancel
cancel-Cancelled b id v = elim (cancel_scan-take_out Half.bids id b.bids v.bids_valid) [
  | inr (o, k, found, out, well) ↦ inr (
    Half.bids,
    as_cancelled o,
    record b { bids = k; sequence = b.sequence + 1 },
    rw (cancel, found),
    record {
      original = o;
      taken = out;
      answered = refl;
      untouched = refl;
      counted = refl;
      valid = record { bids_valid = well; asks_valid = v.asks_valid };
    },
  )
  | inl (no_bid, not_bid) ↦ elim (cancel_scan-take_out Half.asks id b.asks v.asks_valid) [
    | inr (o, k, found, out, well) ↦ inr (
      Half.asks,
      as_cancelled o,
      record b { asks = k; sequence = b.sequence + 1 },
      rw (cancel, no_bid, found),
      record {
        original = o;
        taken = out;
        answered = refl;
        untouched = refl;
        counted = refl;
        valid = record { bids_valid = v.bids_valid; asks_valid = well };
      },
    )
    | inl (no_ask, not_ask) ↦ inl (rw (cancel, no_bid, no_ask), not_bid, not_ask)
  ]
]
