-- ===== src/Gameplay/Accounts/Reserving.antt =====
-- What a reservation sets aside, and that releasing it undoes it.
use ssh_arena.Prelude.{
  ℕ, ◌^◌, ◌<◌, ◌≡◌, refl, sym, ap, ◌∙◌, String, false, Option, Bool-cases, if_true, if_false, inl,
  inr, ◌⊎◌, arith,
}
use ssh_arena.Prelude.Int.{ℤ, pos, add64, sub64, ltb_ℤ, ◌≤ℤ◌, sub_clamped}
use ssh_arena.Prelude.Int.Laws.{sub_clamped-add64}
use ssh_arena.Prelude.Text.{str_eq, assign, eq_iff, str_eq_refl}
use ssh_arena.Prelude.Outcome.{Outcome, ok, err, ◌>>=◌}
use ssh_arena.OrderBook.Types.{Side, OrderType}
use ssh_arena.State.Player.{Player}
use ssh_arena.Gameplay.Accounts.{
  GameError, Reservation, quote, cash_needed, reserve_cash, reserve_stock, reserve_for_incoming,
  release_cash, release_stock, release_incoming_reservation, insufficient_cash, insufficient_stock,
  unsupported_side,
}

-- A reserved amount is an int64 that is not negative.
abbrev pub IsAmount : ℤ → Type 0
IsAmount a = (m : ℕ) × (a ≡ pos m) × (m < 2 ^ 63)

-- The same balances, holdings and reservations.
pub record SameAccount (p q : Player) : Type 0 where
  pub cash : p.cash ≡ q.cash
  pub reserved_cash : p.reserved_cash ≡ q.reserved_cash
  pub portfolio : (s : String) → p.portfolio s ≡ q.portfolio s
  pub reserved_stocks : (s : String) → p.reserved_stocks s ≡ q.reserved_stocks s

undo : (a n : ℤ) → IsAmount a → sub_clamped (add64 a n) n ≡ a
undo a n (m, e, fits) = ap (λ x. sub_clamped (add64 x n) n) e ∙ sub_clamped-add64 m n fits ∙ sym e

undo_assign :
    (m : String → ℤ) (k : String) (n : ℤ) (j : String)
    → IsAmount (m k)
    → let raised = assign m k (add64 (m k) n) in assign raised k (sub_clamped (raised k) n) j ≡ m j
undo_assign m k n j h = elim (Bool-cases (str_eq j k)) [
  | inr e ↦ if_false _ _ e ∙ if_false _ _ e
  | inl e ↦
      let same : j ≡ k = ground (arith, eq_iff j k, e) in
      let here = str_eq_refl k in rw (e, here) (undo (m k) n h ∙ ap m (sym same))
]

-- What was set aside was free before: cash for a buy, shares for a sale.
pub IsCovered : Side → String → Player → Reservation → Type 0
IsCovered Side.buy symbol p r = r.cash ≤ℤ sub64 p.cash p.reserved_cash
IsCovered Side.sell symbol p r = r.quantity ≤ℤ sub64 (p.portfolio symbol) (p.reserved_stocks symbol)
IsCovered Side.unsupported symbol p r = ⊥

unfoldable pub Answer : Side → String → Player → Outcome GameError Reservation → Type 0
Answer side symbol p o =
    ((x : GameError) × (o ≡ err x))
    ⊎ ((r : Reservation) × (o ≡ ok r)
        × IsCovered side symbol p r
        × SameAccount (release_incoming_reservation symbol side r.cash r.quantity r.player) p)

pub covers : (a b : ℤ) → ltb_ℤ a b ≡ false → b ≤ℤ a
covers a b h = ground (arith, h)

reserve_cash-Answer :
    (symbol : String) (p : Player) (need : ℤ)
    → IsAmount p.reserved_cash
    → Answer Side.buy symbol p (reserve_cash p need)
unfolding Answer IsCovered reserve_cash release_incoming_reservation release_cash
reserve_cash-Answer symbol p need h =
    elim (Bool-cases (ltb_ℤ (sub64 p.cash p.reserved_cash) need)) [
      | inl e ↦ inl (insufficient_cash, if_true _ _ e)
      | inr e ↦ inr (
        record {
          player = record p { reserved_cash = add64 p.reserved_cash need };
          cash = need;
          quantity = pos 0;
        },
        if_false _ _ e,
        covers (sub64 p.cash p.reserved_cash) need e,
        record {
          cash = refl;
          reserved_cash = undo p.reserved_cash need h;
          portfolio = λ s. refl;
          reserved_stocks = λ s. refl;
        },
      )
    ]

reserve_stock-Answer :
    (symbol : String) (p : Player) (qty : ℤ)
    → IsAmount (p.reserved_stocks symbol)
    → Answer Side.sell symbol p (reserve_stock p symbol qty)
unfolding Answer IsCovered reserve_stock release_incoming_reservation release_stock
reserve_stock-Answer symbol p qty h =
    let free = sub64 (p.portfolio symbol) (p.reserved_stocks symbol) in
    elim (Bool-cases (ltb_ℤ free qty)) [
      | inl e ↦ inl (insufficient_stock, if_true _ _ e)
      | inr e ↦ inr (
        record {
          player = record p {
            reserved_stocks =
                assign p.reserved_stocks symbol (add64 (p.reserved_stocks symbol) qty);
          };
          cash = pos 0;
          quantity = qty;
        },
        if_false _ _ e,
        covers free qty e,
        record {
          cash = refl;
          reserved_cash = refl;
          portfolio = λ s. refl;
          reserved_stocks = λ s. undo_assign p.reserved_stocks symbol qty s h;
        },
      )
    ]

quoted-Answer :
    (symbol : String) (p : Player) (kind : OrderType) (qty : ℤ) (price : Outcome GameError ℤ)
    → IsAmount p.reserved_cash
    → Answer Side.buy symbol p
        (price >>= λ reserve_price. reserve_cash p (cash_needed kind reserve_price qty))
unfolding Answer
quoted-Answer symbol p kind qty (ok price) h =
    reserve_cash-Answer symbol p (cash_needed kind price qty) h
quoted-Answer symbol p kind qty (err x) h = inl (x, refl)

-- Where the reserved amounts are int64 values that are not negative, a reservation for an order
-- either fails, or it sets aside what was free before, and releasing what it says it has set
-- aside, as is done when the market refuses the order, gives the account back as it was.
pub reserve_for_incoming-Answer :
    (quoted : Option ℤ) (p : Player) (symbol : String) (side : Side) (kind : OrderType)
    (price qty : ℤ)
    → IsAmount p.reserved_cash
    → IsAmount (p.reserved_stocks symbol)
    → Answer side symbol p (reserve_for_incoming quoted p symbol side kind price qty)
unfolding reserve_for_incoming
reserve_for_incoming-Answer quoted p symbol Side.buy kind price qty hc hs =
    quoted-Answer symbol p kind qty (quote quoted price) hc
reserve_for_incoming-Answer quoted p symbol Side.sell kind price qty hc hs =
    reserve_stock-Answer symbol p qty hs
reserve_for_incoming-Answer quoted p symbol Side.unsupported kind price qty hc hs =
    unfold Answer in inl (unsupported_side, refl)
