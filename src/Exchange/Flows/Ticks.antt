-- ===== src/Exchange/Flows/Ticks.antt =====
-- Prices stay on the grid of their ticker.
use ssh_arena.Prelude.{
  ℕ, suc, zero, ◌*◌, ◌/◌, ◌^◌, ◌≤◌, ◌<◌, ◌≡◌, refl, ap, ◌∙◌, true, false, Bool-cases, if_true,
  if_false, inl, inr, arith,
}
use native.Mathlib.Nat.{div-add-mod', mod-lt}
use ssh_arena.Prelude.Int.{ℤ, pos, negsuc, div64, ltb_ℤ, is_positive, InRange64}
use ssh_arena.Prelude.Int.Laws.{mul64_exact}
use ssh_arena.Exchange.Flows.{align_to_tick, settle_tick}

-- A positive multiple of the tick.
unfoldable pub OnTick : ℕ → ℤ → Type 0
OnTick t a = (k : ℕ) × (a ≡ pos (suc k * t))

align_low : (raw : ℤ) (t : ℕ) → 0 < t → ltb_ℤ raw (pos t) ≡ true → align_to_tick raw (pos t) ≡ pos t
unfolding align_to_tick
align_low raw t pt low =
    let positive : is_positive (pos t) ≡ true = ground arith in
    if_true _ _ positive ∙ if_true _ _ low

align_high :
    (r t : ℕ)
    → 0 < t
    → r < 2 ^ 63
    → ltb_ℤ (pos r) (pos t) ≡ false
    → align_to_tick (pos r) (pos t) ≡ pos (r / t * t)
unfolding align_to_tick div64
align_high r t pt fits high =
    let positive : is_positive (pos t) ≡ true = ground arith in
    let below : r / t * t < 2 ^ 63 = omega (arith, div-add-mod' r t) in
    if_true _ _ positive ∙ if_false _ _ high ∙ mul64_exact (r / t) t below

settle_positive :
    (raw : ℤ) (t m : ℕ)
    → 0 < m
    → align_to_tick raw (pos t) ≡ pos m
    → settle_tick raw (pos t) ≡ pos m
unfolding settle_tick
settle_positive raw t m pm e =
    let positive : is_positive (align_to_tick raw (pos t)) ≡ true =
      ap (λ x. is_positive x) e ∙ ground arith in
    if_true _ _ positive ∙ e

not_small : (r t : ℕ) → 0 < t → t ≤ r → 0 < r / t
not_small r t pt high = ground (arith, mod-lt r pt, div-add-mod' r t, ap (λ x. x * t))

positive_product : (k t : ℕ) → 0 < t → 0 < suc k * t
positive_product k t pt = ground arith

high-Multiple :
    (q r t : ℕ)
    → r / t ≡ q
    → 0 < q
    → 0 < t
    → r < 2 ^ 63
    → ltb_ℤ (pos r) (pos t) ≡ false
    → OnTick t (settle_tick (pos r) (pos t))
unfolding OnTick
high-Multiple zero r t e pq pt fits high = ground (arith, pq)
high-Multiple (suc k) r t e pq pt fits high = (
  k,
  settle_positive (pos r) t (suc k * t) (positive_product k t pt)
      (align_high r t pt fits high ∙ ap (λ x. pos (x * t)) e),
)

settle_high :
    (raw : ℤ) (t : ℕ)
    → 0 < t
    → InRange64 raw
    → ltb_ℤ raw (pos t) ≡ false
    → OnTick t (settle_tick raw (pos t))
settle_high (negsuc n) t pt fits high = ground (arith, high)
settle_high (pos r) t pt fits high =
    high-Multiple (r / t) r t refl (not_small r t pt (ground (arith, high))) pt fits.0 high

-- The price that is settled on is a positive multiple of the tick, whatever the estimate was,
-- for a positive tick and an estimate that is an int64 value.
pub settle_tick-OnTick :
    (raw : ℤ) (t : ℕ) → 0 < t → InRange64 raw → OnTick t (settle_tick raw (pos t))
unfolding OnTick
settle_tick-OnTick raw t pt fits = elim (Bool-cases (ltb_ℤ raw (pos t))) [
  | inl low ↦
      (0, settle_positive raw t t pt (align_low raw t pt low) ∙ ap (λ x. pos x) (omega arith))
  | inr high ↦ settle_high raw t pt fits high
]
