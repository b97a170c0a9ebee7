-- ===== src/Gameplay/Fees/Rounding.antt =====
-- How `bpsCharge` rounds.
use ssh_arena.Prelude.{ℕ, ◌+◌, ◌*◌, ◌/◌, ◌^◌, ◌≤◌, ◌<◌, ◌≡◌, ap, ◌∙◌, arith, Bool}
use ssh_arena.Prelude.Int.{pos, add64, mul64, div64, is_positive}
use ssh_arena.Prelude.Int.Laws.{mul64_exact, add64_exact}
use ssh_arena.Gameplay.Fees.{bps_charge}

pub IsRoundedUp : ℕ → ℕ → Type 0
IsRoundedUp x c = (x ≤ c * 10000) × (c * 10000 < x + 10000)

rounded_up : (x : ℕ) → IsRoundedUp x ((x + 9999) / 10000)
unfolding IsRoundedUp
rounded_up x = (omega arith, omega arith)

charge_exact :
    (a b : ℕ)
    → 0 < a
    → 0 < b
    → a * b + 9999 < 2 ^ 63
    → bps_charge (pos a) (pos b) ≡ pos ((a * b + 9999) / 10000)
unfolding bps_charge div64
charge_exact a b pa pb fits =
    let total : add64 (mul64 (pos a) (pos b)) (pos 9999) ≡ pos (a * b + 9999) =
      ap (λ x. add64 x (pos 9999)) (mul64_exact a b (omega arith))
      ∙ add64_exact (a * b) 9999 fits in
    let positive_a : is_positive (pos a) ≡ Bool.true = ground arith in
    let positive_b : is_positive (pos b) ≡ Bool.true = ground arith in
    rw (positive_a, positive_b, total)

-- A charge on a positive amount is the amount times its basis points, over ten thousand, rounded
-- up, as long as the product and the rounding stay below 2 ^ 63.
pub bps_charge-IsRoundedUp :
    (a b : ℕ)
    → 0 < a
    → 0 < b
    → a * b + 9999 < 2 ^ 63
    → (c : ℕ) × (bps_charge (pos a) (pos b) ≡ pos c) × IsRoundedUp (a * b) c
bps_charge-IsRoundedUp a b pa pb fits =
    ((a * b + 9999) / 10000, charge_exact a b pa pb fits, rounded_up (a * b))
