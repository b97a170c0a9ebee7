-- ===== src/Prelude/Int/Laws.antt =====
-- How int64 arithmetic undoes itself, and where it is exact.
use Prim.Native.Nat.{ℕ, ◌+◌, ◌*◌, ◌^◌, ◌<◌, ◌≤◌, ◌-◌}
use mathlib.Core.Path.{◌≡◌, ap, ◌∙◌}
use native.Mathlib.Omega.{arith}
use ssh_arena.Prelude.Int.{
  ℤ, pos, negsuc, ◌+ℤ◌, ◌-ℤ◌, ◌*ℤ◌, wrap64, wrap64_lem, add64, sub64, mul64, sub_clamped,
}

-- Adding and then taking away what was added gives the first number back, also when the sum
-- wraps around.
pub sub_clamped-add64 : (m : ℕ) (n : ℤ) → m < 2 ^ 63 → sub_clamped (add64 (pos m) n) n ≡ pos m
unfolding sub_clamped wrap64 ◌+ℤ◌ ◌-ℤ◌
sub_clamped-add64 m (pos k) h = ground arith
sub_clamped-add64 m (negsuc k) h = ground arith

*ℤ_pos : (a b : ℕ) → pos a *ℤ pos b ≡ pos (a * b)
unfolding ◌*ℤ◌
*ℤ_pos a b = ground arith

pub mul64_exact : (a b : ℕ) → a * b < 2 ^ 63 → mul64 (pos a) (pos b) ≡ pos (a * b)
mul64_exact a b h = ap (λ x. wrap64 x) (*ℤ_pos a b) ∙ wrap64_lem (pos (a * b)) (h, omega arith)

pub add64_exact : (a b : ℕ) → a + b < 2 ^ 63 → add64 (pos a) (pos b) ≡ pos (a + b)
unfolding ◌+ℤ◌ wrap64
add64_exact a b h = ground arith

-- Taking away and then adding the same gives the first number back, also when it wraps around.
pub add64-sub64 : (m : ℕ) (n : ℤ) → m < 2 ^ 63 → add64 (sub64 (pos m) n) n ≡ pos m
unfolding wrap64 ◌+ℤ◌ ◌-ℤ◌
add64-sub64 m (pos k) h = ground arith
add64-sub64 m (negsuc k) h = ground arith

pub sub64_exact : (a b : ℕ) → b ≤ a → a < 2 ^ 63 → sub64 (pos a) (pos b) ≡ pos (a - b)
unfolding ◌-ℤ◌
sub64_exact a b below fits =
    let exact : (pos a -ℤ pos b) ≡ pos (a - b) = ground arith in
    ap wrap64 exact ∙ wrap64_lem (pos (a - b)) (omega arith, omega arith)
