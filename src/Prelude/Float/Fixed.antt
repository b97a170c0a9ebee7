-- ===== src/Prelude/Float/Fixed.antt =====
-- Decimal numbers with four places: a number type to run the definitions on.
use Prim.Native.Nat.{ℕ, zero, suc, ◌+◌, ◌*◌, ◌/◌, ◌^◌}
use native.Mathlib.Omega.{arith}
use native.Mathlib.Nat.{mod-lt}
use ssh_arena.Prelude.Tests.{leb, if◌then◌else◌}
use ssh_arena.Prelude.Int.{
  ℤ, pos, negsuc, pos_part, neg_part, sub_ℕ, ◌+ℤ◌, ◌-ℤ◌, ◌*ℤ◌, ltb_ℤ, eqb_ℤ, div64, wrap64,
  InRange64,
}
use ssh_arena.Prelude.Float.{Float, IsFloat}

-- The number of ten-thousandths.
pub record Fixed : Type 0 where
  pub units : ℤ

fixed : ℤ → Fixed
fixed z = record { units = z }

-- Division rounds towards zero, and by zero gives zero.
divide : ℤ → ℤ → ℤ
divide a (pos zero) = pos 0
divide a (pos (suc d)) = div64 a (suc d)
divide a (negsuc d) = pos 0 -ℤ div64 a (suc d)

magnitude : ℤ → ℤ
magnitude a = pos (pos_part a + neg_part a)

root : ℕ → ℕ
root zero = zero
root (suc n) = let r = root n in if leb ((r + 1) * (r + 1)) (suc n) then r + 1 else r

nearest : ℤ → ℤ
nearest a =
    let up = (pos_part a + neg_part a + 5000) / 10000 * 10000 in
    if ltb_ℤ a (pos 0) then sub_ℕ 0 up else pos up

power : ℕ → ℤ → ℤ
power zero a = pos 10000
power (suc n) a = div64 (a *ℤ power n a) 10000

-- Powers with a whole exponent.
raise : ℤ → ℤ → ℤ
unfolding power divide
raise a e =
    let up = power ((pos_part e + neg_part e) / 10000) a in
    if ltb_ℤ e (pos 0) then divide (pos 100_000_000) up else up

in_range64 : (a : ℤ) → InRange64 (wrap64 a)
unfolding wrap64
in_range64 a = grind (arith, mod-lt)

instance unfoldable pub fixed_float : Float Fixed
unfolding fixed divide magnitude root nearest raise
fixed_float = record {
  of_int = λ z. fixed (z *ℤ pos 10000);
  decimal = λ n k. fixed (pos (n * 10000 / 10 ^ k));
  neg = λ a. fixed (pos 0 -ℤ a.units);
  add = λ a b. fixed (a.units +ℤ b.units);
  sub = λ a b. fixed (a.units -ℤ b.units);
  mul = λ a b. fixed (div64 (a.units *ℤ b.units) 10000);
  div = λ a b. fixed (divide (a.units *ℤ pos 10000) b.units);
  less = λ a b. ltb_ℤ a.units b.units;
  equal = λ a b. eqb_ℤ a.units b.units;
  abs = λ a. fixed (magnitude a.units);
  sqrt = λ a. fixed (pos (root (pos_part a.units * 10000)));
  pow = λ a b. fixed (raise a.units b.units);
  least = λ a b. if ltb_ℤ b.units a.units then b else a;
  greatest = λ a b. if ltb_ℤ a.units b.units then b else a;
  round = λ a. fixed (nearest a.units);
  to_int = λ a. wrap64 (div64 a.units 10000);
  seconds = λ n. fixed (pos (n / 100000));
}

pub fixed-IsFloat : IsFloat Fixed
unfolding fixed_float
fixed-IsFloat = record {
  in_range = λ x. in_range64 _;
  less_irrefl = λ x. ground arith;
  less_asym = λ x y e. ground (arith, e);
  equal_sym = λ x y. ground arith;
}
