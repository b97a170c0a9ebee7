-- ===== src/Prelude/Float.antt =====
-- Go's float64 and package math, as far as the program uses them.
use Prim.Native.Nat.{ℕ, ◌+◌, ◌-◌, ◌*◌, ◌/◌, ◌%◌, ◌^◌, ◌≤◌, ◌<◌}
use mathlib.Core.Path.{◌≡◌, refl}
use mathlib.Core.Bool.{Bool, true, false}
use native.Mathlib.Omega.{arith}
use ssh_arena.Prelude.Tests.{ltb, leb, if◌then◌else◌, Bool-cases, if_true, if_false, if_either}
use ssh_arena.Prelude.Int.{ℤ, pos, InRange64}
pub mod Fixed

-- `decimal n k` is the literal n / 10 ^ k, `to_int` the conversion int64(x), `round` math.Round,
-- `seconds` the method of a duration.
pub record Float (F : Type 0) : Type 0 where
  pub of_int : ℤ → F
  pub decimal : ℕ → ℕ → F
  pub neg : F → F
  pub add : F → F → F
  pub sub : F → F → F
  pub mul : F → F → F
  pub div : F → F → F
  pub less : F → F → Bool
  pub equal : F → F → Bool
  pub abs : F → F
  pub sqrt : F → F
  pub pow : F → F → F
  pub least : F → F → F
  pub greatest : F → F → F
  pub round : F → F
  pub to_int : F → ℤ
  pub seconds : ℕ → F

-- What the program relies on: a conversion gives some int64 value, no number is below itself, no
-- two are below each other, and equality is symmetric. All of it holds of NaN as well.
pub record IsFloat (F : Type 0) ⦃f : Float F⦄ : Type 0 where
  pub in_range : (x : F) → InRange64 (f.to_int x)
  pub less_irrefl : (x : F) → f.less x x ≡ false
  pub less_asym : (x y : F) → f.less x y ≡ true → f.less y x ≡ false
  pub equal_sym : (x y : F) → f.equal x y ≡ f.equal y x

module _ {F : Type 0} ⦃f : Float F⦄ where
  infixl 65 ◌+F◌ ◌-F◌
  infixl 70 ◌*F◌ ◌/F◌
  abbrev pub ◌+F◌ : F → F → F
  a +F b = f.add a b

  abbrev pub ◌-F◌ : F → F → F
  a -F b = f.sub a b

  abbrev pub ◌*F◌ : F → F → F
  a *F b = f.mul a b

  abbrev pub ◌/F◌ : F → F → F
  a /F b = f.div a b

  -- `int64(math.Round(x))`.
  abbrev pub round_to_int : F → ℤ
  round_to_int x = f.to_int (f.round x)

  unfoldable pub clamp_float : F → F → F → F
  clamp_float value low high =
      if f.less value low then low else if f.less high value then high else value

  -- What a clamp gives is on neither side of its bounds, not even for a NaN.
  pub clamp_float_within :
      (value low high : F)
      → IsFloat F
      → f.less high low ≡ false
      → (f.less (clamp_float value low high) low ≡ false)
        × (f.less high (clamp_float value low high) ≡ false)
  unfolding clamp_float
  clamp_float_within value low high law apart =
      ground (arith, law.less_irrefl low, law.less_irrefl high)
