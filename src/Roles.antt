-- ===== src/Roles.antt =====
-- internal/roles/role_assignment.go: the role, cash and holdings of a new player. The random
-- generator is a parameter, with its state passed along.
use ssh_arena.Prelude.{
  ℕ, zero, suc, ◌+◌, ◌-◌, ◌/◌, String, Bool, true, false, not, ◌&&◌, Option, none, some, List, [],
  ◌∷◌, ltb, leb, ◌==◌, if◌then◌else◌,
}
use ssh_arena.Prelude.Int.{ℤ, pos, add64, sub64, div64, ltb_ℤ, is_positive, is_negative, max64}
use ssh_arena.Prelude.Text.{str_eq, sort_texts}
use ssh_arena.Prelude.Float.{Float, ◌+F◌, ◌-F◌, ◌*F◌, ◌/F◌, round_to_int}
use ssh_arena.State.Player.{Stats}
pub mod Dealing
mod Tests

pub data Role : Type 0 where
  buyer holder whale : Role

-- `float64` and `intn` of a generator, each with the generator afterwards.
pub record Random (F R : Type 0) : Type 0 where
  pub float64 : R → F × R
  pub intn : ℕ → R → ℕ × R

pub record Profile : Type 0 where
  pub cash : ℤ
  pub base_holdings : String → ℤ
  pub variance_pct : ℤ

pub record Config : Type 0 where
  pub buyer_profile : Profile
  pub holder_profile : Profile
  pub whale_profile : Profile

pub record Assignment : Type 0 where
  pub role : Role
  pub cash : ℤ
  pub holdings : List (String × ℤ)

unfoldable pub profile_for : Config → Role → Profile
profile_for c Role.buyer = c.buyer_profile
profile_for c Role.holder = c.holder_profile
profile_for c Role.whale = c.whale_profile

unfoldable pub holding_base : Profile → String → ℤ
holding_base p symbol =
    let value = p.base_holdings symbol in if is_positive value then value else p.base_holdings "*"

unfoldable pub base_total : Profile → List String → ℤ
unfolding holding_base
base_total p [] = pos 0
base_total p (s ∷ ss) = add64 (base_total p ss) (holding_base p s)

-- The switch of `pickRole` after the whales: `even` is the answer of `Intn(2) == 0`.
unfoldable pub balanced_role : ℕ → ℕ → Bool → Role
balanced_role buyers holders even =
    if leb (holders + 2) buyers
    then Role.holder
    else if leb (buyers + 2) holders
    then Role.buyer
    else if even
    then Role.buyer
    else Role.holder

-- The last loop of `randomizedHoldings`: shares in turn, the rest to the last symbol.
unfoldable pub deal : List (String × ℤ) → ℤ → List (String × ℤ)
deal [] remaining = []
deal ((s, share) ∷ []) remaining = (s, max64 (pos 0) remaining) ∷ []
deal ((s, share) ∷ (t, next) ∷ rest) remaining =
    let given = if is_negative share then pos 0 else share in
    (s, given) ∷ deal ((t, next) ∷ rest) (sub64 remaining given)

module _ {F R : Type 0} ⦃f : Float F⦄ (g : Random F R) where
  abbrev zero_F : F
  zero_F = f.of_int (pos 0)

  -- `a.rng.Float64()*2 - 1`.
  abbrev jitter_of : F → F
  jitter_of x = x *F f.of_int (pos 2) -F f.of_int (pos 1)

  unfoldable pub whale_ratio : Stats → F
  whale_ratio s =
      let total = s.buyers + s.holders + s.whales in
      if ltb 0 total then f.of_int (pos s.whales) /F f.of_int (pos total) else zero_F

  -- `Intn(2)` is asked only where the counts do not decide.
  unfoldable pub pick_common : Stats → R → Role × R
  unfolding balanced_role
  pick_common s r =
      let asked = g.intn 2 r in
      let undecided = ltb s.buyers (s.holders + 2) && ltb s.holders (s.buyers + 2) in
      (balanced_role s.buyers s.holders (asked.0 == 0), if undecided then asked.1 else r)

  -- `pickRole`.
  unfoldable pub pick_role : Stats → R → Role × R
  unfolding whale_ratio pick_common
  pick_role s r =
      let drawn = g.float64 r in
      if f.less (whale_ratio s) (f.decimal 10 2)
      then (if f.less drawn.0 (f.decimal 10 2)
          then (Role.whale, drawn.1)
          else pick_common s drawn.1)
      else pick_common s r

  unfoldable pub budget_of : ℤ → ℤ → F → ℤ
  budget_of base variance_pct x =
      let spread = f.of_int base *F (f.of_int variance_pct /F f.of_int (pos 100)) in
      let value = f.of_int base +F jitter_of x *F spread in
      round_to_int (if f.less value zero_F then zero_F else value)

  unfoldable pub randomized_budget : ℤ → ℤ → R → ℤ × R
  unfolding budget_of
  randomized_budget base variance_pct r =
      if is_positive base
      then (budget_of base variance_pct (g.float64 r).0, (g.float64 r).1)
      else (pos 0, r)

  -- `maxFloat(0.08, variance/200)`.
  abbrev spread_of : Profile → F
  spread_of p =
      let variance = f.of_int p.variance_pct /F f.of_int (pos 200) in
      if f.less variance (f.decimal 8 2) then f.decimal 8 2 else variance

  unfoldable pub weight_of : Profile → String → F → F
  unfolding holding_base
  weight_of p symbol x =
      f.of_int (max64 (pos 1) (holding_base p symbol))
      *F (f.of_int (pos 1) +F jitter_of x *F spread_of p)

  -- The weights of the symbols in turn, their sum, and the generator.
  unfoldable pub weigh : Profile → List String → F → R → List (String × F) × F × R
  unfolding weight_of
  weigh p [] sum r = ([], sum, r)
  weigh p (s ∷ ss) sum r =
      let w = weight_of p s (g.float64 r).0 in
      let rest = weigh p ss (sum +F w) (g.float64 r).1 in ((s, w) ∷ rest.0, rest.1, rest.2)

  unfoldable pub shares_of : ℤ → F → List (String × F) → List (String × ℤ)
  shares_of target sum [] = []
  shares_of target sum ((s, w) ∷ ws) =
      (s, round_to_int ((w /F sum) *F f.of_int target)) ∷ shares_of target sum ws

  unfoldable pub deal_weighted : ℤ → List (String × F) × F × R → List (String × ℤ) × R
  unfolding shares_of deal
  deal_weighted target w = (
    deal (shares_of target (if f.equal w.1 zero_F then f.of_int (pos 1) else w.1) w.0) target,
    w.2,
  )

  -- `randomizedHoldings` on the sorted symbols.
  unfoldable pub holdings_for : Profile → List String → ℤ → R → List (String × ℤ) × R
  unfolding randomized_budget weigh deal_weighted
  holdings_for p symbols total r =
      let drawn = randomized_budget total (max64 (pos 4) (div64 p.variance_pct 2)) r in
      let target = if is_positive drawn.0 then drawn.0 else total in
      deal_weighted target (weigh p symbols zero_F drawn.1)

  unfoldable pub randomized_holdings : Profile → List String → R → List (String × ℤ) × R
  unfolding base_total holdings_for
  randomized_holdings p symbols r =
      let sorted = sort_texts symbols in
      let total = base_total p sorted in
      if is_positive total then holdings_for p sorted total r else ([], r)

  -- `Assign`.
  unfoldable pub assign_role : Config → Stats → List String → R → Assignment × R
  unfolding pick_role profile_for randomized_budget randomized_holdings
  assign_role c s symbols r =
      let picked = pick_role s r in
      let profile = profile_for c picked.0 in
      let budget = randomized_budget profile.cash profile.variance_pct picked.1 in
      let dealt = randomized_holdings profile symbols budget.1 in
      (record { role = picked.0; cash = budget.0; holdings = dealt.0 }, dealt.1)
