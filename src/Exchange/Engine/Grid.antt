-- ===== src/Exchange/Engine/Grid.antt =====
-- Every price that the engine sets is a positive multiple of the ticker's tick.
use ssh_arena.Prelude.{
  ℕ, ◌<◌, ◌≡◌, sym, subst, String, Bool, true, false, not, ◌||◌, List, leb, if_true, if_either,
  if_cases, ◌⊎◌, inl, inr, arith,
}
use ssh_arena.Prelude.Int.{ℤ, pos, eqb_ℤ, is_positive}
use ssh_arena.Prelude.Float.{Float, IsFloat, round_to_int}
use ssh_arena.OrderBook.Types.{Trade, Snapshot}
use ssh_arena.Exchange.Flows.{align_to_tick, settle_tick}
use ssh_arena.Exchange.Flows.Ticks.{OnTick, settle_tick-OnTick}
use ssh_arena.Exchange.Engine.{Ticker, MarketState, prune_expired, active_bias}
use ssh_arena.Exchange.Engine.Moves.{
  moved_price, start_price, unmoved, drifted, drift_step, drift, refresh, apply_to, shock_to,
  zero_F,
}

-- A ticker whose initial price is on its grid.
pub record IsListed (cfg : Ticker) (t : ℕ) : Type 0 where
  pub tick : cfg.tick_size ≡ pos t
  pub positive : 0 < t
  pub initial : OnTick t cfg.initial_price

-- A state whose price is on the grid.
unfoldable pub OnGrid : {F : Type 0} → ℕ → MarketState F → Type 0
OnGrid t s = OnTick t s.price.current_price

last_test : (a b c d e : Bool) → (a || b || c || d || not e) ≡ false → e ≡ true
last_test a b c d e h = ground arith

module _ {F : Type 0} ⦃f : Float F⦄ (law : IsFloat F) (cfg : Ticker) (t : ℕ)
    (listed : IsListed cfg t) where
  settled : (x : F) → OnTick t (settle_tick (round_to_int x) cfg.tick_size)
  settled x =
      subst (λ k. OnTick t (settle_tick (round_to_int x) k)) (sym listed.tick)
        (settle_tick-OnTick (round_to_int x) t listed.positive (law.in_range _))

  aligned :
      (x : F)
      → is_positive (align_to_tick (round_to_int x) cfg.tick_size) ≡ true
      → OnTick t (align_to_tick (round_to_int x) cfg.tick_size)
  unfolding settle_tick
  aligned x up = subst (OnTick t) (if_true _ _ up) (settled x)

  start-OnGrid :
      (symbol : String) (now : ℕ) (s : MarketState F) → OnGrid t (start_price cfg symbol now s)
  unfolding OnGrid start_price
  start-OnGrid symbol now s = listed.initial

  drifted-OnGrid :
      (symbol : String) (now : ℕ) (s : MarketState F) (step : F)
      → is_positive (moved_price cfg s.price.current_price step) ≡ true
      → OnGrid t (drifted cfg symbol now s step (moved_price cfg s.price.current_price step))
  unfolding OnGrid moved_price drifted
  drifted-OnGrid symbol now s step up = aligned _ up

  moved_test :
      (now : ℕ) (s : MarketState F) (bias step : F) (next : ℤ)
      → unmoved s now bias step next ≡ false
      → is_positive next ≡ true
  unfolding unmoved
  moved_test now s bias step next e =
      last_test (leb now s.price.updated_at) (f.equal bias zero_F) (f.equal step zero_F)
        (eqb_ℤ next s.price.current_price) _ e

  drift-OnGrid :
      (symbol : String) (now : ℕ) (s : MarketState F)
      → OnGrid t s
      → OnGrid t (drift cfg symbol now s)
  unfolding drift
  drift-OnGrid symbol now s h =
      let bias = active_bias s now in
      let step = drift_step s bias now in
      let next = moved_price cfg s.price.current_price step in
      if_cases (OnGrid {F = F} t) (unmoved s now bias step next) s
        (drifted cfg symbol now s step next) (λ kept. h)
        (λ moved. drifted-OnGrid symbol now s step (moved_test now s bias step next moved))

  pruned-OnGrid : (now : ℕ) (s : MarketState F) → OnGrid t s → OnGrid t (prune_expired s now)
  unfolding OnGrid prune_expired
  pruned-OnGrid now s h = h

  pub refresh-OnGrid :
      (symbol : String) (now : ℕ) (s : MarketState F)
      → OnGrid t s ⊎ (eqb_ℤ s.price.current_price (pos 0) ≡ true)
      → OnGrid t (refresh cfg symbol now s)
  unfolding refresh prune_expired
  refresh-OnGrid symbol now s (inl h) =
      if_either (OnGrid {F = F} t) (eqb_ℤ s.price.current_price (pos 0)) _ _
        (start-OnGrid symbol now (prune_expired s now))
        (drift-OnGrid symbol now (prune_expired s now) (pruned-OnGrid now s h))
  refresh-OnGrid symbol now s (inr e) =
      subst (OnGrid t) (sym (if_true _ _ e)) (start-OnGrid symbol now (prune_expired s now))

  pub apply_to-OnGrid :
      (symbol : String) (now : ℕ) (trades : List Trade) (book : Snapshot) (s : MarketState F)
      → OnGrid t (apply_to cfg symbol now trades book s)
  unfolding OnGrid apply_to
  apply_to-OnGrid symbol now trades book s = settled _

  pub shock_to-OnGrid :
      (symbol : String) (now : ℕ) (pct : ℤ) (duration : ℕ) (s : MarketState F)
      → OnGrid t (shock_to cfg symbol now pct duration s)
  unfolding OnGrid shock_to prune_expired
  shock_to-OnGrid symbol now pct duration s = settled _
