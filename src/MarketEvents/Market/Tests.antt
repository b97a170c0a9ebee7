-- ===== src/MarketEvents/Market/Tests.antt =====
-- Instances of the theorems on market events, with definitions that are read.
use ssh_arena.Prelude.{
  ℕ, ◌≡◌, refl, ap, sym, subst, ◌∙◌, String, Bool, false, Option, none, some, List, [], ◌∷◌, All,
  arith,
}
use ssh_arena.Prelude.Int.{ℤ, pos, wrap64, div64, ◌*ℤ◌, ◌+ℤ◌}
use ssh_arena.Prelude.Outcome.{ok}
use ssh_arena.Prelude.Float.{◌*F◌}
use ssh_arena.Prelude.Float.Fixed.{Fixed, fixed_float, fixed-IsFloat}
use ssh_arena.Prelude.Runes.{scan_int, trim_space}
use ssh_arena.Exchange.Flows.Ticks.{OnTick}
use ssh_arena.Exchange.Engine.Grid.{IsListed}
use ssh_arena.Exchange.Engine.{Ticker}
use ssh_arena.Exchange.Service.{Market}
use ssh_arena.Exchange.Service.Events.{open_market}
use ssh_arena.Exchange.Service.Listed.Opening.{open_market-IsListing}
use ssh_arena.MarketEvents.{Definition, Engine}
use ssh_arena.MarketEvents.Catalogue.{
  Source, Prepared, zero_F, total_from, choose_definition, new_engine,
}
use ssh_arena.MarketEvents.Catalogue.Chosen.{Choice, choose_definition-Choice}
use ssh_arena.MarketEvents.Catalogue.Ready.{StartsReady, FitsRange, new_engine-StartsReady}
use ssh_arena.MarketEvents.Market.{Rolls, tick}
use ssh_arena.MarketEvents.Market.Fires.{IsRoll, IsCatalogue, Served, tick-Served}

abbrev tech : Ticker
tech = record {
  symbol = "TECH";
  initial_price = pos 100;
  tick_size = pos 5;
  whale_threshold = pos 10;
}

abbrev ticks : String → ℕ
ticks s = 5

abbrev market : Market Fixed
market = open_market 0 (tech ∷ [])

abbrev boom : Definition
boom = record {
  name = "boom";
  message = "";
  global = false;
  multiplier = record { low = pos 2; high = pos 5 };
  duration_seconds = pos 30;
}

abbrev defs : List (Prepared Fixed)
defs = record { definition = boom; chance = record { units = pos 20_000 } } ∷ []

abbrev rolls : Rolls Fixed
rolls = record { share = record { units = pos 5_000 }; ticker = 0; offset = 3 }

abbrev render : String → String → ℤ → String
render template symbol pct = template

abbrev is_blank : String → Bool
is_blank text = false

-- The range is written as "5-2".
abbrev source : Source Fixed
source = record {
  name = "boom";
  message = "";
  chance = record { units = pos 20_000 };
  market_multiplier = b'5' ∷ b'-' ∷ b'2' ∷ [];
  duration_seconds = pos 0;
  global = false;
}

new_engine-StartsReady_example : StartsReady (new_engine 0 (source ∷ []))
new_engine-StartsReady_example = new_engine-StartsReady 0 (source ∷ [])

read_definition :
    new_engine 30 (source ∷ []) ≡ ok (record { interval = 30; planned = none; next_seq = 0 }, defs)
unfolding new_engine scan_int trim_space
read_definition = refl

listed : All (λ c. IsListed c (ticks c.symbol)) (tech ∷ [])
unfolding OnTick
listed = (record { tick = refl; positive = omega arith; initial = (19, refl) }, tt)

choose_definition-Choice_example :
    Choice
      (rolls.share *F total_from zero_F defs)
      (total_from zero_F defs)
      defs
      (choose_definition rolls.share defs)
unfolding fixed_float total_from wrap64 div64 ◌*ℤ◌ ◌+ℤ◌
choose_definition-Choice_example = choose_definition-Choice rolls.share defs (refl, tt) refl refl

chosen_boom : choose_definition rolls.share defs ≡ some boom
unfolding choose_definition fixed_float wrap64 div64 ◌*ℤ◌ ◌+ℤ◌
chosen_boom = refl

abbrev or_boom : Option Definition → Definition
or_boom none = boom
or_boom (some d) = d

rolls-IsRoll : IsRoll defs market.tickers rolls
unfolding open_market fixed_float total_from wrap64 div64 ◌*ℤ◌ ◌+ℤ◌
rolls-IsRoll = record {
  scaled = refl;
  small = λ h. omega arith;
  fits = λ x e wide.
      subst (λ d. FitsRange rolls.offset d.multiplier) (ap or_boom (sym chosen_boom ∙ e))
        (unfold ◌+ℤ◌ in omega arith);
}

defs-IsCatalogue : IsCatalogue defs
unfolding fixed_float wrap64 div64 ◌*ℤ◌
defs-IsCatalogue = record { ready = ground arith; numbers = (refl, tt); zero_law = refl }

abbrev idle : Engine
idle = record { interval = 30; planned = none; next_seq = 0 }

tick-Served_example :
    Served render is_blank defs defs-IsCatalogue ticks market
      (tick render is_blank defs rolls rolls 7 idle market)
tick-Served_example =
    tick-Served render is_blank defs defs-IsCatalogue ticks fixed-IsFloat rolls rolls 7 idle market
      (open_market-IsListing ticks 0 (tech ∷ []) listed) rolls-IsRoll rolls-IsRoll tt
