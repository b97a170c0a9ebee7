-- ===== src/MarketEvents/Tests.antt =====
-- Instances of the theorems on market events.
use ssh_arena.Prelude.{◌≡◌, Bool, true, false, some, [], ◌∷◌, String, arith}
use ssh_arena.Prelude.Int.{ℤ, pos}
use ssh_arena.MarketEvents.{PlannedEvent, Engine, Draws, Stepped, step}
use ssh_arena.MarketEvents.Firing.{due, Ahead, step-due}

abbrev event : PlannedEvent
event = record {
  id = 1;
  event_name = "crash";
  message = "sell";
  global = true;
  symbol = "";
  multiplier_pct = pos 3;
  duration_seconds = pos 30;
  scheduled_at = 100;
}

abbrev engine : Engine
engine = record { interval = 30; planned = some event; next_seq = 1 }

abbrev draws : Draws
draws = record {
  chosen = some (record {
    name = "boom";
    message = "";
    global = false;
    multiplier = record { low = pos 2; high = pos 5 };
    duration_seconds = pos 30;
  });
  ticker = 0;
  offset = 1;
}

abbrev render : String → String → ℤ → String
render template symbol pct = template

abbrev is_blank : String → Bool
is_blank text = false

stepped : Stepped
stepped = step render is_blank draws draws ("TECH" ∷ []) 120 engine

step-due_example :
    (stepped.fired ≡ due 120 (some event))
    × Ahead 120 stepped.engine.planned
    × (stepped.engine.interval ≡ 30)
unfolding stepped
step-due_example = step-due render is_blank draws draws ("TECH" ∷ []) 120 engine (omega arith)
