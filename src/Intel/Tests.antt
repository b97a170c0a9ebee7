-- ===== src/Intel/Tests.antt =====
-- Instances of the theorems on insider access.
use ssh_arena.Prelude.{◌≡◌, refl, true, false, some, none, [], ◌∷◌}
use ssh_arena.Prelude.Int.{pos}
use ssh_arena.Prelude.Outcome.{err}
use ssh_arena.MarketEvents.{PlannedEvent}
use ssh_arena.Intel.Feeds.{Kind, Definition, Engine, already_armed, insider_definition}
use ssh_arena.Intel.Access.{buy_insider, prepare_preview, schedule_next, is_early, current_event}
use ssh_arena.Intel.Access.Delivery.{IsArmed, Delivered, buy_insider-Once, schedule_next-Delivered}

abbrev feed : Definition
feed = record {
  id = "tip";
  kind = Kind.insider;
  name = "Tip";
  description = "";
  price = pos 500;
  lead_time_seconds = 30;
  global = true;
  ticker = "";
  multiplier = record { low = pos 0; high = pos 0 };
}

abbrev event : PlannedEvent
event = record {
  id = 1;
  event_name = "crash";
  message = "sell";
  global = true;
  symbol = "";
  multiplier_pct = pos 3;
  duration_seconds = pos 30;
  scheduled_at = 50_000_000_000;
}

abbrev engine : Engine
engine = record {
  defs = λ id. some feed;
  ordered_defs = feed ∷ [];
  pending = "p1" ∷ "p2" ∷ [];
  next_event = none;
}

abbrev planned : Engine
planned = record engine {
  next_event = some (record { event = event; buyers = []; preview_sent = false });
}

still_ahead :
    current_event 2 (buy_insider 1 "p3" feed planned).0.next_event
    ≡ (buy_insider 1 "p3" feed planned).0.next_event
unfolding buy_insider
still_ahead = refl

buy_insider-Once_example :
    IsArmed "p3" (buy_insider 1 "p3" feed planned).0
    × ((buy_insider 2 "p3" feed (buy_insider 1 "p3" feed planned).0).1 ≡ err already_armed)
buy_insider-Once_example = buy_insider-Once 1 2 "p3" feed feed planned still_ahead

has_feed : insider_definition engine.ordered_defs ≡ some feed
unfolding insider_definition
has_feed = refl

is_due : is_early 30_000_000_000 feed event ≡ false
unfolding is_early
is_due = refl

schedule_next-Delivered_example :
    Delivered "p2" event 31_000_000_000
      (prepare_preview event.id 30_000_000_000 (schedule_next event engine))
schedule_next-Delivered_example =
    schedule_next-Delivered "p2" event 30_000_000_000 31_000_000_000 engine feed has_feed refl
      is_due
