-- ===== src/Intel/Access.antt =====
-- Insider access of internal/intel/engine.go: buying it, and the preview of a planned event.
pub mod Delivery
use ssh_arena.Prelude.{
  ℕ, ◌+◌, ◌*◌, String, Bool, true, false, not, ◌||◌, Option, none, some, List, [], ◌∷◌, ◌++◌, ltb,
  ◌==◌, if◌then◌else◌, map, keep_if,
}
use ssh_arena.Prelude.Int.{ℤ, pos, pos_part, add64, div64, is_positive, is_negative}
use ssh_arena.Prelude.Text.{str_eq, is_empty}
use ssh_arena.Prelude.Outcome.{Outcome, ok, err}
use ssh_arena.MarketEvents.{PlannedEvent, Range, ticker_at}
use ssh_arena.Intel.Feeds.{
  Kind, insider, paid_analytics, Definition, CatalogItem, IntelError, not_found, not_purchasable,
  already_armed, no_tickers, no_price, Scheduled, Engine, is_insider, is_sold, to_item, catalog,
  quote, is_member, insider_definition,
}

-- In nanoseconds.
abbrev pub second : ℕ
second = 1_000_000_000

-- `previewAt.After(now)`, where the preview is due a lead time before the event.
unfoldable pub is_early : ℕ → Definition → PlannedEvent → Bool
is_early now d ev = ltb (now + d.lead_time_seconds * second) ev.scheduled_at

-- What `buyInsiderLocked` answers: armed for an event to come, armed for the planned one, or its
-- preview at once.
pub data Purchase : Type 0 where
  armed_for_future : Purchase
  armed_for previewed : PlannedEvent → Purchase

-- An event that has passed is forgotten.
abbrev pub current_event : ℕ → Option Scheduled → Option Scheduled
current_event now none = none
current_event now (some s) = if ltb now s.event.scheduled_at then some s else none

buy_ahead : String → Engine → Engine × Outcome IntelError Purchase
buy_ahead player_id e =
    if is_member player_id e.pending
    then (e, err already_armed)
    else (record e { pending = player_id ∷ e.pending }, ok armed_for_future)

buy_scheduled : ℕ → String → Definition → Engine → Scheduled → Engine × Outcome IntelError Purchase
unfolding is_early
buy_scheduled now player_id d e s =
    if is_member player_id s.buyers then (e, err already_armed) else (
      record e { next_event = some (record s { buyers = player_id ∷ s.buyers }) },
      ok (if is_early now d s.event then armed_for s.event else previewed s.event),
    )

buy_at : ℕ → String → Definition → Engine → Option Scheduled → Engine × Outcome IntelError Purchase
unfolding buy_ahead buy_scheduled
buy_at now player_id d e none = buy_ahead player_id (record e { next_event = none })
buy_at now player_id d e (some s) =
    buy_scheduled now player_id d (record e { next_event = some s }) s

-- `buyInsiderLocked`.
unfoldable pub buy_insider : ℕ → String → Definition → Engine → Engine × Outcome IntelError Purchase
unfolding buy_at
buy_insider now player_id d e = buy_at now player_id d e (current_event now e.next_event)

schedule_for : PlannedEvent → Engine → Option Definition → Engine
schedule_for ev e none = e
schedule_for ev e (some d) = record e {
  pending = [];
  next_event = some (record { event = ev; buyers = e.pending; preview_sent = false });
}

-- `ScheduleNextRandomEvent`, before it tries to send the preview.
unfoldable pub schedule_next : PlannedEvent → Engine → Engine
unfolding schedule_for insider_definition
schedule_next ev e = schedule_for ev e (insider_definition e.ordered_defs)

-- A preview, and the players it goes to.
pub record Preview : Type 0 where
  pub event : PlannedEvent
  pub recipients : List String

mark_sent : Scheduled → Engine → Engine
mark_sent s e = record e { next_event = some (record s { preview_sent = true }) }

send_to : Scheduled → List String → Engine → Engine × Option Preview
unfolding mark_sent
send_to s [] e = (mark_sent s e, none)
send_to s (b ∷ bs) e = (mark_sent s e, some (record { event = s.event; recipients = b ∷ bs }))

prepare_for : ℕ → ℕ → Engine → Option Definition → Option Scheduled → Engine × Option Preview
unfolding send_to is_early
prepare_for event_id now e none s = (e, none)
prepare_for event_id now e (some d) none = (e, none)
prepare_for event_id now e (some d) (some s) =
    if not (s.event.id == event_id) || s.preview_sent || is_early now d s.event
    then (e, none)
    else send_to s s.buyers e

-- `prepareScheduledPreview`.
unfoldable pub prepare_preview : ℕ → ℕ → Engine → Engine × Option Preview
unfolding prepare_for insider_definition
prepare_preview event_id now e =
    prepare_for event_id now e (insider_definition e.ordered_defs) e.next_event
