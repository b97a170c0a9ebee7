-- ===== src/MarketEvents.antt =====
-- internal/marketevents/engine.go: one random event is planned ahead, fires when its time has come,
-- and the next is planned. What the random source answers comes as arguments (`Draws`), with the
-- definition that Catalogue.choose_definition chose; texts are rendered by parameters.
pub mod Firing
pub mod Catalogue
pub mod Market
mod Tests
use ssh_arena.Prelude.{
  ℕ, suc, ◌+◌, String, Bool, true, false, not, Option, none, some, List, [], ◌∷◌, ◌++◌, ltb,
  if◌then◌else◌, get_elem?,
}
use ssh_arena.Prelude.Int.{ℤ, pos, add64, leb_ℤ}

pub record Range : Type 0 where
  pub low : ℤ
  pub high : ℤ

pub record Definition : Type 0 where
  pub name : String
  pub message : String
  pub global : Bool
  pub multiplier : Range
  pub duration_seconds : ℤ

-- The number of the event stands for its id, `random-event-%d`.
pub record PlannedEvent : Type 0 where
  pub id : ℕ
  pub event_name : String
  pub message : String
  pub global : Bool
  pub symbol : String
  pub multiplier_pct : ℤ
  pub duration_seconds : ℤ
  pub scheduled_at : ℕ

pub record Engine : Type 0 where
  pub interval : ℕ
  pub planned : Option PlannedEvent
  pub next_seq : ℕ

-- The chosen definition, if there is one that can be chosen, the ticker's index, and the offset
-- into the range of the multiplier.
pub record Draws : Type 0 where
  pub chosen : Option Definition
  pub ticker : ℕ
  pub offset : ℕ

-- `randomBetweenLocked`.
unfoldable pub random_between : ℕ → Range → ℤ
random_between offset r = if leb_ℤ r.high r.low then r.low else add64 r.low (pos offset)

-- `tickers[i]`; the source draws an index that exists.
abbrev pub ticker_at : List String → ℕ → String
ticker_at ts i = elim (get_elem? ts i) [ none ↦ "" | some t ↦ t ]

-- What `step` leaves: the engine, the events to announce, and the event to fire.
pub record Stepped : Type 0 where
  pub engine : Engine
  pub plans : List PlannedEvent
  pub fired : Option PlannedEvent

module _ (render : String → String → ℤ → String) (is_blank : String → Bool) where
  unfoldable pub plan_event : Draws → List String → ℕ → Engine → Definition → PlannedEvent
  unfolding random_between
  plan_event d tickers now e def =
      let symbol = if def.global then "" else ticker_at tickers d.ticker in
      let pct = random_between d.offset def.multiplier in
      let message = render def.message symbol pct in
      let name = render def.name symbol pct in
      record {
        id = suc e.next_seq;
        event_name = name;
        message = if is_blank message then name else message;
        global = def.global;
        symbol = symbol;
        multiplier_pct = pct;
        duration_seconds = def.duration_seconds;
        scheduled_at = now + e.interval;
      }

  plan_chosen : Draws → List String → ℕ → Engine → Option Definition → Engine × List PlannedEvent
  plan_chosen d tickers now e none = (e, [])
  plan_chosen d tickers now e (some def) =
      let p = plan_event d tickers now e def in
      (record e { planned = some p; next_seq = suc e.next_seq }, p ∷ [])

  -- `planLocked` and the assignment that follows it: the engine, and what was planned.
  unfoldable pub plan : Draws → List String → ℕ → Engine → Engine × List PlannedEvent
  unfolding plan_event plan_chosen
  plan d [] now e = (e, [])
  plan d (t ∷ ts) now e = plan_chosen d (t ∷ ts) now e d.chosen

  -- The first plan of `step`, if nothing is planned yet.
  plan_missing : Draws → List String → ℕ → Engine → Option PlannedEvent → Engine × List PlannedEvent
  plan_missing d tickers now e none = plan d tickers now e
  plan_missing d tickers now e (some p) = (e, [])

  -- A planned event whose time has come fires, and the next is planned.
  fire_due : Draws → List String → ℕ → Engine × List PlannedEvent → Option PlannedEvent → Stepped
  fire_due d tickers now (e, plans) none = record { engine = e; plans = plans; fired = none }
  fire_due d tickers now (e, plans) (some p) =
      let next = plan d tickers now (record e { planned = none }) in
      if ltb now p.scheduled_at
      then record { engine = e; plans = plans; fired = none }
      else record { engine = next.0; plans = plans ++ next.1; fired = some p }

  -- `step`, with the draws for its two plans.
  unfoldable pub step : Draws → Draws → List String → ℕ → Engine → Stepped
  unfolding plan_missing fire_due
  step d d' tickers now e =
      let first = plan_missing d tickers now e e.planned in
      fire_due d' tickers now first (first.0).planned

-- `PeekNext`.
unfoldable pub peek_next : Engine → Option PlannedEvent
peek_next e = e.planned
