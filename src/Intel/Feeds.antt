-- ===== src/Intel/Feeds.antt =====
-- Feeds, catalogue and quotes of internal/intel/engine.go, and the engine's state.
use ssh_arena.Prelude.{
  ℕ, String, Bool, true, false, ◌||◌, Option, none, some, List, [], ◌∷◌, if◌then◌else◌, map,
  keep_if,
}
use ssh_arena.Prelude.Int.{ℤ}
use ssh_arena.Prelude.Text.{str_eq}
use ssh_arena.Prelude.Outcome.{Outcome, ok, err}
use ssh_arena.MarketEvents.{PlannedEvent, Range}

pub data Kind : Type 0 where
  rumor fake_news insider paid_analytics other : Kind

-- The ticker is trimmed and in capitals, and the lead time of an insider feed is positive.
pub record Definition : Type 0 where
  pub id : String
  pub kind : Kind
  pub name : String
  pub description : String
  pub price : ℤ
  pub lead_time_seconds : ℕ
  pub global : Bool
  pub ticker : String
  pub multiplier : Range

pub record CatalogItem : Type 0 where
  pub id : String
  pub kind : Kind
  pub name : String
  pub description : String
  pub price : ℤ

pub data IntelError : Type 0 where
  not_found not_purchasable already_armed no_tickers no_price : IntelError

pub record Scheduled : Type 0 where
  pub event : PlannedEvent
  pub buyers : List String
  pub preview_sent : Bool

pub record Engine : Type 0 where
  pub defs : String → Option Definition
  pub ordered_defs : List Definition
  pub pending : List String
  pub next_event : Option Scheduled

abbrev pub is_insider : Definition → Bool
is_insider d = elim d.kind [ insider ↦ true | _ ↦ false ]

abbrev pub is_sold : Definition → Bool
is_sold d = elim d.kind [ insider ↦ true | paid_analytics ↦ true | _ ↦ false ]

abbrev pub to_item : Definition → CatalogItem
to_item d = record {
  id = d.id;
  kind = d.kind;
  name = d.name;
  description = d.description;
  price = d.price;
}

-- `Catalog`.
unfoldable pub catalog : Engine → List CatalogItem
catalog e = map to_item (keep_if is_sold e.ordered_defs)

-- `Quote`.
unfoldable pub quote : Engine → String → Outcome IntelError CatalogItem
quote e id = elim (e.defs id) [
  | none ↦ err not_found
  | some d ↦ if is_sold d then ok (to_item d) else err not_purchasable
]

-- A set of players, as a list.
abbrev pub is_member : String → List String → Bool
is_member x [] = false
is_member x (y ∷ ys) = str_eq y x || is_member x ys

-- `insiderDefinitionLocked`.
unfoldable pub insider_definition : List Definition → Option Definition
insider_definition [] = none
insider_definition (d ∷ ds) =
    let later = insider_definition ds in if is_insider d then some d else later
