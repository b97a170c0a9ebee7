-- ===== src/State/Player.antt =====
-- internal/state/player_store.go: players by username. Amounts are int64 values, so integers;
-- a map reads as zero, or as no lots, at a missing key.
use ssh_arena.Prelude.{ℕ, suc, String, Bool, Option, none, some, List, [], ◌∷◌, if◌then◌else◌}
use ssh_arena.Prelude.Int.{ℤ}
use ssh_arena.Prelude.Text.{str_eq}
use ssh_arena.Prelude.Outcome.{Outcome, ok, err}

pub record PositionLot : Type 0 where
  pub quantity : ℤ
  pub price : ℤ
  pub acquired_at : ℕ

pub record Player : Type 0 where
  pub player_id : String
  pub username : String
  pub role : String
  pub cash : ℤ
  pub reserved_cash : ℤ
  pub portfolio : String → ℤ
  pub reserved_stocks : String → ℤ
  pub lots : String → List PositionLot
  pub created_at : ℕ
  pub last_login_at : ℕ

abbrev pub Players : Type 0
Players = List (String × Player)

pub data StoreError : Type 0 where
  player_not_found write_failed : StoreError

-- `Get`.
unfoldable pub get : String → Players → Option Player
get name [] = none
get name ((k, p) ∷ ps) = if str_eq k name then some p else get name ps

-- `GetByPlayerID`.
unfoldable pub get_by_player_id : String → Players → Option Player
get_by_player_id id [] = none
get_by_player_id id ((k, p) ∷ ps) = if str_eq p.player_id id then some p else get_by_player_id id ps

unfoldable pub set_player : String → Player → Players → Players
set_player name p [] = (name, p) ∷ []
set_player name p ((k, q) ∷ ps) =
    if str_eq k name then (k, p) ∷ ps else (k, q) ∷ set_player name p ps

-- `Upsert`: the map changes also when the file is not written.
unfoldable pub upsert : Bool → Player → Players → Players × Bool
unfolding set_player
upsert written p ps = (set_player p.username p ps, written)

update_at :
    Bool
    → (Player → Outcome StoreError Player)
    → String
    → Player
    → Players
    → Players × Outcome StoreError Player
update_at written f k p ps = elim (f p) [
  | err e ↦ ((k, p) ∷ ps, err e)
  | ok q ↦ ((k, q) ∷ ps, if written then ok q else err write_failed)
]

-- `UpdateByPlayerID`.
unfoldable pub update_by_player_id :
    Bool
    → String
    → (Player → Outcome StoreError Player)
    → Players
    → Players × Outcome StoreError Player
unfolding update_at
update_by_player_id written id f [] = ([], err player_not_found)
update_by_player_id written id f ((k, p) ∷ ps) =
    let (rest, r) = update_by_player_id written id f ps in
    if str_eq p.player_id id then update_at written f k p ps else ((k, p) ∷ rest, r)

pub record Stats : Type 0 where
  pub buyers : ℕ
  pub holders : ℕ
  pub whales : ℕ

-- `RoleStats`.
unfoldable pub role_stats : Players → Stats
role_stats [] = record { buyers = 0; holders = 0; whales = 0 }
role_stats ((k, p) ∷ ps) =
    let s = role_stats ps in
    if str_eq p.role "Buyer"
    then record s { buyers = suc s.buyers }
    else if str_eq p.role "Holder"
    then record s { holders = suc s.holders }
    else if str_eq p.role "Whale"
    then record s { whales = suc s.whales }
    else s
