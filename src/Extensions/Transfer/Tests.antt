-- ===== src/Extensions/Transfer/Tests.antt =====
-- Transfers to a player with a wallet and to one without, and instances of the theorems.
use ssh_arena.Prelude.{◌≡◌, refl, String, Bool, true, some, none, [], ◌∷◌}
use ssh_arena.Prelude.Int.{pos, ◌+ℤ◌, ◌-ℤ◌}
use ssh_arena.Prelude.Outcome.{ok}
use ssh_arena.Gameplay.Desk.{lookup, store_at, change}
use ssh_arena.Extensions.Transfer.{
  Tables, Transfer, check, start_with, start_journal, covered, update_wallet, set_balance,
  insert_ledger, moved, transfer, execute,
}
use ssh_arena.Extensions.Transfer.Conserved.{Settled, execute-Settled}
use ssh_arena.Extensions.Transfer.Lost.{IsLost, execute_loses}

abbrev tables : Tables
tables = record {
  players = "ann" ∷ "bob" ∷ "eve" ∷ [];
  wallets = ("ann", pos 100) ∷ ("bob", pos 20) ∷ [];
  ledger = [];
  journal = [];
}

abbrev request : String → Transfer
request to = record { request_id = "r1"; player_id = "ann"; to_player_id = to; amount = pos 30 }

abbrev is_uuid : String → Bool
is_uuid s = true

has_wallet : lookup "bob" tables.wallets ≡ some (pos 20)
unfolding lookup
has_wallet = refl

execute-Settled_example :
    Settled is_uuid (request "bob") tables (execute is_uuid true (request "bob") tables)
execute-Settled_example = execute-Settled is_uuid (request "bob") tables true (pos 20) has_wallet

-- What is left after the amount was taken from the first wallet.
abbrev after : Tables
after = record {
  players = tables.players;
  wallets = ("ann", pos 70) ∷ ("bob", pos 20) ∷ [];
  ledger =
      record { request_id = "r1"; player_id = "ann"; amount = pos 0 -ℤ pos 30 }
      ∷ record { request_id = "r1"; player_id = "eve"; amount = pos 30 }
      ∷ [];
  journal = ("r1", true) ∷ [];
}

no_wallet_of : lookup "eve" tables.wallets ≡ none
unfolding lookup
no_wallet_of = refl

passed : check (request "eve") ≡ ok tt
unfolding check
passed = refl

done : transfer is_uuid (request "eve") tables ≡ ok after
unfolding transfer start_journal start_with covered moved set_balance update_wallet insert_ledger
    lookup store_at change ◌-ℤ◌ ◌+ℤ◌
done = refl

execute_loses_example :
    (execute is_uuid true (request "eve") tables ≡ (after, ok tt))
    × IsLost is_uuid (request "eve") tables after
execute_loses_example = execute_loses is_uuid (request "eve") tables after no_wallet_of done passed
