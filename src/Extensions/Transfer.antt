-- ===== src/Extensions/Transfer.antt =====
-- extensions/player_transfer_money/handler.go: a transfer between two wallets, in one transaction of
-- internal/platform/tx/manager.go. The statements are those of the handler on the tables that they
-- name, with the foreign keys of migrations/001_initial.sql; the row locks change no table.
use ssh_arena.Prelude.{
  ℕ, String, Bool, true, false, not, ◌||◌, ◌&&◌, Option, none, some, List, [], ◌∷◌, ◌++◌, ◌^◌, ltb,
  if◌then◌else◌,
}
use ssh_arena.Prelude.Int.{ℤ, pos, ◌+ℤ◌, ◌-ℤ◌, ltb_ℤ, is_positive}
use ssh_arena.Prelude.Text.{str_eq, is_empty, text_less}
use ssh_arena.Prelude.Outcome.{Outcome, ok, err, ◌>>=◌, ◌>>◌, fail_if}
use ssh_arena.Gameplay.Desk.{lookup, store_at, change}
pub mod Conserved
pub mod Lost
mod Tests

pub data TransferError : Type 0 where
  amount_not_positive invalid_recipient bad_request_id duplicate_request unknown_player :
      TransferError
  no_wallet insufficient_funds out_of_range commit_failed : TransferError

pub record LedgerEntry : Type 0 where
  pub request_id : String
  pub player_id : String
  pub amount : ℤ

-- `journal` tells of each request whether it is committed.
pub record Tables : Type 0 where
  pub players : List String
  pub wallets : List (String × ℤ)
  pub ledger : List LedgerEntry
  pub journal : List (String × Bool)

pub record Transfer : Type 0 where
  pub request_id : String
  pub player_id : String
  pub to_player_id : String
  pub amount : ℤ

abbrev is_player : String → List String → Bool
is_player id [] = false
is_player id (p ∷ ps) = str_eq p id || is_player id ps

-- `lockOrder`.
unfoldable pub lock_order : String → String → String × String
lock_order a b = if text_less a b then (a, b) else (b, a)

unfoldable pub check : Transfer → Outcome TransferError (Unit {0})
check q = do
  fail_if (not (is_positive q.amount)) amount_not_positive
  fail_if (is_empty q.to_player_id || str_eq q.to_player_id q.player_id) invalid_recipient

unfoldable pub start_with : Transfer → Tables → Option Bool → Outcome TransferError Tables
start_with q t (some b) = err duplicate_request
start_with q t none =
    if is_player q.player_id t.players
    then ok (record t { journal = store_at q.request_id false t.journal })
    else err unknown_player

-- `INSERT INTO action_journal ... ON CONFLICT DO NOTHING`.
unfoldable pub start_journal : Transfer → Tables → Outcome TransferError Tables
unfolding start_with
start_journal q t = start_with q t (lookup q.request_id t.journal)

-- `SELECT balance` and the guard on it.
unfoldable pub covered : ℤ → Option ℤ → Outcome TransferError ℤ
covered amount none = err no_wallet
covered amount (some balance) = if ltb_ℤ balance amount then err insufficient_funds else ok balance

-- A BIGINT column takes no value outside of its range.
abbrev fits : ℤ → Bool
fits z = not (ltb_ℤ z (pos 0 -ℤ pos (2 ^ 63))) && ltb_ℤ z (pos (2 ^ 63))

unfoldable pub update_wallet : String → (ℤ → ℤ) → Tables → Option ℤ → Outcome TransferError Tables
update_wallet id f t none = ok t
update_wallet id f t (some balance) =
    if fits (f balance) then ok (record t { wallets = change id f t.wallets }) else err out_of_range

-- `UPDATE wallets SET balance = ...`, which changes no row where there is none.
unfoldable pub set_balance : String → (ℤ → ℤ) → Tables → Outcome TransferError Tables
unfolding update_wallet
set_balance id f t = update_wallet id f t (lookup id t.wallets)

abbrev entries : Transfer → List LedgerEntry → List LedgerEntry
entries q old =
    old
    ++ record { request_id = q.request_id; player_id = q.player_id; amount = pos 0 -ℤ q.amount }
      ∷ record { request_id = q.request_id; player_id = q.to_player_id; amount = q.amount }
      ∷ []

-- `INSERT INTO ledger_entries`, whose players must exist.
unfoldable pub insert_ledger : Transfer → Tables → Outcome TransferError Tables
insert_ledger q t =
    if is_player q.player_id t.players && is_player q.to_player_id t.players
    then ok (record t { ledger = entries q t.ledger })
    else err unknown_player

abbrev commit_journal : Transfer → Tables → Tables
commit_journal q t = record t { journal = store_at q.request_id true t.journal }

-- The statements after the balance was read.
unfoldable pub moved : Transfer → Tables → Outcome TransferError Tables
unfolding set_balance insert_ledger
moved q t = do
  debited ← set_balance q.player_id (λ b. b -ℤ q.amount) t
  credited ← set_balance q.to_player_id (λ b. b +ℤ q.amount) debited
  entered ← insert_ledger q credited
  ok (commit_journal q entered)

-- The function that runs in the transaction.
unfoldable pub transfer : (String → Bool) → Transfer → Tables → Outcome TransferError Tables
unfolding start_journal covered moved
transfer is_uuid q t = do
  fail_if (not (is_uuid q.request_id)) bad_request_id
  started ← start_journal q t
  balance ← covered q.amount (lookup q.player_id started.wallets)
  moved q started

-- `WithinSerializable`: what an error, or a failed commit, has changed is rolled back.
unfoldable pub within_serializable :
    Bool → Tables → Outcome TransferError Tables → Tables × Outcome TransferError (Unit {0})
within_serializable committed t (err x) = (t, err x)
within_serializable committed t (ok done) =
    if committed then (done, ok tt) else (t, err commit_failed)

-- `Execute`.
unfoldable pub execute :
    (String → Bool) → Bool → Transfer → Tables → Tables × Outcome TransferError (Unit {0})
unfolding check transfer within_serializable
execute is_uuid committed q t = within_serializable committed t (check q >> transfer is_uuid q t)
