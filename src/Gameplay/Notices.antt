-- ===== src/Gameplay/Notices.antt =====
-- Private payloads of internal/gameplay/intel_support.go: a bounded history for each player.
-- A channel that is full drops the payload: subscribers are left out.
pub mod Kept
use ssh_arena.Prelude.{ℕ, String, not, Option, none, some, List, [], ◌∷◌, ◌++◌, map, keep_if}
use ssh_arena.Prelude.Text.{str_eq}
use ssh_arena.State.TradeStore.{last_n}
use ssh_arena.State.ChatStore.{ChatStore, ChatMessage, query}
use ssh_arena.Prelude.Text.{assign}

-- `privateHistoryLimit`.
abbrev pub private_history_limit : ℕ
private_history_limit = 64

-- `notifyPlayerLocked`.
unfoldable pub notify_player_locked :
    String → String → (String → List String) → String → List String
unfolding last_n
notify_player_locked player_id payload history =
    assign history player_id (last_n private_history_limit (history player_id ++ payload ∷ []))

-- The mutex of the engine, which is not reentrant.
pub data Mutex : Type 0 where
  free held : Mutex

-- What code that may lock leaves: the mutex, and a result, or `none` for a goroutine that waits for
-- a mutex that it holds itself, or that another one never gives back.
abbrev pub Locked {ℓ} : Type ℓ → Type ℓ
Locked A = Mutex × Option A

abbrev pub unlock {ℓ} : {A : Type ℓ} → Locked A → Locked A
unlock (x, none) = (x, none)
unlock (x, some a) = (free, some a)

-- `mu.Lock()` and, when the body is done, `mu.Unlock()`.
abbrev pub with_lock {ℓ} : {A : Type ℓ} → (Mutex → Locked A) → Mutex → Locked A
with_lock body held = (held, none)
with_lock body free = unlock (body held)

-- The rest of the code, unless the goroutine waits.
abbrev pub and_then {ℓ κ} : {A : Type ℓ} {B : Type κ} → Locked A → (A → Mutex → Locked B) → Locked B
and_then (x, none) k = (x, none)
and_then (x, some a) k = k a x

-- `NotifyPlayer`, which takes the lock.
unfoldable pub notify_player :
    String → String → (String → List String) → Mutex → Locked (String → List String)
unfolding notify_player_locked
notify_player player_id payload history =
    with_lock (λ x. (x, some (notify_player_locked player_id payload history)))

module _ (encode : ChatMessage → String) where
  -- `privateHistorySnapshot`: the player's chat that is not global, then the private payloads.
  unfoldable pub private_history : String → ChatStore → (String → List String) → List String
  unfolding last_n
  private_history player_id chat history =
      let mine =
        query (record { player_id = player_id; channel = ""; limit = private_history_limit })
          chat in
      last_n private_history_limit
        (map encode (keep_if (λ m. not (str_eq m.channel "global")) mine) ++ history player_id)
