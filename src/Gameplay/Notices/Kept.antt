-- ===== src/Gameplay/Notices/Kept.antt =====
-- What the private history keeps.
use ssh_arena.Prelude.{
  ◌≤◌, ◌≡◌, sym, subst, String, false, List, [], ◌∷◌, ◌++◌, length, if_true, if_false,
}
use ssh_arena.Prelude.Text.{str_eq, str_eq_refl}
use ssh_arena.State.TradeStore.Bounded.{last_n-suffix}
use ssh_arena.Gameplay.Notices.{private_history_limit, notify_player_locked}

-- The newest payloads, at most as many as the limit.
pub IsKept : List String → List String → Type 0
IsKept all kept =
    (length kept ≤ private_history_limit) × (older : List String) × (older ++ kept ≡ all)

-- A payload for a player goes behind those already kept for the player, of which only the oldest are
-- dropped to stay within the limit, and the histories of all other players stay as they were.
pub notify_player_locked-IsKept :
    (player_id payload : String) (history : String → List String)
    → IsKept
        (history player_id ++ payload ∷ [])
        (notify_player_locked player_id payload history player_id)
      × ((other : String)
          → str_eq other player_id ≡ false
          → notify_player_locked player_id payload history other ≡ history other)
unfolding IsKept notify_player_locked
notify_player_locked-IsKept player_id payload history = (
  subst (IsKept (history player_id ++ payload ∷ [])) (sym (if_true _ _ (str_eq_refl player_id)))
      (last_n-suffix private_history_limit (history player_id ++ payload ∷ [])),
  λ other apart. if_false _ _ apart,
)
