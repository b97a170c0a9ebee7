-- ===== src/State/ChatStore.antt =====
-- internal/state/chat_store.go: a bounded history of chat messages.
use ssh_arena.Prelude.{
  ℕ, String, Bool, not, ◌&&◌, ◌||◌, List, [], ◌∷◌, ◌++◌, ◌==◌, if◌then◌else◌, keep_if,
}
use mathlib.Core.List.{reverse}
use ssh_arena.Prelude.Text.{str_eq, is_empty}
use ssh_arena.State.TradeStore.{last_n, collect}

pub record ChatMessage : Type 0 where
  pub kind : String
  pub channel : String
  pub player_id : String
  pub username : String
  pub role : String
  pub body : String
  pub recipient_id : String
  pub recipient_username : String
  pub sent_at : ℕ

pub record ChatQuery : Type 0 where
  pub player_id : String
  pub channel : String
  pub limit : ℕ

pub record ChatStore : Type 0 where
  pub max_records : ℕ
  pub messages : List ChatMessage

abbrev pub is_system_event : ChatMessage → Bool
is_system_event m = str_eq m.kind "system.event"

-- `LoadChatStore` on the messages of the file; events of an older version are dropped.
unfoldable pub load : ℕ → List ChatMessage → ChatStore
load max_records ms = record {
  max_records = if max_records == 0 then 5000 else max_records;
  messages = keep_if (λ m. not (is_system_event m)) ms;
}

-- `Append`, at the time `now`.
unfoldable pub append : Bool → ℕ → ChatMessage → ChatStore → ChatStore × Bool
unfolding last_n
append written now m s =
    let stamped = record m { sent_at = if m.sent_at == 0 then now else m.sent_at } in
    (record s { messages = last_n s.max_records (s.messages ++ stamped ∷ []) }, written)

-- A query for a player keeps the global messages, and those from or to the player.
abbrev pub matches_query : ChatQuery → ChatMessage → Bool
matches_query q m =
    not (is_system_event m)
    && ((is_empty q.channel || str_eq m.channel q.channel)
        && (is_empty q.player_id
            || (str_eq m.channel "global"
                || (str_eq m.player_id q.player_id || str_eq m.recipient_id q.player_id))))

-- `Query`: the newest messages that match, oldest first.
unfoldable pub query : ChatQuery → ChatStore → List ChatMessage
unfolding collect
query q s =
    reverse (collect (matches_query q) (if q.limit == 0 then 100 else q.limit) (reverse s.messages))
