-- ===== src/Chat.antt =====
-- internal/chat/chat_service.go: the broadcast of chat messages, with a bounded history of payloads.
-- `encode` is the JSON text of a message, which cannot fail for one. Subscribers' channels are left
-- out: they drop what they have no room for.
use ssh_arena.Prelude.{
  ℕ, String, Bool, true, Option, none, some, List, [], ◌∷◌, ◌++◌, ◌==◌, if◌then◌else◌, map,
}
use ssh_arena.Prelude.Text.{is_empty}
use ssh_arena.State.TradeStore.{last_n}
use ssh_arena.State.ChatStore.{ChatMessage, ChatStore}
use ssh_arena.State.ChatStore as Store

pub record Service : Type 0 where
  pub history : List String
  pub history_limit : ℕ
  pub store : Option ChatStore

module _ (encode : ChatMessage → String) where
  stored : ℕ → Option ChatStore → List String → List String
  stored limit none history = history
  stored limit (some s) history =
      map encode (Store.query (record { player_id = ""; channel = "global"; limit = limit }) s)

  -- `NewService`.
  unfoldable pub new : ℕ → Option ChatStore → Service
  unfolding stored
  new limit store =
      let history_limit = if limit == 0 then 100 else limit in
      record {
        history = stored history_limit store [];
        history_limit = history_limit;
        store = store;
      }

  -- `History`.
  unfoldable pub history : Service → List String
  unfolding stored
  history s = stored s.history_limit s.store s.history

  -- The defaults that `Broadcast` fills in.
  unfoldable pub prepare : ℕ → ChatMessage → ChatMessage
  prepare now m = record m {
    kind = if is_empty m.kind then "chat.message" else m.kind;
    channel = if is_empty m.channel then "global" else m.channel;
    sent_at = if m.sent_at == 0 then now else m.sent_at;
  }

  keep_message : Bool → ℕ → ChatMessage → Option ChatStore → Option ChatStore × Bool
  keep_message written now m none = (none, true)
  keep_message written now m (some s) = let r = Store.append written now m s in (some r.0, r.1)

  -- `Broadcast`: the payload, if the store could be written.
  unfoldable pub broadcast : Bool → ℕ → ChatMessage → Service → Service × Option String
  unfolding last_n prepare keep_message
  broadcast written now message s =
      let m = prepare now message in
      let payload = encode m in
      let kept = keep_message written now m s.store in
      (
        record {
          history = last_n s.history_limit (s.history ++ payload ∷ []);
          history_limit = s.history_limit;
          store = kept.0;
        },
        if kept.1 then some payload else none,
      )
