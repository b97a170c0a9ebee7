-- ===== src/Client/Chat.antt =====
-- The chat of the terminal client, cmd/game-client/chat_ui.go: its lines, its input, and the payload
-- that a typed line is sent as.
use ssh_arena.Prelude.{
  ℕ, ◌-◌, Bool, true, false, ◌&&◌, ◌||◌, List, [], ◌∷◌, ◌++◌, ltb, ◌==◌, if◌then◌else◌, length,
  drop,
}
use ssh_arena.Prelude.Int.{ℤ, pos, add64, is_positive, is_negative}
use ssh_arena.Prelude.Outcome.{Outcome, ok, err}
use ssh_arena.Prelude.Runes.{trim_space, fields, join_words, is_nil}
use ssh_arena.Client.State.{
  ChatEntry, ChatNameRect, UiState, Status, chat_closed, chat_focused, sending_chat, dm_prepared,
}
pub mod Direct

pub data ChatError : Type 0 where
  message_empty direct_body_empty : ChatError

pub data ChatPayload : Type 0 where
  public : List ℕ → ChatPayload
  direct : List ℕ → List ℕ → ChatPayload

abbrev pub runes_eq : List ℕ → List ℕ → Bool
runes_eq [] [] = true
runes_eq [] (d ∷ ds) = false
runes_eq (c ∷ cs) [] = false
runes_eq (c ∷ cs) (d ∷ ds) = c == d && runes_eq cs ds

abbrev pub dm_word : List ℕ
dm_word = b'/' ∷ b'd' ∷ b'm' ∷ []

abbrev pub is_direct : List ℕ → Bool
is_direct w =
    runes_eq w (b'/' ∷ b'w' ∷ [])
    || runes_eq w dm_word
    || runes_eq w (b'/' ∷ b'm' ∷ b's' ∷ b'g' ∷ [])

abbrev direct_payload : List ℕ → List ℕ → Outcome ChatError ChatPayload
direct_payload to body = if is_nil body then err direct_body_empty else ok (direct to body)

-- The payload of a text with these words.
unfoldable pub payload_of : List ℕ → List (List ℕ) → Outcome ChatError ChatPayload
payload_of text [] = ok (public text)
payload_of text (w ∷ []) = ok (public text)
payload_of text (w ∷ to ∷ []) = ok (public text)
payload_of text (w ∷ to ∷ v ∷ vs) =
    if is_direct w then direct_payload to (trim_space (join_words (v ∷ vs))) else ok (public text)

-- `buildChatPayload`.
unfoldable pub build_chat_payload : List ℕ → Outcome ChatError ChatPayload
unfolding payload_of trim_space fields
build_chat_payload input =
    let text = trim_space input in
    if is_nil text then err message_empty else payload_of text (fields text)

abbrev pub chat_limit : ℕ
chat_limit = 500

module _ {F : Type 0} where
  -- `appendChatEntry`.
  unfoldable pub append_chat_entry : ChatEntry → UiState F → UiState F
  append_chat_entry entry s =
      let lines = s.chat_lines ++ entry ∷ [] in
      record s {
        chat_lines =
            if ltb chat_limit (length lines) then drop (length lines - chat_limit) lines else lines;
        chat_scroll =
            if is_positive s.chat_scroll then add64 s.chat_scroll (pos 1) else s.chat_scroll;
      }

  -- `scrollChat`.
  unfoldable pub scroll_chat : ℤ → UiState F → UiState F
  scroll_chat delta s =
      let scroll = add64 s.chat_scroll delta in
      record s { chat_scroll = if is_negative scroll then pos 0 else scroll }

  -- `copyPlayerIDIntoChat`, without the clipboard.
  unfoldable pub copy_player_id_into_chat : ChatNameRect → UiState F → UiState F
  copy_player_id_into_chat r s = record s {
    chat_input = dm_word ++ 32 ∷ (r.player_id ++ 32 ∷ []);
    chat_focus = true;
    status = if is_nil r.player_id then chat_focused else dm_prepared;
  }

  unfoldable pub close_chat : UiState F → UiState F
  close_chat s = record s { chat_focus = false; status = chat_closed }
