-- ===== src/Client/Chat/Direct.antt =====
-- A direct message that is typed after a click on a name.
use ssh_arena.Prelude.{
  ℕ, ◌≡◌, refl, ap, ◌∙◌, true, false, List, [], ◌∷◌, ◌++◌, append_assoc, if_false, All, Bool-cases,
  inl, inr,
}
use ssh_arena.Prelude.Outcome.{ok}
use ssh_arena.Prelude.Runes.{is_nil, trim_space, fields, join_words}
use ssh_arena.Prelude.Runes.Words.{
  IsWord, fields-trim_space, fields-IsWord, fields-word, trim_space-join_words,
}
use ssh_arena.Client.State.{ChatNameRect, UiState}
use ssh_arena.Client.Chat.{
  direct, dm_word, direct_payload, payload_of, build_chat_payload, copy_player_id_into_chat,
}

words_of_dm :
    (id body : List ℕ)
    → IsWord id
    → fields (dm_word ++ 32 ∷ (id ++ 32 ∷ body)) ≡ dm_word ∷ id ∷ fields body
words_of_dm id body h =
    fields-word dm_word (id ++ 32 ∷ body) (refl, (refl, (refl, (refl, tt))))
    ∙ ap (◌∷◌ dm_word) (fields-word id body h)

nil_has_no_word : (cs : List ℕ) → is_nil cs ≡ true → fields cs ≡ []
unfolding fields
nil_has_no_word [] h = refl
nil_has_no_word (c ∷ cs) h = cc h

payload_of-dm :
    (text id : List ℕ) (ws : List (List ℕ))
    → All IsWord ws
    → is_nil ws ≡ false
    → payload_of text (dm_word ∷ id ∷ ws) ≡ ok (direct id (join_words ws))
unfolding payload_of
payload_of-dm text id [] h full = cc full
payload_of-dm text id (v ∷ vs) h full =
    let (same, some_body) = trim_space-join_words v vs h in
    ap (direct_payload id) same ∙ if_false {b = is_nil (join_words (v ∷ vs))} _ _ some_body

module _ {F : Type 0} where
  -- After a click on the name of a player whose id is a word, whatever text with a word in it is typed
  -- behind what the click has put into the input is sent to that player, as its words with one space
  -- between them.
  pub copy-build_chat_payload :
      (r : ChatNameRect) (s : UiState F) (body : List ℕ)
      → IsWord r.player_id
      → is_nil (fields body) ≡ false
      → build_chat_payload ((copy_player_id_into_chat r s).chat_input ++ body)
        ≡ ok (direct r.player_id (join_words (fields body)))
  unfolding build_chat_payload copy_player_id_into_chat
  copy-build_chat_payload r s body word full =
      let input = (dm_word ++ 32 ∷ (r.player_id ++ 32 ∷ [])) ++ body in
      let text = trim_space input in
      let spelled : fields input ≡ dm_word ∷ r.player_id ∷ fields body =
        ap (λ t. fields (dm_word ++ 32 ∷ t)) (append_assoc r.player_id (32 ∷ []) body)
        ∙ words_of_dm r.player_id body word in
      let words : fields text ≡ dm_word ∷ r.player_id ∷ fields body =
        fields-trim_space input ∙ spelled in
      elim (Bool-cases (is_nil text)) [
        | inl blank ↦ cc (words, nil_has_no_word text blank)
        | inr some_text ↦
            if_false {b = is_nil text} _ _ some_text
            ∙ ap (payload_of text) words
            ∙ payload_of-dm text r.player_id (fields body) (fields-IsWord body) full
      ]
