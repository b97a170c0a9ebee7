-- ===== src/Transport/Feeds.antt =====
-- Whose private messages a stream carries.
use ssh_arena.Prelude.{
  ◌≡◌, refl, sym, ap, ◌∙◌, subst, String, Bool, false, Option, none, some, List, if_false,
  if_either,
}
use ssh_arena.Prelude.Text.{is_empty}
use ssh_arena.Prelude.Outcome.{Outcome, ok, err}
use ssh_arena.Transport.{
  Topic, Payload, Envelope, Request, World, Stream, Input, send, send_full, subscribe_private,
  handle_request, feed_payload, handle, run,
}
use ssh_arena.Transport.Ordered.{
  Both, bind-Both, send_initial_market_state-Both, send_initial_chat_state-Both, run-Both,
}

module _ (accepts : Envelope → Bool) where
  send-same {ℓ} :
      (P : String → Option String → Type ℓ) (topic : Topic) (p : Payload) (s : Stream)
      → P s.player_id s.private_feed
      → Both (λ t. P t.player_id t.private_feed) (send accepts topic p s)
  unfolding send
  send-same P topic p s h = if_either (Both (λ t. P t.player_id t.private_feed)) (accepts _) _ _ h h

  subscribe_private-kept :
      (o : Option String) (owner : String) (s : Stream) → o ≡ some owner → subscribe_private o s ≡ s
  unfolding subscribe_private
  subscribe_private-kept none owner s e = cc e
  subscribe_private-kept (some p) owner s e = refl

  -- A stream that has subscribed to a player's private messages carries that player's, and no other's,
  -- whatever requests follow.
  pub run-KeepsFeed :
      (is : List Input) (owner : String) (s : Stream)
      → s.private_feed ≡ some owner
      → Both (λ t. t.private_feed ≡ some owner) (run accepts is s)
  run-KeepsFeed is owner =
      run-Both accepts (λ t. t.private_feed ≡ some owner)
        (record {
          sending = send-same (λ id feed. feed ≡ some owner);
          asking = λ r s h. h;
          subscribing = λ s h.
              subst (λ t. t.private_feed ≡ some owner)
                (sym (subscribe_private-kept s.private_feed owner s h)) h;
          choosing = λ xs s h. h;
          counting = λ s h. h;
        })
        is

  -- A stream of one player's private messages that the last request made another player's.
  pub record IsForeign (id owner : String) (x : Payload) (t : Stream) : Type 0 where
    pub named : t.player_id ≡ id
    pub fed : t.private_feed ≡ some owner
    pub passed : handle accepts (Input.from_private x) t ≡ send accepts Topic.private x t

  abbrev Fed : String → String → String → Option String → Type 0
  Fed id owner name feed = (name ≡ id) × (feed ≡ some owner)

  foreign :
      (id owner : String) (x : Payload) (t : Stream)
      → is_empty x.text ≡ false
      → Fed id owner t.player_id t.private_feed
      → IsForeign id owner x t
  unfolding handle send_full
  foreign id owner x t full h = record {
    named = h.0;
    fed = h.1;
    passed = ap (λ o. feed_payload accepts o x t) h.1 ∙ if_false {b = is_empty x.text} _ _ full;
  }

  Both-IsForeign :
      (id owner : String) (x : Payload) (o : Outcome Stream Stream)
      → is_empty x.text ≡ false
      → Both (λ t. Fed id owner t.player_id t.private_feed) o
      → Both (IsForeign id owner x) o
  Both-IsForeign id owner x (ok t) full h = foreign id owner x t full h
  Both-IsForeign id owner x (err t) full h = foreign id owner x t full h

  -- Once a stream has subscribed to a player's private messages, a request in the name of any other
  -- player makes it that player's stream, and it still passes on the first player's messages.
  pub handle-IsForeign :
      (r : Request) (w : World) (owner : String) (x : Payload) (s : Stream)
      → s.private_feed ≡ some owner
      → is_empty x.text ≡ false
      → Both (IsForeign r.player_id owner x) (handle accepts (Input.request r w) s)
  unfolding handle handle_request
  handle-IsForeign r w owner x s h full =
      let P = λ (t : Stream). Fed r.player_id owner t.player_id t.private_feed in
      let sending = send-same (Fed r.player_id owner) in
      Both-IsForeign r.player_id owner x _ full (
        bind-Both P _ _
          (if_either (Both P) r.include_chat _ _
            (send_initial_chat_state-Both accepts P sending w _ (refl, h)) (refl, h))
          (λ t k.
            send_initial_market_state-Both accepts P sending w _
              (subst P (sym (subscribe_private-kept t.private_feed owner t k.1)) k)))
