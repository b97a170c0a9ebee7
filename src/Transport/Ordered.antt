-- ===== src/Transport/Ordered.antt =====
-- The messages of a stream are numbered in the order in which they are sent.
use ssh_arena.Prelude.{
  ℕ, suc, ◌≤◌, ◌<◌, String, Bool, not, ◌&&◌, Option, none, some, List, [], ◌∷◌, ◌++◌, if_either,
  All, All-append, All-mono, arith,
}
use ssh_arena.Prelude.Text.{is_empty}
use ssh_arena.Prelude.Outcome.{Outcome, ok, err, ◌>>=◌}
use ssh_arena.Transport.{
  Topic, Payload, Envelope, Request, World, Stream, Input, opened, matches_symbols, send, send_full,
  send_answer, send_each, send_snapshots, send_initial_market_state, send_initial_chat_state,
  subscribe_private, symbol_set, handle_request, feed_payload, handle, run,
}

-- It holds of the stream that goes on, or of the one that has ended.
abbrev pub Both {ℓ} : (Stream → Type ℓ) → Outcome Stream Stream → Type ℓ
Both P (ok s) = P s
Both P (err s) = P s

pub bind-Both {ℓ} :
    (P : Stream → Type ℓ) (m : Outcome Stream Stream) (k : Stream → Outcome Stream Stream)
    → Both P m
    → ((t : Stream) → P t → Both P (k t))
    → Both P (m >>= k)
bind-Both P (ok s) k h next = next s h
bind-Both P (err s) k h next = h

-- Every message has a larger number than those before it.
pub Rises : List Envelope → Type 0
Rises [] = Unit
Rises (e ∷ es) = All (λ (x : Envelope). e.sequence < x.sequence) es × Rises es

-- The messages rise, and none is past the counter.
pub record IsOrdered (s : Stream) : Type 0 where
  pub rising : Rises s.sent
  pub counted : All (λ (x : Envelope). x.sequence ≤ s.sequence) s.sent

Rises-append :
    (es : List Envelope) (e : Envelope)
    → Rises es
    → All (λ (x : Envelope). x.sequence < e.sequence) es
    → Rises (es ++ e ∷ [])
unfolding Rises
Rises-append [] e h k = (tt, tt)
Rises-append (x ∷ es) e h k = (
  All-append (λ (y : Envelope). x.sequence < y.sequence) es (e ∷ []) h.0 (k.0, tt),
  Rises-append es e h.1 k.1,
)

bumped : {s : Stream} → IsOrdered s → IsOrdered (record s { sequence = suc s.sequence })
bumped {s} h = record {
  rising = h.rising;
  counted =
      All-mono (λ (x : Envelope). x.sequence ≤ s.sequence)
        (λ (x : Envelope). x.sequence ≤ suc s.sequence) s.sent (λ x le. omega (arith, le))
        h.counted;
}

module _ (accepts : Envelope → Bool) where
  -- What sending and the other steps of the loop keep.
  pub record IsKept {ℓ} (P : Stream → Type ℓ) : Type ℓ where
    pub sending : (topic : Topic) (p : Payload) (s : Stream) → P s → Both P (send accepts topic p s)
    pub asking :
        (r : Request) (s : Stream)
        → P s
        → P (record s {
          player_id = r.player_id;
          include_portfolio = r.include_portfolio;
          include_chat = r.include_chat;
        })
    pub subscribing : (s : Stream) → P s → P (subscribe_private s.private_feed s)
    pub choosing : (xs : List String) (s : Stream) → P s → P (record s { symbols = xs })
    pub counting : (s : Stream) → P s → P (record s { sequence = suc s.sequence })

  module _ {ℓ} (P : Stream → Type ℓ)
      (sending : (topic : Topic) (p : Payload) (s : Stream)
        → P s
        → Both P (send accepts topic p s)) where
    send_full-Both :
        (topic : Topic) (p : Payload) (s : Stream) → P s → Both P (send_full accepts topic p s)
    unfolding send_full
    send_full-Both topic p s h = if_either (Both P) (is_empty p.text) _ _ h (sending topic p s h)

    send_answer-Both :
        (topic : Topic) (o : Option Payload) (s : Stream)
        → P s
        → Both P (send_answer accepts topic o s)
    send_answer-Both topic none s h = h
    send_answer-Both topic (some p) s h = sending topic p s h

    send_each-Both :
        (topic : Topic) (ps : List Payload) (s : Stream)
        → P s
        → Both P (send_each accepts topic ps s)
    unfolding send_each
    send_each-Both topic [] s h = h
    send_each-Both topic (p ∷ ps) s h =
        bind-Both P (send_full accepts topic p s) _ (send_full-Both topic p s h)
          (λ t k. send_each-Both topic ps t k)

    send_snapshots-Both :
        (w : World) (xs : List String) (s : Stream) → P s → Both P (send_snapshots accepts w xs s)
    unfolding send_snapshots
    send_snapshots-Both w [] s h = h
    send_snapshots-Both w (x ∷ xs) s h =
        bind-Both P (send_answer accepts Topic.market (w.snapshot x) s) _
          (send_answer-Both Topic.market (w.snapshot x) s h) (λ t k. send_snapshots-Both w xs t k)

    pub send_initial_market_state-Both :
        (w : World) (s : Stream) → P s → Both P (send_initial_market_state accepts w s)
    unfolding send_initial_market_state
    send_initial_market_state-Both w s h =
        bind-Both P (send_snapshots accepts w s.symbols s) _ (send_snapshots-Both w s.symbols s h)
          (λ t k.
            if_either (Both P) (t.include_portfolio && not (is_empty t.player_id)) _ _
              (send_answer-Both Topic.portfolio (w.portfolio t.player_id) t k) k)

    pub send_initial_chat_state-Both :
        (w : World) (s : Stream) → P s → Both P (send_initial_chat_state accepts w s)
    unfolding send_initial_chat_state
    send_initial_chat_state-Both w s h =
        bind-Both P (send_each accepts Topic.chat w.chat_history s) _
          (send_each-Both Topic.chat w.chat_history s h)
          (λ t k.
            if_either (Both P) (is_empty t.player_id) _ _ k
              (send_each-Both Topic.private (w.private_history t.player_id) t k))

  module _ {ℓ} (P : Stream → Type ℓ) (law : IsKept P) where
    handle_request-Both :
        (r : Request) (w : World) (s : Stream) → P s → Both P (handle_request accepts r w s)
    unfolding handle_request
    handle_request-Both r w s h =
        let k = law.asking r s h in
        bind-Both P _ _
          (if_either (Both P) r.include_chat _ _ (send_initial_chat_state-Both P law.sending w _ k)
            k)
          (λ t j.
            send_initial_market_state-Both P law.sending w _
              (law.choosing (symbol_set r.symbols) _ (law.subscribing t j)))

    feed_payload-Both :
        (o : Option String) (p : Payload) (s : Stream) → P s → Both P (feed_payload accepts o p s)
    feed_payload-Both none p s h = h
    feed_payload-Both (some owner) p s h = send_full-Both P law.sending Topic.private p s h

    pub handle-Both : (i : Input) (s : Stream) → P s → Both P (handle accepts i s)
    unfolding handle
    handle-Both (Input.request r w) s h = handle_request-Both r w s h
    handle-Both (Input.from_market p) s h =
        if_either (Both P) (matches_symbols p s.symbols) _ _
          (send_full-Both P law.sending Topic.market p s h) h
    handle-Both (Input.from_chat p) s h =
        if_either (Both P) s.include_chat _ _ (send_full-Both P law.sending Topic.chat p s h) h
    handle-Both (Input.from_private p) s h = feed_payload-Both s.private_feed p s h
    handle-Both (Input.refresh w) s h = send_initial_market_state-Both P law.sending w s h
    handle-Both Input.elsewhere s h = law.counting s h

    pub run-Both : (is : List Input) (s : Stream) → P s → Both P (run accepts is s)
    unfolding run
    run-Both [] s h = h
    run-Both (i ∷ is) s h =
        bind-Both P (handle accepts i s) _ (handle-Both i s h) (λ t k. run-Both is t k)

  send-IsOrdered :
      (topic : Topic) (p : Payload) (s : Stream)
      → IsOrdered s
      → Both IsOrdered (send accepts topic p s)
  unfolding send
  send-IsOrdered topic p s h =
      let e : Envelope = record { topic = topic; payload = p; sequence = suc s.sequence } in
      if_either (Both IsOrdered) (accepts e) _ _
        (record {
          rising = Rises-append s.sent e h.rising (
              All-mono (λ (x : Envelope). x.sequence ≤ s.sequence)
                (λ (x : Envelope). x.sequence < suc s.sequence) s.sent (λ x le. omega (arith, le))
                h.counted);
          counted =
              All-append (λ (x : Envelope). x.sequence ≤ suc s.sequence) s.sent (e ∷ [])
                (bumped h).counted (omega arith, tt);
        })
        (bumped h)

  subscribe_private-IsOrdered :
      (o : Option String) (s : Stream) → IsOrdered s → IsOrdered (subscribe_private o s)
  unfolding subscribe_private
  subscribe_private-IsOrdered none s h =
      if_either IsOrdered (is_empty s.player_id) _ _ h
        (record { rising = h.rising; counted = h.counted })
  subscribe_private-IsOrdered (some p) s h = h

  -- Whatever requests, feeds and messages of other streams come in, the messages that the stream has
  -- sent carry numbers that rise, none of them past the counter, also where the stream has ended.
  pub run-IsOrdered :
      (is : List Input) (s : Stream) → IsOrdered s → Both IsOrdered (run accepts is s)
  run-IsOrdered = run-Both IsOrdered (record {
    sending = send-IsOrdered;
    asking = λ r s h. record { rising = h.rising; counted = h.counted };
    subscribing = λ s h. subscribe_private-IsOrdered s.private_feed s h;
    choosing = λ xs s h. record { rising = h.rising; counted = h.counted };
    counting = λ s h. bumped h;
  })

pub opened-IsOrdered : (n : ℕ) → IsOrdered (opened n)
unfolding opened Rises
opened-IsOrdered n = record { rising = tt; counted = tt }
