-- ===== src/Channels/Unlocked.antt =====
-- `emitTick` of internal/charting/engine.go copies the subscriptions under the lock and sends after
-- it has given the lock back.
use ssh_arena.Prelude.{
  ℕ, ◌≡◌, refl, sym, ap, subst, Bool, true, false, Option, none, some, List, [], ◌∷◌, ◌==◌, if_true,
  arith,
}
use ssh_arena.Channels.{
  Channel, Hub, Event, left, delete_id, is_registered, close, leave_if, leave, send_if, send,
  and_then, send_each, step, run,
}
use ssh_arena.Channels.Locked.{IsSound}

-- The subscriptions are copied, the others do `es`, and then the payload is sent to the copies.
unfoldable pub emit_around : {A : Type 0} → List (Event A) → A → Hub A → Option (Hub A)
unfolding and_then run send_each
emit_around es a h = and_then (run es h) (λ g. send_each a h.subscribers g)

module _ {A : Type 0} (a : A) (id : ℕ) (ids : List ℕ) where
  refused :
      (b : Bool) (h : Hub A) (k : Hub A → Option (Hub A))
      → b ≡ false
      → and_then (send_if b a id h) k ≡ none
  unfolding and_then send_if
  refused false h k e = refl
  refused true h k e = cc

  closed_send :
      (b : Bool) (h : Hub A)
      → b ≡ true
      → and_then (and_then (close b id h) (λ g. some g)) (λ g. send_each a (id ∷ ids) g) ≡ none
  unfolding close and_then send_each send
  closed_send false h e = cc
  closed_send true h e =
      refused _ _ (λ g. send_each a ids g)
        (ap (λ (c : Channel A). c.is_open) (if_true {b = id == id} _ _ (ground arith)))

  left_send :
      (b : Bool) (h : Hub A)
      → b ≡ true
      → (h.channels id).is_open ≡ true
      → and_then (and_then (leave_if b id h) (λ g. some g)) (λ g. send_each a (id ∷ ids) g) ≡ none
  unfolding leave_if
  left_send false h e opened = cc
  left_send true h e opened =
      closed_send _ (record h { subscribers = delete_id id h.subscribers }) opened

  -- If the context of the first subscriber is done after the subscriptions were copied and before
  -- the payload is sent, the send meets a closed channel and the program panics, for every sound hub.
  pub emit_around_panics :
      (h : Hub A) → IsSound h → h.subscribers ≡ id ∷ ids → emit_around (left id ∷ []) a h ≡ none
  unfolding emit_around run step leave is_registered
  emit_around_panics h s listed =
      let known : is_registered id h.subscribers ≡ true =
        subst (λ l. is_registered id l ≡ true) (sym listed)
          (if_true {b = id == id} true (is_registered id ids) (ground arith)) in
      subst
        (λ l.
          and_then (and_then (leave_if (is_registered id h.subscribers) id h) (λ g. some g))
            (λ g. send_each a l g)
          ≡ none)
        (sym listed) (left_send _ h known (s.opened id known))
