-- ===== src/Channels.antt =====
-- Subscribers' channels: `Subscribe` and `publishLocked` of internal/exchange/service.go, which
-- internal/chat/chat_service.go and internal/gameplay/intel_support.go repeat with other capacities,
-- and the sends of internal/charting/engine.go, which come after the lock is given back.
-- A Go channel that is closed panics on a send and on a second close: `none`.
use ssh_arena.Prelude.{
  ℕ, suc, ◌+◌, Bool, true, false, Option, none, some, List, [], ◌∷◌, ◌++◌, ltb, ◌==◌, if◌then◌else◌,
  length,
}
pub mod Locked
pub mod Unlocked
mod Tests

pub record Channel (A : Type 0) : Type 0 where
  pub is_open : Bool
  pub buffer : List A

-- `subscribers` are the registered ids; `channels` reads as a closed one before a channel is made.
pub record Hub (A : Type 0) : Type 0 where
  pub capacity : ℕ
  pub next_id : ℕ
  pub subscribers : List ℕ
  pub channels : ℕ → Channel A

unfoldable pub delete_id : ℕ → List ℕ → List ℕ
delete_id id [] = []
delete_id id (j ∷ js) = let rest = delete_id id js in if j == id then rest else j ∷ rest

unfoldable pub is_registered : ℕ → List ℕ → Bool
is_registered id [] = false
is_registered id (j ∷ js) = if j == id then true else is_registered id js

module _ {A : Type 0} where
  abbrev pub set_channel : ℕ → Channel A → (ℕ → Channel A) → ℕ → Channel A
  set_channel id c m j = if j == id then c else m j

  -- The part of `Subscribe` under the lock.
  unfoldable pub subscribe : Hub A → Hub A
  subscribe h = record h {
    next_id = suc h.next_id;
    subscribers = h.subscribers ++ h.next_id ∷ [];
    channels = set_channel h.next_id (record { is_open = true; buffer = [] }) h.channels;
  }

  -- `close(ch)`, on whether the channel is open.
  unfoldable pub close : Bool → ℕ → Hub A → Option (Hub A)
  close false id h = none
  close true id h =
      let c = h.channels id in
      some (record h { channels = set_channel id (record c { is_open = false }) h.channels })

  unfoldable pub leave_if : Bool → ℕ → Hub A → Option (Hub A)
  unfolding close
  leave_if false id h = some h
  leave_if true id h =
      close (h.channels id).is_open id (record h { subscribers = delete_id id h.subscribers })

  -- The goroutine of a subscription, once its context is done: it runs once for each registration.
  unfoldable pub leave : ℕ → Hub A → Option (Hub A)
  unfolding is_registered delete_id leave_if
  leave id h = leave_if (is_registered id h.subscribers) id h

  unfoldable pub send_if : Bool → A → ℕ → Hub A → Option (Hub A)
  send_if false a id h = none
  send_if true a id h =
      let c = h.channels id in
      let sent : Channel A = record c { buffer = c.buffer ++ a ∷ [] } in
      some (record h {
        channels =
            if ltb (length c.buffer) h.capacity then set_channel id sent h.channels else h.channels;
      })

  -- `select { case ch <- payload: default: }`.
  unfoldable pub send : A → ℕ → Hub A → Option (Hub A)
  unfolding send_if
  send a id h = send_if (h.channels id).is_open a id h

  unfoldable pub and_then : Option (Hub A) → (Hub A → Option (Hub A)) → Option (Hub A)
  and_then none k = none
  and_then (some g) k = k g

  unfoldable pub send_each : A → List ℕ → Hub A → Option (Hub A)
  unfolding send and_then
  send_each a [] h = some h
  send_each a (id ∷ ids) h = and_then (send a id h) (λ g. send_each a ids g)

  -- `publishLocked`.
  unfoldable pub publish : A → Hub A → Option (Hub A)
  unfolding send_each
  publish a h = send_each a h.subscribers h

  unfoldable pub rest_of : List A → List A
  rest_of [] = []
  rest_of (a ∷ rest) = rest

  -- A subscriber takes the oldest payload of its channel, if there is one.
  unfoldable pub receive : ℕ → Hub A → Hub A
  unfolding rest_of
  receive id h =
      let c = h.channels id in
      record h { channels = set_channel id (record c { buffer = rest_of c.buffer }) h.channels }

-- What the goroutines do in turn; each event is one stretch under the lock, or one receive.
pub data Event (A : Type 0) : Type 0 where
  subscribed : Event A
  left : ℕ → Event A
  published : A → Event A
  received : ℕ → Event A

unfoldable pub step : {A : Type 0} → Event A → Hub A → Option (Hub A)
step subscribed h = some (subscribe h)
step (left id) h = leave id h
step (published a) h = publish a h
step (received id) h = some (receive id h)

unfoldable pub run : {A : Type 0} → List (Event A) → Hub A → Option (Hub A)
unfolding step and_then
run [] h = some h
run (e ∷ es) h = and_then (step e h) (λ g. run es g)

-- A hub without subscribers.
unfoldable pub new : {A : Type 0} → ℕ → Hub A
new capacity = record {
  capacity = capacity;
  next_id = 0;
  subscribers = [];
  channels = λ id. record { is_open = false; buffer = [] };
}
