-- ===== src/Channels/Locked.antt =====
-- Payloads that are sent under the lock never meet a closed channel.
use ssh_arena.Prelude.{
  ℕ, ◌≤◌, ◌≡◌, refl, sym, ◌∙◌, subst, Bool, true, false, Option, none, some, List, [], ◌∷◌, ◌++◌,
  ltb, ◌==◌, if_true, if_false, if_cases, if_either, Bool-cases, inl, inr, length, length-append,
  arith,
}
use ssh_arena.Channels.{
  Channel, Hub, Event, subscribed, left, published, received, set_channel, delete_id, is_registered,
  subscribe, close, leave_if, leave, send_if, and_then, send, send_each, publish, rest_of, receive,
  step, run, new,
}

-- Registered channels are open, and no buffer is longer than the capacity.
pub record IsSound {A : Type 0} (h : Hub A) : Type 0 where
  pub opened : (id : ℕ) → is_registered id h.subscribers ≡ true → (h.channels id).is_open ≡ true
  pub bounded : (id : ℕ) → length (h.channels id).buffer ≤ h.capacity

-- No panic, and a sound hub of the same capacity.
abbrev pub Runs : {A : Type 0} → ℕ → Option (Hub A) → Type 0
Runs capacity none = ⊥
Runs capacity (some g) = IsSound g × (g.capacity ≡ capacity)

eq_id : (i j : ℕ) → (i == j) ≡ true → i ≡ j
eq_id i j e = ground (arith, e)

registered_append :
    (id n : ℕ) (ids : List ℕ)
    → is_registered id (ids ++ n ∷ []) ≡ true
    → (n == id) ≡ false
    → is_registered id ids ≡ true
unfolding is_registered
registered_append id n [] e other = sym (if_false true false other) ∙ e
registered_append id n (j ∷ js) e other = elim (Bool-cases (j == id)) [
  | inl same ↦ if_true _ _ same
  | inr differ ↦
      if_false _ _ differ ∙ registered_append id n js (sym (if_false _ _ differ) ∙ e) other
]

delete_id_other :
    (id j : ℕ) (ids : List ℕ)
    → is_registered j (delete_id id ids) ≡ true
    → ((j == id) ≡ false) × (is_registered j ids ≡ true)
unfolding is_registered delete_id
delete_id_other id j [] e = cc
delete_id_other id j (k ∷ ks) e = elim (Bool-cases (k == id)) [
  | inl same ↦
      let rest =
        delete_id_other id j ks (subst (λ l. is_registered j l ≡ true) (if_true _ _ same) e) in
      (rest.0, if_either (λ b. b ≡ true) (k == j) true _ refl rest.1)
  | inr other ↦
      let kept : is_registered j (k ∷ delete_id id ks) ≡ true =
        subst (λ l. is_registered j l ≡ true) (if_false _ _ other) e in
      elim (Bool-cases (k == j)) [
        | inl at ↦ (subst (λ i. (i == id) ≡ false) (eq_id k j at) other, if_true _ _ at)
        | inr apart ↦
            let rest = delete_id_other id j ks (sym (if_false _ _ apart) ∙ kept) in
            (rest.0, if_false _ _ apart ∙ rest.1)
      ]
]

module _ {A : Type 0} where
  -- What holds of the channel that is written, and of the others, holds of every channel.
  set_channel_cases :
      (P : Channel A → Type 0) (id : ℕ) (c : Channel A) (m : ℕ → Channel A) (j : ℕ)
      → (j ≡ id → P c)
      → ((j == id) ≡ false → P (m j))
      → P (set_channel id c m j)
  set_channel_cases P id c m j here there =
      if_cases P (j == id) c (m j) (λ e. here (eq_id j id e)) there

  pub subscribe-IsSound : (h : Hub A) → IsSound h → IsSound (subscribe h)
  unfolding subscribe
  subscribe-IsSound h s = record {
    opened = λ id e.
        set_channel_cases (λ c. c.is_open ≡ true) h.next_id _ h.channels id (λ same. refl)
          (λ other.
            s.opened id (registered_append id h.next_id h.subscribers e (ground (arith, other))));
    bounded = λ id.
        set_channel_cases (λ c. length c.buffer ≤ h.capacity) h.next_id _ h.channels id
          (λ same. omega arith) (λ other. s.bounded id);
  }

  close-Runs :
      (b : Bool) (id : ℕ) (h : Hub A)
      → b ≡ true
      → IsSound h
      → Runs h.capacity (close b id (record h { subscribers = delete_id id h.subscribers }))
  unfolding close
  close-Runs false id h e s = cc
  close-Runs true id h e s = (
    record {
      opened = λ j r.
          let other = delete_id_other id j h.subscribers r in
          set_channel_cases (λ c. c.is_open ≡ true) id _ h.channels j
            (λ same. absurd (ground (arith, other.0, same))) (λ apart. s.opened j other.1);
      bounded = λ j.
          set_channel_cases (λ c. length c.buffer ≤ h.capacity) id _ h.channels j
            (λ same. s.bounded id) (λ apart. s.bounded j);
    },
    refl,
  )

  leave_if-Runs :
      (b : Bool) (id : ℕ) (h : Hub A)
      → is_registered id h.subscribers ≡ b
      → IsSound h
      → Runs h.capacity (leave_if b id h)
  unfolding leave_if
  leave_if-Runs false id h e s = (s, refl)
  leave_if-Runs true id h e s = close-Runs _ id h (s.opened id e) s

  -- What a send leaves: no panic, and the same subscribers.
  abbrev Sent : Hub A → Option (Hub A) → Type 0
  Sent h none = ⊥
  Sent h (some g) = IsSound g × (g.capacity ≡ h.capacity) × (g.subscribers ≡ h.subscribers)

  sent_bound :
      (a : A) (c : Channel A) (n : ℕ)
      → ltb (length c.buffer) n ≡ true
      → length (c.buffer ++ a ∷ []) ≤ n
  sent_bound a c n e = ground (arith, e, length-append c.buffer (a ∷ []))

  send_if-Sent :
      (b : Bool) (a : A) (id : ℕ) (h : Hub A)
      → b ≡ true
      → (h.channels id).is_open ≡ true
      → IsSound h
      → Sent h (send_if b a id h)
  unfolding send_if
  send_if-Sent false a id h e opened s = cc
  send_if-Sent true a id h e opened s = (
    record {
      opened = λ j r.
          if_either (λ m. (m j).is_open ≡ true) (ltb (length (h.channels id).buffer) h.capacity) _
            h.channels
            (set_channel_cases (λ c. c.is_open ≡ true) id _ h.channels j (λ same. opened)
              (λ apart. s.opened j r))
            (s.opened j r);
      bounded = λ j.
          if_cases (λ m. length (m j).buffer ≤ h.capacity)
            (ltb (length (h.channels id).buffer) h.capacity) _ h.channels
            (λ room.
              set_channel_cases (λ c. length c.buffer ≤ h.capacity) id _ h.channels j
                (λ same. sent_bound a (h.channels id) h.capacity room) (λ apart. s.bounded j))
            (λ full. s.bounded j);
    },
    refl,
    refl,
  )

  Sent-Sent : (h g : Hub A) (o : Option (Hub A)) → Sent h (some g) → Sent g o → Sent h o
  Sent-Sent h g none s t = t
  Sent-Sent h g (some x) s t = (t.0, t.1 ∙ s.1, t.2 ∙ s.2)

  and_then-Sent :
      (h : Hub A) (o : Option (Hub A)) (k : Hub A → Option (Hub A))
      → Sent h o
      → ((g : Hub A) → IsSound g → g.subscribers ≡ h.subscribers → Sent g (k g))
      → Sent h (and_then o k)
  unfolding and_then
  and_then-Sent h none k s next = s
  and_then-Sent h (some g) k s next = Sent-Sent h g (k g) s (next g s.0 s.2)

  send_each-Sent :
      (a : A) (ids : List ℕ) (h : Hub A)
      → ((i : ℕ) → is_registered i ids ≡ true → is_registered i h.subscribers ≡ true)
      → IsSound h
      → Sent h (send_each a ids h)
  unfolding send_each send is_registered
  send_each-Sent a [] h known s = (s, refl, refl)
  send_each-Sent a (id ∷ ids) h known s =
      let opened =
        s.opened id
          (known id (if_true {b = id == id} true (is_registered id ids) (ground arith))) in
      and_then-Sent h (send a id h) (λ g. send_each a ids g) (send_if-Sent _ a id h opened opened s)
        (λ g sound same.
          send_each-Sent a ids g
            (λ i r.
              subst (λ l. is_registered i l ≡ true) (sym same)
                (known i (if_either (λ b. b ≡ true) (id == i) true _ refl r)))
            sound)

  Sent-Runs : (h : Hub A) (o : Option (Hub A)) → Sent h o → Runs h.capacity o
  Sent-Runs h none s = s
  Sent-Runs h (some g) s = (s.0, s.1)

  shorter : (xs : List A) (n : ℕ) → length xs ≤ n → length (rest_of xs) ≤ n
  unfolding rest_of
  shorter [] n h = h
  shorter (x ∷ xs) n h = omega (arith, h)

  receive-IsSound : (id : ℕ) (h : Hub A) → IsSound h → IsSound (receive id h)
  unfolding receive
  receive-IsSound id h s = record {
    opened = λ j r.
        set_channel_cases (λ c. c.is_open ≡ true) id _ h.channels j
          (λ same. subst (λ k. (h.channels k).is_open ≡ true) same (s.opened j r))
          (λ apart. s.opened j r);
    bounded = λ j.
        set_channel_cases (λ c. length c.buffer ≤ h.capacity) id _ h.channels j
          (λ same. shorter _ h.capacity (s.bounded id)) (λ apart. s.bounded j);
  }

  step-Runs : (e : Event A) (h : Hub A) → IsSound h → Runs h.capacity (step e h)
  unfolding step leave publish receive subscribe
  step-Runs subscribed h s = (subscribe-IsSound h s, refl)
  step-Runs (left id) h s = leave_if-Runs _ id h refl s
  step-Runs (published a) h s = Sent-Runs h _ (send_each-Sent a h.subscribers h (λ i r. r) s)
  step-Runs (received id) h s = (receive-IsSound id h s, refl)

  and_then-Runs :
      (capacity : ℕ) (o : Option (Hub A)) (k : Hub A → Option (Hub A))
      → Runs capacity o
      → ((g : Hub A) → IsSound g → Runs g.capacity (k g))
      → Runs capacity (and_then o k)
  unfolding and_then
  and_then-Runs capacity none k r next = r
  and_then-Runs capacity (some g) k r next = subst (λ n. Runs n (k g)) r.1 (next g r.0)

  -- Whatever the subscribers, the publishers and the goroutines of the subscriptions do in turn, no
  -- send and no close meets a closed channel, and no buffer grows beyond the capacity.
  pub run-Runs : (es : List (Event A)) (h : Hub A) → IsSound h → Runs h.capacity (run es h)
  unfolding run
  run-Runs [] h s = (s, refl)
  run-Runs (e ∷ es) h s =
      and_then-Runs h.capacity (step e h) (λ g. run es g) (step-Runs e h s) (λ g t. run-Runs es g t)

  -- A hub without subscribers is sound.
  pub new-IsSound : (capacity : ℕ) → IsSound (new {A = A} capacity)
  unfolding new is_registered
  new-IsSound capacity = record { opened = λ id e. cc; bounded = λ id. omega arith }
