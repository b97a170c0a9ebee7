-- ===== src/Intel/Access/Delivery.antt =====
-- Insider access: bought once for an event, and delivered.
use ssh_arena.Prelude.{
  ℕ, ◌≡◌, refl, sym, ap, ◌∙◌, subst, String, true, false, ltb, Option, none, some, List, [], ◌∷◌,
  ◌==◌, Bool-cases, inl, inr, arith,
}
use ssh_arena.Prelude.Text.{str_eq_refl}
use ssh_arena.Prelude.Outcome.{ok, err}
use ssh_arena.MarketEvents.{PlannedEvent}
use ssh_arena.Intel.Feeds.{
  Definition, already_armed, Scheduled, Engine, is_member, insider_definition,
}
use ssh_arena.Intel.Access.{
  Preview, previewed, is_early, current_event, buy_ahead, buy_scheduled, buy_at, buy_insider,
  schedule_for, schedule_next, mark_sent, send_to, prepare_for, prepare_preview,
}

-- The players who wait for the planned event, or for the next if none is planned.
waiting : Option Scheduled → List String → List String
waiting none pending = pending
waiting (some s) pending = s.buyers

pub IsArmed : String → Engine → Type 0
unfolding waiting
IsArmed p e = is_member p (waiting e.next_event e.pending) ≡ true

is_member-head : (p : String) (ps : List String) → is_member p (p ∷ ps) ≡ true
is_member-head p ps = rw (str_eq_refl p)

buy_at-IsArmed :
    (now : ℕ) (p : String) (d : Definition) (e : Engine) (o : Option Scheduled)
    → IsArmed p (buy_at now p d e o).0
unfolding IsArmed waiting buy_at buy_ahead buy_scheduled
buy_at-IsArmed now p d e none = elim (Bool-cases (is_member p e.pending)) [
  | inl old ↦ rw (old, old)
  | inr fresh ↦ rw fresh (is_member-head p e.pending)
]
buy_at-IsArmed now p d e (some s) = elim (Bool-cases (is_member p s.buyers)) [
  | inl old ↦ rw (old, old)
  | inr fresh ↦ rw fresh (is_member-head p s.buyers)
]

buy_at-refused :
    (now : ℕ) (p : String) (d : Definition) (e : Engine) (o : Option Scheduled)
    → e.next_event ≡ o
    → IsArmed p e
    → (buy_at now p d e o).1 ≡ err already_armed
unfolding IsArmed waiting buy_at buy_ahead buy_scheduled
buy_at-refused now p d e none here armed =
    let old : is_member p e.pending ≡ true =
      subst (λ o. is_member p (waiting o e.pending) ≡ true) here armed in
    rw old
buy_at-refused now p d e (some s) here armed =
    let old : is_member p s.buyers ≡ true =
      subst (λ o. is_member p (waiting o e.pending) ≡ true) here armed in
    rw old

-- Whatever the first purchase of insider access answers, the player is armed afterwards, and until
-- the planned event, if there is one, has passed, another purchase is refused.
pub buy_insider-Once :
    (now later : ℕ) (p : String) (d d' : Definition) (e : Engine)
    → current_event later (buy_insider now p d e).0.next_event
      ≡ (buy_insider now p d e).0.next_event
    → IsArmed p (buy_insider now p d e).0
      × ((buy_insider later p d' (buy_insider now p d e).0).1 ≡ err already_armed)
unfolding buy_insider
buy_insider-Once now later p d d' e ahead =
    let e' = (buy_insider now p d e).0 in
    let armed = buy_at-IsArmed now p d e (current_event now e.next_event) in
    (armed, buy_at-refused later p d' e' (current_event later e'.next_event) (sym ahead) armed)

prepare_for-sent :
    (id : ℕ) (now later : ℕ) (e : Engine) (c : Option Definition) (s : Scheduled)
    → s.preview_sent ≡ true
    → (prepare_for id later e c (some s)).1 ≡ none
unfolding prepare_for
prepare_for-sent id now later e none s sent = refl
prepare_for-sent id now later e (some d) s sent = elim (Bool-cases (s.event.id == id)) [
  | inl same ↦ rw (same, sent)
  | inr apart ↦ rw apart
]

-- A preview that is due and has buyers.
deliver :
    (id now : ℕ) (e : Engine) (d : Definition) (s : Scheduled) (b : String) (bs : List String)
    → (s.event.id == id) ≡ true
    → s.preview_sent ≡ false
    → is_early now d s.event ≡ false
    → s.buyers ≡ b ∷ bs
    → prepare_for id now e (some d) (some s)
      ≡ (mark_sent s e, some (record { event = s.event; recipients = b ∷ bs }))
unfolding prepare_for send_to
deliver id now e d s b bs same unsent due bought = rw (same, unsent, due, bought)

abbrev scheduled : PlannedEvent → Engine → Scheduled
scheduled ev e = record { event = ev; buyers = e.pending; preview_sent = false }

schedule_next_lem :
    (ev : PlannedEvent) (e : Engine) (d : Definition)
    → insider_definition e.ordered_defs ≡ some d
    → schedule_next ev e ≡ record e { pending = []; next_event = some (scheduled ev e) }
unfolding schedule_next schedule_for
schedule_next_lem ev e d found = rw found

-- The preview goes to a player, and only once.
pub Delivered : String → PlannedEvent → ℕ → Engine × Option Preview → Type 0
Delivered p ev later r =
    ((v : Preview) × (r.1 ≡ some v) × (v.event ≡ ev) × (is_member p v.recipients ≡ true))
    × ((prepare_preview ev.id later r.0).1 ≡ none)

prepare_for-Delivered :
    (p : String) (ev : PlannedEvent) (now later : ℕ) (e : Engine) (d : Definition) (s : Scheduled)
    (ps : List String)
    → s.event ≡ ev
    → s.preview_sent ≡ false
    → is_early now d s.event ≡ false
    → s.buyers ≡ ps
    → is_member p ps ≡ true
    → Delivered p ev later (prepare_for ev.id now e (some d) (some s))
unfolding Delivered prepare_preview mark_sent
prepare_for-Delivered p ev now later e d s [] here unsent due bought armed = cc
prepare_for-Delivered p ev now later e d s (b ∷ bs) here unsent due bought armed =
    let same : (s.event.id == ev.id) ≡ true = ap (λ x. x.id == ev.id) here ∙ ground arith in
    let sent = deliver ev.id now e d s b bs same unsent due bought in
    subst (Delivered p ev later) (sym sent) (
      (record { event = s.event; recipients = b ∷ bs }, refl, here, armed),
      prepare_for-sent ev.id now later (mark_sent s e) (insider_definition e.ordered_defs)
          (record s { preview_sent = true }) refl,
    )

-- If there is an insider feed, and the preview of a planned event is due when it is registered, then
-- it goes to every player who had armed for the next event, and no later attempt sends it again.
pub schedule_next-Delivered :
    (p : String) (ev : PlannedEvent) (now later : ℕ) (e : Engine) (d : Definition)
    → insider_definition e.ordered_defs ≡ some d
    → is_member p e.pending ≡ true
    → is_early now d ev ≡ false
    → Delivered p ev later (prepare_preview ev.id now (schedule_next ev e))
unfolding prepare_preview
schedule_next-Delivered p ev now later e d found armed due =
    let e' : Engine = record e { pending = []; next_event = some (scheduled ev e) } in
    let r =
      prepare_for-Delivered p ev now later e' d (scheduled ev e) e.pending refl refl due refl
        armed in
    subst (λ x. Delivered p ev later (prepare_preview ev.id now x))
      (sym (schedule_next_lem ev e d found))
      (subst (λ c. Delivered p ev later (prepare_for ev.id now e' c (some (scheduled ev e))))
        (sym found) r)

-- A player who is not armed for the planned event gets its preview with the purchase, if it is due.
pub buy_insider_previewed :
    (now : ℕ) (player_id : String) (d : Definition) (e : Engine) (s : Scheduled)
    → e.next_event ≡ some s
    → ltb now s.event.scheduled_at ≡ true
    → is_member player_id s.buyers ≡ false
    → is_early now d s.event ≡ false
    → (buy_insider now player_id d e).1 ≡ ok (previewed s.event)
unfolding buy_insider buy_at buy_scheduled
buy_insider_previewed now player_id d e s planned ahead new due = rw (planned, ahead, new, due)
