-- ===== src/Gameplay/Actions/Locking.antt =====
-- When an action waits for the lock that it holds itself.
use ssh_arena.Prelude.{
  ◌≡◌, refl, sym, ap, ◌∙◌, subst, ◌⊎◌, inl, inr, ℕ, String, true, false, Option, none, some, List,
  ltb, Option-cases,
}
use ssh_arena.Prelude.Int.{sub64, ltb_ℤ}
use ssh_arena.Prelude.Outcome.{Outcome}
use ssh_arena.Prelude.Float.{Float}
use ssh_arena.State.Player.{Player, Players, get_by_player_id}
use ssh_arena.State.ChatStore.{ChatMessage}
use ssh_arena.MarketEvents.{PlannedEvent}
use ssh_arena.Gameplay.Accounts.{GameError}
use ssh_arena.Gameplay.Orders.{World}
use ssh_arena.Gameplay.Notices.{Locked, free, held, and_then, unlock, notify_player}
use ssh_arena.Gameplay.Sessions.{Game}
use ssh_arena.Gameplay.IntelBuy as Intel
use ssh_arena.Gameplay.Actions.{
  Action, place_order, cancel_order, get_portfolio, market_catalog, intel_catalog, unsupported,
  send_message, market_snapshot, exchange_grant, buy_intel, trade_history, show_leaderboard, Reply,
  Result, preview_of, purchase_preview, deliver, buy_under_lock, perform, execute_action,
}
use ssh_arena.Intel.Feeds.{
  Kind, insider, paid_analytics, rumor, fake_news, other, Definition, Scheduled, is_insider,
  is_sold, is_member, to_item, quote, IntelError, CatalogItem,
}
use ssh_arena.Intel.Feeds as Feeds
use ssh_arena.Intel.Access.{is_early}
use ssh_arena.Intel.Shop.Immediate.{buy_previewed}

-- The action is the purchase of a feed from an engine that is attached, whose preview is due at once.
abbrev pub Waits : {F R : Type 0} → Intel.World → String → Action → Game F R → Type 0
Waits iw player_id a g = elim a [
  | buy_intel id ↦
      (e : Feeds.Engine) × (ev : PlannedEvent) × (g.intel ≡ some e)
      × (purchase_preview iw player_id id g.orders.players e ≡ some ev)
  | _ ↦ ⊥
]

kind_sold :
    (k : Kind)
    → elim k [ insider ↦ true | _ ↦ false ] ≡ true
    → elim k [ insider ↦ true | paid_analytics ↦ true | _ ↦ false ] ≡ true
kind_sold insider h = refl
kind_sold paid_analytics h = refl
kind_sold rumor h = cc
kind_sold fake_news h = cc
kind_sold other h = cc

sold : (d : Definition) → is_insider d ≡ true → is_sold d ≡ true
sold d h = kind_sold d.kind h

purchase_preview_lem :
    (iw : Intel.World) (player_id id : String) (ps : Players) (e : Feeds.Engine) (p : Player)
    (d : Definition) (s : Scheduled)
    → get_by_player_id player_id ps ≡ some p
    → e.defs id ≡ some d
    → is_insider d ≡ true
    → e.next_event ≡ some s
    → ltb iw.now s.event.scheduled_at ≡ true
    → is_member p.player_id s.buyers ≡ false
    → is_early iw.now d s.event ≡ false
    → ltb_ℤ (sub64 p.cash p.reserved_cash) d.price ≡ false
    → iw.written ≡ true
    → purchase_preview iw player_id id ps e ≡ some s.event
unfolding purchase_preview quote preview_of
purchase_preview_lem iw player_id id ps e p d s known found is_feed planned ahead new due rich
      written =
    rw (
      purchase_preview,
      known,
      quote,
      found,
      sold d is_feed,
      rich,
      written,
      buy_previewed iw.has_chart iw.index iw.tickers iw.now p.player_id id d e s found is_feed
          planned ahead new due,
    )

-- Code under the lock waits, if there is a preview to send, and comes to its end otherwise.
abbrev Purchased {ℓ} : {A : Type ℓ} → Option PlannedEvent → Locked A → Type ℓ
Purchased none r = (a : _) × (r ≡ (held, some a))
Purchased (some ev) r = r ≡ (held, none)

delivered {ℓ} :
    {A : Type ℓ} (render_preview : String → PlannedEvent → ℕ → String) (now : ℕ)
    (player_id id : String) (history : String → List String) (k : (String → List String) → A)
    (o : Option PlannedEvent)
    → Purchased o
        (and_then (deliver render_preview now player_id id o history held) (λ h y. (y, some (k h))))
unfolding deliver notify_player
delivered render_preview now player_id id history k none = (k history, refl)
delivered render_preview now player_id id history k (some ev) = refl

module _ {F R : Type 0} ⦃f : Float F⦄ (render_preview : String → PlannedEvent → ℕ → String)
    (w : World) (iw : Intel.World) (player_id id : String) (g : Game F R) where
  pub buy_under_lock-Purchased :
      (e : Feeds.Engine)
      → Purchased
          (purchase_preview iw player_id id g.orders.players e)
          (buy_under_lock render_preview w iw player_id id g (some e) held)
  unfolding buy_under_lock
  buy_under_lock-Purchased e =
      delivered render_preview iw.now player_id id g.private_history _
        (purchase_preview iw player_id id g.orders.players e)

  -- The preview that is due with an engine that may be attached.
  abbrev engine_preview : Option Feeds.Engine → Option PlannedEvent
  engine_preview none = none
  engine_preview (some e) = purchase_preview iw player_id id g.orders.players e

  -- A purchase under the lock waits, or it has an answer.
  purchase_cases :
      (o : Option Feeds.Engine)
      → g.intel ≡ o
      → (Waits iw player_id (buy_intel id) g
          × (buy_under_lock render_preview w iw player_id id g o held ≡ (held, none)))
        ⊎ ((¬ Waits iw player_id (buy_intel id) g)
            × (r : Game F R × Outcome GameError (Reply F)) × (buy_under_lock render_preview w iw
                  player_id id g o held
                ≡ (held, some r)))
  unfolding buy_under_lock
  purchase_cases none here = inr (λ (e, ev, attached, due). cc (here, attached), _, refl)
  purchase_cases (some e) here =
      let done = buy_under_lock-Purchased e in
      let preview = purchase_preview iw player_id id g.orders.players e in
      elim (Option-cases preview) [
        | inl due ↦
            let answer =
              subst
                (λ o. Purchased o (buy_under_lock render_preview w iw player_id id g (some e) held))
                due done in
            inr (
              λ (e', ev, attached, due').
                  let same : some e ≡ some e' = sym here ∙ attached in
                  cc (ap (λ o. engine_preview o) same, due, due'),
              answer.0,
              answer.1,
            )
        | inr (ev, due) ↦ inl (
          (e, ev, here, due),
          subst (λ o. Purchased o (buy_under_lock render_preview w iw player_id id g (some e) held))
              due done,
        )
      ]

module _ {F R : Type 0} ⦃f : Float F⦄ (encode : ChatMessage → String)
    (render_preview : String → PlannedEvent → ℕ → String) where
  -- From a free lock, an action waits for itself and keeps the lock, or it has an answer and gives the
  -- lock back.
  pub execute_action_cases :
      (w : World) (iw : Intel.World) (request_id player_id : String) (a : Action) (g : Game F R)
      → (Waits iw player_id a g
          × (execute_action encode render_preview w iw request_id player_id a g free
              ≡ (held, none)))
        ⊎ ((¬ Waits iw player_id a g)
            × (r : Game F R × Outcome GameError (Reply F)) × (execute_action encode render_preview w
                  iw request_id player_id a g free
                ≡ (free, some r)))
  unfolding execute_action perform
  execute_action_cases w iw request_id player_id (place_order q) g = inr (λ h. h, _, refl)
  execute_action_cases w iw request_id player_id (cancel_order symbol id) g = inr (λ h. h, _, refl)
  execute_action_cases w iw request_id player_id get_portfolio g = inr (λ h. h, _, refl)
  execute_action_cases w iw request_id player_id market_catalog g = inr (λ h. h, _, refl)
  execute_action_cases w iw request_id player_id intel_catalog g = inr (λ h. h, _, refl)
  execute_action_cases w iw request_id player_id unsupported g = inr (λ h. h, _, refl)
  execute_action_cases w iw request_id player_id (send_message body to) g = inr (λ h. h, _, refl)
  execute_action_cases w iw request_id player_id (market_snapshot symbol) g = inr (λ h. h, _, refl)
  execute_action_cases w iw request_id player_id (exchange_grant token) g = inr (λ h. h, _, refl)
  execute_action_cases w iw request_id player_id (trade_history q) g = inr (λ h. h, _, refl)
  execute_action_cases w iw request_id player_id (show_leaderboard window limit) g =
      inr (λ h. h, _, refl)
  execute_action_cases w iw request_id player_id (buy_intel id) g =
      elim (purchase_cases render_preview w iw player_id id g g.intel refl) [
        | inl (waits, e) ↦ inl (waits, ap unlock e)
        | inr (goes, r, e) ↦ inr (goes, r, ap unlock e)
      ]

  -- Buying a feed of the insider kind, with the lock free before, never comes back, and neither does
  -- any action of any player after it, if the player is known and has the price free, the store can
  -- be written, and an event is planned that lies ahead, that the player is not armed for, and whose
  -- preview is due.
  pub execute_action_deadlocks :
      (w : World) (iw : Intel.World) (request_id player_id id : String) (g : Game F R)
      (e : Feeds.Engine) (p : Player) (d : Definition) (s : Scheduled)
      → g.intel ≡ some e
      → get_by_player_id player_id g.orders.players ≡ some p
      → e.defs id ≡ some d
      → is_insider d ≡ true
      → e.next_event ≡ some s
      → ltb iw.now s.event.scheduled_at ≡ true
      → is_member p.player_id s.buyers ≡ false
      → is_early iw.now d s.event ≡ false
      → ltb_ℤ (sub64 p.cash p.reserved_cash) d.price ≡ false
      → iw.written ≡ true
      → let r =
          execute_action encode render_preview w iw request_id player_id (buy_intel id) g free in
        (r.1 ≡ none)
        × ((w' : World) (iw' : Intel.World) (later_id other_id : String) (a : Action)
              (g' : Game F R)
            → execute_action encode render_preview w' iw' later_id other_id a g' r.0 ≡ (held, none))
  unfolding execute_action perform
  execute_action_deadlocks w iw request_id player_id id g e p d s attached known found is_feed
        planned ahead new due rich written =
      let preview =
        purchase_preview_lem iw player_id id g.orders.players e p d s known found is_feed planned
          ahead new due rich written in
      let waits =
        subst (λ o. buy_under_lock render_preview w iw player_id id g o held ≡ (held, none))
          (sym attached)
          (subst
            (λ o. Purchased o (buy_under_lock render_preview w iw player_id id g (some e) held))
            preview (buy_under_lock-Purchased render_preview w iw player_id id g e)) in
      subst
        (λ (r : Result F R).
          (r.1 ≡ none)
          × ((w' : World) (iw' : Intel.World) (later_id other_id : String) (a : Action)
                (g' : Game F R)
              → execute_action encode render_preview w' iw' later_id other_id a g' r.0
                ≡ (held, none)))
        (sym (ap unlock waits)) (refl, λ w' iw' later_id other_id a g'. refl)
