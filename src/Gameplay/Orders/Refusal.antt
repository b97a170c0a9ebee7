-- ===== src/Gameplay/Orders/Refusal.antt =====
-- What is left when the market refuses an order.
use ssh_arena.Prelude.Float.{Float}
use ssh_arena.Prelude.{Option, ◌≡◌, sym, ◌∙◌, subst, String, inl, inr}
use ssh_arena.Prelude.Int.{ℤ}
use ssh_arena.Prelude.Outcome.{Outcome, ok, err}
use ssh_arena.OrderBook.Types.{Side}
use ssh_arena.Exchange.Service.{ExchangeError, place_order}
use ssh_arena.State.Player.{Player, set_player}
use ssh_arena.Gameplay.Accounts.{
  GameError, exchange_failed, Reservation, reserve_for_incoming, release_incoming_reservation,
}
use ssh_arena.Gameplay.Accounts.Reserving.{
  IsAmount, SameAccount, Answer, reserve_for_incoming-Answer,
}
use ssh_arena.Gameplay.Orders.{Engine, World, PlaceOrderPayload, to_input, submit}

same_reservation :
    {r s : Reservation} → ◌≡◌ {A = Outcome GameError Reservation} (ok r) (ok s) → r ≡ s
same_reservation e = cc

Answer-released :
    (side : Side) (symbol : String) (p : Player) (o : Outcome GameError Reservation)
    (s : Reservation)
    → Answer side symbol p o
    → o ≡ ok s
    → SameAccount (release_incoming_reservation symbol side s.cash s.quantity s.player) p
unfolding Answer
Answer-released side symbol p o s (inl (x, e)) h = cc
Answer-released side symbol p o s (inr (r, e, covered, same)) h =
    subst (λ z. SameAccount (release_incoming_reservation symbol side z.cash z.quantity z.player) p)
      (same_reservation (sym e ∙ h)) same

-- Where the market refuses an order after its reservation, for reserved amounts that are int64 values
-- and not negative, the request fails, the open orders are as they were, and the player that is
-- stored in the end has the balances and reservations from before the request.
pub submit-SameAccount :
    {F : Type 0} ⦃f : Float F⦄ (w : World) (request_id : String) (q : PlaceOrderPayload)
    (e : Engine F) (quoted : Option ℤ) (p : Player) (res : Reservation) (x : ExchangeError)
    → IsAmount p.reserved_cash
    → IsAmount (p.reserved_stocks q.symbol)
    → reserve_for_incoming quoted p q.symbol q.side q.kind q.price q.quantity ≡ ok res
    → (place_order w.cached w.now w.fresh (to_input request_id q res.player) e.records.market).1
      ≡ err x
    → ((submit w request_id q res e).1 ≡ err exchange_failed)
      × ((submit w request_id q res e).0.open_orders ≡ e.open_orders)
      × (back : Player) × SameAccount back p
      × ((submit w request_id q res e).0.players
          ≡ set_player back.username back (set_player res.player.username res.player e.players))
unfolding submit
submit-SameAccount w request_id q e quoted p res x cash stocks reserved refused =
    let back = release_incoming_reservation q.symbol q.side res.cash res.quantity res.player in
    let same =
      Answer-released q.side q.symbol p _ res
        (reserve_for_incoming-Answer quoted p q.symbol q.side q.kind q.price q.quantity cash stocks)
        reserved in
    (rw (submit, refused), rw (submit, refused), back, same, rw (submit, refused))
