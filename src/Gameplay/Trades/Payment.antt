-- ===== src/Gameplay/Trades/Payment.antt =====
-- What a settled trade does to every player's cash.
use ssh_arena.Prelude.{◌≡◌, refl, ap, ◌∙◌, String, Option, none, some, if_either}
use ssh_arena.Prelude.Int.{ℤ, pos, add64, sub64, mul64, is_positive}
use ssh_arena.Prelude.Text.{str_eq}
use ssh_arena.Prelude.Outcome.{ok}
use ssh_arena.OrderBook.Types.{Trade}
use ssh_arena.State.Player.{Player}
use ssh_arena.Gameplay.Fees.{estimate_rapid_flip_tax}
use ssh_arena.Gameplay.Lots.{consume_lots_for_sale, add_acquired_lot}
use ssh_arena.Gameplay.Accounts.{release_cash, release_stock}
use ssh_arena.Gameplay.Desk.{OpenOrder, Desk, lookup, change, change_player, change_order}
use ssh_arena.Gameplay.Trades.{
  cost, buyer_pays, seller_gets, debit_buyer, credit_seller, Settling, settle_buy, settle_sell,
  settle_open_buy, settle_open_sell, taxed_quantity, settle_trade, touch_both, apply_trade,
}
use ssh_arena.Gameplay.Trades.Cash.{cash_of, at_player, cash_of-change, cash_of-change_same}

sell_lots-cash :
    (t : Trade) (p : Player)
    → (consume_lots_for_sale t.symbol (pos t.quantity) t.executed_at p).1.cash ≡ p.cash
unfolding consume_lots_for_sale
sell_lots-cash t p =
    if_either {A = ℤ × Player} (λ r. r.1.cash ≡ p.cash) (is_positive (pos t.quantity)) _ _ refl refl

debit-cash :
    (t : Trade) (total : ℤ) (p : Player) → (debit_buyer t total p).cash ≡ sub64 p.cash total
unfolding debit_buyer add_acquired_lot
debit-cash t total p =
    if_either {A = Player} (λ q. q.cash ≡ sub64 p.cash total) (is_positive (pos t.quantity)) _ _
      refl refl

-- Settling leaves everyone's cash as it was.
KeepsCash : String → Settling → Settling → Type 0
KeepsCash who s r = cash_of who r.desk.touched ≡ cash_of who s.desk.touched

if_open :
    (who : String) (s r : Settling) (o : Option OpenOrder)
    → KeepsCash who s r
    → KeepsCash who s (elim o as (λ _. Settling) [ none ↦ s | some x ↦ r ])
unfolding KeepsCash
if_open who s r none h = refl
if_open who s r (some x) h = h

settle_buy-KeepsCash :
    (t : Trade) (id : String) (total : ℤ) (s : Settling) (who : String)
    → KeepsCash who s (settle_buy t id total s)
unfolding KeepsCash settle_buy settle_open_buy change_player change_order release_cash
settle_buy-KeepsCash t id total s who =
    let same = cash_of-change_same t.buyer_id (release_cash total) who s.desk.touched (λ p. refl) in
    if_either {A = Settling} (KeepsCash who s) (str_eq t.buy_order_id id) _ _ same
      (if_open who s (settle_open_buy t total s) (lookup t.buy_order_id s.desk.open_orders) same)

settle_sell-KeepsCash :
    (t : Trade) (id : String) (s : Settling) (who : String) → KeepsCash who s (settle_sell t id s)
unfolding KeepsCash settle_sell settle_open_sell change_player change_order release_stock
settle_sell-KeepsCash t id s who =
    let same =
      cash_of-change_same t.seller_id (release_stock t.symbol (pos t.quantity)) who s.desk.touched
        (λ p. refl) in
    if_either {A = Settling} (KeepsCash who s) (str_eq t.sell_order_id id) _ _ same
      (if_open who s (settle_open_sell t s) (lookup t.sell_order_id s.desk.open_orders) same)

-- What the buyer pays and the seller gets, from the trade and the state before it.
pub payment : Trade → String → Settling → ℤ
payment t id s = buyer_pays (str_eq t.buy_order_id id) s.incoming.order.kind (cost t)

pub income : Trade → String → Settling → ℤ
income t id s =
    seller_gets (str_eq t.sell_order_id id) s.incoming.order.kind (cost t)
      (estimate_rapid_flip_tax (mul64 (pos t.price) (taxed_quantity t s.desk)))

settle_trade-cash :
    (t : Trade) (id : String) (s : Settling) (who : String)
    → cash_of who (settle_trade t id s).desk.touched
      ≡ at_player t.seller_id
          (λ c. add64 c (income t id s))
          who
          (at_player t.buyer_id (λ c. sub64 c (payment t id s)) who (cash_of who s.desk.touched))
unfolding settle_trade payment income change_player credit_seller KeepsCash
settle_trade-cash t id s who =
    let total = payment t id s in
    let gain = income t id s in
    let sell =
      λ (p : Player). (consume_lots_for_sale t.symbol (pos t.quantity) t.executed_at p).1 in
    let sold = change t.seller_id sell s.desk.touched in
    let add = at_player t.seller_id (λ c. add64 c gain) who in
    let take = at_player t.buyer_id (λ c. sub64 c total) who in
    let at_buy : Settling = record s {
      desk = change_player t.buyer_id (debit_buyer t total) (change_player t.seller_id sell s.desk);
    } in
    let paid = settle_buy t id total at_buy in
    settle_sell-KeepsCash t id
      (record paid { desk = change_player t.seller_id (credit_seller t gain) paid.desk }) who
    ∙ cash_of-change t.seller_id (credit_seller t gain) (λ c. add64 c gain) who paid.desk.touched
        (λ p. refl)
    ∙ ap add (
        settle_buy-KeepsCash t id total at_buy who
        ∙ cash_of-change t.buyer_id (debit_buyer t total) (λ c. sub64 c total) who sold
            (debit-cash t total)
        ∙ ap take (cash_of-change_same t.seller_id sell who s.desk.touched (sell_lots-cash t)))

-- Where both players of a trade are found, the trade is settled: the buyer's cash falls by the cost,
-- the fee and the surcharge of an incoming market order, the seller's rises by the cost less its fee,
-- surcharge and flip tax, in int64, one account bearing both if it is on both sides, and the cash of
-- every other player is as it was.
pub apply_trade-cash :
    (t : Trade) (id : String) (s : Settling) (d : Desk)
    → touch_both t s.desk ≡ some d
    → (s' : Settling) × (apply_trade t id s ≡ ok s')
      × ((who : String)
          → cash_of who s'.desk.touched
            ≡ at_player t.seller_id
                (λ c. add64 c (income t id (record s { desk = d })))
                who
                (at_player t.buyer_id
                  (λ c. sub64 c (payment t id (record s { desk = d })))
                  who
                  (cash_of who d.touched)))
unfolding apply_trade
apply_trade-cash t id s d found = (
  settle_trade t id (record s { desk = d }),
  rw (apply_trade, found),
  settle_trade-cash t id (record s { desk = d }),
)
