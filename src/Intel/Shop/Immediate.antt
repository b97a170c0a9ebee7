-- ===== src/Intel/Shop/Immediate.antt =====
-- A purchase whose preview goes out at once.
use ssh_arena.Prelude.{ℕ, ◌≡◌, String, Bool, true, false, some, List, ltb}
use ssh_arena.Prelude.Outcome.{Outcome, ok, err}
use ssh_arena.Intel.Feeds.{Definition, Engine, IntelError, Scheduled, is_insider, is_member}
use ssh_arena.Intel.Access.{Purchase, previewed, is_early}
use ssh_arena.Intel.Access.Delivery.{buy_insider_previewed}
use ssh_arena.Intel.Shop.{insider_bought, with_purchase, buy}

with_purchase_answer :
    (r : Engine × Outcome IntelError Purchase) (p : Purchase)
    → r.1 ≡ ok p
    → (with_purchase r).1 ≡ ok (insider_bought p)
unfolding with_purchase
with_purchase_answer (e, err x) p h = cc
with_purchase_answer (e, ok q) p h = cc

pub buy_previewed :
    (has_chart : String → Bool) (i : ℕ) (tickers : List String) (now : ℕ) (player_id id : String)
    (d : Definition) (e : Engine) (s : Scheduled)
    → e.defs id ≡ some d
    → is_insider d ≡ true
    → e.next_event ≡ some s
    → ltb now s.event.scheduled_at ≡ true
    → is_member player_id s.buyers ≡ false
    → is_early now d s.event ≡ false
    → (buy has_chart i tickers now player_id id e).1 ≡ ok (insider_bought (previewed s.event))
unfolding buy
buy_previewed has_chart i tickers now player_id id d e s found insider planned ahead new due =
    rw (buy, found, insider)
      (with_purchase_answer _ (previewed s.event)
        (buy_insider_previewed now player_id d e s planned ahead new due))
