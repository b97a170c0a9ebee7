-- ===== src/Gameplay/IntelBuy/Payment.antt =====
-- What a purchase of intel does to the account that pays.
use ssh_arena.Prelude.{◌≡◌, String, true, false, ◌&&◌}
use ssh_arena.Prelude.Int.{sub64, ltb_ℤ, ◌≤ℤ◌}
use ssh_arena.Prelude.Outcome.{Outcome, ok, err}
use ssh_arena.State.Player.{Player, Players, set_player}
use ssh_arena.Gameplay.Accounts.{GameError, insufficient_cash, intel_refused, store_failed}
use ssh_arena.Gameplay.Accounts.Reserving.{SameAccount}
use ssh_arena.Intel.Feeds.{CatalogItem, quote}
use ssh_arena.Intel.Feeds as Feeds
use ssh_arena.Intel.Shop.{Bought}
use ssh_arena.Gameplay.IntelBuy.{World, charge}

abbrev Result : Type 0
Result = Players × Feeds.Engine × Outcome GameError Bought

-- The answer to a purchase that the shop served: what was bought, if the player and the snapshot could
-- be written, and otherwise a failure of the store.
pub data IsServed (w : World) : Outcome GameError Bought → Type 0 where
  served : (b : Bought) → w.written ≡ true → w.recorded ≡ true → IsServed w (ok b)
  unwritten : (w.written && w.recorded) ≡ false → IsServed w (err store_failed)

-- The item is not for sale; or the free cash does not cover the quoted price; or it does, and the
-- price is paid; or it was paid and given back in full, where the shop refused.
pub data Settled (w : World) (e : Feeds.Engine) (id : String) (p : Player) (ps : Players)
    : Result → Type 0 where
  not_sold :
      (x : Feeds.IntelError) → quote e id ≡ err x → Settled w e id p ps (ps, e, err intel_refused)
  uncovered :
      (item : CatalogItem)
      → quote e id ≡ ok item
      → ltb_ℤ (sub64 p.cash p.reserved_cash) item.price ≡ true
      → Settled w e id p ps (ps, e, err insufficient_cash)
  charged :
      (item : CatalogItem) (e' : Feeds.Engine) (o : Outcome GameError Bought)
      → quote e id ≡ ok item
      → item.price ≤ℤ sub64 p.cash p.reserved_cash
      → IsServed w o
      → Settled w e id p ps (set_player p.username (charge item.price p) ps, e', o)
  given_back :
      (q q' : Player) (e' : Feeds.Engine)
      → SameAccount q' p
      → Settled w e id p ps
          (set_player p.username q' (set_player p.username q ps), e', err intel_refused)
