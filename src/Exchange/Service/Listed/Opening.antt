-- ===== src/Exchange/Service/Listed/Opening.antt =====
-- A new market lists the tickers of its catalogue.
use ssh_arena.Prelude.{
  ℕ, sym, subst, String, Bool, true, false, Option, none, some, List, [], ◌∷◌, map, All, All-mono,
  if◌then◌else◌, if_true,
}
use ssh_arena.Prelude.Text.{str_eq, str_eq_refl}
use ssh_arena.Prelude.Float.{Float}
use ssh_arena.OrderBook.Place.{Book}
use ssh_arena.Exchange.Engine.{Ticker, or_else, new}
use ssh_arena.Exchange.Engine.Prices.{new-IsPriced}
use ssh_arena.Exchange.Engine.Grid.{IsListed}
use ssh_arena.Exchange.Service.Events.{open_books, open_market}
use ssh_arena.Exchange.Service.Listed.{Paired, IsKnown, IsListing}

or_else-Paired :
    (o : Option Book) (c : Option Ticker) (b : Bool) (x : Book) (y : Ticker)
    → Paired o c
    → Paired (or_else o (if b then some x else none)) (or_else c (if b then some y else none))
unfolding or_else
or_else-Paired none none true x y p = tt
or_else-Paired none none false x y p = tt
or_else-Paired none (some c) b x y p = absurd p
or_else-Paired (some o) none b x y p = absurd p
or_else-Paired (some o) (some c) b x y p = tt

or_else-IsKnown : (c d : Option Ticker) → IsKnown c → IsKnown (or_else c d)
unfolding or_else
or_else-IsKnown none d k = absurd k
or_else-IsKnown (some c) d k = tt

or_else_found : (c : Option Ticker) (t : Ticker) → IsKnown (or_else c (some t))
unfolding or_else
or_else_found none t = tt
or_else_found (some c) t = tt

open_books-Paired :
    (F : Type 0) ⦃f : Float F⦄ (now : ℕ) (ts : List Ticker) (s : String)
    → Paired (open_books ts s) ((new {F = F} now ts).configs s)
unfolding open_books new
open_books-Paired F now [] s = tt
open_books-Paired F now (t ∷ ts) s =
    or_else-Paired (open_books ts s) _ (str_eq s t.symbol) _ t (open_books-Paired F now ts s)

known_new :
    (F : Type 0) ⦃f : Float F⦄ (now : ℕ) (ts : List Ticker)
    → All (λ s. IsKnown ((new {F = F} now ts).configs s)) (map (λ t. t.symbol) ts)
unfolding new
known_new F now [] = tt
known_new F now (t ∷ ts) = (
  subst (λ o. IsKnown (or_else ((new {F = F} now ts).configs t.symbol) o))
      (sym (if_true (some t) none (str_eq_refl t.symbol))) (or_else_found _ t),
  All-mono (λ s. IsKnown ((new {F = F} now ts).configs s)) _ (map (λ t. t.symbol) ts)
      (λ s k. or_else-IsKnown _ _ k) (known_new F now ts),
)

module _ {F : Type 0} ⦃f : Float F⦄ where
  -- A new market lists the same symbols in its books, tickers and prices, and each price is on its
  -- grid, if the initial price of every ticker is a positive multiple of its tick.
  pub open_market-IsListing :
      (ticks : String → ℕ) (now : ℕ) (tickers : List Ticker)
      → All (λ c. IsListed c (ticks c.symbol)) tickers
      → IsListing {F = F} ticks (open_market now tickers)
  unfolding open_market
  open_market-IsListing ticks now tickers h = record {
    prices = new-IsPriced F ticks now tickers h;
    books = open_books-Paired F now tickers;
    tickers = known_new F now tickers;
  }
