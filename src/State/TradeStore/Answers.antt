-- ===== src/State/TradeStore/Answers.antt =====
-- What `Query` answers.
use ssh_arena.Prelude.{
  ℕ, zero, suc, ◌≤◌, ◌≡◌, refl, ap, String, Bool, true, false, ◌||◌, ◌&&◌, ◌⊎◌, inl, inr, List, [],
  ◌∷◌, ◌++◌, leb, ◌==◌, if◌then◌else◌, if_cases, length, arith,
}
use mathlib.Core.List.{reverse}
use ssh_arena.Prelude.Text.{str_eq, eq_iff}
use ssh_arena.State.TradeStore.{TradeRecord, TradeQuery, TradeStore, collect, matches_query, query}

-- A trade is one that a query asks for: of its symbol and of its player, if it names them, and
-- within its times, if it has such bounds.
pub record Matches (q : TradeQuery) (t : TradeRecord) : Type 0 where
  pub symbol : (q.symbol ≡ "") ⊎ (t.symbol ≡ q.symbol)
  pub player : ((q.player_id ≡ "") ⊎ (t.buyer_id ≡ q.player_id)) ⊎ (t.seller_id ≡ q.player_id)
  pub since : (q.since ≡ 0) ⊎ (q.since ≤ t.executed_at)
  pub until : (q.until ≡ 0) ⊎ (t.executed_at ≤ q.until)

-- The second list is the entries of the first that have a property, in their order.
pub data Picks {ℓ κ} {A : Type ℓ} (P : A → Type κ) : List A → List A → Type (ℓ ⊔ κ) where
  nothing : Picks P [] []
  taken : (x : A) (xs ys : List A) → P x → Picks P xs ys → Picks P (x ∷ xs) (x ∷ ys)
  passed : (x : A) (xs ys : List A) → ¬ P x → Picks P xs ys → Picks P (x ∷ xs) ys

-- The entries with a property of a front of the list, which ends with as many of them as there is
-- room for, or else with the list.
pub record IsFront {ℓ κ} {A : Type ℓ} (P : A → Type κ) (room : ℕ) (xs ys : List A)
    : Type (ℓ ⊔ κ) where
  pub seen : List A
  pub rest : List A
  pub split : xs ≡ seen ++ rest
  pub picks : Picks P seen ys
  pub fits : length ys ≤ room
  pub done : (length ys ≡ room) ⊎ (rest ≡ [])

module _ {ℓ κ} {A : Type ℓ} (P : A → Type κ) (p : A → Bool) (sound : (x : A) → p x ≡ true → P x)
    (complete : (x : A) → p x ≡ false → ¬ P x) where
  IsFront-empty : (room : ℕ) → IsFront P room [] []
  IsFront-empty room = record {
    seen = [];
    rest = [];
    split = refl;
    picks = nothing;
    fits = omega arith;
    done = inr refl;
  }

  collect-IsFront : (room : ℕ) (xs : List A) → IsFront P room xs (collect p room xs)
  unfolding collect
  collect-IsFront zero [] = IsFront-empty zero
  collect-IsFront (suc room) [] = IsFront-empty (suc room)
  collect-IsFront zero (x ∷ xs) = record {
    seen = [];
    rest = x ∷ xs;
    split = refl;
    picks = nothing;
    fits = omega arith;
    done = inl refl;
  }
  collect-IsFront (suc room) (x ∷ xs) =
      if_cases (IsFront P (suc room) (x ∷ xs)) (p x) _ _
        (λ hit.
          let later = collect-IsFront room xs in
          record {
            seen = x ∷ later.seen;
            rest = later.rest;
            split = ap (λ l. x ∷ l) later.split;
            picks = taken x _ _ (sound x hit) later.picks;
            fits = omega (arith, later.fits);
            done = elim later.done [ inl e ↦ inl (ap suc e) | inr e ↦ inr e ];
          })
        (λ miss.
          let later = collect-IsFront (suc room) xs in
          record {
            seen = x ∷ later.seen;
            rest = later.rest;
            split = ap (λ l. x ∷ l) later.split;
            picks = passed x _ _ (complete x miss) later.picks;
            fits = later.fits;
            done = later.done;
          })

-- A test decides a property.
abbrev Decides : Bool → Type 0 → Type 0
Decides b P = (b ≡ true → P) × (P → b ≡ true)

decides_or : (a b : Bool) {P Q : Type 0} → Decides a P → Decides b Q → Decides (a || b) (P ⊎ Q)
decides_or true b d e = (λ h. inl (d.0 refl), λ h. refl)
decides_or false b d e = (λ h. inr (e.0 h), λ h. elim h [ inl x ↦ cc (d.1 x) | inr y ↦ e.1 y ])

decides_and : (a b : Bool) {P Q : Type 0} → Decides a P → Decides b Q → Decides (a && b) (P × Q)
decides_and true b d e = (λ h. (d.0 refl, e.0 h), λ h. e.1 h.1)
decides_and false b d e = (λ h. cc h, λ h. cc (d.1 h.0))

decides_text : (a b : String) → Decides (str_eq a b) (a ≡ b)
decides_text a b = (λ h. ground (arith, eq_iff a b, h), λ h. ground (arith, eq_iff a b, h))

decides_zero : (n : ℕ) → Decides (n == 0) (n ≡ 0)
decides_zero n = (λ h. ground (arith, h), λ h. ground (arith, h))

decides_leb : (m n : ℕ) → Decides (leb m n) (m ≤ n)
decides_leb m n = (λ h. ground (arith, h), λ h. ground (arith, h))

-- The guards of the loop decide whether a query asks for a trade.
matches_query_lem : (q : TradeQuery) (t : TradeRecord) → Decides (matches_query q t) (Matches q t)
matches_query_lem q t =
    let (there, back) =
      decides_and _ _ (decides_or _ _ (decides_text q.symbol "") (decides_text t.symbol q.symbol)) (
        decides_and _ _
          (decides_or _ _
            (decides_or _ _ (decides_text q.player_id "") (decides_text t.buyer_id q.player_id))
            (decides_text t.seller_id q.player_id))
          (decides_and _ _
            (decides_or _ _ (decides_zero q.since) (decides_leb q.since t.executed_at))
            (decides_or _ _ (decides_zero q.until) (decides_leb t.executed_at q.until)))) in
    (
      λ h.
          let (symbol, (player, (since, until))) = there h in
          record { symbol = symbol; player = player; since = since; until = until },
      λ m. back (m.symbol, (m.player, (m.since, m.until))),
    )

-- A query answers with the trades that it asks for, newest first: those of the newest part of the
-- history, which ends with as many of them as the limit, a hundred for a limit of zero, or else with
-- the history.
pub query-IsFront :
    (q : TradeQuery) (s : TradeStore)
    → IsFront (Matches q) (if q.limit == 0 then 100 else q.limit) (reverse s.trades) (query q s)
unfolding query
query-IsFront q s =
    collect-IsFront (Matches q) (matches_query q) (λ t. (matches_query_lem q t).0)
      (λ t miss h. cc (miss, (matches_query_lem q t).1 h)) (if q.limit == 0 then 100 else q.limit)
      (reverse s.trades)
