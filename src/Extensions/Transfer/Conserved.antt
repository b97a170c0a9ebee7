-- ===== src/Extensions/Transfer/Conserved.antt =====
-- A transfer between two wallets keeps the sum of the balances; a failed one changes nothing.
use ssh_arena.Prelude.{
  ◌≡◌, refl, sym, ap, ◌∙◌, subst, String, Bool, true, false, not, ◌&&◌, Option, none, some, List,
  [], ◌∷◌, if◌then◌else◌, if_true, if_false, if_either, Bool-cases, inl, inr, arith,
}
use mathlib.Core.Option.{some-injective}
use ssh_arena.Prelude.Int.{
  ℤ, pos, pos_part, neg_part, ◌+ℤ◌, ◌-ℤ◌, ltb_ℤ, +ℤ_parts, -ℤ_parts, eq_of_parts,
}
use ssh_arena.Prelude.Text.{str_eq}
use ssh_arena.Prelude.Outcome.{Outcome, ok, err, ◌>>=◌, fail_if}
use ssh_arena.Gameplay.Desk.{lookup, store_at, change}
use ssh_arena.Gameplay.Tokens.SingleUse.{lookup-store_at}
use ssh_arena.Extensions.Transfer.{
  TransferError, unknown_player, insufficient_funds, out_of_range, entries, Tables, Transfer, check,
  start_with, start_journal, covered, update_wallet, set_balance, insert_ledger, moved,
  bad_request_id, transfer, within_serializable, execute, commit_journal, fits, is_player,
}

-- The sum of the balances.
abbrev pub total : List (String × ℤ) → ℤ
total [] = pos 0
total (w ∷ ws) = w.1 +ℤ total ws

-- What holds of a result, if there is one.
abbrev pub Gives : {A : Type 0} → (A → Type 0) → Outcome TransferError A → Type 0
Gives P (err x) = Unit
Gives P (ok a) = P a

pub Gives-bind :
    {A B : Type 0} (P : A → Type 0) (Q : B → Type 0) (o : Outcome TransferError A)
    (k : A → Outcome TransferError B)
    → Gives P o
    → ((a : A) → P a → Gives Q (k a))
    → Gives Q (o >>= k)
Gives-bind P Q (err x) k h next = tt
Gives-bind P Q (ok a) k h next = next a h

Gives-if :
    {A : Type 0} (P : A → Type 0) (b : Bool) (a : A) (x : TransferError)
    → P a
    → Gives P (if b then ok a else err x)
Gives-if P true a x h = h
Gives-if P false a x h = tt

swapped : (a b c : ℤ) → (b +ℤ c) +ℤ a ≡ (a +ℤ c) +ℤ b
swapped a b c =
    eq_of_parts _ _
      (omega (arith, +ℤ_parts b c, +ℤ_parts (b +ℤ c) a, +ℤ_parts a c, +ℤ_parts (a +ℤ c) b))

carried : (w s t a b : ℤ) → s +ℤ a ≡ t +ℤ b → (w +ℤ s) +ℤ a ≡ (w +ℤ t) +ℤ b
carried w s t a b e = eq_of_parts _ _ (
    omega (
      arith,
      +ℤ_parts w s,
      +ℤ_parts (w +ℤ s) a,
      +ℤ_parts w t,
      +ℤ_parts (w +ℤ t) b,
      +ℤ_parts s a,
      +ℤ_parts t b,
      ap pos_part e,
      ap neg_part e,
    ))

-- One balance is changed, and the sum with it.
pub total-change :
    (id : String) (f : ℤ → ℤ) (ws : List (String × ℤ)) (v : ℤ)
    → lookup id ws ≡ some v
    → total (change id f ws) +ℤ v ≡ total ws +ℤ f v
unfolding lookup change
total-change id f [] v e = cc
total-change id f (w ∷ ws) v e = elim (Bool-cases (str_eq w.0 id)) [
  | inl here ↦
      let held : w.1 ≡ v = some-injective _ _ (sym (if_true _ _ here) ∙ e) in
      subst (λ m. total m +ℤ v ≡ w.1 +ℤ total ws +ℤ f v) (sym (if_true _ _ here))
        (subst (λ x. (f w.1 +ℤ total ws) +ℤ x ≡ (w.1 +ℤ total ws) +ℤ f x) held
          (swapped w.1 (f w.1) (total ws)))
  | inr there ↦
      subst (λ m. total m +ℤ v ≡ w.1 +ℤ total ws +ℤ f v) (sym (if_false _ _ there))
        (carried w.1 _ _ v (f v) (total-change id f ws v (sym (if_false _ _ there) ∙ e)))
]

lookup-change :
    (k id : String) (f : ℤ → ℤ) (ws : List (String × ℤ)) (v : ℤ)
    → lookup k ws ≡ some v
    → (u : ℤ) × (lookup k (change id f ws) ≡ some u)
unfolding lookup change
lookup-change k id f [] v e = cc
lookup-change k id f (w ∷ ws) v e = elim (Bool-cases (str_eq w.0 k)) [
  | inl here ↦
      if_either (λ m. (u : ℤ) × (lookup k m ≡ some u)) (str_eq w.0 id) ((w.0, f w.1) ∷ ws)
        ((w.0, w.1) ∷ change id f ws) (f w.1, if_true _ _ here) (w.1, if_true _ _ here)
  | inr there ↦
      let rest = lookup-change k id f ws v (sym (if_false _ _ there) ∙ e) in
      if_either (λ m. (u : ℤ) × (lookup k m ≡ some u)) (str_eq w.0 id) ((w.0, f w.1) ∷ ws)
        ((w.0, w.1) ∷ change id f ws) (v, if_false _ _ there ∙ (sym (if_false _ _ there) ∙ e))
        (rest.0, if_false _ _ there ∙ rest.1)
]

-- The wallets that each statement leaves.
pub start_with-Gives :
    (q : Transfer) (t : Tables) (o : Option Bool)
    → Gives (λ (s : Tables). s.wallets ≡ t.wallets) (start_with q t o)
unfolding start_with
start_with-Gives q t (some b) = tt
start_with-Gives q t none =
    Gives-if (λ (s : Tables). s.wallets ≡ t.wallets) (is_player q.player_id t.players)
      (record t { journal = store_at q.request_id false t.journal }) unknown_player refl

pub covered-Gives : (amount : ℤ) (o : Option ℤ) → Gives (λ b. o ≡ some b) (covered amount o)
unfolding covered
covered-Gives amount none = tt
covered-Gives amount (some b) =
    if_either (Gives (λ x. some b ≡ some x)) (ltb_ℤ b amount) (err insufficient_funds) (ok b) tt
      refl

pub update_wallet-Gives :
    (id : String) (f : ℤ → ℤ) (t : Tables) (o : Option ℤ) (v : ℤ)
    → o ≡ some v
    → Gives (λ (s : Tables). s.wallets ≡ change id f t.wallets) (update_wallet id f t o)
unfolding update_wallet
update_wallet-Gives id f t none v e = cc
update_wallet-Gives id f t (some b) v e =
    Gives-if (λ (s : Tables). s.wallets ≡ change id f t.wallets) (fits (f b))
      (record t { wallets = change id f t.wallets }) out_of_range refl

pub insert_ledger-Gives :
    (q : Transfer) (t : Tables) → Gives (λ (s : Tables). s.wallets ≡ t.wallets) (insert_ledger q t)
unfolding insert_ledger
insert_ledger-Gives q t =
    Gives-if (λ (s : Tables). s.wallets ≡ t.wallets)
      (is_player q.player_id t.players && is_player q.to_player_id t.players)
      (record t { ledger = entries q t.ledger }) unknown_player refl

pub debited_sum : (a v s t : ℤ) → s +ℤ v ≡ t +ℤ (v -ℤ a) → s +ℤ a ≡ t
debited_sum a v s t e = eq_of_parts _ _ (
    omega (
      arith,
      +ℤ_parts s v,
      +ℤ_parts t (v -ℤ a),
      -ℤ_parts v a,
      +ℤ_parts s a,
      ap pos_part e,
      ap neg_part e,
    ))

credited_sum : (a u s t r : ℤ) → s +ℤ a ≡ t → r +ℤ u ≡ s +ℤ (u +ℤ a) → r ≡ t
credited_sum a u s t r e h = eq_of_parts _ _ (
    omega (
      arith,
      +ℤ_parts s a,
      +ℤ_parts r u,
      +ℤ_parts s (u +ℤ a),
      +ℤ_parts u a,
      ap pos_part e,
      ap neg_part e,
      ap pos_part h,
      ap neg_part h,
    ))

pub anything : {A : Type 0} (o : Outcome TransferError A) → Gives (λ a. Unit {0}) o
anything (ok a) = tt
anything (err x) = tt

module _ (is_uuid : String → Bool) (q : Transfer) (t : Tables) where
  -- The sum of the balances is as before, and the request is in the journal.
  abbrev pub IsTransferred : Tables → Type 0
  IsTransferred s =
      (total s.wallets ≡ total t.wallets) × (lookup q.request_id s.journal ≡ some true)

  abbrev Summed : Tables → Type 0
  Summed s = total s.wallets ≡ total t.wallets

  finish :
      (s : Tables)
      → Summed s
      → Gives IsTransferred (insert_ledger q s >>= λ e. ok (commit_journal q e))
  finish s sum =
      Gives-bind (λ (e : Tables). e.wallets ≡ s.wallets) IsTransferred (insert_ledger q s) _
        (insert_ledger-Gives q s)
        (λ e same. (ap total same ∙ sum, lookup-store_at q.request_id true e.journal))

  credit :
      (s : Tables) (u : ℤ)
      → lookup q.to_player_id s.wallets ≡ some u
      → total s.wallets +ℤ q.amount ≡ total t.wallets
      → Gives IsTransferred (
          set_balance q.to_player_id (λ b. b +ℤ q.amount) s >>= λ c.
          insert_ledger q c >>= λ e. ok (commit_journal q e))
  unfolding set_balance
  credit s u held sum =
      Gives-bind (λ (c : Tables). c.wallets ≡ change q.to_player_id (λ b. b +ℤ q.amount) s.wallets)
        IsTransferred _ _ (update_wallet-Gives q.to_player_id (λ b. b +ℤ q.amount) s _ u held)
        (λ c made. finish c (
          credited_sum q.amount u (total s.wallets) _ _ sum (
            ap (λ w. total w +ℤ u) made
            ∙ total-change q.to_player_id (λ b. b +ℤ q.amount) s.wallets u held)))

  debit :
      (s : Tables) (v u : ℤ)
      → s.wallets ≡ t.wallets
      → lookup q.player_id s.wallets ≡ some v
      → lookup q.to_player_id t.wallets ≡ some u
      → Gives IsTransferred (moved q s)
  unfolding set_balance moved
  debit s v u same held other =
      let sender : lookup q.to_player_id s.wallets ≡ some u =
        ap (λ w. lookup q.to_player_id w) same ∙ other in
      Gives-bind (λ (d : Tables). d.wallets ≡ change q.player_id (λ b. b -ℤ q.amount) s.wallets)
        IsTransferred _ _ (update_wallet-Gives q.player_id (λ b. b -ℤ q.amount) s _ v held)
        (λ d made.
          let kept =
            lookup-change q.to_player_id q.player_id (λ b. b -ℤ q.amount) s.wallets u sender in
          credit d kept.0 (ap (λ w. lookup q.to_player_id w) made ∙ kept.1) (
            debited_sum q.amount v _ _ (
              ap (λ w. total w +ℤ v) made
              ∙ total-change q.player_id (λ b. b -ℤ q.amount) s.wallets v held
              ∙ ap (λ w. total w +ℤ (v -ℤ q.amount)) same)))

  transfer-Gives :
      (u : ℤ)
      → lookup q.to_player_id t.wallets ≡ some u
      → Gives IsTransferred (transfer is_uuid q t)
  unfolding transfer start_journal
  transfer-Gives u other =
      Gives-bind (λ (x : Unit {0}). Unit {0}) IsTransferred
        (fail_if (not (is_uuid q.request_id)) bad_request_id) _
        (anything (fail_if (not (is_uuid q.request_id)) bad_request_id))
        (λ x y.
          Gives-bind (λ (s : Tables). s.wallets ≡ t.wallets) IsTransferred _ _
            (start_with-Gives q t (lookup q.request_id t.journal))
            (λ s same.
              Gives-bind (λ b. lookup q.player_id s.wallets ≡ some b) IsTransferred _ _
                (covered-Gives q.amount (lookup q.player_id s.wallets))
                (λ v held. debit s v u same held other)))

  -- A failure that changed nothing, or a transfer.
  abbrev pub Settled : Tables × Outcome TransferError (Unit {0}) → Type 0
  Settled (s, err x) = s ≡ t
  Settled (s, ok x) = IsTransferred s

  within_serializable-Settled :
      (committed : Bool) (o : Outcome TransferError Tables)
      → Gives IsTransferred o
      → Settled (within_serializable committed t o)
  unfolding within_serializable
  within_serializable-Settled committed (err x) h = refl
  within_serializable-Settled true (ok s) h = h
  within_serializable-Settled false (ok s) h = refl

  -- A transfer to a player who has a wallet either fails and changes no table, or leaves the sum of
  -- all balances as it was and the request committed in the journal.
  pub execute-Settled :
      (committed : Bool) (u : ℤ)
      → lookup q.to_player_id t.wallets ≡ some u
      → Settled (execute is_uuid committed q t)
  unfolding execute
  execute-Settled committed u other = within_serializable-Settled committed _ (
      Gives-bind (λ (x : Unit {0}). Unit {0}) IsTransferred (check q) _ (anything (check q))
        (λ x y. transfer-Gives u other))
