-- ===== src/Extensions/Transfer/Lost.antt =====
-- What a transfer to a player without a wallet does.
use ssh_arena.Prelude.{
  ◌≡◌, refl, sym, ap, ◌∙◌, subst, String, Bool, true, not, Option, none, some, List, [], ◌∷◌,
  if_true, if_false, if_either, Bool-cases, inl, inr,
}
use mathlib.Core.Option.{none-ne-some}
use ssh_arena.Prelude.Int.{ℤ, ◌+ℤ◌, ◌-ℤ◌}
use ssh_arena.Prelude.Text.{str_eq}
use ssh_arena.Prelude.Outcome.{ok, ◌>>=◌, fail_if}
use ssh_arena.Gameplay.Desk.{lookup, change}
use ssh_arena.Extensions.Transfer.{
  Tables, Transfer, check, start_journal, update_wallet, set_balance, insert_ledger, moved,
  bad_request_id, transfer, within_serializable, execute, commit_journal,
}
use ssh_arena.Extensions.Transfer.Conserved.{
  total, Gives, Gives-bind, start_with-Gives, covered-Gives, update_wallet-Gives,
  insert_ledger-Gives, debited_sum, anything, total-change,
}

no_lookup-change :
    (k id : String) (f : ℤ → ℤ) (ws : List (String × ℤ))
    → lookup k ws ≡ none
    → lookup k (change id f ws) ≡ none
unfolding lookup change
no_lookup-change k id f [] e = refl
no_lookup-change k id f (w ∷ ws) e = elim (Bool-cases (str_eq w.0 k)) [
  | inl here ↦ absurd (none-ne-some _ (sym e ∙ if_true _ _ here))
  | inr there ↦
      let rest = sym (if_false _ _ there) ∙ e in
      if_either (λ m. lookup k m ≡ none) (str_eq w.0 id) ((w.0, f w.1) ∷ ws)
        ((w.0, w.1) ∷ change id f ws) (if_false _ _ there ∙ rest)
        (if_false _ _ there ∙ no_lookup-change k id f ws rest)
]

update_nothing :
    (id : String) (f : ℤ → ℤ) (t : Tables) (o : Option ℤ)
    → o ≡ none
    → Gives (λ (s : Tables). s.wallets ≡ t.wallets) (update_wallet id f t o)
unfolding update_wallet
update_nothing id f t none e = refl
update_nothing id f t (some b) e = cc

module _ (is_uuid : String → Bool) (q : Transfer) (t : Tables) where
  -- The amount is gone from the sum of the balances.
  abbrev pub IsLost : Tables → Type 0
  IsLost s = total s.wallets +ℤ q.amount ≡ total t.wallets

  finish-IsLost :
      (s : Tables) → IsLost s → Gives IsLost (insert_ledger q s >>= λ e. ok (commit_journal q e))
  finish-IsLost s gone =
      Gives-bind (λ (e : Tables). e.wallets ≡ s.wallets) IsLost (insert_ledger q s) _
        (insert_ledger-Gives q s) (λ e same. ap (λ w. total w +ℤ q.amount) same ∙ gone)

  credit_nothing :
      (s : Tables)
      → lookup q.to_player_id s.wallets ≡ none
      → IsLost s
      → Gives IsLost (
          set_balance q.to_player_id (λ b. b +ℤ q.amount) s >>= λ c.
          insert_ledger q c >>= λ e. ok (commit_journal q e))
  unfolding set_balance
  credit_nothing s nobody gone =
      Gives-bind (λ (c : Tables). c.wallets ≡ s.wallets) IsLost _ _
        (update_nothing q.to_player_id (λ b. b +ℤ q.amount) s _ nobody)
        (λ c same. finish-IsLost c (ap (λ w. total w +ℤ q.amount) same ∙ gone))

  debit-IsLost :
      (s : Tables) (v : ℤ)
      → s.wallets ≡ t.wallets
      → lookup q.player_id s.wallets ≡ some v
      → lookup q.to_player_id t.wallets ≡ none
      → Gives IsLost (moved q s)
  unfolding set_balance moved
  debit-IsLost s v same held nobody =
      let absent = ap (λ w. lookup q.to_player_id w) same ∙ nobody in
      Gives-bind (λ (d : Tables). d.wallets ≡ change q.player_id (λ b. b -ℤ q.amount) s.wallets)
        IsLost _ _ (update_wallet-Gives q.player_id (λ b. b -ℤ q.amount) s _ v held)
        (λ d made.
          credit_nothing d
            (ap (λ w. lookup q.to_player_id w) made
              ∙ no_lookup-change q.to_player_id q.player_id (λ b. b -ℤ q.amount) s.wallets absent)
            (debited_sum q.amount v _ _ (
              ap (λ w. total w +ℤ v) made
              ∙ total-change q.player_id (λ b. b -ℤ q.amount) s.wallets v held
              ∙ ap (λ w. total w +ℤ (v -ℤ q.amount)) same)))

  transfer-IsLost : lookup q.to_player_id t.wallets ≡ none → Gives IsLost (transfer is_uuid q t)
  unfolding transfer start_journal
  transfer-IsLost nobody =
      Gives-bind (λ (x : Unit {0}). Unit {0}) IsLost
        (fail_if (not (is_uuid q.request_id)) bad_request_id) _
        (anything (fail_if (not (is_uuid q.request_id)) bad_request_id))
        (λ x y.
          Gives-bind (λ (s : Tables). s.wallets ≡ t.wallets) IsLost _ _
            (start_with-Gives q t (lookup q.request_id t.journal))
            (λ s same.
              Gives-bind (λ b. lookup q.player_id s.wallets ≡ some b) IsLost _ _
                (covered-Gives q.amount (lookup q.player_id s.wallets))
                (λ v held. debit-IsLost s v same held nobody)))

  -- A transfer whose request passes the checks, in a transaction that commits, to a player who has no
  -- wallet: if its statements succeed, the amount has left the sum of all balances, since the second
  -- update changes no row and the handler does not look at that.
  pub execute_loses :
      (s : Tables)
      → lookup q.to_player_id t.wallets ≡ none
      → transfer is_uuid q t ≡ ok s
      → check q ≡ ok tt
      → (execute is_uuid true q t ≡ (s, ok tt)) × IsLost s
  unfolding execute within_serializable
  execute_loses s nobody done passed =
      (rw (execute, passed, done), subst (Gives IsLost) done (transfer-IsLost nobody))
