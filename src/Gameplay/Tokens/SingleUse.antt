-- ===== src/Gameplay/Tokens/SingleUse.antt =====
-- A bootstrap token is good for one exchange, and only in time.
use ssh_arena.Prelude.{
  List, ℕ, ◌+◌, ◌≡◌, refl, ap, ◌∙◌, subst, String, false, none, some, [], ◌∷◌, ltb, if◌then◌else◌,
  keep_if, All, Bool-cases, inl, inr, arith,
}
use ssh_arena.Prelude.Text.{str_eq, is_empty, eq_iff, str_eq_refl}
use ssh_arena.Prelude.Outcome.{ok, err}
use ssh_arena.Gameplay.Desk.{lookup, store_at, remove}
use ssh_arena.Gameplay.Tokens.{
  BootstrapGrant, Grants, token_invalid, token_expired, bootstrap_token_ttl, is_live,
  issue_bootstrap_token, consume_bootstrap_token,
}

abbrev Differs : String → String × BootstrapGrant → Type 0
Differs k (j, g) = str_eq j k ≡ false

-- No token stands twice.
abbrev pub IsMap : Grants → Type 0
IsMap [] = Unit
IsMap ((k, g) ∷ gs) = All (Differs k) gs × IsMap gs

Differs-lookup : (k : String) (gs : Grants) → All (Differs k) gs → lookup k gs ≡ none
unfolding lookup
Differs-lookup k [] h = refl
Differs-lookup k ((j, g) ∷ gs) (d, h) = rw (d, Differs-lookup k gs h)

lookup-remove : (k : String) (gs : Grants) → IsMap gs → lookup k (remove k gs) ≡ none
unfolding lookup remove
lookup-remove k [] h = refl
lookup-remove k ((j, g) ∷ gs) (d, h) = elim (Bool-cases (str_eq j k)) [
  | inl e ↦
      let gone =
        Differs-lookup k gs (subst (λ x. All (Differs x) gs) (ground (arith, eq_iff j k, e)) d) in
      rw (e, gone)
  | inr e ↦ rw (e, lookup, e, lookup-remove k gs h)
]

lookup-remove_other :
    (k j : String) (gs : Grants) → str_eq k j ≡ false → lookup j (remove k gs) ≡ lookup j gs
unfolding lookup remove
lookup-remove_other k j [] d = refl
lookup-remove_other k j ((i, g) ∷ gs) d = elim (Bool-cases (str_eq i k)) [
  | inl e ↦
      let same : i ≡ k = ground (arith, eq_iff i k, e) in
      let apart : str_eq i j ≡ false = ap (λ x. str_eq x j) same ∙ d in rw (e, apart)
  | inr e ↦ elim (Bool-cases (str_eq i j)) [
    | inl f ↦ rw (e, f)
    | inr f ↦ rw (e, f, lookup-remove_other k j gs d)
  ]
]

pub lookup-store_at :
    {A : Type 0} (k : String) (g : A) (gs : List (String × A)) → lookup k (store_at k g gs) ≡ some g
unfolding lookup store_at
lookup-store_at k g [] = rw (str_eq_refl k)
lookup-store_at k g ((j, f) ∷ gs) = elim (Bool-cases (str_eq j k)) [
  | inl e ↦ rw (e, lookup, e)
  | inr e ↦ rw (e, lookup, e, lookup-store_at k g gs)
]

consume_found :
    (now : ℕ) (token : String) (g : BootstrapGrant) (gs : Grants)
    → is_empty token ≡ false
    → lookup token gs ≡ some g
    → consume_bootstrap_token now token gs
      ≡ (remove token gs, if ltb now g.expires_at then ok g else err token_expired)
unfolding consume_bootstrap_token
consume_found now token g gs filled found = rw (filled, found)

consume_missing :
    (now : ℕ) (token : String) (gs : Grants)
    → is_empty token ≡ false
    → lookup token gs ≡ none
    → consume_bootstrap_token now token gs ≡ (gs, err token_invalid)
unfolding consume_bootstrap_token
consume_missing now token gs filled gone = rw (filled, gone)

-- Where no token stands twice, exchanging a token that was granted, and is not empty, takes it away
-- whatever the time, leaves the other tokens as they were, and answers with the grant only before it
-- expires; another exchange of it, at any time, is refused as invalid.
pub consume_bootstrap_token-SingleUse :
    (now later : ℕ) (token : String) (g : BootstrapGrant) (gs : Grants)
    → IsMap gs
    → is_empty token ≡ false
    → lookup token gs ≡ some g
    → let gs' = (consume_bootstrap_token now token gs).0 in
      ((consume_bootstrap_token now token gs).1
        ≡ (if ltb now g.expires_at then ok g else err token_expired))
      × ((consume_bootstrap_token later token gs').1 ≡ err token_invalid)
      × ((other : String) → str_eq token other ≡ false → lookup other gs' ≡ lookup other gs)
consume_bootstrap_token-SingleUse now later token g gs unique filled found =
    let gone = lookup-remove token gs unique in
    let next = consume_found now token g gs filled found in
    (
      ap (λ x. x.1) next,
      ap (λ x. (consume_bootstrap_token later token x.0).1) next
          ∙ ap (λ x. x.1) (consume_missing later token (remove token gs) filled gone),
      λ other d. ap (λ x. lookup other x.0) next ∙ lookup-remove_other token other gs d,
    )

-- A token that was just issued, under a name that is not empty, is exchanged for the player it was
-- issued to during the next two minutes, and afterwards answers that it expired.
pub issue-consume_bootstrap_token :
    (now later : ℕ) (fresh player_id username : String) (gs : Grants)
    → is_empty fresh ≡ false
    → let issued = issue_bootstrap_token now fresh player_id username gs in
      (consume_bootstrap_token later fresh issued.0).1 ≡ (
        if ltb later (now + bootstrap_token_ttl)
        then ok (record {
          player_id = player_id;
          username = username;
          expires_at = now + bootstrap_token_ttl;
        })
        else err token_expired)
unfolding issue_bootstrap_token
issue-consume_bootstrap_token now later fresh player_id username gs filled =
    let g : BootstrapGrant = record {
      player_id = player_id;
      username = username;
      expires_at = now + bootstrap_token_ttl;
    } in
    let kept = keep_if (is_live now) gs in
    ap (λ x. x.1)
      (consume_found later fresh g (store_at fresh g kept) filled (lookup-store_at fresh g kept))
