-- ===== src/Gameplay/Tokens.antt =====
-- Bootstrap tokens of internal/gameplay/engine.go: issued at login, good for one exchange.
use ssh_arena.Prelude.{
  ℕ, ◌+◌, String, Bool, true, false, not, Option, none, some, List, [], ◌∷◌, ltb, if◌then◌else◌,
  keep_if,
}
use ssh_arena.Prelude.Text.{str_eq, is_empty}
use ssh_arena.Prelude.Outcome.{Outcome, ok, err}
use ssh_arena.Gameplay.Desk.{lookup, store_at, remove}
pub mod SingleUse

pub record BootstrapGrant : Type 0 where
  pub player_id : String
  pub username : String
  pub expires_at : ℕ

-- Two minutes, in nanoseconds.
abbrev pub bootstrap_token_ttl : ℕ
bootstrap_token_ttl = 120_000_000_000

abbrev pub Grants : Type 0
Grants = List (String × BootstrapGrant)

pub data TokenError : Type 0 where
  token_required token_invalid token_expired : TokenError

-- `grant.ExpiresAt.After(now)`.
abbrev pub is_live : ℕ → String × BootstrapGrant → Bool
is_live now (token, g) = ltb now g.expires_at

-- `issueBootstrapToken`: `fresh` is the new token.
unfoldable pub issue_bootstrap_token : ℕ → String → String → String → Grants → Grants × ℕ
unfolding store_at
issue_bootstrap_token now fresh player_id username gs =
    let expires_at = now + bootstrap_token_ttl in
    (
      store_at fresh
          (record { player_id = player_id; username = username; expires_at = expires_at })
          (keep_if (is_live now) gs),
      expires_at,
    )

-- `consumeBootstrapToken`, on a trimmed token.
unfoldable pub consume_bootstrap_token :
    ℕ → String → Grants → Grants × Outcome TokenError BootstrapGrant
unfolding lookup remove
consume_bootstrap_token now token gs =
    if is_empty token then (gs, err token_required) else elim (lookup token gs) [
      | none ↦ (gs, err token_invalid)
      | some g ↦ (remove token gs, if ltb now g.expires_at then ok g else err token_expired)
    ]
