-- ===== src/Gameplay/Sessions/Granted.antt =====
-- A login stores the player and issues a token that is good for two minutes.
use ssh_arena.Prelude.{
  ℕ, ◌+◌, ◌≡◌, sym, ◌∙◌, subst, String, Bool, true, false, Option, none, some, [], ◌∷◌, ltb,
  if◌then◌else◌, if_true, if_false, if_either, Bool-cases, inl, inr,
}
use ssh_arena.Prelude.Text.{str_eq, is_empty, str_eq_refl}
use ssh_arena.Prelude.Outcome.{Outcome, ok, err}
use ssh_arena.Prelude.Float.{Float}
use ssh_arena.State.Player.{Player, Players, get, set_player}
use ssh_arena.Roles.{Random}
use ssh_arena.Gameplay.Accounts.{GameError}
use ssh_arena.Gameplay.Stats.{Records, record_player_snapshot}
use ssh_arena.Gameplay.Tokens.{bootstrap_token_ttl, token_expired, consume_bootstrap_token}
use ssh_arena.Gameplay.Tokens.SingleUse.{issue-consume_bootstrap_token}
use ssh_arena.Gameplay.Sessions.{
  Game, Login, EnsurePlayerResponse, logged, log_in, store_player, ensure_known, ensure_player,
  with_players,
}

get-set_player :
    (name : String) (p : Player) (ps : Players) → get name (set_player name p ps) ≡ some p
unfolding get set_player
get-set_player name p [] = if_true _ _ (str_eq_refl name)
get-set_player name p ((k, q) ∷ ps) = elim (Bool-cases (str_eq k name)) [
  | inl same ↦ subst (λ m. get name m ≡ some p) (sym (if_true _ _ same)) (if_true _ _ same)
  | inr other ↦
      subst (λ m. get name m ≡ some p) (sym (if_false _ _ other))
        (if_false _ _ other ∙ get-set_player name p ps)
]

module _ {F R : Type 0} ⦃f : Float F⦄ where
  -- What the exchange of a token answers at a time: its player for two minutes, and then that it
  -- has expired.
  abbrev pub IsGranted : ℕ → ℕ → EnsurePlayerResponse → Game F R → Type 0
  IsGranted now later r g = (consume_bootstrap_token later r.bootstrap_token g.grants).1 ≡ (
      if ltb later (now + bootstrap_token_ttl)
      then ok (record {
        player_id = r.player.player_id;
        username = r.player.username;
        expires_at = now + bootstrap_token_ttl;
      })
      else err token_expired)

  -- A login that failed, or one whose player is stored and whose token is granted.
  abbrev pub IsLogin : ℕ → ℕ → Game F R × Outcome GameError EnsurePlayerResponse → Type 0
  IsLogin now later (g, err x) = Unit
  IsLogin now later (g, ok r) =
      (get r.player.username g.orders.players ≡ some r.player) × IsGranted now later r g

  kept_login :
      (l : Login) (later : ℕ) (created : Bool) (p : Player) (g : Game F R)
      (kept : Records F × Outcome GameError (Unit {0}))
      → is_empty l.fresh_token ≡ false
      → get p.username g.orders.players ≡ some p
      → IsLogin l.now later (logged l created p g kept)
  unfolding logged
  kept_login l later created p g (r, err x) filled stored = tt
  kept_login l later created p g (r, ok u) filled stored = (
    stored,
    issue-consume_bootstrap_token l.now later l.fresh_token p.player_id p.username g.grants filled,
  )

  store_player-IsLogin :
      (l : Login) (later : ℕ) (created : Bool) (p : Player) (g : Game F R)
      → is_empty l.fresh_token ≡ false
      → IsLogin l.now later (store_player l created p g)
  unfolding store_player log_in
  store_player-IsLogin l later created p g filled =
      let stored = with_players (set_player p.username p g.orders.players) g in
      if_either (IsLogin l.now later) l.written _ _
        (kept_login l later created p stored
          (record_player_snapshot l.written l.now g.orders.symbols p g.orders.records) filled
          (get-set_player p.username p g.orders.players))
        tt

  ensure_known-IsLogin :
      (random : Random F R) (l : Login) (later : ℕ) (username : String) (g : Game F R)
      (known : Option Player)
      → is_empty l.fresh_token ≡ false
      → IsLogin l.now later (ensure_known random l username g known)
  unfolding ensure_known
  ensure_known-IsLogin random l later username g none filled =
      store_player-IsLogin l later true _ _ filled
  ensure_known-IsLogin random l later username g (some p) filled =
      store_player-IsLogin l later false _ g filled

  -- A login that succeeds, of a known name or a new one, stores the player under the player's name,
  -- and the token of the answer, if it is not empty, is exchanged for that player at any time within
  -- two minutes and refused as expired at any later time.
  pub ensure_player-IsLogin :
      (random : Random F R) (l : Login) (later : ℕ) (username : String) (g : Game F R)
      → is_empty l.fresh_token ≡ false
      → IsLogin l.now later (ensure_player random l username g)
  unfolding ensure_player
  ensure_player-IsLogin random l later username g filled =
      ensure_known-IsLogin random l later username g _ filled
