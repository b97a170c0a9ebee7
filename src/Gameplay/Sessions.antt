-- ===== src/Gameplay/Sessions.antt =====
-- The state of the gameplay engine of internal/gameplay/engine.go, and its operations on players and
-- chat: `EnsurePlayer`, `SendChat`, the exchange of a bootstrap token. Requests come decoded and
-- trimmed. The chat store of the engine is that of the chat service, as cmd/grpc-game/main.go wires it.
use ssh_arena.Prelude.{
  ℕ, String, Bool, true, false, Option, none, some, List, [], ◌∷◌, if◌then◌else◌,
}
use ssh_arena.Prelude.Int.{ℤ, pos}
use ssh_arena.Prelude.Text.{str_eq, is_empty, assign}
use ssh_arena.Prelude.Outcome.{Outcome, ok, err}
use ssh_arena.Prelude.Float.{Float}
use ssh_arena.State.Player.{Player, Players, get, get_by_player_id, set_player, role_stats}
use ssh_arena.State.ChatStore.{ChatMessage, ChatStore}
use ssh_arena.State.ChatStore as ChatStore
use ssh_arena.Roles.{Role, buyer, holder, whale, Random, Config, Assignment, assign_role}
use ssh_arena.Chat.{Service, broadcast}
use ssh_arena.Gameplay.Accounts.{
  GameError, player_not_found, store_failed, chat_body_required, token_refused,
}
use ssh_arena.Gameplay.Stats.{Records, record_player_snapshot}
use ssh_arena.Gameplay.Orders.{Engine}
use ssh_arena.Gameplay.Tokens.{
  Grants, BootstrapGrant, issue_bootstrap_token, consume_bootstrap_token,
}
use ssh_arena.Gameplay.Notices.{notify_player_locked}
use ssh_arena.Intel.Feeds as Feeds
pub mod Granted

-- The engine; `rng` is the state of the allocator's generator.
pub record Game (F R : Type 0) : Type 0 where
  pub orders : Engine F
  pub grants : Grants
  pub chat : Service
  pub private_history : String → List String
  pub intel : Option Feeds.Engine
  pub roles : Config
  pub rng : R

-- What the outside world answers to a login: whether files can be written, the time, and fresh texts.
pub record Login : Type 0 where
  pub written : Bool
  pub now : ℕ
  pub fresh_player : String
  pub fresh_token : String

pub record EnsurePlayerResponse : Type 0 where
  pub player : Player
  pub created : Bool
  pub bootstrap_token : String
  pub expires_at : ℕ

unfoldable pub role_name : Role → String
role_name Role.buyer = "Buyer"
role_name Role.holder = "Holder"
role_name Role.whale = "Whale"

-- The map of the holdings, written in their order.
unfoldable pub holdings_map : List (String × ℤ) → (String → ℤ) → String → ℤ
holdings_map [] m = m
holdings_map ((s, n) ∷ rest) m = holdings_map rest (assign m s n)

unfoldable pub new_player : Login → String → Assignment → Player
unfolding role_name holdings_map
new_player l username a = record {
  player_id = l.fresh_player;
  username = username;
  role = role_name a.role;
  cash = a.cash;
  reserved_cash = pos 0;
  portfolio = holdings_map a.holdings (λ s. pos 0);
  reserved_stocks = λ s. pos 0;
  lots = λ s. [];
  created_at = l.now;
  last_login_at = l.now;
}

module _ {F R : Type 0} ⦃f : Float F⦄ where
  abbrev pub with_players : Players → Game F R → Game F R
  with_players ps g = let e = g.orders in record g { orders = record e { players = ps } }

  abbrev pub with_records : Records F → Game F R → Game F R
  with_records r g = let e = g.orders in record g { orders = record e { records = r } }

  -- The token, and the answer of the snapshot.
  unfoldable pub logged :
      Login
      → Bool
      → Player
      → Game F R
      → Records F × Outcome GameError (Unit {0})
      → Game F R × Outcome GameError EnsurePlayerResponse
  logged l created p g (r, err x) =
      let issued = issue_bootstrap_token l.now l.fresh_token p.player_id p.username g.grants in
      (with_records r (record g { grants = issued.0 }), err x)
  logged l created p g (r, ok u) =
      let issued = issue_bootstrap_token l.now l.fresh_token p.player_id p.username g.grants in
      (
        with_records r (record g { grants = issued.0 }),
        ok (record {
          player = p;
          created = created;
          bootstrap_token = l.fresh_token;
          expires_at = issued.1;
        }),
      )

  -- After the player is stored.
  unfoldable pub log_in :
      Login → Bool → Player → Game F R → Game F R × Outcome GameError EnsurePlayerResponse
  unfolding logged
  log_in l created p g =
      logged l created p g
        (record_player_snapshot l.written l.now g.orders.symbols p g.orders.records)

  unfoldable pub store_player :
      Login → Bool → Player → Game F R → Game F R × Outcome GameError EnsurePlayerResponse
  unfolding log_in
  store_player l created p g =
      let stored = with_players (set_player p.username p g.orders.players) g in
      if l.written then log_in l created p stored else (stored, err store_failed)

  unfoldable pub ensure_known :
      Random F R
      → Login
      → String
      → Game F R
      → Option Player
      → Game F R × Outcome GameError EnsurePlayerResponse
  unfolding store_player new_player
  ensure_known random l username g (some p) =
      store_player l false (record p { last_login_at = l.now }) g
  ensure_known random l username g none =
      let a = assign_role random g.roles (role_stats g.orders.players) g.orders.symbols g.rng in
      store_player l true (new_player l username a.0) (record g { rng = a.1 })

  -- `EnsurePlayer`.
  unfoldable pub ensure_player :
      Random F R → Login → String → Game F R → Game F R × Outcome GameError EnsurePlayerResponse
  unfolding ensure_known
  ensure_player random l username g =
      ensure_known random l username g (get username g.orders.players)

  -- `handleBootstrapExchange`: the player behind a token.
  unfoldable pub exchange_token : ℕ → String → Game F R → Game F R × Outcome GameError Player
  exchange_token now token g =
      let used = consume_bootstrap_token now token g.grants in
      (
        record g { grants = used.0 },
        elim used.1 [
          | err x ↦ err token_refused
          | ok grant ↦ elim (get_by_player_id grant.player_id g.orders.players) [
            | none ↦ err player_not_found
            | some p ↦ ok p
          ]
        ],
      )

-- `resolvePlayerRef`: an id, or else a name.
unfoldable pub resolve_player_ref : String → Players → Option Player
resolve_player_ref ref ps =
    if is_empty ref
    then none
    else elim (get_by_player_id ref ps) [ some p ↦ some p | none ↦ get ref ps ]

abbrev direct_message : ℕ → String → Player → Player → ChatMessage
direct_message now body from to = record {
  kind = "chat.direct";
  channel = "direct";
  player_id = from.player_id;
  username = from.username;
  role = from.role;
  body = body;
  recipient_id = to.player_id;
  recipient_username = to.username;
  sent_at = now;
}

abbrev global_message : ℕ → String → Player → ChatMessage
global_message now body from = record {
  kind = "chat.message";
  channel = "global";
  player_id = from.player_id;
  username = from.username;
  role = from.role;
  body = body;
  recipient_id = "";
  recipient_username = "";
  sent_at = now;
}

-- A private payload for the sender, and for the recipient if that is another.
unfoldable pub deliver : String → String → String → (String → List String) → String → List String
deliver sender recipient payload history =
    notify_player_locked sender payload
      (if str_eq recipient sender then history else notify_player_locked recipient payload history)

abbrev keep_direct : Bool → ℕ → ChatMessage → Option ChatStore → Option ChatStore × Bool
keep_direct written now m none = (none, true)
keep_direct written now m (some s) = let r = ChatStore.append written now m s in (some r.0, r.1)

module _ {F R : Type 0} (encode : ChatMessage → String) where
  unfoldable pub send_direct :
      Bool → ℕ → String → Player → Player → Game F R → Game F R × Outcome GameError String
  unfolding deliver
  send_direct written now body from to g =
      let c = g.chat in
      let m = direct_message now body from to in
      let kept = keep_direct written now m c.store in
      let g' : Game F R = record g { chat = record c { store = kept.0 } } in
      if kept.1
      then (
        record g' {
          private_history = deliver from.player_id to.player_id (encode m) g.private_history;
        },
        ok (encode m),
      )
      else (g', err store_failed)

  unfoldable pub send_global :
      Bool → ℕ → String → Player → Game F R → Game F R × Outcome GameError String
  send_global written now body from g =
      let sent = broadcast encode written now (global_message now body from) g.chat in
      (
        record g { chat = sent.0 },
        elim sent.1 [ none ↦ err store_failed | some payload ↦ ok payload ],
      )

  unfoldable pub send_from :
      Bool → ℕ → String → String → Game F R → Player → Game F R × Outcome GameError String
  unfolding send_direct send_global resolve_player_ref
  send_from written now body to g from =
      if is_empty body
      then (g, err chat_body_required)
      else if is_empty to
      then send_global written now body from g
      else elim (resolve_player_ref to g.orders.players) [
        | none ↦ (g, err player_not_found)
        | some p ↦ send_direct written now body from p g
      ]

  -- `SendChat`.
  unfoldable pub send_chat :
      Bool → ℕ → String → String → String → Game F R → Game F R × Outcome GameError String
  unfolding send_from
  send_chat written now player_id body to g = elim (get_by_player_id player_id g.orders.players) [
    | none ↦ (g, err player_not_found)
    | some p ↦ send_from written now body to g p
  ]
