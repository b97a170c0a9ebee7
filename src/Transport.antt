-- ===== src/Transport.antt =====
-- The market stream of internal/grpcapi/service.go: what GetMarketStream does with the requests of a
-- client and with the feeds of the gameplay engine. A payload is a text with what can be decoded of it.
-- The counter of messages, which all streams share, is a natural number: it goes up by one for each
-- message, and no run of the program comes near 2 ^ 63 of them.
use ssh_arena.Prelude.{
  ℕ, suc, ◌+◌, String, Bool, true, false, not, ◌&&◌, ◌||◌, Option, none, some, List, [], ◌∷◌, ◌++◌,
  if◌then◌else◌,
}
use ssh_arena.Prelude.Text.{str_eq, is_empty}
use ssh_arena.Prelude.Outcome.{Outcome, ok, err, ◌>>=◌}
pub mod Ordered
pub mod Feeds
mod Tests

pub data Topic : Type 0 where
  market portfolio chat private : Topic

-- What `matchesSymbols` finds in a payload: nothing that can be decoded, a symbol, which may be
-- empty, with the affected symbols, if there is a list of those.
pub data Shape : Type 0 where
  opaque : Shape
  about : String → Option (List String) → Shape

pub record Payload : Type 0 where
  pub text : String
  pub shape : Shape

pub record Envelope : Type 0 where
  pub topic : Topic
  pub payload : Payload
  pub sequence : ℕ

-- `MarketStreamRequest`.
pub record Request : Type 0 where
  pub player_id : String
  pub symbols : List String
  pub include_portfolio : Bool
  pub include_chat : Bool

-- What the gameplay engine answers at one moment; `none` is an error.
pub record World : Type 0 where
  pub snapshot : String → Option Payload
  pub portfolio : String → Option Payload
  pub chat_history : List Payload
  pub private_history : String → List Payload

-- The variables of one call of `GetMarketStream`, the shared counter, and what was sent. The private
-- feed is that of a player.
pub record Stream : Type 0 where
  pub player_id : String
  pub private_feed : Option String
  pub symbols : List String
  pub include_portfolio : Bool
  pub include_chat : Bool
  pub sequence : ℕ
  pub sent : List Envelope

unfoldable pub opened : ℕ → Stream
opened sequence = record {
  player_id = "";
  private_feed = none;
  symbols = [];
  include_portfolio = false;
  include_chat = false;
  sequence = sequence;
  sent = [];
}

pub data Input : Type 0 where
  request : Request → World → Input
  from_market from_chat from_private : Payload → Input
  refresh : World → Input
  elsewhere : Input

unfoldable pub is_wanted : String → List String → Bool
is_wanted s [] = false
is_wanted s (t ∷ ts) = str_eq t s || is_wanted s ts

-- The keys of the map of symbols; a map has no order, the model keeps that of the request.
unfoldable pub symbol_set : List String → List String
unfolding is_wanted
symbol_set [] = []
symbol_set (s ∷ ss) = let rest = symbol_set ss in if is_wanted s rest then rest else s ∷ rest

unfoldable pub some_wanted : List String → List String → Bool
unfolding is_wanted
some_wanted [] wanted = false
some_wanted (s ∷ ss) wanted = is_wanted s wanted || some_wanted ss wanted

unfoldable pub shape_matches : Shape → List String → Bool
unfolding some_wanted
shape_matches opaque wanted = true
shape_matches (about s none) wanted = is_empty s || is_wanted s wanted
shape_matches (about s (some affected)) wanted =
    if is_empty s then some_wanted affected wanted else is_wanted s wanted

-- `matchesSymbols`.
unfoldable pub matches_symbols : Payload → List String → Bool
unfolding shape_matches
matches_symbols p [] = true
matches_symbols p (s ∷ ss) = shape_matches p.shape (s ∷ ss)

-- `if playerID != "" && privateFeed == nil`.
unfoldable pub subscribe_private : Option String → Stream → Stream
subscribe_private none s =
    if is_empty s.player_id then s else record s { private_feed = some s.player_id }
subscribe_private (some p) s = s

-- `accepts` says which messages the connection takes; a stream that ends keeps what was sent.
module _ (accepts : Envelope → Bool) where
  -- `stream.Send(s.envelope(topic, payload))`.
  unfoldable pub send : Topic → Payload → Stream → Outcome Stream Stream
  send topic p s =
      let e : Envelope = record { topic = topic; payload = p; sequence = suc s.sequence } in
      let s' = record s { sequence = suc s.sequence } in
      if accepts e then ok (record s' { sent = s.sent ++ e ∷ [] }) else err s'

  -- A payload that is not empty.
  unfoldable pub send_full : Topic → Payload → Stream → Outcome Stream Stream
  unfolding send
  send_full topic p s = if is_empty p.text then ok s else send topic p s

  unfoldable pub send_each : Topic → List Payload → Stream → Outcome Stream Stream
  unfolding send_full
  send_each topic [] s = ok s
  send_each topic (p ∷ ps) s = send_full topic p s >>= λ t. send_each topic ps t

  abbrev send_answer : Topic → Option Payload → Stream → Outcome Stream Stream
  send_answer topic none s = ok s
  send_answer topic (some p) s = send topic p s

  unfoldable pub send_snapshots : World → List String → Stream → Outcome Stream Stream
  unfolding send
  send_snapshots w [] s = ok s
  send_snapshots w (x ∷ xs) s = send_answer market (w.snapshot x) s >>= λ t. send_snapshots w xs t

  -- `sendInitialMarketState`.
  unfoldable pub send_initial_market_state : World → Stream → Outcome Stream Stream
  unfolding send_snapshots
  send_initial_market_state w s = send_snapshots w s.symbols s >>= λ t.
      if t.include_portfolio && not (is_empty t.player_id)
      then send_answer portfolio (w.portfolio t.player_id) t
      else ok t

  -- `sendInitialChatState`.
  unfoldable pub send_initial_chat_state : World → Stream → Outcome Stream Stream
  unfolding send_each
  send_initial_chat_state w s = send_each chat w.chat_history s >>= λ t.
      if is_empty t.player_id then ok t else send_each private (w.private_history t.player_id) t

  -- A request of the client.
  unfoldable pub handle_request : Request → World → Stream → Outcome Stream Stream
  unfolding send_initial_chat_state send_initial_market_state subscribe_private symbol_set
  handle_request r w s =
      let named = record s {
        player_id = r.player_id;
        include_portfolio = r.include_portfolio;
        include_chat = r.include_chat;
      } in
      (if r.include_chat then send_initial_chat_state w named else ok named) >>= λ t.
      let u = subscribe_private t.private_feed t in
      send_initial_market_state w (record u { symbols = symbol_set r.symbols })

  abbrev feed_payload : Option String → Payload → Stream → Outcome Stream Stream
  feed_payload none p s = ok s
  feed_payload (some owner) p s = send_full private p s

  -- One turn of the loop of `GetMarketStream`; `elsewhere` is a message of another stream.
  unfoldable pub handle : Input → Stream → Outcome Stream Stream
  unfolding handle_request matches_symbols send_full
  handle (request r w) s = handle_request r w s
  handle (from_market p) s = if matches_symbols p s.symbols then send_full market p s else ok s
  handle (from_chat p) s = if s.include_chat then send_full chat p s else ok s
  handle (from_private p) s = feed_payload s.private_feed p s
  handle (refresh w) s = send_initial_market_state w s
  handle elsewhere s = ok (record s { sequence = suc s.sequence })

  unfoldable pub run : List Input → Stream → Outcome Stream Stream
  unfolding handle
  run [] s = ok s
  run (i ∷ is) s = handle i s >>= λ t. run is t

  -- `StreamChat`, on what its feed brings.
  unfoldable pub stream_chat : List Payload → Stream → Outcome Stream Stream
  unfolding send_each
  stream_chat ps s = send_each chat ps s
