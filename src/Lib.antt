-- ===== src/Lib.antt =====
-- A model of the trading arena: order books, the exchange that owns them, the gameplay engine that
-- keeps players' accounts, the stores behind it, the stream that carries its messages, and the state
-- of the terminal client that reads them.
--
-- How the parts interact. A player's action reaches the gameplay engine (internal/gameplay), which
-- reserves cash or shares, hands the order to the exchange service (internal/exchange), which places
-- it in the book of its symbol (internal/orderbook) and moves the price; the engine then settles the
-- trades between the accounts of both players, gives back what is no longer reserved, and writes the
-- players to their store (internal/state). Market events (internal/marketevents) are planned one at a
-- time and fire on the exchange; players can buy their preview, and other reports, from internal/intel.
-- The stream of internal/grpcapi numbers the messages of the engine's feeds for one client, and
-- cmd/game-client keeps what they say, with the chart, the order ticket and the chat it shows.
--
-- Which file models what:
--   OrderBook/Types, Ladder, Place, Cancel, Snapshot: internal/orderbook/orderbook.go. A Ladder is
--     one side of a Book, its map from prices to orders and its sorted price slice; the source writes
--     every operation twice, once for each side. Place.place is Book.Place, match_loop its loop,
--     execute one round of it, settle the switch after it; Cancel.cancel is Book.Cancel;
--     Snapshot.snapshot is Book.Snapshot. The files below Ladder and Place hold proofs and the
--     description of matching as a sweep over one queue (Place/Sweep).
--   Exchange/Engine and its child Moves: internal/exchange/price_engine.go, where Engine holds the
--     state and the measures of trades and books, and Moves the drift, Apply, TriggerShock and
--     Current. Exchange/Flows: its integer helpers. Exchange/Service: PlaceOrder and CancelOrder of
--     internal/exchange/service.go; Service/Events: TriggerMarketEvent, ChartSnapshot, PriceMap and
--     NewService. The files below Grid, Prices and Listed hold proofs.
--   Channels: the subscribers of internal/exchange/service.go, whose way of subscribing, closing and
--     sending under a lock the chat and the private notices repeat; Channels/Unlocked: the sends of
--     internal/charting/engine.go. Charting: the rest of that file.
--   Roles: internal/roles/role_assignment.go. Extensions/Transfer:
--     extensions/player_transfer_money/handler.go, in a transaction of internal/platform/tx/manager.go.
--   Gameplay/Fees, Lots, Accounts, Desk, Trades, Orders, Tokens: internal/gameplay/engine.go, where
--     Orders.handle_place_order and handle_cancel_order are the handlers, Accounts the reservations,
--     Desk the players and open orders that one action touches, Trades.apply_trade is applyTrade.
--     Gameplay/Notices: the private history of internal/gameplay/intel_support.go.
--   Gameplay/IntelBuy: handleIntelBuy of internal/gameplay/intel_support.go. Gameplay/Stats:
--     internal/gameplay/stats_support.go. Gameplay/Sessions, Portfolio, Actions: the rest of
--     internal/gameplay/engine.go, where Sessions.Game is the whole state of the engine,
--     Sessions.ensure_player is EnsurePlayer and Actions.execute_action is ExecuteAction; Actions/Serving
--     is one action after another.
--   MarketEvents: planLocked and step of internal/marketevents/engine.go, where step is one tick of
--     the timer; MarketEvents/Catalogue: NewEngine, ParseRange and the choice by chance;
--     MarketEvents/Market: what an event that fires does to the exchange. Intel/Feeds, Access, Analytics, Shop: internal/intel/engine.go, where Access is the
--     life of an insider purchase, from arming to the preview. Chat: internal/chat/chat_service.go.
--   State/Player, TradeStore, ChatStore, Performance: player_store.go, trade_store.go, chat_store.go
--     and performance_store.go of internal/state.
--   Transport: GetMarketStream and StreamChat of internal/grpcapi/service.go.
--   Client: cmd/game-client. Chart is the viewport of main.go, State its uiState, Ticket the order
--     ticket with its estimate, Input the keys, Screen the clicks, the tiles and the banner of
--     event_banner.go, Chat the input of chat_ui.go, and Loop one turn of the event loop.
--   Prelude: names passed on from the libraries, lists, texts, int64 arithmetic, packages strings and
--     fmt on code points (Prelude/Runes), and the interface of a floating point type (Prelude/Float),
--     with the few laws that the theorems use of it.
--
-- Numbers. Balances and charges are int64 values: an ℤ that every sum and product wraps. Prices and
-- quantities in a book are natural numbers, which never leave the range that validate lets in, since
-- a fill only lowers a quantity; a zero or negative price or quantity of a request fails the same
-- guards as zero. A level's total in a snapshot wraps. Times are natural numbers, and zero is the
-- zero time; a call reads the clock once. The stream's counter of messages, and the coordinates of the
-- screen and of the chart, are natural numbers.
-- float64 and package math are an instance of the interface, so that no theorem rests on how they
-- round; Prelude/Float/Fixed is a decimal type on which the definitions run.
--
-- Locks and channels. A method under a lock is one step, and the mutex of the gameplay engine is a value
-- that ExecuteAction and NotifyPlayer take and give back (Gameplay/Notices, Actions). A goroutine that
-- waits forever for a lock, and one that panics by a send on a closed channel, have `none`.
--
-- Fuel. The matching loop runs on the remaining quantity of the order plus one, which is enough
-- since every round fills at least one unit.
--
-- Maps are functions or lists of entries, read as zero values at missing keys. A pointer to a resting
-- order is always the best order of its half, and a pointer to a player is a player id, so that a
-- buyer who is the seller is one account.
--
-- Not modelled: JSON, logging, the network, sockets and SSH sessions, the calls of internal/grpcapi
-- that only pass a request on, what the client draws and the numbers of its status line, the rumours
-- of internal/intel and its NewEngine, the registries of actions and events, configuration files, the
-- cache and the file system but for their failures, which are arguments. The float markup of a market
-- order is exact for prices below 2 ^ 50. What a random generator answers is an argument. An analytics
-- report looks only at which symbols have a chart, and its refresh of the prices is left out. The
-- trade store, the performance store and the chat are configured, as cmd/grpc-game/main.go configures
-- them.
pub mod Prelude
pub mod OrderBook
pub mod State
pub mod Channels
pub mod Exchange
pub mod MarketEvents
pub mod Intel
pub mod Chat
pub mod Roles
pub mod Charting
pub mod Gameplay
pub mod Extensions
pub mod Client
pub mod Transport
