-- ===== src/OrderBook/Types.antt =====
-- The data of internal/orderbook/orderbook.go. A side, a type or a status that is none of the
-- source's string constants is the last constructor of its type. Prices, quantities and times of
-- the book are natural numbers: what the source refuses below zero it also refuses at zero.
use ssh_arena.Prelude.{ℕ, String, Bool, List, true, false}
use ssh_arena.Prelude.Int.{ℤ}

pub data Side : Type 0 where
  buy sell unsupported : Side

pub data OrderType : Type 0 where
  limit market unknown : OrderType

pub data OrderStatus : Type 0 where
  opened partial filled cancelled unset : OrderStatus

pub record Order : Type 0 where
  pub id : String
  pub request_id : String
  pub player_id : String
  pub player_role : String
  pub symbol : String
  pub side : Side
  pub kind : OrderType
  pub price : ℕ
  pub quantity : ℕ
  pub remaining_quantity : ℕ
  pub status : OrderStatus
  pub created_at : ℕ

-- The printed `%s-%d` of a trade, as its two parts.
pub record TradeId : Type 0 where
  pub request_id : String
  pub number : ℕ

pub record Trade : Type 0 where
  pub id : TradeId
  pub symbol : String
  pub price : ℕ
  pub quantity : ℕ
  pub aggressor_side : Side
  pub buy_order_id : String
  pub sell_order_id : String
  pub buyer_id : String
  pub seller_id : String
  pub buyer_role : String
  pub seller_role : String
  pub executed_at : ℕ

pub record Level : Type 0 where
  pub price : ℕ
  pub quantity : ℤ
  pub order_count : ℕ

pub record Snapshot : Type 0 where
  pub symbol : String
  pub last_trade_price : ℕ
  pub sequence : ℕ
  pub bids : List Level
  pub asks : List Level
  pub generated_at : ℕ

pub data BookError : Type 0 where
  symbol_required player_id_required order_id_required : BookError
  quantity_not_positive unsupported_side unsupported_type limit_price_not_positive : BookError
  no_orders empty_level missing_level order_not_found : BookError
  out_of_fuel : BookError

-- Is this side the bids' side, the asks' side, or neither?
abbrev pub is_buy : Side → Bool
is_buy Side.buy = true
is_buy _ = false

abbrev pub is_market : OrderType → Bool
is_market OrderType.market = true
is_market _ = false

abbrev pub is_limit : OrderType → Bool
is_limit OrderType.limit = true
is_limit _ = false
