-- ===== src/Types.antt =====
-- The vocabulary of orders: backend/core/types.py, the order events of backend/core/events.py, and
-- the orders of backend/execution/models.py. Clock readings (created_at, updated_at, occurred_at)
-- are kept by no model: no modelled decision reads them. `P` is the type of prices.
use indian_algo_trading_plat.Common.{String, Bool, true, false, Option}
use indian_algo_trading_plat.Common.Int.{ℤ}

-- The enums are strings in the program: `other_…` is any text that is no member.
pub data OrderSide : Type 0 where
  buy sell : OrderSide
  other_side : String → OrderSide

pub data OrderType : Type 0 where
  market limit : OrderType
  other_type : String → OrderType

pub data TradingMode : Type 0 where
  paper live : TradingMode
  other_mode : String → TradingMode

pub data OrderStatus : Type 0 where
  pending opened filled rejected cancelled : OrderStatus

abbrev pub is_buy : OrderSide → Bool
is_buy buy = true
is_buy _ = false

abbrev pub is_sell : OrderSide → Bool
is_sell sell = true
is_sell _ = false

abbrev pub known_side : OrderSide → Bool
known_side (other_side s) = false
known_side _ = true

abbrev pub is_limit : OrderType → Bool
is_limit limit = true
is_limit _ = false

abbrev pub is_market : OrderType → Bool
is_market market = true
is_market _ = false

abbrev pub known_type : OrderType → Bool
known_type (other_type s) = false
known_type _ = true

abbrev pub is_paper : TradingMode → Bool
is_paper paper = true
is_paper _ = false

abbrev pub is_live : TradingMode → Bool
is_live live = true
is_live _ = false

-- `a == b` on statuses
unfoldable pub same_status : OrderStatus → OrderStatus → Bool
same_status pending pending = true
same_status opened opened = true
same_status filled filled = true
same_status rejected rejected = true
same_status cancelled cancelled = true
same_status _ _ = false

-- `OrderRequestEvent`; `event_id` is the request's identity.
pub record OrderRequest (P : Type 0) : Type 0 where
  pub event_id : String
  pub symbol : String
  pub side : OrderSide
  pub quantity : ℤ
  pub order_type : OrderType
  pub price : Option P
  pub strategy_name : String
  pub signal_event_id : Option String
  pub trading_mode : TradingMode
  pub source : String
  pub strategy_signal_id : Option ℤ

-- `OrderIntent`
pub record OrderIntent (P : Type 0) : Type 0 where
  pub intent_id : String
  pub symbol : String
  pub side : OrderSide
  pub quantity : ℤ
  pub order_type : OrderType
  pub price : Option P
  pub strategy_name : Option String
  pub signal_event_id : Option String
  pub source : String
  pub trading_mode : TradingMode

-- `InternalOrderState`
pub record OrderState (P : Type 0) : Type 0 where
  pub order_id : String
  pub broker_order_id : Option String
  pub intent_id : Option String
  pub symbol : String
  pub side : OrderSide
  pub quantity : ℤ
  pub filled_quantity : ℤ
  pub order_type : OrderType
  pub requested_price : Option P
  pub avg_fill_price : Option P
  pub status : OrderStatus
  pub reject_reason : Option String
  pub trading_mode : TradingMode

pub record OrderStateEvent (P : Type 0) : Type 0 where
  pub event_id : String
  pub order_id : String
  pub broker_order_id : Option String
  pub symbol : String
  pub side : OrderSide
  pub quantity : ℤ
  pub filled_quantity : ℤ
  pub avg_fill_price : Option P
  pub status : OrderStatus
  pub reject_reason : Option String
  pub order_request_id : Option String
