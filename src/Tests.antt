-- ===== src/Tests.antt =====
-- The concrete data of the examples: whole numbers as prices, one request, one market, one router.
use indian_algo_trading_plat.Common.{
  ℕ, String, Bool, true, false, Option, none, some, List, [], ◌∷◌,
}
use indian_algo_trading_plat.Common.Int.{ℤ, pos}
use indian_algo_trading_plat.Types.{OrderRequest, OrderIntent, OrderSide, OrderType, TradingMode}
use indian_algo_trading_plat.OrderStore.{OrderStore, DbStatus, RequestRow, FillRow, empty_store}
use indian_algo_trading_plat.OrderStateMachine.{OrderStateMachine, Outcome, raised, unknown_order}
use indian_algo_trading_plat.KillSwitch
use indian_algo_trading_plat.Market.{MarketData, instant}
use indian_algo_trading_plat.RiskGate.{Surroundings}
use indian_algo_trading_plat.PaperConfig.{default_config}
use indian_algo_trading_plat.PaperOrders.{Setting, Paper}
use indian_algo_trading_plat.LiveOrders.{LiveSetting}
use indian_algo_trading_plat.ExecutionRouter.{ExecutionRouter, RouteSetting}
pub mod Limits
pub mod Books
pub mod Candles
pub mod Safety
pub mod Polls
pub mod Signals
pub mod Manual
pub mod Stores
pub mod Orders
pub mod Routes

abbrev pub request : OrderRequest ℤ
request = record {
  event_id = "r1";
  symbol = "INFY";
  side = OrderSide.buy;
  quantity = pos 10;
  order_type = OrderType.market;
  price = none;
  strategy_name = "ema";
  signal_event_id = none;
  trading_mode = TradingMode.paper;
  source = "strategy";
  strategy_signal_id = none;
}

abbrev pub market : MarketData ℤ
market = record {
  ltp = some (pos 100);
  price = none;
  received_at = some (instant (pos 995));
  last_update = none;
  timestamp = none;
}

abbrev pub no_orders : OrderStateMachine ℤ
no_orders = record { orders = []; event_bus = true; scheduled = [] }

abbrev pub paper : Paper ℤ
paper = record { osm = no_orders; store = empty_store; positions = []; journal = [] }

-- A Monday at 10:00 in India.
abbrev pub setting : Setting
setting = record {
  config = default_config;
  now = record { weekday = 0; microseconds = 36_000_000_000 };
  has_store = true;
  has_journal = true;
  journal_raises = false;
  order_id = "o1";
  event_id = "e1";
  retry_event_id = "e2";
}

abbrev pub gate : Surroundings ℤ
gate = record {
  kill_switch = false;
  latest_ticks = none;
  portfolio = none;
  settings = record {
    max_order_qty = pos 50;
    max_order_notional = pos 5_000;
    max_daily_loss = pos 0;
  };
  freshness_seconds = pos 30;
  now = pos 1_000;
}

abbrev pub live_setting : LiveSetting
live_setting = record {
  build_enabled = true;
  live_enabled = true;
  trading_mode = TradingMode.live;
  session_valid = true;
  smart_api = true;
  risk_approval = some true;
  preflight_failure = none;
  order_id = "o1";
  event_id = "e1";
}

abbrev pub beyond : OrderStateMachine ℤ → Outcome ℤ
beyond m = raised unknown_order

abbrev pub route_setting : RouteSetting ℤ
route_setting = record {
  gate = gate;
  paper = setting;
  live = live_setting;
  beyond = beyond;
  intent_id = "i1";
  event_id = "e3";
}

abbrev pub router : ExecutionRouter ℤ
router = record {
  mode = TradingMode.paper;
  live_enabled = true;
  kill_switch = KillSwitch.new true false;
  session_valid = true;
  open_positions = false;
  paper = paper;
  processed_request_ids = [];
}

abbrev pub locked_router : ExecutionRouter ℤ
locked_router = record router { kill_switch = KillSwitch.new true true }

abbrev pub row : RequestRow ℤ
row = record {
  request_id = "r1";
  client_order_id = "r1";
  idempotency_key = "r1";
  symbol = "INFY";
  side = OrderSide.buy;
  quantity = pos 10;
  order_type = OrderType.market;
  mode = TradingMode.paper;
  status = DbStatus.pending;
  broker_order_id = none;
  reject_reason = none;
  avg_fill_price = none;
}

abbrev pub one_row : OrderStore ℤ
one_row = record { order_requests = row ∷ []; order_events = []; order_fills = [] }

abbrev pub fill : FillRow ℤ
fill = record {
  fill_id = "f1";
  request_id = "r1";
  broker_order_id = none;
  symbol = "INFY";
  side = OrderSide.buy;
  filled_quantity = pos 10;
  fill_price = pos 100;
  fees = pos 1;
  source = "paper";
}
