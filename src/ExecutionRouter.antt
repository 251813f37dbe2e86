-- ===== src/ExecutionRouter.antt =====
-- backend/execution/execution_router.py: the path of an order request from its arrival to an adapter.
-- Of the subscribers of the bus only the router's own, `_on_order_state_event`, writes to this state;
-- a published event reaches it at once. The orders that the state machine schedules reach it later
-- (`deliver`). What the portfolio manager and the session report is read into fields.
use indian_algo_trading_plat.Common.{
  ◌≡◌, String, Bool, true, false, not, ◌||◌, ◌&&◌, Option, none, some, List, [], ◌∷◌, ◌++◌,
  if◌then◌else◌, is_empty, str_eq, any_of, upper, strip,
}
use Prim.Native.String
use indian_algo_trading_plat.Common.Int.{ℤ, pos, leb_ℤ}
use indian_algo_trading_plat.Common.Float.{Float}
use indian_algo_trading_plat.Types.{
  OrderRequest, OrderIntent, OrderState, OrderStateEvent, OrderStatus, pending, opened, filled,
  rejected, cancelled, TradingMode, is_paper, is_live, known_side, known_type,
}
use indian_algo_trading_plat.OrderStore.{
  OrderStore, DbStatus, RequestRow, get_order_request, check_duplicate, add_order_request,
  add_order_event, update_order_status, get_active_requests,
}
use indian_algo_trading_plat.OrderStateMachine.{
  OrderStateMachine, Outcome, raised, moved, OsmError, has_pending_or_open_orders,
}
use indian_algo_trading_plat.OrderStateMachine.Recovery.{load_from_store}
use indian_algo_trading_plat.KillSwitch.{KillSwitchService}
use indian_algo_trading_plat.Market.{MarketData}
use indian_algo_trading_plat.RiskGate.{Surroundings, RiskDecision, evaluate}
use indian_algo_trading_plat.PaperOrders.{Paper, Setting, PaperError, Result, ok, err}
use indian_algo_trading_plat.PaperOrders
use indian_algo_trading_plat.LiveOrders
use indian_algo_trading_plat.LiveOrders.{LiveSetting}
use indian_algo_trading_plat.MutationGuard.{is_live_execution_build_enabled}
pub mod Duplicates
pub mod Events
pub mod Fills
pub mod Intents
pub mod Rejections
pub mod Repeats
pub mod Routing
pub mod Switching
pub mod Sync

pub record ExecutionRouter (P : Type 0) : Type 0 where
  pub mode : TradingMode
  pub live_enabled : Bool
  pub kill_switch : KillSwitchService
  pub session_valid : Bool
  pub open_positions : Bool
  pub paper : Paper P
  pub processed_request_ids : List String

-- What one call of `route` reads around it: the surroundings of the gate (but for the kill switch), of
-- the two adapters, the code behind the live adapter's guard, and the ids that uuid4 gives to the
-- intent and to an event that the router itself makes.
pub record RouteSetting (P : Type 0) : Type 0 where
  pub gate : Surroundings P
  pub paper : Setting
  pub live : LiveSetting
  pub beyond : OrderStateMachine P → Outcome P
  pub intent_id : String
  pub event_id : String

-- The exceptions that leave `route`: the `ValueError`s of `OrderIntent`, and those of an adapter.
pub data RouteError : Type 0 where
  empty_symbol bad_quantity bad_side bad_type bad_mode : RouteError
  paper_raised : PaperError → RouteError
  live_raised : OsmError → RouteError

pub data Routed (P : Type 0) : Type 0 where
  answer : OrderStateEvent P → Routed P
  failed : RouteError → Routed P

-- _STATUS_TO_DB
unfoldable pub status_to_db : OrderStatus → DbStatus
status_to_db pending = DbStatus.pending
status_to_db opened = DbStatus.opened
status_to_db filled = DbStatus.filled
status_to_db rejected = DbStatus.rejected
status_to_db cancelled = DbStatus.cancelled

abbrev pub status_text : OrderStatus → String
status_text pending = "PENDING"
status_text opened = "OPEN"
status_text filled = "FILLED"
status_text rejected = "REJECTED"
status_text cancelled = "CANCELLED"

-- The reason is kept for REJECTED and CANCELLED, the price for FILLED.
abbrev pub kept_reason : OrderStatus → Option String → Option String
kept_reason rejected reason = reason
kept_reason cancelled reason = reason
kept_reason _ reason = none

abbrev pub kept_price : {P : Type 0} → OrderStatus → Option P → Option P
kept_price filled price = price
kept_price _ price = none

abbrev pub is_risk_rejected : DbStatus → Bool
is_risk_rejected DbStatus.risk_rejected = true
is_risk_rejected _ = false

abbrev pub is_rejected : OrderStatus → Bool
is_rejected rejected = true
is_rejected _ = false

module _ {P : Type 0} where
  -- `_persist_execution_result`
  unfoldable pub persist_execution_result : OrderStore P → String → OrderStateEvent P → OrderStore P
  unfolding status_to_db
  persist_execution_result s id e =
      add_order_event
        (update_order_status s id (status_to_db e.status) (kept_reason e.status e.reject_reason)
          e.broker_order_id (kept_price e.status e.avg_fill_price))
        id (status_text e.status) (status_text e.status) (kept_reason e.status e.reject_reason)
        e.broker_order_id

  abbrev sync_row : OrderStore P → String → OrderStateEvent P → Option (RequestRow P) → OrderStore P
  sync_row s id e none = s
  sync_row s id e (some row) =
      if is_risk_rejected row.status && is_rejected e.status
      then s
      else add_order_event
          (update_order_status s id (status_to_db e.status) (kept_reason e.status e.reject_reason)
            e.broker_order_id (kept_price e.status e.avg_fill_price))
          id (String.◌++◌ "STATE_UPDATE:" (status_text e.status)) (status_text e.status)
          (kept_reason e.status e.reject_reason) e.broker_order_id

  -- `_on_order_state_event`
  unfoldable pub on_order_state_event : OrderStore P → OrderStateEvent P → OrderStore P
  unfolding status_to_db
  on_order_state_event s e = elim e.order_request_id [
    | none ↦ s
    | some id ↦ if is_empty id then s else sync_row s id e (get_order_request s id)
  ]

  -- The event bus runs the events that the state machine scheduled.
  unfoldable pub deliver : List (OrderStateEvent P) → OrderStore P → OrderStore P
  deliver [] s = s
  deliver (e ∷ es) s = deliver es (on_order_state_event s e)

  abbrev pub with_store : ExecutionRouter P → OrderStore P → ExecutionRouter P
  with_store r s = record r { paper = record (r.paper) { store = s } }

  -- `if self.event_bus: await self.event_bus.publish(event)`
  unfoldable pub publish : ExecutionRouter P → OrderStateEvent P → ExecutionRouter P
  unfolding on_order_state_event
  publish r e =
      if r.paper.osm.event_bus then with_store r (on_order_state_event r.paper.store e) else r

  unfoldable pub simple_rejected_event : OrderRequest P → String → String → OrderStateEvent P
  simple_rejected_event q reason event_id = record {
    event_id = event_id;
    order_id = q.event_id;
    broker_order_id = none;
    symbol = q.symbol;
    side = q.side;
    quantity = q.quantity;
    filled_quantity = pos 0;
    avg_fill_price = none;
    status = rejected;
    reject_reason = some reason;
    order_request_id = some q.event_id;
  }

  unfoldable pub risk_rejected_event :
      OrderIntent P → Option String → String → String → OrderStateEvent P
  risk_rejected_event i reason request_id event_id = record {
    event_id = event_id;
    order_id = i.intent_id;
    broker_order_id = none;
    symbol = i.symbol;
    side = i.side;
    quantity = i.quantity;
    filled_quantity = pos 0;
    avg_fill_price = none;
    status = rejected;
    reject_reason = reason;
    order_request_id = some request_id;
  }
