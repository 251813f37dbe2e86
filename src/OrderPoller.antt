-- ===== src/OrderPoller.antt =====
-- backend/execution/order_poller.py: what one row of the broker's order book does to the state machine
-- and the order store, and normalize_broker_order_status of backend/execution/reconciliation.py. The
-- background task, the call of the broker and the exceptions of the store are not modelled; a row's
-- numbers are numbers already, and `digits` is `str` on whole numbers.
use indian_algo_trading_plat.Common.{
  String, Bool, true, false, not, ◌&&◌, Option, none, some, List, [], ◌∷◌, ◌++◌, if◌then◌else◌,
  is_empty, lower, strip, str_eq, any_of,
}
use indian_algo_trading_plat.Common.Int.{ℤ, pos, ◌-ℤ◌, leb_ℤ, eqb_ℤ}
use indian_algo_trading_plat.Common.Float.{Float, nought}
use indian_algo_trading_plat.Types.{
  OrderState, OrderSide, OrderStatus, pending, opened, filled, rejected, cancelled,
}
use indian_algo_trading_plat.Market.{is_zero, or_price}
use indian_algo_trading_plat.OrderStateMachine.{
  OrderStateMachine, Outcome, raised, moved, Updates, transition, pending_orders, open_orders,
}
use indian_algo_trading_plat.OrderStore.{
  OrderStore, DbStatus, FillRow, update_order_status, add_order_event, record_fill,
  get_cumulative_filled_quantity, has_broker_id,
}
use indian_algo_trading_plat.ExecutionRouter.{status_to_db, status_text}
use Prim.Native.String
pub mod Deltas
pub mod Orders

abbrev one_of : String → List String → Bool
one_of s names = any_of (str_eq s) names

abbrev filled_names : List String
filled_names = "complete" ∷ "completed" ∷ "filled" ∷ "fully_filled" ∷ "fully filled" ∷ []

abbrev rejected_names : List String
rejected_names = "rejected" ∷ "reject" ∷ "rejected_order" ∷ []

abbrev cancelled_names : List String
cancelled_names = "cancelled" ∷ "canceled" ∷ "cancelled_order" ∷ []

abbrev open_names : List String
open_names =
    "open" ∷ "trigger pending" ∷ "trigger_pending" ∷ "accepted" ∷ "accept" ∷ "partial"
    ∷ "partially filled" ∷ "partially_filled" ∷ []

abbrev pending_names : List String
pending_names =
    "pending" ∷ "validation pending" ∷ "validation_pending" ∷ "put_order_req_received"
    ∷ "put order req received" ∷ []

-- `none` is "UNKNOWN".
unfoldable pub normalize_broker_order_status : String → Option OrderStatus
normalize_broker_order_status raw =
    let s = lower (strip raw) in
    if is_empty raw
    then none
    else if one_of s filled_names
    then some filled
    else if one_of s rejected_names
    then some rejected
    else if one_of s cancelled_names
    then some cancelled
    else if one_of s open_names
    then some opened
    else if one_of s pending_names
    then some pending
    else none

-- A row of the order book, each value read under the first of its keys that has one.
pub record BrokerRow (P : Type 0) : Type 0 where
  pub order_id : String
  pub status : String
  pub filled_quantity : ℤ
  pub average_price : Option P
  pub text : Option String

pub record OrderPoller (P : Type 0) : Type 0 where
  pub order_state_machine : OrderStateMachine P
  pub order_store : Option (OrderStore P)

abbrev pub reason_for : OrderStatus → Option String → Option String
reason_for rejected text = text
reason_for _ text = none

module _ {P : Type 0} where
  unfoldable pub persist_to_store :
      Option String → String → OrderStatus → Option String → Option P → OrderStore P → OrderStore P
  unfolding status_to_db
  persist_to_store none broker status reason price s = s
  persist_to_store (some id) broker status reason price s =
      if is_empty id
      then s
      else add_order_event
          (update_order_status s id (status_to_db status) reason (some broker) price) id
          (String.◌++◌ "BROKER_POLL:" (status_text status)) (status_text status) reason
          (some broker)

module _ {P : Type 0} ⦃d : Float P⦄ where
  -- The fill that brings the request to the broker's quantity.
  abbrev pub delta_fill :
      (ℤ → String) → String → String → String → OrderSide → ℤ → P → OrderStore P → FillRow P
  delta_fill digits id broker symbol side new price s = record {
    fill_id = String.◌++◌ id (String.◌++◌ ":" (String.◌++◌ broker (String.◌++◌ ":" (digits new))));
    request_id = id;
    broker_order_id = some broker;
    symbol = symbol;
    side = side;
    filled_quantity = new -ℤ get_cumulative_filled_quantity s id;
    fill_price = price;
    fees = nought;
    source = "broker_poll";
  }

  unfoldable pub record_fill_delta :
      (ℤ → String)
      → Option String
      → String
      → String
      → OrderSide
      → ℤ
      → P
      → OrderStore P
      → OrderStore P
  record_fill_delta digits none broker symbol side new price s = s
  record_fill_delta digits (some id) broker symbol side new price s =
      if is_empty id
      then s
      else if leb_ℤ (new -ℤ get_cumulative_filled_quantity s id) (pos 0)
      then s
      else (record_fill s (delta_fill digits id broker symbol side new price s)).0

  -- `avg_fill_price and avg_fill_price > 0`, with the fill that follows from it
  abbrev recorded :
      (ℤ → String) → BrokerRow P → OrderState P → Option P → OrderStore P → OrderStore P
  recorded digits row o none s = s
  recorded digits row o (some price) s =
      if not (leb_ℤ row.filled_quantity (pos 0)) && (not (is_zero price) && d.lt nought price)
      then record_fill_delta digits o.intent_id row.order_id o.symbol o.side row.filled_quantity
          price s
      else s

  abbrev kept_up :
      (ℤ → String) → OrderStatus → BrokerRow P → OrderState P → OrderStore P → OrderStore P
  kept_up digits status row o s = recorded digits row o row.average_price (
      persist_to_store o.intent_id row.order_id status (reason_for status row.text)
        row.average_price s)

  abbrev pub updates_of : OrderStatus → BrokerRow P → OrderState P → Updates P
  updates_of status row o = record {
    broker_order_id = none;
    filled_quantity =
        some (if eqb_ℤ row.filled_quantity (pos 0) then o.filled_quantity else row.filled_quantity);
    avg_fill_price = some (or_price row.average_price o.avg_fill_price);
    reject_reason = some (reason_for status row.text);
  }

  -- A transition that raises is skipped with what would follow it.
  abbrev pub after_transition :
      (ℤ → String)
      → OrderStatus
      → BrokerRow P
      → OrderState P
      → OrderPoller P
      → Outcome P
      → OrderPoller P
  after_transition digits status row o p (raised e) = p
  after_transition digits status row o p (moved e m) = record {
    order_state_machine = m;
    order_store = elim p.order_store [
      | none ↦ none
      | some s ↦ some (kept_up digits status row o s)
    ];
  }

  -- One round of the loop over the orders, with the id that uuid4 gives the event.
  unfoldable pub apply_to_order :
      (ℤ → String)
      → String
      → OrderStatus
      → BrokerRow P
      → OrderState P
      → OrderPoller P
      → OrderPoller P
  unfolding record_fill_delta persist_to_store
  apply_to_order digits event_id status row o p =
      if not (has_broker_id row.order_id o.broker_order_id)
      then p
      else after_transition digits status row o p
          (transition p.order_state_machine o.order_id status (updates_of status row o) event_id)

  abbrev pub apply_to_orders :
      (ℤ → String)
      → String
      → OrderStatus
      → BrokerRow P
      → List (OrderState P)
      → OrderPoller P
      → OrderPoller P
  apply_to_orders digits event_id status row [] p = p
  apply_to_orders digits event_id status row (o ∷ os) p =
      apply_to_orders digits event_id status row os (apply_to_order digits event_id status row o p)

  abbrev pub apply_status :
      (ℤ → String) → String → BrokerRow P → Option OrderStatus → OrderPoller P → OrderPoller P
  apply_status digits event_id row none p = p
  apply_status digits event_id row (some status) p =
      if is_empty row.order_id
      then p
      else apply_to_orders digits event_id status row
          (pending_orders p.order_state_machine ++ open_orders p.order_state_machine) p

  unfoldable pub apply_broker_row :
      (ℤ → String) → String → BrokerRow P → OrderPoller P → OrderPoller P
  unfolding apply_to_order normalize_broker_order_status
  apply_broker_row digits event_id row p =
      apply_status digits event_id row (normalize_broker_order_status row.status) p

  -- The loop of `poll_once` over the rows.
  unfoldable pub apply_rows :
      (ℤ → String) → String → List (BrokerRow P) → OrderPoller P → OrderPoller P
  unfolding apply_broker_row
  apply_rows digits event_id [] p = p
  apply_rows digits event_id (row ∷ rows) p =
      apply_rows digits event_id rows (apply_broker_row digits event_id row p)
