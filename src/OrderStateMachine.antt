-- ===== src/OrderStateMachine.antt =====
-- backend/execution/order_state_machine.py: the orders in memory, and the events that `_publish`
-- hands to the event loop. `event_bus` is true where a bus is attached and a loop runs; elsewhere
-- `_publish` does nothing. A uuid4 that a call draws is an argument of the model.
use indian_algo_trading_plat.Common.{
  ℕ, ◌+◌, ◌≡◌, String, Bool, true, false, not, ◌||◌, ◌&&◌, Option, none, some, List, [], ◌∷◌, ◌++◌,
  if◌then◌else◌, is_empty, filter_by, length, or_default, is_some, or_else, leb,
}
use indian_algo_trading_plat.Common.Int.{ℤ, pos, leb_ℤ}
use indian_algo_trading_plat.Common.Dict.{Dict, lookup, insert, values}
use indian_algo_trading_plat.Types.{
  OrderStatus, pending, opened, filled, rejected, cancelled, same_status, OrderRequest, OrderState,
  OrderStateEvent, TradingMode, OrderSide, OrderType,
}
use indian_algo_trading_plat.OrderStore.{DbStatus, RequestRow, is_terminal_order_status}
pub mod Transitions
pub mod Recovery
pub mod Lifecycle

-- TERMINAL
unfoldable pub is_terminal : OrderStatus → Bool
is_terminal filled = true
is_terminal cancelled = true
is_terminal rejected = true
is_terminal _ = false

-- TRANSITIONS: `b in TRANSITIONS.get(a, set())`
unfoldable pub in_transitions : OrderStatus → OrderStatus → Bool
in_transitions pending opened = true
in_transitions pending filled = true
in_transitions pending rejected = true
in_transitions opened filled = true
in_transitions opened cancelled = true
in_transitions opened rejected = true
in_transitions _ _ = false

-- `KeyError(order_id)`, and the two `ValueError`s of `_validate_transition`.
pub data OsmError : Type 0 where
  unknown_order terminal_order invalid_transition : OsmError

abbrev pub has_reason : Option String → Bool
has_reason none = false
has_reason (some r) = not (is_empty r)

abbrev is_rejected : OrderStatus → Bool
is_rejected rejected = true
is_rejected _ = false

-- `none` is the plain return, `some e` the exception.
unfoldable pub validate_transition : OrderStatus → OrderStatus → Option String → Option OsmError
unfolding same_status is_terminal in_transitions
validate_transition current new reason =
    if same_status current new
    then none
    else if is_terminal current
    then some terminal_order
    else if is_rejected new && has_reason reason
    then none
    else if not (in_transitions current new)
    then some invalid_transition
    else none

-- The keyword arguments of `transition`; `none` is one that is not passed.
pub record Updates (P : Type 0) : Type 0 where
  pub broker_order_id : Option (Option String)
  pub filled_quantity : Option ℤ
  pub avg_fill_price : Option (Option P)
  pub reject_reason : Option (Option String)

pub record OrderStateMachine (P : Type 0) : Type 0 where
  pub orders : Dict (OrderState P)
  pub event_bus : Bool
  pub scheduled : List (OrderStateEvent P)

-- `transition` raises, or returns its event with the machine that it leaves.
pub data Outcome (P : Type 0) : Type 0 where
  raised : OsmError → Outcome P
  moved : OrderStateEvent P → OrderStateMachine P → Outcome P

module _ {P : Type 0} where
  abbrev pub no_updates : Updates P
  no_updates = record {
    broker_order_id = none;
    filled_quantity = none;
    avg_fill_price = none;
    reject_reason = none;
  }

  -- `create_order` on a request, with the order id that uuid4 gives.
  unfoldable pub new_order : OrderRequest P → TradingMode → String → OrderState P
  new_order r mode order_id = record {
    order_id = order_id;
    broker_order_id = none;
    intent_id = some r.event_id;
    symbol = r.symbol;
    side = r.side;
    quantity = r.quantity;
    filled_quantity = pos 0;
    order_type = r.order_type;
    requested_price = r.price;
    avg_fill_price = none;
    status = pending;
    reject_reason = none;
    trading_mode = mode;
  }

  unfoldable pub create_order :
      OrderStateMachine P
      → OrderRequest P
      → TradingMode
      → String
      → OrderStateMachine P × OrderState P
  unfolding new_order
  create_order m r mode order_id =
      let state = new_order r mode order_id in
      (record m { orders = insert order_id state m.orders }, state)

  unfoldable pub to_event : OrderState P → String → OrderStateEvent P
  to_event state event_id = record {
    event_id = event_id;
    order_id = state.order_id;
    broker_order_id = state.broker_order_id;
    symbol = state.symbol;
    side = state.side;
    quantity = state.quantity;
    filled_quantity = state.filled_quantity;
    avg_fill_price = state.avg_fill_price;
    status = state.status;
    reject_reason = state.reject_reason;
    order_request_id = state.intent_id;
  }

  unfoldable pub publish : OrderStateMachine P → OrderStateEvent P → OrderStateMachine P
  publish m event = if m.event_bus then record m { scheduled = m.scheduled ++ event ∷ [] } else m

  -- The `replace` of `transition`.
  unfoldable pub updated : OrderState P → OrderStatus → Updates P → OrderState P
  updated current new u = record current {
    broker_order_id = or_default u.broker_order_id current.broker_order_id;
    filled_quantity = or_default u.filled_quantity current.filled_quantity;
    avg_fill_price = or_default u.avg_fill_price current.avg_fill_price;
    status = new;
    reject_reason = or_default u.reject_reason current.reject_reason;
  }

  abbrev pub reason_of : Updates P → Option String
  reason_of u = or_default u.reject_reason none

  abbrev pub apply_to :
      OrderStateMachine P
      → String
      → OrderStatus
      → Updates P
      → String
      → Option (OrderState P)
      → Outcome P
  apply_to m order_id new u event_id none = raised unknown_order
  apply_to m order_id new u event_id (some current) =
      elim (validate_transition current.status new (reason_of u)) [
        | some e ↦ raised e
        | none ↦
            let state = updated current new u in
            let event = to_event state event_id in
            moved event (publish (record m { orders = insert order_id state m.orders }) event)
      ]

  unfoldable pub transition :
      OrderStateMachine P → String → OrderStatus → Updates P → String → Outcome P
  unfolding validate_transition updated to_event publish
  transition m order_id new u event_id =
      apply_to m order_id new u event_id (lookup order_id m.orders)

  unfoldable pub get : OrderStateMachine P → String → Option (OrderState P)
  get m order_id = lookup order_id m.orders

  unfoldable pub pending_orders : OrderStateMachine P → List (OrderState P)
  unfolding same_status
  pending_orders m = filter_by (λ o. same_status o.status pending) (values m.orders)

  unfoldable pub open_orders : OrderStateMachine P → List (OrderState P)
  unfolding same_status
  open_orders m = filter_by (λ o. same_status o.status opened) (values m.orders)

  abbrev pub is_nonempty : List (OrderState P) → Bool
  is_nonempty [] = false
  is_nonempty (o ∷ os) = true

  unfoldable pub has_pending_or_open_orders : OrderStateMachine P → Bool
  unfolding pending_orders open_orders
  has_pending_or_open_orders m = is_nonempty (pending_orders m) || is_nonempty (open_orders m)
