-- ===== src/OrderPoller/Orders.antt =====
-- backend/execution/order_poller.py: what a poll may do to the orders in memory, told with the step
-- relation of the state machine.
use indian_algo_trading_plat.Common.{
  ◌≡◌, refl, String, Option, none, some, List, [], ◌∷◌, ◌++◌, is_empty, Bool-cases, inl, inr,
}
use indian_algo_trading_plat.Common.Int.{ℤ}
use indian_algo_trading_plat.Common.Float.{Float}
use indian_algo_trading_plat.Common.Dict.{lookup}
use indian_algo_trading_plat.Types.{OrderState, OrderStateEvent, OrderStatus}
use indian_algo_trading_plat.OrderStore.{has_broker_id}
use indian_algo_trading_plat.OrderStateMachine.{
  OrderStateMachine, Outcome, raised, moved, transition, pending_orders, open_orders,
}
use indian_algo_trading_plat.OrderStateMachine.Lifecycle.{
  Reach, here, next, move, Follows, order_persists,
}
use indian_algo_trading_plat.OrderPoller.{
  BrokerRow, OrderPoller, normalize_broker_order_status, updates_of, after_transition,
  apply_to_order, apply_to_orders, apply_status, apply_broker_row, apply_rows,
}

module _ {P : Type 0} ⦃d : Float P⦄ where
  after_transition-Reach :
      (digits : ℤ → String) (status : OrderStatus) (row : BrokerRow P) (o : OrderState P)
      (p : OrderPoller P) (m : OrderStateMachine P) (r : Outcome P)
      → Reach m p.order_state_machine
      → ((e : OrderStateEvent P) (n : OrderStateMachine P) → r ≡ moved e n → Reach m n)
      → Reach m (after_transition digits status row o p r).order_state_machine
  after_transition-Reach digits status row o p m (raised e) h k = h
  after_transition-Reach digits status row o p m (moved e n) h k = k e n refl

  apply_to_order-Reach :
      (digits : ℤ → String) (ev : String) (status : OrderStatus) (row : BrokerRow P)
      (o : OrderState P) (p : OrderPoller P) (m : OrderStateMachine P)
      → Reach m p.order_state_machine
      → Reach m (apply_to_order digits ev status row o p).order_state_machine
  unfolding apply_to_order
  apply_to_order-Reach digits ev status row o p m h =
      elim (Bool-cases (has_broker_id row.order_id o.broker_order_id)) [
        | inr other ↦ rw (other) h
        | inl own ↦ rw (own) (
            after_transition-Reach digits status row o p m
              (transition p.order_state_machine o.order_id status (updates_of status row o) ev) h
              (λ e n moved_on.
                next h (move o.order_id status (updates_of status row o) ev moved_on)))
      ]

  apply_to_orders-Reach :
      (digits : ℤ → String) (ev : String) (status : OrderStatus) (row : BrokerRow P)
      (m : OrderStateMachine P) (os : List (OrderState P)) (p : OrderPoller P)
      → Reach m p.order_state_machine
      → Reach m (apply_to_orders digits ev status row os p).order_state_machine
  apply_to_orders-Reach digits ev status row m [] p h = h
  apply_to_orders-Reach digits ev status row m (o ∷ os) p h =
      apply_to_orders-Reach digits ev status row m os (apply_to_order digits ev status row o p)
        (apply_to_order-Reach digits ev status row o p m h)

  apply_status-Reach :
      (digits : ℤ → String) (ev : String) (row : BrokerRow P) (status : Option OrderStatus)
      (p : OrderPoller P) (m : OrderStateMachine P)
      → Reach m p.order_state_machine
      → Reach m (apply_status digits ev row status p).order_state_machine
  apply_status-Reach digits ev row none p m h = h
  apply_status-Reach digits ev row (some status) p m h = elim (Bool-cases (is_empty row.order_id)) [
    | inl unnamed ↦ rw (unnamed) h
    | inr named ↦ rw (named) (
        apply_to_orders-Reach digits ev status row m
          (pending_orders p.order_state_machine ++ open_orders p.order_state_machine) p h)
  ]

  apply_broker_row-Reach :
      (digits : ℤ → String) (ev : String) (row : BrokerRow P) (p : OrderPoller P)
      (m : OrderStateMachine P)
      → Reach m p.order_state_machine
      → Reach m (apply_broker_row digits ev row p).order_state_machine
  unfolding apply_broker_row
  apply_broker_row-Reach digits ev row p m h =
      apply_status-Reach digits ev row (normalize_broker_order_status row.status) p m h

  apply_rows-Reach :
      (digits : ℤ → String) (ev : String) (m : OrderStateMachine P) (rows : List (BrokerRow P))
      (p : OrderPoller P)
      → Reach m p.order_state_machine
      → Reach m (apply_rows digits ev rows p).order_state_machine
  unfolding apply_rows
  apply_rows-Reach digits ev m [] p h = h
  apply_rows-Reach digits ev m (row ∷ rows) p h =
      apply_rows-Reach digits ev m rows (apply_broker_row digits ev row p)
        (apply_broker_row-Reach digits ev row p m h)

  -- Whatever rows the broker's order book has, a poll loses no order in memory, changes no symbol, side
  -- or quantity of one, and moves its status only along the diagram.
  pub apply_rows-Follows :
      (digits : ℤ → String) (ev : String) (rows : List (BrokerRow P)) (p : OrderPoller P)
      (id : String) {o : OrderState P}
      → lookup id p.order_state_machine.orders ≡ some o
      → Follows o (apply_rows digits ev rows p).order_state_machine id
  apply_rows-Follows digits ev rows p id found =
      order_persists id (apply_rows-Reach digits ev p.order_state_machine rows p here) found
