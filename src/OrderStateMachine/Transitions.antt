-- ===== src/OrderStateMachine/Transitions.antt =====
-- The transition diagram of an order, and what `transition` and `create_order` do to the machine.
use indian_algo_trading_plat.Common.{
  ◌≡◌, refl, ◌↔◌, String, true, Option, none, some, arith, str_eq, if◌then◌else◌, Option-cases, inl,
  inr,
}
use indian_algo_trading_plat.Common.Dict.{lookup, insert, lookup-insert}
use indian_algo_trading_plat.Types.{
  OrderStatus, pending, opened, filled, rejected, cancelled, OrderState, OrderStateEvent,
}
use indian_algo_trading_plat.OrderStateMachine.{
  is_terminal, validate_transition, Updates, OrderStateMachine, moved, transition, updated,
  to_event, publish, reason_of,
}

infix 40 ◌⟶◌
-- The life of an order, independently of the tables of the program.
pub data ◌⟶◌ : OrderStatus → OrderStatus → Type 0 where
  accept : pending ⟶ opened
  fill_pending : pending ⟶ filled
  reject_pending : pending ⟶ rejected
  fill_open : opened ⟶ filled
  cancel : opened ⟶ cancelled
  reject_open : opened ⟶ rejected
  stay : {a : OrderStatus} → a ⟶ a

ruleset edges = (accept, fill_pending, reject_pending, fill_open, cancel, reject_open, stay)

-- What the validation lets through is an edge of the diagram, whatever reason is given.
edge_of_valid :
    (a b : OrderStatus) (reason : Option String) → validate_transition a b reason ≡ none → a ⟶ b
unfolding validate_transition
edge_of_valid a b reason h = grind (arith, edges)

valid_of_edge :
    (a b : OrderStatus) (reason : Option String) → a ⟶ b → validate_transition a b reason ≡ none
unfolding validate_transition
valid_of_edge pending opened reason accept = refl
valid_of_edge pending filled reason fill_pending = refl
valid_of_edge pending rejected reason reject_pending = ground arith
valid_of_edge opened filled reason fill_open = refl
valid_of_edge opened cancelled reason cancel = refl
valid_of_edge opened rejected reason reject_open = ground arith
valid_of_edge a b reason stay = ground arith

-- The validation accepts a change of status exactly when the diagram has it; the reason that is
-- given with a rejection never matters.
pub validate_transition_iff :
    (a b : OrderStatus) (reason : Option String) → (validate_transition a b reason ≡ none) ↔ (a ⟶ b)
validate_transition_iff a b reason = (edge_of_valid a b reason, valid_of_edge a b reason)

abbrev pub IsTerminal : OrderStatus → Type 0
IsTerminal a = is_terminal a ≡ true

pub terminal_stays : (a b : OrderStatus) → IsTerminal a → a ⟶ b → b ≡ a
unfolding is_terminal
terminal_stays a b h e = go a b e h
  where
    go : (a b : OrderStatus) → a ⟶ b → IsTerminal a → b ≡ a
    go a b accept h = cc
    go a b fill_pending h = cc
    go a b reject_pending h = cc
    go a b fill_open h = cc
    go a b cancel h = cc
    go a b reject_open h = cc
    go a b stay h = refl

module _ {P : Type 0} where
  -- What a transition that returns has done: the order was there, its status moved along an edge, the
  -- updated order is stored and is what the event says, and the bus is handed that event.
  pub record Moved (m : OrderStateMachine P) (id : String) (new : OrderStatus) (u : Updates P)
      (ev : String) (e : OrderStateEvent P) (m' : OrderStateMachine P) : Type 0 where
    pub current : OrderState P
    pub found : lookup id m.orders ≡ some current
    pub edge : current.status ⟶ new
    pub event : e ≡ to_event (updated current new u) ev
    pub result : m' ≡ publish (record m { orders = insert id (updated current new u) m.orders }) e

  pub transition-Moved :
      (m : OrderStateMachine P) (id : String) (new : OrderStatus) (u : Updates P) (ev : String)
      {e : OrderStateEvent P} {m' : OrderStateMachine P}
      → transition m id new u ev ≡ moved e m'
      → Moved m id new u ev e m'
  unfolding transition
  transition-Moved m id new u ev {e} {m'} h = elim (Option-cases (lookup id m.orders)) [
    | inl missing ↦ absurd (ground arith)
    | inr (o, found) ↦ elim (Option-cases (validate_transition o.status new (reason_of u))) [
      | inr (x, bad) ↦ absurd (ground arith)
      | inl ok ↦ record {
        current = o;
        found = found;
        edge = (validate_transition_iff o.status new (reason_of u)).0 ok;
        event = ground arith;
        result = ground arith;
      }
    ]
  ]

  orders-publish :
      (m : OrderStateMachine P) (e : OrderStateEvent P) → (publish m e).orders ≡ m.orders
  unfolding publish
  orders-publish m e = ground arith

  -- After a transition an order is found under `j` as before, but for the updated one under `id`.
  pub lookup-Moved :
      (m : OrderStateMachine P) (id : String) (new : OrderStatus) (u : Updates P) (ev j : String)
      {e : OrderStateEvent P} {m' : OrderStateMachine P} (t : Moved m id new u ev e m')
      → lookup j m'.orders
        ≡ (if str_eq id j then some (updated t.current new u) else lookup j m.orders)
  lookup-Moved m id new u ev j {e} {m'} t = rw t.result (
      rw (orders-publish (record m { orders = insert id (updated t.current new u) m.orders }) e)
        (lookup-insert id j (updated t.current new u) m.orders))

  -- The machine after a transition of `o`, which stood under `id`.
  abbrev pub after :
      OrderStateMachine P
      → String
      → OrderState P
      → OrderStatus
      → Updates P
      → String
      → OrderStateMachine P
  after m id o new u ev =
      publish (record m { orders = insert id (updated o new u) m.orders })
        (to_event (updated o new u) ev)

  pub transition_found :
      (m : OrderStateMachine P) (id : String) (new : OrderStatus) (u : Updates P) (ev : String)
      {o : OrderState P}
      → lookup id m.orders ≡ some o
      → o.status ⟶ new
      → transition m id new u ev ≡ moved (to_event (updated o new u) ev) (after m id o new u ev)
  unfolding transition
  transition_found m id new u ev {o} found edge =
      ground (arith, valid_of_edge o.status new (reason_of u) edge)
