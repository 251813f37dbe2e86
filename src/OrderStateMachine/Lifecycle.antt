-- ===== src/OrderStateMachine/Lifecycle.antt =====
-- The calls that change an order state machine as a step relation, and what every sequence of them
-- keeps of an order. `create_order` draws an order id that is not in use, as uuid4 promises.
use indian_algo_trading_plat.Common.{
  ◌≡◌, refl, String, none, some, List, arith, eq_iff, str_eq, Bool-cases, inl, inr, ◌∙◌, ap,
}
use indian_algo_trading_plat.Common.Dict.{lookup, lookup-insert}
use indian_algo_trading_plat.Types.{
  OrderStatus, OrderRequest, OrderState, OrderStateEvent, TradingMode,
}
use indian_algo_trading_plat.OrderStore.{RequestRow}
use indian_algo_trading_plat.OrderStateMachine.{
  OrderStateMachine, Updates, create_order, new_order, transition, moved, updated,
}
use indian_algo_trading_plat.OrderStateMachine.Transitions.{
  ◌⟶◌, transition-Moved, lookup-Moved, IsTerminal, terminal_stays,
}
use indian_algo_trading_plat.OrderStateMachine.Recovery.{load_from_store, load_from_store_keeps}

infix 40 ◌⟶*◌
-- A walk along edges of the diagram.
pub data ◌⟶*◌ : OrderStatus → OrderStatus → Type 0 where
  end : {a : OrderStatus} → a ⟶* a
  go_on : {a b c : OrderStatus} → a ⟶* b → b ⟶ c → a ⟶* c

walk_of_terminal : {a b : OrderStatus} → a ⟶* b → IsTerminal a → b ≡ a
walk_of_terminal end h = refl
walk_of_terminal (go_on {a = a} {b = b} {c = c} w e) h =
    let same : b ≡ a = walk_of_terminal w h in terminal_stays b c (rw same h) e ∙ same

module _ {P : Type 0} where
  pub data Step (m : OrderStateMachine P) : OrderStateMachine P → Type 0 where
    create :
        (r : OrderRequest P) (mode : TradingMode) (id : String)
        → lookup id m.orders ≡ none
        → Step m (create_order m r mode id).0
    move :
        (id : String) (new : OrderStatus) (u : Updates P) (ev : String) {e : OrderStateEvent P}
        {m' : OrderStateMachine P}
        → transition m id new u ev ≡ moved e m'
        → Step m m'
    recover : (rows : List (RequestRow P)) → Step m (load_from_store m rows).0

  pub data Reach (m : OrderStateMachine P) : OrderStateMachine P → Type 0 where
    here : Reach m m
    next : {n k : OrderStateMachine P} → Reach m n → Step n k → Reach m k

  -- An order under `id` whose status is reached from `a`, and whose other terms are those of `o`.
  pub record Follows (o : OrderState P) (m : OrderStateMachine P) (id : String) : Type 0 where
    pub order : OrderState P
    pub found : lookup id m.orders ≡ some order
    pub walk : o.status ⟶* order.status
    pub same_symbol : order.symbol ≡ o.symbol
    pub same_side : order.side ≡ o.side
    pub same_quantity : order.quantity ≡ o.quantity

  step-Follows :
      (o : OrderState P) (id : String) {m n : OrderStateMachine P}
      → Step m n
      → Follows o m id
      → Follows o n id
  unfolding create_order updated
  step-Follows o id {m} (create r mode new fresh) f = record {
    order = f.order;
    found =
        ground
          (arith, f.found, lookup-insert new id (new_order r mode new) m.orders, eq_iff new id);
    walk = f.walk;
    same_symbol = f.same_symbol;
    same_side = f.same_side;
    same_quantity = f.same_quantity;
  }
  step-Follows o id {m} (recover rows) f = record {
    order = f.order;
    found = load_from_store_keeps m rows id f.found;
    walk = f.walk;
    same_symbol = f.same_symbol;
    same_side = f.same_side;
    same_quantity = f.same_quantity;
  }
  step-Follows o id {m} {n} (move j new u ev {e = e} h) f =
      let t = transition-Moved m j new u ev h in
      elim (Bool-cases (str_eq j id)) [
        | inr other ↦ record {
          order = f.order;
          found = ground (arith, lookup-Moved m j new u ev id t, f.found);
          walk = f.walk;
          same_symbol = f.same_symbol;
          same_side = f.same_side;
          same_quantity = f.same_quantity;
        }
        | inl same ↦
            let current : t.current ≡ f.order = ground (arith, t.found, f.found, eq_iff j id) in
            record {
              order = updated t.current new u;
              found = ground (arith, lookup-Moved m j new u ev id t);
              walk = go_on f.walk (rw (← current) t.edge);
              same_symbol = ap (λ (x : OrderState P). x.symbol) current ∙ f.same_symbol;
              same_side = ap (λ (x : OrderState P). x.side) current ∙ f.same_side;
              same_quantity = ap (λ (x : OrderState P). x.quantity) current ∙ f.same_quantity;
            }
      ]

  Reach-Follows :
      (o : OrderState P) (id : String) {m n : OrderStateMachine P}
      → Reach m n
      → Follows o m id
      → Follows o n id
  Reach-Follows o id here f = f
  Reach-Follows o id (next r s) f = step-Follows o id s (Reach-Follows o id r f)

  -- Whatever calls are made, an order is never lost: it keeps its symbol, side and quantity, and its
  -- status moves only along the diagram.
  pub order_persists :
      (id : String) {o : OrderState P} {m n : OrderStateMachine P}
      → Reach m n
      → lookup id m.orders ≡ some o
      → Follows o n id
  order_persists id {o} r found = Reach-Follows o id r (record {
    order = o;
    found = found;
    walk = end;
    same_symbol = refl;
    same_side = refl;
    same_quantity = refl;
  })

  -- A filled, cancelled or rejected order keeps that status, whatever calls are made.
  pub terminal_persists :
      (id : String) {o : OrderState P} {m n : OrderStateMachine P}
      → Reach m n
      → lookup id m.orders ≡ some o
      → IsTerminal o.status
      → (p : OrderState P) × (lookup id n.orders ≡ some p) × (p.status ≡ o.status)
  terminal_persists id r found t =
      let f = order_persists id r found in (f.order, f.found, walk_of_terminal f.walk t)
