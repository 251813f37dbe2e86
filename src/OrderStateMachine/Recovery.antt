-- ===== src/OrderStateMachine/Recovery.antt =====
-- `load_from_store` of backend/execution/order_state_machine.py: rows of the database become orders
-- in memory after a restart.
use indian_algo_trading_plat.Common.{
  ℕ, ◌+◌, ◌≡◌, String, Bool, true, false, ◌||◌, none, some, List, [], ◌∷◌, arith, eq_iff,
  if◌then◌else◌, is_empty, Option-cases, Bool-cases, inl, inr, length, is_some, All, ◌≤◌, ◌∙◌, sym,
  subst,
}
use indian_algo_trading_plat.Common.Int.{pos, leb_ℤ}
use indian_algo_trading_plat.Common.Dict.{Dict, lookup, insert, lookup-insert, lookup-insert_self}
use indian_algo_trading_plat.Types.{
  OrderStatus, pending, opened, filled, rejected, cancelled, OrderState, TradingMode, OrderType,
}
use indian_algo_trading_plat.OrderStore.{DbStatus, RequestRow, is_terminal_order_status}
use indian_algo_trading_plat.OrderStateMachine.{OrderStateMachine, is_terminal}

-- _DB_STATUS_TO_OSM, with its default PENDING
unfoldable pub db_status_to_osm : DbStatus → OrderStatus
db_status_to_osm DbStatus.opened = opened
db_status_to_osm DbStatus.filled = filled
db_status_to_osm DbStatus.rejected = rejected
db_status_to_osm DbStatus.cancelled = cancelled
db_status_to_osm _ = pending

-- `str(row.get("mode") or "PAPER")` and `str(row.get("order_type") or "MARKET")`
abbrev mode_of : TradingMode → TradingMode
mode_of (TradingMode.other_mode t) =
    if is_empty t then TradingMode.paper else TradingMode.other_mode t
mode_of m = m

abbrev type_of : OrderType → OrderType
type_of (OrderType.other_type t) = if is_empty t then OrderType.market else OrderType.other_type t
type_of t = t

module _ {P : Type 0} where
  unfoldable pub order_of_row : RequestRow P → OrderState P
  unfolding db_status_to_osm
  order_of_row row = record {
    order_id = row.request_id;
    broker_order_id = row.broker_order_id;
    intent_id = some row.request_id;
    symbol = row.symbol;
    side = row.side;
    quantity = row.quantity;
    filled_quantity = pos 0;
    order_type = type_of row.order_type;
    requested_price = none;
    avg_fill_price = none;
    status = db_status_to_osm row.status;
    reject_reason = row.reject_reason;
    trading_mode = mode_of row.mode;
  }

  -- The guards before a row is loaded, in the order of the loop's `continue`s.
  unfoldable pub skips : Dict (OrderState P) → RequestRow P → Bool
  unfolding is_terminal_order_status
  skips orders row =
      is_empty row.request_id
      || is_some (lookup row.request_id orders)
      || is_terminal_order_status row.status
      || leb_ℤ row.quantity (pos 0)

  -- The loop: the orders with the numbers of rows loaded and skipped.
  load_rows : List (RequestRow P) → Dict (OrderState P) → ℕ → ℕ → Dict (OrderState P) × ℕ × ℕ
  load_rows [] orders loaded skipped = (orders, loaded, skipped)
  load_rows (row ∷ rows) orders loaded skipped =
      let skip = skips orders row in
      load_rows rows (if skip then orders else insert row.request_id (order_of_row row) orders)
        (if skip then loaded else loaded + 1) (if skip then skipped + 1 else skipped)

  unfoldable pub load_from_store :
      OrderStateMachine P → List (RequestRow P) → OrderStateMachine P × ℕ
  unfolding load_rows
  load_from_store m rows =
      let (orders, loaded, skipped) = load_rows rows m.orders 0 0 in
      (record m { orders = orders }, loaded)

  load_rows_skip :
      (row : RequestRow P) (rows : List (RequestRow P)) (orders : Dict (OrderState P)) (l k : ℕ)
      → skips orders row ≡ true
      → load_rows (row ∷ rows) orders l k ≡ load_rows rows orders l (k + 1)
  unfolding load_rows
  load_rows_skip row rows orders l k e = ground arith

  load_rows_load :
      (row : RequestRow P) (rows : List (RequestRow P)) (orders : Dict (OrderState P)) (l k : ℕ)
      → skips orders row ≡ false
      → load_rows (row ∷ rows) orders l k
        ≡ load_rows rows (insert row.request_id (order_of_row row) orders) (l + 1) k
  unfolding load_rows
  load_rows_load row rows orders l k e = ground arith

  -- Every row is counted once, as loaded or as skipped.
  load_rows_counts :
      (rows : List (RequestRow P)) (orders : Dict (OrderState P)) (l k : ℕ)
      → let (_, loaded, skipped) = load_rows rows orders l k in
        loaded + skipped ≡ l + k + length rows
  load_rows_counts [] orders l k = unfold load_rows in omega arith
  load_rows_counts (row ∷ rows) orders l k = elim (Bool-cases (skips orders row)) [
    | inl e ↦
        rw (load_rows_skip row rows orders l k e)
          (omega (arith, load_rows_counts rows orders l (k + 1)))
    | inr e ↦ rw (load_rows_load row rows orders l k e) (
        omega (
          arith,
          load_rows_counts rows (insert row.request_id (order_of_row row) orders) (l + 1) k,
        ))
  ]

  insert_row_keeps :
      (row : RequestRow P) (orders : Dict (OrderState P)) (id : String) {o : OrderState P}
      → skips orders row ≡ false
      → lookup id orders ≡ some o
      → lookup id (insert row.request_id (order_of_row row) orders) ≡ some o
  unfolding skips
  insert_row_keeps row orders id e h =
      ground
        (arith, lookup-insert row.request_id id (order_of_row row) orders, eq_iff row.request_id id)

  -- An order that is in memory is never touched.
  load_rows_keeps :
      (rows : List (RequestRow P)) (orders : Dict (OrderState P)) (l k : ℕ) (id : String)
      {o : OrderState P}
      → lookup id orders ≡ some o
      → lookup id (load_rows rows orders l k).0 ≡ some o
  load_rows_keeps [] orders l k id h = unfold load_rows in h
  load_rows_keeps (row ∷ rows) orders l k id h = elim (Bool-cases (skips orders row)) [
    | inl e ↦ rw (load_rows_skip row rows orders l k e) (load_rows_keeps rows orders l (k + 1) id h)
    | inr e ↦ rw (load_rows_load row rows orders l k e) (
        load_rows_keeps rows (insert row.request_id (order_of_row row) orders) (l + 1) k id
          (insert_row_keeps row orders id e h))
  ]

  -- What a recovered order is: it stands under its own id, waits for a fill, and has a quantity.
  pub record IsRecovered (id : String) (o : OrderState P) : Type 0 where
    pub own_id : o.order_id ≡ id
    pub active : is_terminal o.status ≡ false
    pub unfilled : o.filled_quantity ≡ pos 0
    pub quantity : leb_ℤ o.quantity (pos 0) ≡ false

  skips_preserved :
      (row : RequestRow P) (rows : List (RequestRow P)) (orders : Dict (OrderState P)) (l k : ℕ)
      → skips orders row ≡ true
      → skips (load_rows rows orders l k).0 row ≡ true
  unfolding skips
  skips_preserved row rows orders l k h = elim (Option-cases (lookup row.request_id orders)) [
    | inl e ↦ ground arith
    | inr (o, e) ↦ ground (arith, load_rows_keeps rows orders l k row.request_id e)
  ]

  skips_inserted :
      (row : RequestRow P) (orders : Dict (OrderState P))
      → skips (insert row.request_id (order_of_row row) orders) row ≡ true
  unfolding skips
  skips_inserted row orders =
      ground (arith, lookup-insert_self row.request_id (order_of_row row) orders)

  abbrev AllSkipped : List (RequestRow P) → Dict (OrderState P) × ℕ × ℕ → Type 0
  AllSkipped rows result = All (λ row. skips result.0 row ≡ true) rows

  -- After the loop each of its rows would be skipped.
  load_rows_exhausts :
      (rows : List (RequestRow P)) (orders : Dict (OrderState P)) (l k : ℕ)
      → AllSkipped rows (load_rows rows orders l k)
  load_rows_exhausts [] orders l k = tt
  load_rows_exhausts (row ∷ rows) orders l k = elim (Bool-cases (skips orders row)) [
    | inl e ↦
        subst (AllSkipped (row ∷ rows)) (sym (load_rows_skip row rows orders l k e))
          (skips_preserved row rows orders l (k + 1) e, load_rows_exhausts rows orders l (k + 1))
    | inr e ↦
        let next = insert row.request_id (order_of_row row) orders in
        subst (AllSkipped (row ∷ rows)) (sym (load_rows_load row rows orders l k e)) (
          skips_preserved row rows next (l + 1) k (skips_inserted row orders),
          load_rows_exhausts rows next (l + 1) k,
        )
  ]

  load_rows_idle :
      (rows : List (RequestRow P)) (orders : Dict (OrderState P)) (l k : ℕ)
      → All (λ row. skips orders row ≡ true) rows
      → load_rows rows orders l k ≡ (orders, l, k + length rows)
  load_rows_idle [] orders l k h = unfold load_rows in ground arith
  load_rows_idle (row ∷ rows) orders l k h =
      load_rows_skip row rows orders l k h.0
      ∙ load_rows_idle rows orders l (k + 1) h.1
      ∙ ground arith

  -- Recovery is idempotent: loading the same rows again loads none and changes nothing.
  pub load_from_store_idem :
      (m : OrderStateMachine P) (rows : List (RequestRow P))
      → load_from_store (load_from_store m rows).0 rows ≡ ((load_from_store m rows).0, 0)
  unfolding load_from_store
  load_from_store_idem m rows = rw (
      load_rows_idle rows (load_rows rows m.orders 0 0).0 0 0
        (load_rows_exhausts rows m.orders 0 0))

  pub load_from_store_keeps :
      (m : OrderStateMachine P) (rows : List (RequestRow P)) (id : String) {o : OrderState P}
      → lookup id m.orders ≡ some o
      → lookup id (load_from_store m rows).0.orders ≡ some o
  unfolding load_from_store
  load_from_store_keeps m rows id h = load_rows_keeps rows m.orders 0 0 id h

  -- After a recovery every row would be skipped: its status is terminal, it has no id, its quantity is
  -- not positive, or its id is among the orders in memory.
  pub load_from_store_complete :
      (m : OrderStateMachine P) (rows : List (RequestRow P))
      → All (λ row. skips (load_from_store m rows).0.orders row ≡ true) rows
  unfolding load_from_store
  load_from_store_complete m rows = load_rows_exhausts rows m.orders 0 0

  -- The number that is returned is at most the number of rows.
  pub load_from_store_count :
      (m : OrderStateMachine P) (rows : List (RequestRow P))
      → (load_from_store m rows).1 ≤ length rows
  unfolding load_from_store
  load_from_store_count m rows = omega (arith, load_rows_counts rows m.orders 0 0)
