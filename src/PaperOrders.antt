-- ===== src/PaperOrders.antt =====
-- backend/execution/paper_order_manager.py: the paper execution engine, method by method.
mod Monad
pub mod Prices
pub mod Results
pub mod Fills
pub mod Answers
pub mod Requests
pub use Monad.*
use Prim.Native.String
use indian_algo_trading_plat.Common.{
  String, Bool, true, false, not, ◌||◌, Option, none, some, if◌then◌else◌, List, [], ◌∷◌, ◌++◌,
}
use indian_algo_trading_plat.Common.Int.{ℤ, pos, leb_ℤ}
use indian_algo_trading_plat.Common.Float.{Float, nought, min_of, max_of}
use indian_algo_trading_plat.Common.Dict.{Dict, insert}
use indian_algo_trading_plat.Types.{
  OrderRequest, OrderState, OrderStateEvent, OrderSide, OrderStatus, is_buy, is_limit, known_side,
  TradingMode, filled, opened, rejected,
}
use indian_algo_trading_plat.OrderStateMachine.{
  create_order, transition, Updates, no_updates, raised, moved, Outcome,
}
use indian_algo_trading_plat.OrderStore.{record_fill, add_order_event}
use indian_algo_trading_plat.FeeModel.{Fees, calculate, charged, refused}
use indian_algo_trading_plat.PaperConfig.{PaperExecutionConfig, Clock, slippage_factor, market_open}
use indian_algo_trading_plat.Market.{MarketData, quoted}
use indian_algo_trading_plat.RiskGate.{positive}

-- What a call reads around it: the configuration, the clock, whether a store and a journal are
-- attached, whether the journal's database raises, and the ids that uuid4 gives to the order and to
-- the events of up to two transitions.
pub record Setting : Type 0 where
  pub config : PaperExecutionConfig
  pub now : Clock
  pub has_store : Bool
  pub has_journal : Bool
  pub journal_raises : Bool
  pub order_id : String
  pub event_id : String
  pub retry_event_id : String

-- PaperRejectReason
abbrev pub market_closed : String
market_closed = "MARKET_CLOSED"

abbrev pub no_market_price : String
no_market_price = "NO_MARKET_PRICE"

abbrev pub invalid_quantity : String
invalid_quantity = "INVALID_QUANTITY"

abbrev pub invalid_side : String
invalid_side = "INVALID_SIDE"

abbrev pub limit_not_crossed : String
limit_not_crossed = "LIMIT_NOT_CROSSED"

abbrev pub paper_execution_error : String
paper_execution_error = "PAPER_EXECUTION_ERROR"

module _ {P : Type 0} where
  abbrev apply_transition : Paper P → Outcome P → Result (OrderStateEvent P) × Paper P
  apply_transition s (raised e) = (err (osm_error e), s)
  apply_transition s (moved event m) = (ok event, record s { osm = m })

  -- `self.order_state_machine.transition(order_id, status, **updates)`
  abbrev pub move_to : String → OrderStatus → Updates P → String → Action P (OrderStateEvent P)
  move_to order_id status u event_id s =
      apply_transition s (transition s.osm order_id status u event_id)

  -- `self.order_state_machine.create_order(order_request, "PAPER")`
  abbrev pub create : OrderRequest P → String → Action P (OrderState P)
  create r order_id s =
      let (m, state) = create_order s.osm r TradingMode.paper order_id in
      (ok state, record s { osm = m })

  unfoldable pub persist_event :
      Bool → OrderRequest P → String → String → Option String → Action P (Unit {0})
  persist_event has_store r event_type status reason s =
      if has_store
      then (
        ok tt,
        record s { store = add_order_event s.store r.event_id event_type status reason none },
      )
      else (ok tt, s)

  -- `_reject`
  unfoldable pub reject :
      Bool → String → String → OrderRequest P → String → Action P (OrderStateEvent P)
  unfolding persist_event
  reject has_store order_id reason r event_id = do
    event ←
        move_to order_id rejected (record no_updates { reject_reason = some (some reason) })
          event_id
    persist_event has_store r reason "REJECTED" (some reason)
    pure event

  unfoldable pub update_positions : OrderRequest P → P → Action P (Unit {0})
  update_positions r fill_price = modify (λ s. record s {
    positions =
        insert r.symbol (record { side = r.side; quantity = r.quantity; entry_price = fill_price })
          s.positions;
  })

  -- `await self.trade_journal.record_fill(…)`
  abbrev record_in_journal : Setting → OrderStateEvent P → Action P (Unit {0})
  record_in_journal e event s =
      if not e.has_journal
      then (ok tt, s)
      else if e.journal_raises
      then (err journal_error, s)
      else (ok tt, record s { journal = s.journal ++ event ∷ [] })

module _ {P : Type 0} ⦃d : Float P⦄ where
  -- `_market_ltp`
  unfoldable pub market_ltp : Option (MarketData P) → Option P
  market_ltp none = none
  market_ltp (some m) = positive (quoted m)

  unfoldable pub limit_is_marketable : OrderSide → P → P → Bool
  limit_is_marketable side limit_price ref_price =
      if is_buy side then d.le ref_price limit_price else d.le limit_price ref_price

  -- `f"{request_id}:0"`
  abbrev pub fill_id_of : OrderRequest P → String
  fill_id_of r = String.◌++◌ r.event_id ":0"

  -- A failed write of the ledger is logged and passed over.
  unfoldable pub persist_fill : Bool → OrderRequest P → P → P → Action P (Unit {0})
  persist_fill has_store r fill_price total_fees s =
      if has_store
      then (
        ok tt,
        record s {
          store =
              (record_fill s.store (record {
                fill_id = fill_id_of r;
                request_id = r.event_id;
                broker_order_id = none;
                symbol = r.symbol;
                side = r.side;
                filled_quantity = r.quantity;
                fill_price = fill_price;
                fees = total_fees;
                source = "paper";
              })).0;
        },
      )
      else (ok tt, s)

  abbrev charge : OrderRequest P → P → Action P (Fees P)
  charge r fill_price s = elim (calculate r.side r.quantity fill_price) [
    | charged f ↦ (ok f, s)
    | refused x ↦ (err (fee_error x), s)
  ]

  -- The part that both kinds of orders share: fees, the transition to FILLED, the position, the ledger
  -- and the journal.
  unfoldable pub fill : Setting → OrderState P → OrderRequest P → P → Action P (OrderStateEvent P)
  unfolding update_positions persist_fill
  fill e state r fill_price = do
    fees ← charge r fill_price
    event ←
        move_to state.order_id filled
          (record no_updates {
            filled_quantity = some r.quantity;
            avg_fill_price = some (some fill_price);
          })
          e.event_id
    update_positions r fill_price
    persist_fill e.has_store r fill_price fees.total_fees
    record_in_journal e event
    pure event

  abbrev or_execution_error :
      Setting
      → OrderState P
      → OrderRequest P
      → Action P (OrderStateEvent P)
      → Action P (OrderStateEvent P)
  or_execution_error e state r m =
      try_except m (reject e.has_store state.order_id paper_execution_error r e.retry_event_id)

  -- The fill prices of a MARKET order and of a marketable LIMIT order.
  unfoldable pub market_fill_price : PaperExecutionConfig → OrderSide → P → P
  unfolding slippage_factor
  market_fill_price cfg side ref_price = d.round (d.mul ref_price (slippage_factor cfg side)) 2

  unfoldable pub limit_fill_price : PaperExecutionConfig → OrderSide → P → P → P
  unfolding market_fill_price
  limit_fill_price cfg side limit_price ltp =
      let slipped = market_fill_price cfg side ltp in
      if is_buy side then min_of limit_price slipped else max_of limit_price slipped

  unfoldable pub execute_market :
      Setting → OrderState P → OrderRequest P → P → Action P (OrderStateEvent P)
  unfolding fill reject
  execute_market e state r ref_price =
      or_execution_error e state r (fill e state r (market_fill_price e.config r.side ref_price))

  abbrev park :
      Setting
      → OrderState P
      → OrderRequest P
      → String
      → Option String
      → Action P (OrderStateEvent P)
  park e state r event_type reason = do
    event ←
        move_to state.order_id opened
          (record no_updates { reject_reason = some (some limit_not_crossed) }) e.event_id
    persist_event e.has_store r event_type "OPEN" reason
    pure event

  unfoldable pub execute_limit :
      Setting → OrderState P → OrderRequest P → P → Option P → Action P (OrderStateEvent P)
  unfolding fill reject persist_event limit_is_marketable
  execute_limit e state r limit_price none =
      or_execution_error e state r (park e state r "LIMIT_PARKED" (some no_market_price))
  execute_limit e state r limit_price (some ltp) = or_execution_error e state r (
      if not (limit_is_marketable r.side limit_price ltp)
      then park e state r "LIMIT_NOT_CROSSED" none
      else fill e state r (limit_fill_price e.config r.side limit_price ltp))

  abbrev valid_limit : Option P → Option P
  valid_limit none = none
  valid_limit (some p) = if d.le p nought then none else some p

  abbrev execute :
      Setting → OrderRequest P → Option (MarketData P) → OrderState P → Action P (OrderStateEvent P)
  execute e r market state =
      if is_limit r.order_type
      then (elim (valid_limit r.price) [
        | none ↦ reject e.has_store state.order_id no_market_price r e.event_id
        | some p ↦ execute_limit e state r p (market_ltp market)
      ])
      else (elim (market_ltp market) [
        | none ↦ reject e.has_store state.order_id no_market_price r e.event_id
        | some ref ↦ execute_market e state r ref
      ])

  -- The guards of `place_order` on a known, new order.
  abbrev admit :
      Setting → OrderRequest P → Option (MarketData P) → OrderState P → Action P (OrderStateEvent P)
  admit e r market state =
      if leb_ℤ r.quantity (pos 0)
      then reject e.has_store state.order_id invalid_quantity r e.event_id
      else if not (known_side r.side)
      then reject e.has_store state.order_id invalid_side r e.event_id
      else if not (market_open e.config e.now)
      then reject e.has_store state.order_id market_closed r e.event_id
      else execute e r market state

  -- Every path of the source creates the order first.
  unfoldable pub place_order :
      Setting → OrderRequest P → Option (MarketData P) → Action P (OrderStateEvent P)
  unfolding reject execute_limit execute_market market_ltp
  place_order e r market = create r e.order_id >>= admit e r market
