-- ===== src/ExecutionRouter/Routing.antt =====
-- backend/execution/execution_router.py: `route`, one function for each of its numbered parts. The request
-- event has no client order id and no idempotency key, so both are its event id.
use indian_algo_trading_plat.Common.{
  String, Bool, true, false, not, ◌||◌, ◌&&◌, Option, none, some, ◌∷◌, if◌then◌else◌, str_eq,
  any_of,
}
use indian_algo_trading_plat.Common.Float.{Float}
use indian_algo_trading_plat.Types.{
  OrderRequest, OrderIntent, OrderStateEvent, TradingMode, is_paper, is_live,
}
use indian_algo_trading_plat.OrderStore.{
  DbStatus, RequestRow, check_duplicate, add_order_request, add_order_event, update_order_status,
}
use indian_algo_trading_plat.OrderStateMachine.{Outcome, raised, moved, has_pending_or_open_orders}
use indian_algo_trading_plat.Market.{MarketData}
use indian_algo_trading_plat.RiskGate.{RiskDecision, evaluate}
use indian_algo_trading_plat.PaperOrders.{Paper, Result, ok, err}
use indian_algo_trading_plat.PaperOrders
use indian_algo_trading_plat.LiveOrders
use indian_algo_trading_plat.LiveOrders.{LiveSetting}
use indian_algo_trading_plat.MutationGuard.{is_live_execution_build_enabled}
use indian_algo_trading_plat.ExecutionRouter.Intents.{new_intent, built, refused}
use indian_algo_trading_plat.ExecutionRouter.{
  ExecutionRouter, RouteSetting, paper_raised, live_raised, Routed, answer, failed,
  persist_execution_result, with_store, publish, simple_rejected_event, risk_rejected_event,
}

abbrev pub duplicate_request : String
duplicate_request = "duplicate_request"

module _ {P : Type 0} where
  -- `self.order_store.add_order_event(request_id, …)`
  unfoldable pub note :
      String → String → String → Option String → ExecutionRouter P → ExecutionRouter P
  note id event_type status reason r =
      with_store r (add_order_event r.paper.store id event_type status reason none)

  -- `self.order_store.update_order_status(request_id, status, reason=reason)`
  unfoldable pub set_row : String → DbStatus → Option String → ExecutionRouter P → ExecutionRouter P
  set_row id status reason r =
      with_store r (update_order_status r.paper.store id status reason none none)

  -- The answer to a duplicate, from step 1 and from step 2.
  unfoldable pub reject_duplicate :
      RouteSetting P → OrderRequest P → ExecutionRouter P → Routed P × ExecutionRouter P
  unfolding publish note simple_rejected_event
  reject_duplicate e q r =
      let event = simple_rejected_event q duplicate_request e.event_id in
      (
        answer event,
        publish (note q.event_id "DUPLICATE_REJECTED" "REJECTED" (some duplicate_request) r) event,
      )

  unfoldable pub live_checks_pass : ExecutionRouter P → Bool
  live_checks_pass r =
      if r.kill_switch.active
      then false
      else if has_pending_or_open_orders r.paper.osm
      then false
      else if r.open_positions
      then false
      else if not r.session_valid
      then false
      else r.live_enabled && is_live r.mode

  -- A rejection of step 5 that writes the row, the event and the answer.
  unfoldable pub reject_routing :
      String → RouteSetting P → OrderRequest P → ExecutionRouter P → Routed P × ExecutionRouter P
  unfolding publish note set_row simple_rejected_event
  reject_routing reason e q r =
      let event = simple_rejected_event q reason e.event_id in
      (
        answer event,
        publish
            (note q.event_id "REJECTED" "REJECTED" (some reason)
              (set_row q.event_id DbStatus.rejected (some reason) r))
            event,
      )

  abbrev pub finish_live : String → ExecutionRouter P → Outcome P → Routed P × ExecutionRouter P
  finish_live id r (raised x) = (failed (live_raised x), r)
  finish_live id r (moved event m) = (
    answer event,
    record r {
      paper = record (r.paper) { osm = m; store = persist_execution_result r.paper.store id event };
    },
  )

  -- What the live adapter reads: the router sets its mode and its flag at each call.
  abbrev pub live_setting : RouteSetting P → ExecutionRouter P → LiveSetting
  live_setting e r = record (e.live) {
    build_enabled = is_live_execution_build_enabled;
    trading_mode = r.mode;
    live_enabled = r.live_enabled;
    session_valid = r.session_valid;
  }

  unfoldable pub route_live :
      RouteSetting P → OrderRequest P → ExecutionRouter P → Routed P × ExecutionRouter P
  unfolding LiveOrders.place_order persist_execution_result note set_row live_checks_pass
      reject_routing
  route_live e q r =
      if not (live_checks_pass r)
      then reject_routing "live_safety_check_failed" e q r
      else let r1 =
          set_row q.event_id DbStatus.routed_to_live none
            (note q.event_id "ROUTED_TO_LIVE" "PENDING" none r) in
        finish_live q.event_id r1
          (LiveOrders.place_order e.beyond (live_setting e r) r1.paper.osm q)

  unfoldable pub reject_risk :
      RouteSetting P
      → OrderRequest P
      → OrderIntent P
      → Option String
      → ExecutionRouter P
      → Routed P × ExecutionRouter P
  unfolding publish note set_row risk_rejected_event
  reject_risk e q i reason r =
      let event = risk_rejected_event i reason q.event_id e.event_id in
      (
        answer event,
        publish
            (note q.event_id "RISK_REJECTED" "REJECTED" reason
              (set_row q.event_id DbStatus.risk_rejected reason r))
            event,
      )

module _ {P : Type 0} ⦃d : Float P⦄ where
  abbrev pub finish_paper :
      String
      → ExecutionRouter P
      → Result (OrderStateEvent P) × Paper P
      → Routed P × ExecutionRouter P
  finish_paper id r (result, s) = elim result [
    | ok event ↦ (
      answer event,
      record r { paper = record s { store = persist_execution_result s.store id event } },
    )
    | err x ↦ (failed (paper_raised x), record r { paper = s })
  ]

  unfoldable pub route_paper :
      RouteSetting P
      → OrderRequest P
      → Option (MarketData P)
      → ExecutionRouter P
      → Routed P × ExecutionRouter P
  unfolding PaperOrders.place_order persist_execution_result note set_row
  route_paper e q latest r =
      let r1 =
        set_row q.event_id DbStatus.routed_to_paper none
          (note q.event_id "ROUTED_TO_PAPER" "PENDING" none r) in
      finish_paper q.event_id r1
        (PaperOrders.place_order (record (e.paper) { has_store = true }) q latest r1.paper)

  -- Step 5, after the approval.
  unfoldable pub dispatch :
      RouteSetting P
      → OrderRequest P
      → Option (MarketData P)
      → ExecutionRouter P
      → Routed P × ExecutionRouter P
  unfolding route_paper route_live reject_routing
  dispatch e q latest r =
      if is_paper r.mode
      then route_paper e q latest r
      else if is_live r.mode
      then route_live e q r
      else reject_routing "invalid_execution_mode" e q r

  -- Step 4: the gate reads the router's kill switch.
  abbrev pub decide :
      RouteSetting P → OrderIntent P → Option (MarketData P) → ExecutionRouter P → RiskDecision P
  decide e i latest r = evaluate (record (e.gate) { kill_switch = r.kill_switch.active }) i latest

  unfoldable pub gate :
      RouteSetting P
      → OrderRequest P
      → OrderIntent P
      → Option (MarketData P)
      → ExecutionRouter P
      → Routed P × ExecutionRouter P
  unfolding reject_risk dispatch note set_row evaluate
  gate e q i latest r =
      let decision = decide e i latest r in
      if not decision.approved
      then reject_risk e q i decision.rejected_reason r
      else dispatch e q latest (
          note q.event_id "RISK_APPROVED" "RISK_APPROVED" none
            (set_row q.event_id DbStatus.risk_approved none r))

  -- Steps 3 to 5, on a request whose row is in the store.
  unfoldable pub process :
      RouteSetting P
      → OrderRequest P
      → Option (MarketData P)
      → ExecutionRouter P
      → Routed P × ExecutionRouter P
  unfolding gate new_intent
  process e q latest r = elim (new_intent q r.mode e.intent_id) [
    | refused x ↦ (failed x, r)
    | built i ↦ gate e q i latest r
  ]

  abbrev pub received_row : OrderRequest P → TradingMode → RequestRow P
  received_row q mode = record {
    request_id = q.event_id;
    client_order_id = q.event_id;
    idempotency_key = q.event_id;
    symbol = q.symbol;
    side = q.side;
    quantity = q.quantity;
    order_type = q.order_type;
    mode = mode;
    status = DbStatus.received;
    broker_order_id = none;
    reject_reason = none;
    avg_fill_price = none;
  }

  abbrev pub is_duplicate : OrderRequest P → ExecutionRouter P → Bool
  is_duplicate q r =
      any_of (str_eq q.event_id) r.processed_request_ids
      || check_duplicate r.paper.store q.event_id q.event_id

  -- Step 2.
  unfoldable pub receive :
      RouteSetting P
      → OrderRequest P
      → Option (MarketData P)
      → ExecutionRouter P
      → Routed P × ExecutionRouter P
  unfolding process reject_duplicate note add_order_request
  receive e q latest r =
      let (store, inserted) = add_order_request r.paper.store (received_row q r.mode) in
      if not inserted
      then reject_duplicate e q (with_store r store)
      else process e q latest (note q.event_id "RECEIVED" "RECEIVED" none (with_store r store))

  unfoldable pub route :
      RouteSetting P
      → OrderRequest P
      → Option (MarketData P)
      → ExecutionRouter P
      → Routed P × ExecutionRouter P
  unfolding receive reject_duplicate check_duplicate
  route e q latest r =
      if is_duplicate q r
      then reject_duplicate e q r
      else receive e q latest
          (record r { processed_request_ids = q.event_id ∷ r.processed_request_ids })
