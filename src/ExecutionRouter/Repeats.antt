-- ===== src/ExecutionRouter/Repeats.antt =====
-- `route` of backend/execution/execution_router.py called again with an id that it was called with before.
use indian_algo_trading_plat.Common.{
  ◌≡◌, ◌∙◌, refl, String, Bool, true, false, not, Option, none, some, List, arith, if◌then◌else◌,
  is_empty, Bool-cases, Option-cases, inl, inr, eq_refl,
}
use indian_algo_trading_plat.Common.Float.{Float}
use indian_algo_trading_plat.Types.{OrderRequest, OrderIntent, OrderStateEvent, is_paper, is_live}
use indian_algo_trading_plat.OrderStateMachine.{Outcome, raised, moved}
use indian_algo_trading_plat.OrderStore.{
  OrderStore, DbStatus, RequestRow, check_duplicate, set_status, update_order_status,
  add_order_event, get_order_request,
}
use indian_algo_trading_plat.OrderStore.Requests.{any_of-update_where}
use indian_algo_trading_plat.Market.{MarketData}
use indian_algo_trading_plat.PaperOrders.{Paper, Result, ok, err}
use indian_algo_trading_plat.ExecutionRouter.Intents.{new_intent, Built-cases}
use indian_algo_trading_plat.ExecutionRouter.{
  ExecutionRouter, RouteSetting, Routed, answer, publish, on_order_state_event, is_risk_rejected,
  status_to_db, kept_reason, kept_price, simple_rejected_event,
}
use indian_algo_trading_plat.ExecutionRouter.Routing.{
  route, process, gate, decide, dispatch, route_paper, route_live, reject_routing, reject_risk,
  reject_duplicate, is_duplicate, note, set_row, duplicate_request, live_checks_pass, finish_live,
  finish_paper,
}
use indian_algo_trading_plat.ExecutionRouter.Duplicates.{IsUnexecuted, route_duplicate}
use indian_algo_trading_plat.ExecutionRouter.Rejections.{
  route_new, received, process_built, process_refused, get-update_order_status,
}

module _ {P : Type 0} where
  on_order_state_event-check_duplicate :
      (s : OrderStore P) (e : OrderStateEvent P) (id key : String)
      → check_duplicate (on_order_state_event s e) id key ≡ check_duplicate s id key
  unfolding on_order_state_event update_order_status add_order_event check_duplicate
  on_order_state_event-check_duplicate s e id key = elim (Option-cases e.order_request_id) [
    | inl quiet ↦ rw quiet refl
    | inr (ref, linked) ↦ ground (
      arith,
      linked,
      any_of-update_where id key ref
          (set_status (status_to_db e.status) (kept_reason e.status e.reject_reason)
            e.broker_order_id (kept_price e.status e.avg_fill_price))
          (λ r. refl) s.order_requests,
    )
  ]

  publish-ids :
      (r : ExecutionRouter P) (e : OrderStateEvent P)
      → (publish r e).processed_request_ids ≡ r.processed_request_ids
  unfolding publish
  publish-ids r e = ground arith

  reject_routing-ids :
      (reason : String) (e : RouteSetting P) (q : OrderRequest P) (r : ExecutionRouter P)
      → (reject_routing reason e q r).1.processed_request_ids ≡ r.processed_request_ids
  unfolding reject_routing publish note set_row
  reject_routing-ids reason e q r = ground arith

  reject_risk-ids :
      (e : RouteSetting P) (q : OrderRequest P) (i : OrderIntent P) (reason : Option String)
      (r : ExecutionRouter P)
      → (reject_risk e q i reason r).1.processed_request_ids ≡ r.processed_request_ids
  unfolding reject_risk publish note set_row
  reject_risk-ids e q i reason r = ground arith

  if-ids :
      (b : Bool) (x y : Routed P × ExecutionRouter P) (ids : List String)
      → x.1.processed_request_ids ≡ ids
      → y.1.processed_request_ids ≡ ids
      → (if b then x else y).1.processed_request_ids ≡ ids
  if-ids true x y ids h k = h
  if-ids false x y ids h k = k

  finish_live-ids :
      (id : String) (r : ExecutionRouter P) (o : Outcome P)
      → (finish_live id r o).1.processed_request_ids ≡ r.processed_request_ids
  finish_live-ids id r (raised x) = refl
  finish_live-ids id r (moved event m) = refl

  route_live-ids :
      (e : RouteSetting P) (q : OrderRequest P) (r : ExecutionRouter P)
      → (route_live e q r).1.processed_request_ids ≡ r.processed_request_ids
  unfolding route_live note set_row
  route_live-ids e q r = elim (Bool-cases (live_checks_pass r)) [
    | inl ready ↦ rw ready (finish_live-ids _ _ _)
    | inr shut ↦ rw shut (reject_routing-ids "live_safety_check_failed" e q r)
  ]

  publish-check_duplicate :
      (r : ExecutionRouter P) (e : OrderStateEvent P) (id key : String)
      → check_duplicate (publish r e).paper.store id key ≡ check_duplicate r.paper.store id key
  unfolding publish
  publish-check_duplicate r e id key =
      ground (arith, on_order_state_event-check_duplicate r.paper.store e id key)

  -- With an event bus, a repeated request whose first run is stored under the same id, and is not
  -- RISK_REJECTED, turns that stored row into REJECTED "duplicate_request", also where the row was
  -- FILLED: the router's own subscriber takes the answer to the copy for an update of the original.
  pub reject_duplicate_overwrites :
      (e : RouteSetting P) (q : OrderRequest P) (r : ExecutionRouter P) (row : RequestRow P)
      → r.paper.osm.event_bus ≡ true
      → is_empty q.event_id ≡ false
      → get_order_request r.paper.store q.event_id ≡ some row
      → is_risk_rejected row.status ≡ false
      → get_order_request (reject_duplicate e q r).1.paper.store q.event_id
        ≡ some (set_status DbStatus.rejected (some duplicate_request) none none row)
  unfolding reject_duplicate publish on_order_state_event simple_rejected_event note add_order_event
      get_order_request update_order_status
  reject_duplicate_overwrites e q r row bus named found open_row =
      rw (bus, named, found, open_row)
        (get-update_order_status r.paper.store q.event_id DbStatus.rejected (some duplicate_request)
          none none row found)

module _ {P : Type 0} ⦃d : Float P⦄ where
  finish_paper-ids :
      (id : String) (r : ExecutionRouter P) (x : Result (OrderStateEvent P) × Paper P)
      → (finish_paper id r x).1.processed_request_ids ≡ r.processed_request_ids
  finish_paper-ids id r (ok event, s) = refl
  finish_paper-ids id r (err x, s) = refl

  dispatch-ids :
      (e : RouteSetting P) (q : OrderRequest P) (latest : Option (MarketData P))
      (r : ExecutionRouter P)
      → (dispatch e q latest r).1.processed_request_ids ≡ r.processed_request_ids
  unfolding dispatch route_paper note set_row
  dispatch-ids e q latest r =
      if-ids (is_paper r.mode) _ _ r.processed_request_ids
        (finish_paper-ids q.event_id
          (set_row q.event_id DbStatus.routed_to_paper none
            (note q.event_id "ROUTED_TO_PAPER" "PENDING" none r))
          _)
        (if-ids (is_live r.mode) _ _ r.processed_request_ids (route_live-ids e q r)
          (reject_routing-ids "invalid_execution_mode" e q r))

  gate-ids :
      (e : RouteSetting P) (q : OrderRequest P) (i : OrderIntent P) (latest : Option (MarketData P))
      (r : ExecutionRouter P)
      → (gate e q i latest r).1.processed_request_ids ≡ r.processed_request_ids
  unfolding gate note set_row
  gate-ids e q i latest r =
      if-ids (not (decide e i latest r).approved) _ _ r.processed_request_ids
        (reject_risk-ids e q i (decide e i latest r).rejected_reason r)
        (dispatch-ids e q latest (
          note q.event_id "RISK_APPROVED" "RISK_APPROVED" none
            (set_row q.event_id DbStatus.risk_approved none r)))

  process-ids :
      (e : RouteSetting P) (q : OrderRequest P) (latest : Option (MarketData P))
      (r : ExecutionRouter P)
      → (process e q latest r).1.processed_request_ids ≡ r.processed_request_ids
  process-ids e q latest r = elim (Built-cases (new_intent q r.mode e.intent_id)) [
    | inl (i, made) ↦ rw (process_built e q i latest r made) (gate-ids e q i latest r)
    | inr (x, bad) ↦ rw (process_refused e q latest r x bad) refl
  ]

  reject_duplicate-is_duplicate :
      (e : RouteSetting P) (q : OrderRequest P) (r : ExecutionRouter P)
      → is_duplicate q (reject_duplicate e q r).1 ≡ is_duplicate q r
  unfolding reject_duplicate note add_order_event check_duplicate
  reject_duplicate-is_duplicate e q r =
      let event = simple_rejected_event q duplicate_request e.event_id in
      let noted = note q.event_id "DUPLICATE_REJECTED" "REJECTED" (some duplicate_request) r in
      rw (publish-ids noted event, publish-check_duplicate noted event q.event_id q.event_id) refl

  -- Whatever came of a request, its id is a duplicate from then on.
  route-is_duplicate :
      (e : RouteSetting P) (q q' : OrderRequest P) (latest : Option (MarketData P))
      (r : ExecutionRouter P)
      → q'.event_id ≡ q.event_id
      → is_duplicate q' (route e q latest r).1 ≡ true
  unfolding route
  route-is_duplicate e q q' latest r same = elim (Bool-cases (is_duplicate q r)) [
    | inl dup ↦ rw (same, dup) (reject_duplicate-is_duplicate e q r ∙ dup)
    | inr new ↦
        rw ((route_new e q latest r new).0, process-ids e q latest (received q r), same)
          (ground (arith, eq_refl q.event_id))
  ]

  -- A request id is executed at most once: after any call of `route`, a second call with the same id
  -- is rejected as a duplicate and executes nothing, whatever else the second request says.
  pub route_at_most_once :
      (e e' : RouteSetting P) (q q' : OrderRequest P) (latest latest' : Option (MarketData P))
      (r : ExecutionRouter P)
      → q'.event_id ≡ q.event_id
      → ((route e' q' latest' (route e q latest r).1).0
          ≡ answer (simple_rejected_event q' duplicate_request e'.event_id))
        × IsUnexecuted (route e q latest r).1 (route e' q' latest' (route e q latest r).1).1
  route_at_most_once e e' q q' latest latest' r same =
      route_duplicate e' q' latest' (route e q latest r).1 (route-is_duplicate e q q' latest r same)
