-- ===== src/ExecutionRouter/Rejections.antt =====
-- `route` of backend/execution/execution_router.py on a new request that the constructor of `OrderIntent` or the risk gate refuses.
use indian_algo_trading_plat.Common.{
  ◌≡◌, ◌∙◌, refl, String, true, false, Option, none, some, ◌∷◌, arith, Bool-cases, inl, inr,
  eq_refl,
}
use indian_algo_trading_plat.Common.Float.{Float}
use indian_algo_trading_plat.Types.{OrderRequest, OrderIntent}
use indian_algo_trading_plat.OrderStore.{
  OrderStore, DbStatus, RequestRow, add_order_request, set_status, update_order_status,
  add_order_event, get_order_request,
}
use indian_algo_trading_plat.OrderStore.Requests.{add_order_request_lem, find_request-update_where}
use indian_algo_trading_plat.Market.{MarketData}
use indian_algo_trading_plat.RiskGate.Approval.{evaluate-kill_switch}
use indian_algo_trading_plat.ExecutionRouter.Intents.{new_intent, built, refused, Built-cases}
use indian_algo_trading_plat.ExecutionRouter.{
  ExecutionRouter, RouteSetting, RouteError, failed, publish, on_order_state_event, with_store,
  risk_rejected_event,
}
use indian_algo_trading_plat.ExecutionRouter.Routing.{
  route, receive, process, gate, decide, reject_risk, is_duplicate, note, set_row, received_row,
}
use indian_algo_trading_plat.ExecutionRouter.Duplicates.{
  IsUnexecuted, IsUnexecuted-trans, publish-IsUnexecuted, route_duplicate,
}

module _ {P : Type 0} where
  pub get-update_order_status :
      (s : OrderStore P) (id : String) (status : DbStatus) (reason broker : Option String)
      (price : Option P) (row : RequestRow P)
      → get_order_request s id ≡ some row
      → get_order_request (update_order_status s id status reason broker price) id
        ≡ some (set_status status reason broker price row)
  unfolding get_order_request update_order_status
  get-update_order_status s id status reason broker price row h =
      find_request-update_where id id (set_status status reason broker price) (λ r. refl)
        s.order_requests
      ∙ rw (eq_refl id, h) refl

  -- The row of a rejection by the gate survives the event that the router publishes for it.
  publish-risk_rejected :
      (r : ExecutionRouter P) (i : OrderIntent P) (reason : Option String) (id event_id : String)
      (row : RequestRow P)
      → get_order_request r.paper.store id ≡ some row
      → row.status ≡ DbStatus.risk_rejected
      → get_order_request (publish r (risk_rejected_event i reason id event_id)).paper.store id
        ≡ some row
  unfolding publish on_order_state_event risk_rejected_event
  publish-risk_rejected r i reason id event_id row h s = ground (arith, h, s)

  reject_risk-row :
      (e : RouteSetting P) (q : OrderRequest P) (i : OrderIntent P) (reason : Option String)
      (r : ExecutionRouter P) (row : RequestRow P)
      → get_order_request r.paper.store q.event_id ≡ some row
      → get_order_request (reject_risk e q i reason r).1.paper.store q.event_id
        ≡ some (set_status DbStatus.risk_rejected reason none none row)
  unfolding reject_risk note set_row add_order_event get_order_request
  reject_risk-row e q i reason r row h =
      publish-risk_rejected
        (note q.event_id "RISK_REJECTED" "REJECTED" reason
          (set_row q.event_id DbStatus.risk_rejected reason r))
        i reason q.event_id e.event_id (set_status DbStatus.risk_rejected reason none none row)
        (get-update_order_status r.paper.store q.event_id DbStatus.risk_rejected reason none none
          row h)
        refl

  reject_risk-IsUnexecuted :
      (e : RouteSetting P) (q : OrderRequest P) (i : OrderIntent P) (reason : Option String)
      (r : ExecutionRouter P)
      → IsUnexecuted r (reject_risk e q i reason r).1
  unfolding reject_risk note set_row add_order_event update_order_status
  reject_risk-IsUnexecuted e q i reason r =
      let h =
        publish-IsUnexecuted
          (note q.event_id "RISK_REJECTED" "REJECTED" reason
            (set_row q.event_id DbStatus.risk_rejected reason r))
          (risk_rejected_event i reason q.event_id e.event_id) in
      record {
        same_orders = h.same_orders;
        same_positions = h.same_positions;
        same_fills = h.same_fills;
        same_journal = h.same_journal;
      }

module _ {P : Type 0} ⦃d : Float P⦄ where
  gate_rejected :
      (e : RouteSetting P) (q : OrderRequest P) (i : OrderIntent P) (latest : Option (MarketData P))
      (r : ExecutionRouter P)
      → (decide e i latest r).approved ≡ false
      → gate e q i latest r ≡ reject_risk e q i (decide e i latest r).rejected_reason r
  unfolding gate
  gate_rejected e q i latest r h = rw h refl

  pub process_built :
      (e : RouteSetting P) (q : OrderRequest P) (i : OrderIntent P) (latest : Option (MarketData P))
      (r : ExecutionRouter P)
      → new_intent q r.mode e.intent_id ≡ built i
      → process e q latest r ≡ gate e q i latest r
  unfolding process
  process_built e q i latest r h = rw (h, process) refl

  pub process_refused :
      (e : RouteSetting P) (q : OrderRequest P) (latest : Option (MarketData P))
      (r : ExecutionRouter P) (x : RouteError)
      → new_intent q r.mode e.intent_id ≡ refused x
      → process e q latest r ≡ (failed x, r)
  unfolding process
  process_refused e q latest r x h = rw (h, process) refl

  -- The router after step 2 on a new request.
  abbrev pub received : OrderRequest P → ExecutionRouter P → ExecutionRouter P
  received q r = note q.event_id "RECEIVED" "RECEIVED" none (
      with_store (record r { processed_request_ids = q.event_id ∷ r.processed_request_ids })
        (add_order_request r.paper.store (received_row q r.mode)).0)

  pub route_new :
      (e : RouteSetting P) (q : OrderRequest P) (latest : Option (MarketData P))
      (r : ExecutionRouter P)
      → is_duplicate q r ≡ false
      → (route e q latest r ≡ process e q latest (received q r))
        × (get_order_request (received q r).paper.store q.event_id ≡ some (received_row q r.mode))
  unfolding route receive note add_order_event get_order_request
  route_new e q latest r new = elim (add_order_request_lem r.paper.store (received_row q r.mode)) [
    | inl (free, inserted, found) ↦ (rw (new, inserted) refl, found)
    | inr (taken, same) ↦ absurd (ground arith)
  ]

  pub received-IsUnexecuted :
      (q : OrderRequest P) (r : ExecutionRouter P) → IsUnexecuted r (received q r)
  unfolding note add_order_event add_order_request
  received-IsUnexecuted q r = record {
    same_orders = refl;
    same_positions = refl;
    same_fills = ground arith;
    same_journal = refl;
  }

  -- A new request that the gate does not approve ends with its row at RISK_REJECTED and the gate's
  -- reason in it, with or without an event bus, and nothing is executed.
  pub route_risk_rejected :
      (e : RouteSetting P) (q : OrderRequest P) (i : OrderIntent P) (latest : Option (MarketData P))
      (r : ExecutionRouter P)
      → is_duplicate q r ≡ false
      → new_intent q r.mode e.intent_id ≡ built i
      → (decide e i latest r).approved ≡ false
      → (get_order_request (route e q latest r).1.paper.store q.event_id
          ≡ some (
              set_status DbStatus.risk_rejected
                (decide e i latest r).rejected_reason
                none
                none
                (received_row q r.mode)))
        × IsUnexecuted r (route e q latest r).1
  unfolding note
  route_risk_rejected e q i latest r new made denied =
      let (same, found) = route_new e q latest r new in
      let reason = (decide e i latest r).rejected_reason in
      let step : process e q latest (received q r) ≡ reject_risk e q i reason (received q r) =
        process_built e q i latest (received q r) made
        ∙ gate_rejected e q i latest (received q r) denied in
      rw (same, step)
        (
          reject_risk-row e q i reason (received q r) (received_row q r.mode) found,
          IsUnexecuted-trans (received-IsUnexecuted q r)
              (reject_risk-IsUnexecuted e q i reason (received q r)),
        )

  -- A new request that the constructor of `OrderIntent` refuses makes `route` raise, and its row stays
  -- in the store as RECEIVED, an active request.
  pub route_refused :
      (e : RouteSetting P) (q : OrderRequest P) (latest : Option (MarketData P))
      (r : ExecutionRouter P) (x : RouteError)
      → is_duplicate q r ≡ false
      → new_intent q r.mode e.intent_id ≡ refused x
      → ((route e q latest r).0 ≡ failed x)
        × (get_order_request (route e q latest r).1.paper.store q.event_id
            ≡ some (received_row q r.mode))
  unfolding note
  route_refused e q latest r x new bad =
      let (same, found) = route_new e q latest r new in
      rw (same, process_refused e q latest (received q r) x bad) (refl, found)

  -- While the kill switch is active no request is executed: whatever its fields, the mode and the
  -- market data, no order, no position, no fill and no journal entry appears.
  pub route_kill_switch :
      (e : RouteSetting P) (q : OrderRequest P) (latest : Option (MarketData P))
      (r : ExecutionRouter P)
      → r.kill_switch.active ≡ true
      → IsUnexecuted r (route e q latest r).1
  unfolding note
  route_kill_switch e q latest r locked = elim (Bool-cases (is_duplicate q r)) [
    | inl dup ↦ (route_duplicate e q latest r dup).1
    | inr new ↦ elim (Built-cases (new_intent q r.mode e.intent_id)) [
      | inl (i, made) ↦
          (route_risk_rejected e q i latest r new made
            (evaluate-kill_switch (record (e.gate) { kill_switch = r.kill_switch.active }) i latest
              locked).0).1
      | inr (x, bad) ↦
          rw ((route_new e q latest r new).0, process_refused e q latest (received q r) x bad)
            (received-IsUnexecuted q r)
    ]
  ]
