-- ===== src/ExecutionRouter/Fills.antt =====
-- `route` of backend/execution/execution_router.py on a new request that the gate approves, in PAPER mode: from the request to its row.
use indian_algo_trading_plat.Common.{
  ◌≡◌, ◌∙◌, refl, Bool, true, false, not, Option, none, some, if◌then◌else◌, ap, subst, sym, str_eq,
}
use indian_algo_trading_plat.Common.Float.{Float}
use indian_algo_trading_plat.Types.{
  OrderRequest, OrderIntent, OrderStateEvent, TradingMode, is_paper,
}
use indian_algo_trading_plat.OrderStore.{
  DbStatus, RequestRow, set_status, find_request, get_order_request, add_order_event,
}
use indian_algo_trading_plat.Market.{MarketData}
use indian_algo_trading_plat.PaperOrders
use indian_algo_trading_plat.PaperOrders.{Setting, Paper, ok}
use indian_algo_trading_plat.PaperOrders.Fills.{IsQuiet}
use indian_algo_trading_plat.PaperOrders.Results.{Verdict, Returns}
use indian_algo_trading_plat.PaperOrders.Answers.{place_order-Returns}
use indian_algo_trading_plat.PaperOrders.Requests.{place_order-KeepsRequests}
use indian_algo_trading_plat.ExecutionRouter.Intents.{new_intent, built}
use indian_algo_trading_plat.ExecutionRouter.{
  ExecutionRouter, RouteSetting, Routed, answer, status_to_db, kept_reason, kept_price,
  persist_execution_result,
}
use indian_algo_trading_plat.ExecutionRouter.Routing.{
  route, gate, dispatch, route_paper, finish_paper, decide, is_duplicate, note, set_row,
  received_row,
}
use indian_algo_trading_plat.ExecutionRouter.Rejections.{
  route_new, received, process_built, get-update_order_status,
}

if_then : {A : Type 0} (b : Bool) (x y : A) → b ≡ true → (if b then x else y) ≡ x
if_then b x y h = rw h refl

if_else : {A : Type 0} (b : Bool) (x y : A) → b ≡ false → (if b then x else y) ≡ y
if_else b x y h = rw h refl

module _ {P : Type 0} ⦃d : Float P⦄ where
  -- What the paper adapter reads when the router calls it.
  abbrev pub paper_setting : RouteSetting P → Setting
  paper_setting e = record (e.paper) { has_store = true }

  -- The call answers with an event about the order and its request that has one of the three
  -- verdicts, and the row of the request has the event's status.
  pub record IsSettled (e : RouteSetting P) (q : OrderRequest P) (x : Routed P × ExecutionRouter P)
      : Type 0 where
    pub event : OrderStateEvent P
    pub row : RequestRow P
    pub answered : x.0 ≡ answer event
    pub request : event.order_request_id ≡ some q.event_id
    pub verdict : Verdict (paper_setting e) q event
    pub found : get_order_request x.1.paper.store q.event_id ≡ some row
    pub row_status : row.status ≡ status_to_db event.status

  finish_paper-IsSettled :
      (e : RouteSetting P) (q : OrderRequest P) (r : ExecutionRouter P) (row : RequestRow P)
      (x : PaperOrders.Result (OrderStateEvent P) × Paper P)
      → Returns (paper_setting e) q x
      → get_order_request x.1.store q.event_id ≡ some row
      → IsSettled e q (finish_paper q.event_id r x)
  unfolding persist_execution_result add_order_event get_order_request
  finish_paper-IsSettled e q r row x t found =
      let ev = t.event in
      subst
        (λ y.
          get_order_request y.1.store q.event_id ≡ some row
          → IsSettled e q (finish_paper q.event_id r y))
        (sym t.result)
        (λ here. record {
          event = ev;
          row =
              set_status (status_to_db ev.status) (kept_reason ev.status ev.reject_reason)
                ev.broker_order_id (kept_price ev.status ev.avg_fill_price) row;
          answered = refl;
          request = t.request;
          verdict = t.verdict;
          found =
              get-update_order_status t.state.store q.event_id (status_to_db ev.status)
                (kept_reason ev.status ev.reject_reason) ev.broker_order_id
                (kept_price ev.status ev.avg_fill_price) row here;
          row_status = refl;
        })
        found

  route_paper-IsSettled :
      (e : RouteSetting P) (q : OrderRequest P) (latest : Option (MarketData P))
      (r : ExecutionRouter P) (row : RequestRow P)
      → IsQuiet (paper_setting e)
      → get_order_request r.paper.store q.event_id ≡ some row
      → IsSettled e q (route_paper e q latest r)
  unfolding route_paper get_order_request add_order_event note set_row
  route_paper-IsSettled e q latest r row quiet found =
      let r1 =
        set_row q.event_id DbStatus.routed_to_paper none
          (note q.event_id "ROUTED_TO_PAPER" "PENDING" none r) in
      let routed = set_status DbStatus.routed_to_paper none none none row in
      let here : get_order_request r1.paper.store q.event_id ≡ some routed =
        get-update_order_status (note q.event_id "ROUTED_TO_PAPER" "PENDING" none r).paper.store
          q.event_id DbStatus.routed_to_paper none none none row found in
      finish_paper-IsSettled e q r1 routed
        (PaperOrders.place_order (paper_setting e) q latest r1.paper)
        (place_order-Returns (paper_setting e) q latest r1.paper quiet)
        (ap (find_request (λ x. str_eq x.request_id q.event_id))
            (place_order-KeepsRequests (paper_setting e) q latest r1.paper)
          ∙ here)

  gate_approved :
      (e : RouteSetting P) (q : OrderRequest P) (i : OrderIntent P) (latest : Option (MarketData P))
      (r : ExecutionRouter P)
      → r.mode ≡ TradingMode.paper
      → (decide e i latest r).approved ≡ true
      → gate e q i latest r
        ≡ route_paper e q latest (
            note q.event_id "RISK_APPROVED" "RISK_APPROVED" none
              (set_row q.event_id DbStatus.risk_approved none r))
  unfolding gate dispatch note set_row
  gate_approved e q i latest r mode approval =
      if_else (not (decide e i latest r).approved) _ _ (ap not approval)
      ∙ if_then (is_paper r.mode) _ _ (ap is_paper mode)

  -- In PAPER mode, where the trade journal does not raise, a new request whose intent the gate
  -- approves is always answered with an event about it, a rejection, a waiting LIMIT order or a
  -- complete fill, and its row in the store ends with the status of that event.
  pub route-IsSettled :
      (e : RouteSetting P) (q : OrderRequest P) (i : OrderIntent P) (latest : Option (MarketData P))
      (r : ExecutionRouter P)
      → IsQuiet (paper_setting e)
      → r.mode ≡ TradingMode.paper
      → is_duplicate q r ≡ false
      → new_intent q r.mode e.intent_id ≡ built i
      → (decide e i latest r).approved ≡ true
      → IsSettled e q (route e q latest r)
  unfolding note set_row add_order_event get_order_request
  route-IsSettled e q i latest r quiet mode new made approval =
      let (same, found) = route_new e q latest r new in
      let start = received q r in
      let approved = set_row q.event_id DbStatus.risk_approved none start in
      let steps : route e q latest r
          ≡ route_paper e q latest (note q.event_id "RISK_APPROVED" "RISK_APPROVED" none approved) =
        same
        ∙ process_built e q i latest start made
        ∙ gate_approved e q i latest start mode approval in
      subst (IsSettled e q) (sym steps) (
        route_paper-IsSettled e q latest _ _ quiet (
          get-update_order_status start.paper.store q.event_id DbStatus.risk_approved none none none
            (received_row q r.mode) found))
