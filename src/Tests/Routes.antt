-- ===== src/Tests/Routes.antt =====
-- The properties of the router at concrete inputs.
use indian_algo_trading_plat.Common.{
  ◌≡◌, ◌⊎◌, ◌↔◌, refl, true, false, none, some, [], ◌∷◌, upper, strip,
}
use indian_algo_trading_plat.Common.Int.{ℤ, pos}
use indian_algo_trading_plat.Common.Float.{whole}
use indian_algo_trading_plat.Types.{OrderRequest, OrderIntent, OrderSide, OrderType, TradingMode}
use indian_algo_trading_plat.OrderStore.{
  DbStatus, RequestRow, get_order_request, set_status, check_duplicate,
}
use indian_algo_trading_plat.KillSwitch
use indian_algo_trading_plat.RiskGate.{
  evaluate, failures, market_price, notional_of, is_market_fresh, daily_pnl,
}
use indian_algo_trading_plat.ExecutionRouter.Intents.{new_intent, built, refused}
use indian_algo_trading_plat.ExecutionRouter.{
  ExecutionRouter, answer, failed, empty_symbol, simple_rejected_event, with_store,
}
use indian_algo_trading_plat.ExecutionRouter.Routing.{
  route, is_duplicate, reject_duplicate, duplicate_request, decide, received_row, live_checks_pass,
}
use indian_algo_trading_plat.ExecutionRouter.Duplicates.{IsUnexecuted}
use indian_algo_trading_plat.ExecutionRouter.Rejections.{
  route_risk_rejected, route_refused, route_kill_switch,
}
use indian_algo_trading_plat.ExecutionRouter.Repeats.{
  route_at_most_once, reject_duplicate_overwrites,
}
use indian_algo_trading_plat.ExecutionRouter.Switching.{
  switch_to_live, switch_to_live_iff, switch_to_live_lem, IsReadyForLive,
}
use indian_algo_trading_plat.Tests.{
  request, market, route_setting, router, locked_router, row, one_row,
}
use indian_algo_trading_plat.ExecutionRouter.Fills.{IsSettled, route-IsSettled}
use indian_algo_trading_plat.Common.Int.{◌*ℤ◌, ◌-ℤ◌}

route_at_most_once_example :
    ((route route_setting request
        (some market)
        (route route_setting request (some market) router).1).0
      ≡ answer (simple_rejected_event request duplicate_request "e3"))
    × IsUnexecuted
        (route route_setting request (some market) router).1
        (route route_setting request
          (some market)
          (route route_setting request (some market) router).1).1
route_at_most_once_example =
    route_at_most_once route_setting route_setting request request (some market) (some market)
      router refl

route_kill_switch_example :
    IsUnexecuted locked_router (route route_setting request (some market) locked_router).1
unfolding KillSwitch.new
route_kill_switch_example = route_kill_switch route_setting request (some market) locked_router refl

abbrev stored_router : ExecutionRouter ℤ
stored_router = with_store router one_row

-- 60 shares are more than the gate allows.
abbrev big_request : OrderRequest ℤ
big_request = record request { quantity = pos 60 }

abbrev big_intent : OrderIntent ℤ
big_intent = record {
  intent_id = "i1";
  symbol = "INFY";
  side = OrderSide.buy;
  quantity = pos 60;
  order_type = OrderType.market;
  price = none;
  strategy_name = some "ema";
  signal_event_id = none;
  source = "strategy";
  trading_mode = TradingMode.paper;
}

big_request_new : is_duplicate big_request router ≡ false
unfolding check_duplicate
big_request_new = refl

big_request_built : new_intent big_request TradingMode.paper "i1" ≡ built big_intent
unfolding new_intent upper strip
big_request_built = refl

big_request_denied : (decide route_setting big_intent (some market) router).approved ≡ false
unfolding evaluate failures market_price notional_of is_market_fresh daily_pnl KillSwitch.new
big_request_denied = refl

route_risk_rejected_example :
    (get_order_request (route route_setting big_request (some market) router).1.paper.store "r1"
      ≡ some (
          set_status DbStatus.risk_rejected
            (decide route_setting big_intent (some market) router).rejected_reason
            none
            none
            (received_row big_request TradingMode.paper)))
    × IsUnexecuted router (route route_setting big_request (some market) router).1
route_risk_rejected_example =
    route_risk_rejected route_setting big_request big_intent (some market) router big_request_new
      big_request_built big_request_denied

abbrev blank_request : OrderRequest ℤ
blank_request = record request { symbol = " " }

blank_request_new : is_duplicate blank_request router ≡ false
unfolding check_duplicate
blank_request_new = refl

blank_request_refused : new_intent blank_request TradingMode.paper "i1" ≡ refused empty_symbol
unfolding new_intent upper strip
blank_request_refused = refl

route_refused_example :
    ((route route_setting blank_request (some market) router).0 ≡ failed empty_symbol)
    × (get_order_request (route route_setting blank_request (some market) router).1.paper.store "r1"
        ≡ some (received_row blank_request TradingMode.paper))
route_refused_example =
    route_refused route_setting blank_request (some market) router empty_symbol blank_request_new
      blank_request_refused

abbrev filled_row : RequestRow ℤ
filled_row = record row { status = DbStatus.filled; avg_fill_price = some (pos 100) }

abbrev filled_router : ExecutionRouter ℤ
filled_router = with_store router (record one_row { order_requests = filled_row ∷ [] })

reject_duplicate_overwrites_example :
    get_order_request (reject_duplicate route_setting request filled_router).1.paper.store "r1"
    ≡ some (set_status DbStatus.rejected (some duplicate_request) none none filled_row)
unfolding get_order_request
reject_duplicate_overwrites_example =
    reject_duplicate_overwrites route_setting request filled_router filled_row refl refl refl refl

switch_to_live_iff_example :
    ((switch_to_live true router).1 ≡ true) ↔ ((true ≡ true) × IsReadyForLive router)
switch_to_live_iff_example = switch_to_live_iff true router

switch_to_live_lem_example :
    (((switch_to_live true router).1 ≡ true)
      × (live_checks_pass (switch_to_live true router).0 ≡ true))
    ⊎ (switch_to_live true router ≡ (router, false))
switch_to_live_lem_example = switch_to_live_lem true router

abbrev intent : OrderIntent ℤ
intent = record big_intent { quantity = pos 10 }

request_new : is_duplicate request router ≡ false
unfolding check_duplicate
request_new = refl

request_built : new_intent request TradingMode.paper "i1" ≡ built intent
unfolding new_intent upper strip
request_built = refl

request_approved : (decide route_setting intent (some market) router).approved ≡ true
unfolding evaluate failures market_price notional_of is_market_fresh daily_pnl KillSwitch.new ◌*ℤ◌
    ◌-ℤ◌
request_approved = refl

route-IsSettled_example :
    IsSettled route_setting request (route route_setting request (some market) router)
route-IsSettled_example =
    route-IsSettled route_setting request intent (some market) router refl refl request_new
      request_built request_approved
