-- ===== src/Tests/Limits.antt =====
-- The rate limiter and the subscriber of the router at concrete inputs.
use indian_algo_trading_plat.Common.{
  ◌≡◌, refl, true, none, some, [], ◌∷◌, ◌++◌, arith, List, filter_by, length,
}
use indian_algo_trading_plat.Common.Int.{ℤ, pos, ◌≤ℤ◌, ◌-ℤ◌}
use indian_algo_trading_plat.Common.Float.{whole, whole-IsOrdered}
use indian_algo_trading_plat.Types.{OrderStateEvent, OrderSide, OrderStatus}
use indian_algo_trading_plat.OrderStore.{DbStatus, OrderStore, RequestRow, get_order_request}
use indian_algo_trading_plat.RateLimiter.{BrokerRateLimiter, new_limiter, allow_request, in_window}
use indian_algo_trading_plat.RateLimiter.Windows.{
  History, begin, call, Expires, allow_request_bounded,
}
use indian_algo_trading_plat.ExecutionRouter.{deliver}
use indian_algo_trading_plat.ExecutionRouter.Events.{request_ids}
use indian_algo_trading_plat.ExecutionRouter.Sync.{Synced, deliver-Synced}
use indian_algo_trading_plat.Tests.{row, one_row}

abbrev limiter : BrokerRateLimiter ℤ
limiter = new_limiter (pos 3) (pos 5) (pos 3) (pos 10)

-- One call at time 100, and then one at time 102.
abbrev after_one : BrokerRateLimiter ℤ
after_one = (allow_request (pos 100) limiter).0

one_call : History limiter (pos 100) after_one (pos 100 ∷ [])
unfolding allow_request new_limiter ◌-ℤ◌
one_call = call (pos 100) (begin (pos 0)) refl

limiter-Expires : Expires limiter.window_seconds
unfolding new_limiter ◌-ℤ◌
limiter-Expires now later t h k = ground arith

after_one_allows : (allow_request (pos 102) after_one).1 ≡ true
unfolding allow_request new_limiter ◌-ℤ◌
after_one_allows = refl

limiter_fresh : limiter.requests ≡ []
unfolding new_limiter
limiter_fresh = refl

allow_request_bounded_example :
    pos (
      length
        (filter_by (in_window limiter.window_seconds (pos 102)) ((pos 100 ∷ []) ++ pos 102 ∷ [])))
    ≤ℤ limiter.max_requests
allow_request_bounded_example =
    allow_request_bounded whole-IsOrdered limiter limiter-Expires (pos 102) limiter_fresh one_call
      refl after_one_allows

abbrev opened_event : OrderStateEvent ℤ
opened_event = record {
  event_id = "e9";
  order_id = "o1";
  broker_order_id = some "b1";
  symbol = "INFY";
  side = OrderSide.buy;
  quantity = pos 10;
  filled_quantity = pos 0;
  avg_fill_price = none;
  status = OrderStatus.opened;
  reject_reason = none;
  order_request_id = some "r1";
}

-- A routing status, which the event overwrites.
abbrev routed_row : RequestRow ℤ
routed_row = record row { status = DbStatus.routed_to_paper }

abbrev routed_store : OrderStore ℤ
routed_store = record one_row { order_requests = routed_row ∷ [] }

-- A cancellation of the same order, and an event about another request.
abbrev sync_events : List (OrderStateEvent ℤ)
sync_events =
    opened_event
    ∷ record opened_event { order_request_id = some "r2"; status = OrderStatus.rejected }
    ∷ record opened_event { status = OrderStatus.cancelled; reject_reason = some "no funds" }
    ∷ []

row_found : get_order_request routed_store "r1" ≡ some routed_row
unfolding get_order_request
row_found = refl

deliver-Synced_example :
    (last : RequestRow ℤ) × (get_order_request (deliver sync_events routed_store) "r1" ≡ some last)
    × Synced "r1" sync_events routed_row last
    × (request_ids (deliver sync_events routed_store) ≡ request_ids routed_store)
deliver-Synced_example = deliver-Synced routed_store sync_events "r1" routed_row refl row_found
