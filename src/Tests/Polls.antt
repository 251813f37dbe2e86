-- ===== src/Tests/Polls.antt =====
-- The order poller at concrete inputs: a broker that reports 15 filled shares of a request of which the
-- ledger has 10.
use indian_algo_trading_plat.Common.{◌≡◌, refl, true, none, some, [], ◌∷◌, String}
use indian_algo_trading_plat.Common.Int.{ℤ, pos}
use indian_algo_trading_plat.Common.Float.{whole}
use indian_algo_trading_plat.Types.{OrderSide, OrderStatus, OrderState, OrderType, TradingMode}
use indian_algo_trading_plat.OrderStore.{OrderStore, get_cumulative_filled_quantity}
use indian_algo_trading_plat.OrderStateMachine.Lifecycle.{Follows}
use indian_algo_trading_plat.OrderPoller.{BrokerRow, OrderPoller, record_fill_delta, apply_rows}
use indian_algo_trading_plat.OrderPoller.Deltas.{larger, record_fill_delta_lem}
use indian_algo_trading_plat.OrderPoller.Orders.{apply_rows-Follows}
use indian_algo_trading_plat.Tests.{row, fill}

abbrev digits : ℤ → String
digits n = "15"

abbrev filled_ten : OrderStore ℤ
filled_ten = record { order_requests = row ∷ []; order_events = []; order_fills = fill ∷ [] }

record_fill_delta_lem_example :
    get_cumulative_filled_quantity
      (record_fill_delta digits (some "r1") "b1" "INFY" OrderSide.buy (pos 15) (pos 101) filled_ten)
      "r1"
    ≡ larger (pos 15) (get_cumulative_filled_quantity filled_ten "r1")
record_fill_delta_lem_example =
    record_fill_delta_lem digits "r1" "b1" "INFY" OrderSide.buy (pos 15) (pos 101) filled_ten refl
      refl refl refl refl

abbrev live_order : OrderState ℤ
live_order = record {
  order_id = "o1";
  broker_order_id = some "b1";
  intent_id = some "r1";
  symbol = "INFY";
  side = OrderSide.buy;
  quantity = pos 20;
  filled_quantity = pos 10;
  order_type = OrderType.market;
  requested_price = none;
  avg_fill_price = some (pos 100);
  status = OrderStatus.opened;
  reject_reason = none;
  trading_mode = TradingMode.live;
}

abbrev poller : OrderPoller ℤ
poller = record {
  order_state_machine = record {
    orders = ("o1", live_order) ∷ [];
    event_bus = true;
    scheduled = [];
  };
  order_store = some filled_ten;
}

abbrev reported : BrokerRow ℤ
reported = record {
  order_id = "b1";
  status = "COMPLETE";
  filled_quantity = pos 15;
  average_price = some (pos 101);
  text = none;
}

apply_rows-Follows_example :
    Follows live_order (apply_rows digits "e1" (reported ∷ []) poller).order_state_machine "o1"
apply_rows-Follows_example = apply_rows-Follows digits "e1" (reported ∷ []) poller "o1" refl
