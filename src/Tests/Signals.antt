-- ===== src/Tests/Signals.antt =====
-- The signal validator at a concrete signal.
use indian_algo_trading_plat.Common.{◌≡◌, ◌↔◌, false, none, some}
use indian_algo_trading_plat.Common.Int.{ℤ, pos}
use indian_algo_trading_plat.Common.Float.{whole}
use indian_algo_trading_plat.Types.{OrderSide, TradingMode}
use indian_algo_trading_plat.SignalValidator.{
  SignalEvent, SignalValidator, approved_signal, validate_and_route, request_of_signal,
}
use indian_algo_trading_plat.SignalValidator.Approval.{IsRoutable, validate_and_route-approved_iff}

abbrev signal : SignalEvent ℤ
signal = record {
  event_id = "s1";
  symbol = "INFY";
  strategy_name = "ema";
  action = OrderSide.sell;
  ltp = some (pos 100);
  signal_id = some (pos 7);
}

abbrev validator : SignalValidator
validator = record {
  kill_switch = none;
  live_trading_enabled = false;
  default_quantity = some (pos 1);
}

validate_and_route-approved_iff_example :
    (validate_and_route validator signal TradingMode.paper "r9"
      ≡ approved_signal (request_of_signal signal (pos 1) TradingMode.paper "r9"))
    ↔ ((q : ℤ) × IsRoutable validator signal TradingMode.paper q
        × (request_of_signal signal (pos 1) TradingMode.paper "r9"
            ≡ request_of_signal signal q TradingMode.paper "r9"))
validate_and_route-approved_iff_example =
    validate_and_route-approved_iff validator signal TradingMode.paper "r9"
      (request_of_signal signal (pos 1) TradingMode.paper "r9")
