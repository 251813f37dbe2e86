-- ===== src/Tests/Safety.antt =====
-- The gate and the monitor of live trading at concrete inputs.
use indian_algo_trading_plat.Common.{◌≡◌, ◌↔◌, refl, true, false, none, some, [], String}
use indian_algo_trading_plat.Common.Int.{ℤ, pos}
use indian_algo_trading_plat.Common.Float.{whole}
use indian_algo_trading_plat.KillSwitch
use indian_algo_trading_plat.LiveExecutionGate.{LiveExecutionGate, LiveCall}
use indian_algo_trading_plat.LiveSafetyMonitor.{
  Surroundings, LiveSafetyMonitor, Trigger, run_checks,
}
use indian_algo_trading_plat.LiveSafetyMonitor.Breaches.{Breach}
use indian_algo_trading_plat.LiveSafetyMonitor.Runs.{run_checks-active_iff}
use indian_algo_trading_plat.Tests.{no_orders, one_row}

abbrev preflight : LiveExecutionGate ℤ
preflight = record {
  kill_switch = some (KillSwitch.new false false);
  session_manager = some (record { is_valid = true; places_orders = true });
  market_watch = none;
  max_order_notional = some (pos 5_000);
}

abbrev live_call : LiveCall ℤ
live_call = record {
  trading_mode = "LIVE";
  live_enabled = true;
  symbol = some "INFY";
  estimated_notional = some (pos 1_000);
}

abbrev say : Trigger ℤ → String
say t = "breach"

-- A store with an active row, and no order in memory.
abbrev watched : Surroundings ℤ
watched = record {
  config = record {
    max_daily_loss_pct = pos 2;
    max_open_orders = 5;
    reconciliation_anomaly_threshold = 3;
  };
  order_state_machine = some no_orders;
  portfolio_manager = none;
  order_store = some one_row;
  render = say;
}

abbrev monitor : LiveSafetyMonitor ℤ
monitor = record {
  kill_switch = KillSwitch.new false false;
  consecutive_anomalies = 0;
  total_activations = 0;
  check_history = [];
  last_check_passed = true;
}

switch_off : monitor.kill_switch.active ≡ false
unfolding KillSwitch.new
switch_off = refl

run_checks-active_iff_example :
    ((run_checks watched monitor).kill_switch.active ≡ true) ↔ Breach watched 0
run_checks-active_iff_example = run_checks-active_iff watched monitor switch_off
