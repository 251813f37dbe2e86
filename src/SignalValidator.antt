-- ===== src/SignalValidator.antt =====
-- backend/strategy/signal_validator.py: from the signal of a strategy to an order request. An action is
-- read as a side; what is published is the request itself or an event with the failed checks.
use indian_algo_trading_plat.Common.{
  ◌≡◌, ◌≢◌, ◌↔◌, ◌∙◌, refl, sym, ap, subst, String, Bool, true, false, not, ◌||◌, ◌&&◌, Option,
  none, some, List, [], ◌∷◌, ◌++◌, arith, if◌then◌else◌, is_empty, str_eq, upper, strip, Bool-cases,
  inl, inr,
}
use indian_algo_trading_plat.Common.Int.{ℤ, pos, leb_ℤ, ◌≤ℤ◌}
use indian_algo_trading_plat.Types.{
  OrderSide, buy, sell, other_side, OrderType, OrderRequest, OrderIntent, TradingMode, is_paper,
  known_side,
}
use indian_algo_trading_plat.KillSwitch.{KillSwitchService}
use indian_algo_trading_plat.ExecutionRouter.Intents.{new_intent, Built, built, known_mode}
pub mod Approval

-- `SignalEvent` of backend/core/events.py: the fields that `validate_and_route` reads.
pub record SignalEvent (P : Type 0) : Type 0 where
  pub event_id : String
  pub symbol : String
  pub strategy_name : String
  pub action : OrderSide
  pub ltp : Option P
  pub signal_id : Option ℤ

pub record SignalValidator : Type 0 where
  pub kill_switch : Option KillSwitchService
  pub live_trading_enabled : Bool
  pub default_quantity : Option ℤ

-- The entries of `failed`.
pub data SignalCheck : Type 0 where
  invalid_action missing_symbol missing_quantity invalid_quantity : SignalCheck
  live_trading_disabled kill_switch_active : SignalCheck

-- `no_order_action`, the failed checks, or the request.
pub data SignalVerdict (P : Type 0) : Type 0 where
  no_order_action : SignalVerdict P
  refused_signal : List SignalCheck → SignalVerdict P
  approved_signal : OrderRequest P → SignalVerdict P

abbrev pub is_neutral : OrderSide → Bool
is_neutral (other_side s) = str_eq s "NEUTRAL" || str_eq s "HOLD"
is_neutral _ = false

abbrev pub fails : Bool → SignalCheck → List SignalCheck → List SignalCheck
fails true c cs = c ∷ cs
fails false c cs = cs

abbrev pub check_quantity : Option ℤ → List SignalCheck → List SignalCheck
check_quantity none cs = missing_quantity ∷ cs
check_quantity (some q) cs = fails (leb_ℤ q (pos 0)) invalid_quantity cs

abbrev pub is_active : Option KillSwitchService → Bool
is_active none = false
is_active (some k) = k.active

module _ {P : Type 0} where
  unfoldable pub failed_signal_checks :
      SignalValidator → SignalEvent P → TradingMode → List SignalCheck
  failed_signal_checks v e mode = fails (not (known_side e.action)) invalid_action (
      fails (is_empty e.symbol) missing_symbol (
        check_quantity v.default_quantity (
          fails (not (is_paper mode) && not v.live_trading_enabled) live_trading_disabled
            (fails (is_active v.kill_switch) kill_switch_active []))))

  -- The request, with the id that uuid4 gives it.
  unfoldable pub request_of_signal : SignalEvent P → ℤ → TradingMode → String → OrderRequest P
  request_of_signal e quantity mode event_id = record {
    event_id = event_id;
    symbol = e.symbol;
    side = e.action;
    quantity = quantity;
    order_type = OrderType.market;
    price = e.ltp;
    strategy_name = e.strategy_name;
    signal_event_id = some e.event_id;
    trading_mode = mode;
    source = "AUTOMATIC";
    strategy_signal_id = e.signal_id;
  }

  abbrev pub conclude_signal :
      SignalEvent P → Option ℤ → TradingMode → String → List SignalCheck → SignalVerdict P
  conclude_signal e none mode event_id cs = refused_signal cs
  conclude_signal e (some q) mode event_id [] =
      approved_signal (request_of_signal e q mode event_id)
  conclude_signal e (some q) mode event_id (c ∷ cs) = refused_signal (c ∷ cs)

  unfoldable pub validate_and_route :
      SignalValidator → SignalEvent P → TradingMode → String → SignalVerdict P
  unfolding failed_signal_checks request_of_signal
  validate_and_route v e mode event_id =
      if is_neutral e.action
      then no_order_action
      else conclude_signal e v.default_quantity mode event_id (failed_signal_checks v e mode)
