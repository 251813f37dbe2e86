-- ===== src/Tests/Orders.antt =====
-- The properties of the state machine, the risk gate, the paper engine and the live adapter at
-- concrete inputs.
use indian_algo_trading_plat.Common.{◌≡◌, ◌↔◌, refl, true, none, some, arith}
use indian_algo_trading_plat.Common.Int.{ℤ, pos, ◌*ℤ◌, ◌+ℤ◌}
use indian_algo_trading_plat.Common.Float.{whole}
use indian_algo_trading_plat.Common.Dict.{lookup}
use indian_algo_trading_plat.Types.{
  OrderIntent, OrderState, OrderSide, OrderType, TradingMode, pending, filled,
}
use indian_algo_trading_plat.OrderStateMachine.{
  OrderStateMachine, publish, is_terminal, create_order, new_order, moved, no_updates,
  validate_transition, terminal_order, to_event, updated,
}
use indian_algo_trading_plat.OrderStateMachine.Transitions.{
  ◌⟶◌, fill_pending, after, validate_transition_iff, transition_found,
}
use indian_algo_trading_plat.OrderStateMachine.Lifecycle.{
  Reach, here, next, create, move, Follows, order_persists, terminal_persists,
}
use indian_algo_trading_plat.PaperOrders.{
  market_ltp, market_fill_price, place_order, Setting, osm_error, err,
}
use indian_algo_trading_plat.PaperOrders.Results.{Returns, IsTradable}
use indian_algo_trading_plat.PaperOrders.Answers.{place_order-Returns, place_order_journal_raises}
use indian_algo_trading_plat.LiveOrders
use indian_algo_trading_plat.FeeModel.{calculate}
use indian_algo_trading_plat.PaperConfig.{market_open}
use indian_algo_trading_plat.LiveOrders.{place_order_never_beyond}
use indian_algo_trading_plat.Tests.{
  request, market, no_orders, paper, setting, live_setting, beyond,
}

place_order-Returns_example :
    Returns setting request (place_order setting request (some market) paper)
place_order-Returns_example = place_order-Returns setting request (some market) paper refl

abbrev raising : Setting
raising = record setting { journal_raises = true }

raising-IsTradable : IsTradable raising request
unfolding market_open
raising-IsTradable = record { quantity = omega arith; side = refl; hours = refl }

place_order_journal_raises_example :
    ((place_order raising request (some market) paper).0 ≡ err (osm_error terminal_order))
    × (o : OrderState ℤ) × (lookup "o1"
          (place_order raising request (some market) paper).1.osm.orders
        ≡ some o)
    × (o.status ≡ filled)
unfolding market_ltp market_fill_price calculate ◌*ℤ◌ ◌+ℤ◌
place_order_journal_raises_example =
    place_order_journal_raises raising request (some market) (pos 100) paper raising-IsTradable refl
      refl refl refl refl

abbrev intent : OrderIntent ℤ
intent = record {
  intent_id = "i1";
  symbol = "INFY";
  side = OrderSide.buy;
  quantity = pos 10;
  order_type = OrderType.market;
  price = none;
  strategy_name = some "ema";
  signal_event_id = none;
  source = "strategy";
  trading_mode = TradingMode.paper;
}

validate_transition_iff_example :
    (validate_transition pending filled none ≡ none) ↔ (pending ⟶ filled)
validate_transition_iff_example = validate_transition_iff pending filled none

-- One order, created and then filled.
abbrev order : OrderState ℤ
order = new_order request TradingMode.paper "o1"

abbrev one_order : OrderStateMachine ℤ
one_order = (create_order no_orders request TradingMode.paper "o1").0

abbrev filled_order : OrderStateMachine ℤ
filled_order = after one_order "o1" order filled no_updates "e1"

one_order_found : lookup "o1" one_order.orders ≡ some order
unfolding create_order
one_order_found = refl

order_pending : order.status ⟶ filled
unfolding new_order
order_pending = fill_pending

fills_order : Reach one_order filled_order
fills_order = next here (
    move "o1" filled no_updates "e1"
      (transition_found one_order "o1" filled no_updates "e1" one_order_found order_pending))

order_persists_example : Follows order filled_order "o1"
order_persists_example = order_persists "o1" fills_order one_order_found

-- The filled order, and a second order after it.
abbrev two_orders : OrderStateMachine ℤ
two_orders = (create_order filled_order request TradingMode.paper "o2").0

filled_order_found : lookup "o1" filled_order.orders ≡ some (updated order filled no_updates)
unfolding publish create_order
filled_order_found = refl

creates_order : Reach filled_order two_orders
unfolding publish create_order
creates_order = next here (create request TradingMode.paper "o2" refl)

terminal_persists_example :
    (p : OrderState ℤ) × (lookup "o1" two_orders.orders ≡ some p) × (p.status ≡ filled)
unfolding updated is_terminal
terminal_persists_example = terminal_persists "o1" creates_order filled_order_found refl

place_order_never_beyond_example :
    LiveOrders.place_order beyond live_setting no_orders request
    ≡ LiveOrders.place_order (λ m. moved (to_event order "e9") m) live_setting no_orders request
place_order_never_beyond_example =
    place_order_never_beyond beyond (λ m. moved (to_event order "e9") m) live_setting no_orders
      request
