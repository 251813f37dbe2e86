-- ===== src/Tests/Stores.antt =====
-- The properties of the order store, the kill switch, the fees and the clock at concrete inputs.
use indian_algo_trading_plat.Common.{
  ◌≡◌, ◌⊎◌, ◌↔◌, refl, true, false, some, List, [], ◌∷◌, if◌then◌else◌,
}
use indian_algo_trading_plat.Common.Int.{ℤ, pos, ◌≤ℤ◌}
use indian_algo_trading_plat.Common.Float.{whole, whole-IsOrdered, nought}
use indian_algo_trading_plat.Types.{OrderSide, known_side, is_buy}
use indian_algo_trading_plat.OrderStore.{
  check_duplicate, add_order_request, inserted, get_order_request, record_fill, empty_store,
}
use indian_algo_trading_plat.OrderStore.Requests.{add_order_request_lem}
use indian_algo_trading_plat.OrderStore.Fills.{IsLedger, record_fill-IsLedger, record_fill_idem}
use indian_algo_trading_plat.KillSwitch.{
  Call, call_activate, call_deactivate, new, run, run_stays_active,
}
use indian_algo_trading_plat.FeeModel.{Fees, charged, calculate, calculate_charges_iff}
use indian_algo_trading_plat.PaperConfig.{default_config}
use indian_algo_trading_plat.PaperOrders.{limit_fill_price}
use indian_algo_trading_plat.PaperOrders.Prices.{limit_fill_price_bounded}
use indian_algo_trading_plat.Tests.{row, one_row, fill}

add_order_request_lem_example :
    ((check_duplicate one_row "r1" "r1" ≡ false)
      × ((add_order_request one_row row).1 ≡ true)
      × (get_order_request (add_order_request one_row row).0 "r1" ≡ some (inserted row)))
    ⊎ ((check_duplicate one_row "r1" "r1" ≡ true)
        × (add_order_request one_row row ≡ (one_row, false)))
add_order_request_lem_example = add_order_request_lem one_row row

empty_store-IsLedger : IsLedger {P = ℤ} empty_store
empty_store-IsLedger = (tt, tt)

record_fill-IsLedger_example : IsLedger (record_fill empty_store fill).0
record_fill-IsLedger_example =
    record_fill-IsLedger whole-IsOrdered empty_store fill empty_store-IsLedger

record_fill_idem_example :
    record_fill (record_fill one_row fill).0 fill ≡ ((record_fill one_row fill).0, false)
record_fill_idem_example = record_fill_idem one_row fill

abbrev calls : List Call
calls = call_activate "loss" "monitor" ∷ call_deactivate false "operator" ∷ []

run_stays_active_example : (run calls (new true true)).active ≡ true
unfolding new
run_stays_active_example = run_stays_active calls (new true true) refl refl

calculate_charges_iff_example :
    ((f : Fees ℤ) × (calculate OrderSide.buy (pos 10) (pos 100) ≡ charged f))
    ↔ ((pos 1 ≤ℤ pos 10) × (whole.le (pos 100) nought ≡ false) × (known_side OrderSide.buy ≡ true))
calculate_charges_iff_example = calculate_charges_iff OrderSide.buy (pos 10) (pos 100)

limit_fill_price_bounded_example :
    (if is_buy OrderSide.buy
      then whole.le (limit_fill_price default_config OrderSide.buy (pos 100) (pos 98)) (pos 100)
      else whole.le (pos 100) (limit_fill_price default_config OrderSide.buy (pos 100) (pos 98)))
    ≡ true
limit_fill_price_bounded_example =
    limit_fill_price_bounded whole-IsOrdered default_config OrderSide.buy (pos 100) (pos 98) refl
