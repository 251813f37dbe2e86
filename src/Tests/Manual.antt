-- ===== src/Tests/Manual.antt =====
-- The policy of manual orders at concrete orders.
use indian_algo_trading_plat.Common.{
  ◌≡◌, upper, ◌↔◌, refl, Bool, true, false, none, some, [], ◌∷◌, String,
}
use indian_algo_trading_plat.Common.Int.{ℤ, pos, ◌*ℤ◌}
use indian_algo_trading_plat.Common.Float.{whole}
use indian_algo_trading_plat.ManualOrderPolicy.{
  ManualOrderPolicy, ManualOrder, IsPermitted, equity_only_restriction, validate_manual_order,
  validate_manual_order-nil_iff,
}

abbrev policy : ManualOrderPolicy ℤ
policy = record { max_quantity = pos 1; max_notional = pos 10_000 }

abbrev order_for : String → ManualOrder ℤ
order_for symbol = record {
  symbol = symbol;
  product_type = some "cnc";
  producttype = none;
  order_type = some "LIMIT";
  ordertype = none;
  quantity = pos 1;
  price = some (pos 1_500);
}

abbrev any_text : String → Bool
any_text s = true

validate_manual_order-nil_iff_example :
    (validate_manual_order any_text policy (order_for "INFY") (pos 0) false ≡ [])
    ↔ IsPermitted any_text policy (order_for "INFY") (pos 0) false
validate_manual_order-nil_iff_example =
    validate_manual_order-nil_iff any_text policy (order_for "INFY") (pos 0) false

infosys_permitted : validate_manual_order any_text policy (order_for "INFY") (pos 0) false ≡ []
unfolding validate_manual_order upper ◌*ℤ◌
infosys_permitted = refl

-- An equity whose name contains CE is refused as a derivative.
reliance_refused :
    validate_manual_order any_text policy (order_for "RELIANCE") (pos 0) false
    ≡ equity_only_restriction ∷ []
unfolding validate_manual_order upper ◌*ℤ◌
reliance_refused = refl
