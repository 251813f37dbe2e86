-- ===== src/ExecutionRouter/Intents.antt =====
-- backend/execution/models.py: the constructor of `OrderIntent`, as step 3 of `route` calls it.
use indian_algo_trading_plat.Common.{
  ◌≡◌, ◌⊎◌, refl, inl, inr, String, Bool, true, false, not, some, if◌then◌else◌, is_empty, upper,
  strip,
}
use indian_algo_trading_plat.Common.Int.{pos, leb_ℤ}
use indian_algo_trading_plat.Types.{OrderRequest, OrderIntent, TradingMode, known_side, known_type}
use indian_algo_trading_plat.ExecutionRouter.{
  RouteError, empty_symbol, bad_quantity, bad_side, bad_type, bad_mode,
}

abbrev pub known_mode : TradingMode → Bool
known_mode (TradingMode.other_mode t) = false
known_mode m = true

-- What the constructor of `OrderIntent` gives.
pub data Built (P : Type 0) : Type 0 where
  built : OrderIntent P → Built P
  refused : RouteError → Built P

module _ {P : Type 0} where
  -- `OrderIntent.__post_init__`
  unfoldable pub new_intent : OrderRequest P → TradingMode → String → Built P
  new_intent q mode intent_id =
      let symbol = upper (strip q.symbol) in
      if is_empty symbol
      then refused empty_symbol
      else if leb_ℤ q.quantity (pos 0)
      then refused bad_quantity
      else if not (known_side q.side)
      then refused bad_side
      else if not (known_type q.order_type)
      then refused bad_type
      else if not (known_mode mode)
      then refused bad_mode
      else built (record {
        intent_id = intent_id;
        symbol = symbol;
        side = q.side;
        quantity = q.quantity;
        order_type = q.order_type;
        price = q.price;
        strategy_name = some q.strategy_name;
        signal_event_id = q.signal_event_id;
        source = q.source;
        trading_mode = mode;
      })

pub Built-cases :
    {P : Type 0} (b : Built P)
    → ((i : OrderIntent P) × (b ≡ built i)) ⊎ ((x : RouteError) × (b ≡ refused x))
Built-cases (built i) = inl (i, refl)
Built-cases (refused x) = inr (x, refl)
