-- ===== src/RiskGate/Approval.antt =====
-- The approval of an intent by backend/execution/pre_trade_risk_gate.py, and `IsAdmissible`, its
-- specification without the list of checks.
use indian_algo_trading_plat.Common.{
  ◌≡◌, ◌≢◌, true, false, Option, none, some, List, [], ◌∷◌, arith, is_empty,
}
use indian_algo_trading_plat.Common.Int.{pos, ◌≤ℤ◌}
use indian_algo_trading_plat.Common.Float.{Float}
use indian_algo_trading_plat.Types.{OrderIntent, OrderType, known_side, known_type}
use indian_algo_trading_plat.Market.{MarketData}
use indian_algo_trading_plat.RiskGate.{
  RiskCheck, Surroundings, failures, evaluate, market_price, notional_of, is_market_fresh,
  daily_pnl, exceeds, at_most, no_limit_price,
}

abbrev pub first_check : List RiskCheck → Option RiskCheck
first_check [] = none
first_check (c ∷ cs) = some c

module _ {P : Type 0} ⦃d : Float P⦄ where
  -- The price condition of each order type: fresh market data, or a limit that is not at or below 0.
  abbrev pub PriceReady : Surroundings P → OrderType → Option P → Option (MarketData P) → Type 0
  PriceReady s OrderType.market price market = is_market_fresh s market ≡ true
  PriceReady s OrderType.limit price market = no_limit_price price ≡ false
  PriceReady s (OrderType.other_type t) price market = Unit {0}

  pub record IsAdmissible (s : Surroundings P) (i : OrderIntent P) (market : Option (MarketData P))
      : Type 0 where
    pub unlocked : s.kill_switch ≡ false
    pub at_least_one : pos 1 ≤ℤ i.quantity
    pub at_most_max : i.quantity ≤ℤ s.settings.max_order_qty
    pub affordable :
        exceeds (notional_of (market_price i market) i.quantity) s.settings.max_order_notional
        ≡ false
    pub type_known : known_type i.order_type ≡ true
    pub side_known : known_side i.side ≡ true
    pub has_symbol : is_empty i.symbol ≡ false
    pub price_ready : PriceReady s i.order_type i.price market
    pub loss_bounded : at_most (daily_pnl s) s.settings.max_daily_loss ≡ false

  -- An active kill switch rejects every intent, is the first check that failed, and leaves a reason.
  pub evaluate-kill_switch :
      (s : Surroundings P) (i : OrderIntent P) (latest : Option (MarketData P))
      → s.kill_switch ≡ true
      → ((evaluate s i latest).approved ≡ false)
        × ((evaluate s i latest).rejected_reason ≢ none)
        × (first_check (evaluate s i latest).failed_checks ≡ some RiskCheck.kill_switch_active)
  unfolding evaluate failures
  evaluate-kill_switch s i latest h = (ground arith, ground arith, ground arith)
