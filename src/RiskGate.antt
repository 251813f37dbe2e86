-- ===== src/RiskGate.antt =====
-- backend/execution/pre_trade_risk_gate.py: the checks that an order intent passes before it is
-- routed. The clock, the ticks of the market watch and the PnL of the portfolio manager are arguments.
use indian_algo_trading_plat.Common.{
  ◌≡◌, String, Bool, true, false, not, ◌||◌, ◌&&◌, Option, none, some, List, [], ◌∷◌, if◌then◌else◌,
  is_empty, or_else,
}
use indian_algo_trading_plat.Common.Int.{ℤ, pos, leb_ℤ, ltb_ℤ}
use indian_algo_trading_plat.Common.Float.{Float, nought}
use indian_algo_trading_plat.Common.Dict.{Dict, lookup}
use indian_algo_trading_plat.Types.{
  OrderIntent, OrderSide, OrderType, known_side, known_type, is_limit, is_market,
}
use indian_algo_trading_plat.Market.{
  MarketData, Stamp, instant, unreadable, is_zero, quoted, stamp_of,
}
use Prim.Native.String
pub mod Approval

-- The entries of `failed`.
pub data RiskCheck : Type 0 where
  kill_switch_active invalid_quantity max_order_qty max_order_notional : RiskCheck
  unsupported_order_type unsupported_side missing_symbol market_data_unavailable : RiskCheck
  stale_market_data invalid_limit_price max_daily_loss : RiskCheck

abbrev pub name : RiskCheck → String
name kill_switch_active = "kill_switch_active"
name invalid_quantity = "invalid_quantity"
name max_order_qty = "max_order_qty"
name max_order_notional = "max_order_notional"
name unsupported_order_type = "unsupported_order_type"
name unsupported_side = "unsupported_side"
name missing_symbol = "missing_symbol"
name market_data_unavailable = "market_data_unavailable"
name stale_market_data = "stale_market_data"
name invalid_limit_price = "invalid_limit_price"
name max_daily_loss = "max_daily_loss"

-- `";".join(failed)`
unfoldable pub joined : List RiskCheck → String
joined [] = ""
joined (c ∷ cs) = elim cs [
  | [] ↦ name c
  | x ∷ xs ↦ String.◌++◌ (name c) (String.◌++◌ ";" (joined cs))
]

pub record Settings (P : Type 0) : Type 0 where
  pub max_order_qty : ℤ
  pub max_order_notional : P
  pub max_daily_loss : P

-- The attributes of the portfolio manager that `_daily_pnl` tries in turn.
pub record PnlView (P : Type 0) : Type 0 where
  pub current_daily_pnl : Option P
  pub daily_pnl : Option P
  pub realized_pnl : Option P

-- What the gate reads around it at one call.
pub record Surroundings (P : Type 0) : Type 0 where
  pub kill_switch : Bool
  pub latest_ticks : Option (Dict (MarketData P))
  pub portfolio : Option (PnlView P)
  pub settings : Settings P
  pub freshness_seconds : ℤ
  pub now : P

pub record RiskDecision (P : Type 0) : Type 0 where
  pub order_intent_id : String
  pub approved : Bool
  pub rejected_reason : Option String
  pub failed_checks : List RiskCheck
  pub max_order_qty : ℤ
  pub max_order_notional : P
  pub estimated_notional : Option P
  pub market_data_fresh : Bool
  pub kill_switch_active : Bool

-- `if failing: failed.append(check)`, before the checks that follow.
abbrev pub check : Bool → RiskCheck → List RiskCheck → List RiskCheck
check failing c rest = if failing then c ∷ rest else rest

abbrev pub none_failed : List RiskCheck → Bool
none_failed [] = true
none_failed (c ∷ cs) = false

module _ {P : Type 0} ⦃d : Float P⦄ where
  unfoldable pub latest_from_watch : Surroundings P → String → Option (MarketData P)
  latest_from_watch s symbol = elim s.latest_ticks [
    | none ↦ none
    | some ticks ↦ lookup symbol ticks
  ]

  -- `latest_market or self._latest_from_watch(intent.symbol)`
  abbrev pub market_of :
      Surroundings P → OrderIntent P → Option (MarketData P) → Option (MarketData P)
  market_of s i latest = or_else latest (latest_from_watch s i.symbol)

  abbrev pub positive : Option P → Option P
  positive none = none
  positive (some x) = if d.lt nought x then some x else none

  unfoldable pub market_price : OrderIntent P → Option (MarketData P) → Option P
  market_price i latest =
      if is_limit i.order_type
      then i.price
      else (elim latest [ none ↦ none | some m ↦ positive (quoted m) ])

  -- `market_price * intent.quantity if market_price else None`
  unfoldable pub notional_of : Option P → ℤ → Option P
  notional_of none quantity = none
  notional_of (some p) quantity = if is_zero p then none else some (d.mul p (d.of_int quantity))

  abbrev within : Surroundings P → Option (Stamp P) → Bool
  within s none = false
  within s (some unreadable) = false
  within s (some (instant t)) = d.le (d.sub s.now t) (d.of_int s.freshness_seconds)

  unfoldable pub is_market_fresh : Surroundings P → Option (MarketData P) → Bool
  is_market_fresh s none = false
  is_market_fresh s (some m) = within s (stamp_of m)

  unfoldable pub daily_pnl : Surroundings P → Option P
  daily_pnl s = elim s.portfolio [
    | none ↦ none
    | some v ↦ or_else v.current_daily_pnl (or_else v.daily_pnl v.realized_pnl)
  ]

  abbrev pub exceeds : Option P → P → Bool
  exceeds none bound = false
  exceeds (some x) bound = d.lt bound x

  abbrev pub at_most : Option P → P → Bool
  at_most none bound = false
  at_most (some x) bound = d.le x bound

  abbrev pub no_limit_price : Option P → Bool
  no_limit_price none = true
  no_limit_price (some p) = d.le p nought

  abbrev pub is_missing : Option (MarketData P) → Bool
  is_missing none = true
  is_missing (some m) = false

  -- The checks of `evaluate`, in their order, on the data that the call looked up.
  unfoldable pub failures : Surroundings P → OrderIntent P → Option (MarketData P) → List RiskCheck
  unfolding market_price notional_of is_market_fresh daily_pnl
  failures s i market = check s.kill_switch RiskCheck.kill_switch_active (
      check (leb_ℤ i.quantity (pos 0)) invalid_quantity (
        check (ltb_ℤ s.settings.max_order_qty i.quantity) RiskCheck.max_order_qty (
          check
            (exceeds (notional_of (market_price i market) i.quantity) s.settings.max_order_notional)
            RiskCheck.max_order_notional
            (check (not (known_type i.order_type)) unsupported_order_type (
              check (not (known_side i.side)) unsupported_side (
                check (is_empty i.symbol) missing_symbol (
                  check (is_market i.order_type && is_missing market) market_data_unavailable (
                    check
                      (is_market i.order_type
                        && not (is_missing market)
                        && not (is_market_fresh s market))
                      stale_market_data
                      (check (is_limit i.order_type && no_limit_price i.price) invalid_limit_price (
                        check (at_most (daily_pnl s) s.settings.max_daily_loss)
                          RiskCheck.max_daily_loss []))))))))))

  unfoldable pub evaluate : Surroundings P → OrderIntent P → Option (MarketData P) → RiskDecision P
  unfolding failures latest_from_watch
  evaluate s i latest =
      let market = market_of s i latest in
      let failed = failures s i market in
      record {
        order_intent_id = i.intent_id;
        approved = none_failed failed;
        rejected_reason = if none_failed failed then none else some (joined failed);
        failed_checks = failed;
        max_order_qty = s.settings.max_order_qty;
        max_order_notional = s.settings.max_order_notional;
        estimated_notional = notional_of (market_price i market) i.quantity;
        market_data_fresh = is_market_fresh s market;
        kill_switch_active = s.kill_switch;
      }
