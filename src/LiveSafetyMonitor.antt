-- ===== src/LiveSafetyMonitor.antt =====
-- backend/execution/live_safety_monitor.py: the checks of the watchdog and what they do to the kill
-- switch. The components that it reads may be absent; the exceptions that it catches, the clock and
-- the loop that sleeps between two runs are not modelled, nor are the details of a check.
use indian_algo_trading_plat.Common.{
  ℕ, ◌+◌, ◌-◌, String, Bool, true, false, not, ◌&&◌, ◌||◌, Option, none, some, List, [], ◌∷◌, ◌++◌,
  map, if◌then◌else◌, ltb, leb, length, last_n, str_eq, any_of, filter_by, is_empty, or_default,
  or_else,
}
use indian_algo_trading_plat.Common.Int.{ℤ, pos}
use indian_algo_trading_plat.Common.Float.{Float, nought, abs_of}
use indian_algo_trading_plat.Types.{OrderState}
use indian_algo_trading_plat.Market.{or_price}
use indian_algo_trading_plat.OrderStateMachine.{OrderStateMachine, pending_orders, open_orders}
use indian_algo_trading_plat.OrderStore.{OrderStore, RequestRow, get_active_requests}
use indian_algo_trading_plat.KillSwitch.{KillSwitchService, activate}
use Prim.Native.String
pub mod Breaches
pub mod Runs

pub record LiveSafetyMonitorConfig (P : Type 0) : Type 0 where
  pub max_daily_loss_pct : P
  pub max_open_orders : ℕ
  pub reconciliation_anomaly_threshold : ℕ

-- The attributes that the monitor looks for on the portfolio manager.
pub record PortfolioManager (P : Type 0) : Type 0 where
  pub current_daily_pnl : Option P
  pub daily_pnl : Option P
  pub initial_capital : Option P

-- The entries of `triggered_reasons`.
pub data Trigger (P : Type 0) : Type 0 where
  open_orders_exceeded oms_orphaned_orders consecutive_anomalies_exceeded : ℕ → Trigger P
  daily_loss_exceeded : P → Trigger P

-- What the monitor reads. `render` gives a trigger's text.
pub record Surroundings (P : Type 0) : Type 0 where
  pub config : LiveSafetyMonitorConfig P
  pub order_state_machine : Option (OrderStateMachine P)
  pub portfolio_manager : Option (PortfolioManager P)
  pub order_store : Option (OrderStore P)
  pub render : Trigger P → String

pub record CheckRecord (P : Type 0) : Type 0 where
  pub passed : Bool
  pub triggered_reasons : List (Trigger P)

pub record LiveSafetyMonitor (P : Type 0) : Type 0 where
  pub kill_switch : KillSwitchService
  pub consecutive_anomalies : ℕ
  pub total_activations : ℕ
  pub check_history : List (CheckRecord P)
  pub last_check_passed : Bool

-- `" | ".join(…)`
abbrev joined : List String → String
joined [] = ""
joined (s ∷ ss) = elim ss [ [] ↦ s | t ∷ ts ↦ String.◌++◌ s (String.◌++◌ " | " (joined ss)) ]

-- A set of texts, as a list without repetitions.
abbrev pub distinct : List String → List String
distinct [] = []
distinct (s ∷ ss) = let rest = distinct ss in if any_of (str_eq s) rest then rest else s ∷ rest

module _ {P : Type 0} where
  abbrev pub live_orders : OrderStateMachine P → List (OrderState P)
  live_orders m = pending_orders m ++ open_orders m

  -- The trigger of `_check_open_orders`, where it does not pass.
  unfoldable pub check_open_orders : Surroundings P → Option (Trigger P)
  check_open_orders s = elim s.order_state_machine [
    | none ↦ none
    | some m ↦
        (let count = length (pending_orders m) + length (open_orders m) in
          if leb count s.config.max_open_orders then none else some (open_orders_exceeded count))
  ]

  -- `getattr(o, "intent_id", None) or getattr(o, "order_id", None)`
  abbrev pub memory_id : OrderState P → String
  memory_id o = elim o.intent_id [
    | none ↦ o.order_id
    | some i ↦ if is_empty i then o.order_id else i
  ]

  abbrev pub is_known : Option (OrderStateMachine P) → String → Bool
  is_known none id = false
  is_known (some m) id = any_of (λ o. str_eq (memory_id o) id) (live_orders m)

  -- `db_ids - in_memory_ids`
  unfoldable pub orphaned : Option (OrderStateMachine P) → List (RequestRow P) → List String
  orphaned machine rows =
      filter_by (λ id. not (is_known machine id))
        (distinct (filter_by (λ id. not (is_empty id)) (map (λ r. r.request_id) rows)))

  unfoldable pub check_oms_consistency : Surroundings P → Option (Trigger P)
  unfolding orphaned
  check_oms_consistency s = elim s.order_store [
    | none ↦ none
    | some store ↦
        (let n = length (orphaned s.order_state_machine (get_active_requests store)) in
          if leb n 0 then none else some (oms_orphaned_orders n))
  ]

  abbrev pub as_list : Option (Trigger P) → List (Trigger P)
  as_list none = []
  as_list (some t) = t ∷ []

  -- `_record_check`
  abbrev pub record_check : List (Trigger P) → List (CheckRecord P) → List (CheckRecord P)
  record_check reasons history = last_n 50 (
      history
      ++ record {
        passed = elim reasons [ [] ↦ true | t ∷ ts ↦ false ];
        triggered_reasons = reasons;
      }
        ∷ [])

  -- `_consecutive_anomalies` after the OMS check; the subtraction stops at 0, as `max(0, …)` does.
  abbrev pub anomalies_after : Option (Trigger P) → ℕ → ℕ
  anomalies_after none n = n - 1
  anomalies_after (some t) n = n + 1

  abbrev pub check_anomalies : ℕ → ℕ → Option (Trigger P)
  check_anomalies threshold n =
      if leb threshold n then some (consecutive_anomalies_exceeded n) else none

  -- The end of `run_checks`, from the triggers on.
  abbrev pub conclude :
      Surroundings P → List (Trigger P) → LiveSafetyMonitor P → LiveSafetyMonitor P
  conclude s [] m = record m {
    last_check_passed = true;
    check_history = record_check [] m.check_history;
  }
  conclude s (t ∷ ts) m = record m {
    kill_switch =
        activate (String.◌++◌ "auto_monitor: " (joined (map s.render (t ∷ ts))))
          "LIVE_SAFETY_MONITOR" m.kill_switch;
    total_activations = m.total_activations + 1;
    last_check_passed = false;
    check_history = record_check (t ∷ ts) m.check_history;
  }

module _ {P : Type 0} ⦃d : Float P⦄ where
  abbrev pub loss_pct : P → P → P
  loss_pct daily_pnl capital = d.mul (d.div (abs_of daily_pnl) capital) (d.of_int (pos 100))

  -- `current_daily_pnl or daily_pnl or 0.0`
  abbrev pub pnl_of : PortfolioManager P → P
  pnl_of p = or_default (or_price p.current_daily_pnl p.daily_pnl) nought

  -- `initial_capital or 50000.0`
  abbrev pub capital_of : PortfolioManager P → P
  capital_of p = or_default (or_price p.initial_capital none) (d.of_int (pos 50_000))

  unfoldable pub check_daily_loss : Surroundings P → Option (Trigger P)
  check_daily_loss s = elim s.portfolio_manager [
    | none ↦ none
    | some p ↦
        if d.le nought (pnl_of p)
        then none
        else if d.le (loss_pct (pnl_of p) (capital_of p)) s.config.max_daily_loss_pct
        then none
        else some (daily_loss_exceeded (loss_pct (pnl_of p) (capital_of p)))
  ]

  -- `triggered_reasons` after the four checks, with the count of anomalies after them.
  unfoldable pub triggers : Surroundings P → ℕ → List (Trigger P)
  unfolding check_open_orders check_daily_loss check_oms_consistency
  triggers s anomalies =
      as_list (check_open_orders s)
      ++ (as_list (check_daily_loss s)
          ++ (as_list (check_oms_consistency s)
              ++ as_list (check_anomalies s.config.reconciliation_anomaly_threshold anomalies)))

  unfoldable pub run_checks : Surroundings P → LiveSafetyMonitor P → LiveSafetyMonitor P
  unfolding triggers
  run_checks s m =
      let anomalies = anomalies_after (check_oms_consistency s) m.consecutive_anomalies in
      if m.kill_switch.active
      then record m { last_check_passed = true; check_history = record_check [] m.check_history }
      else conclude s (triggers s anomalies) (record m { consecutive_anomalies = anomalies })
