-- ===== src/Tests/Books.antt =====
-- The portfolio at concrete inputs.
use indian_algo_trading_plat.Common.{
  ◌≡◌, ◌⊎◌, ◌↔◌, ◌≤◌, refl, true, none, some, [], ◌∷◌, String, arith, length,
}
use indian_algo_trading_plat.Common.Int.{ℤ, pos, ◌≤ℤ◌, ◌-ℤ◌}
use indian_algo_trading_plat.Common.Float.{whole, whole-IsOrdered}
use indian_algo_trading_plat.OrderStore.{OrderStore, FillRow, RequestRow}
use indian_algo_trading_plat.Portfolio.Positions.{new_tracker}
use indian_algo_trading_plat.Portfolio.Rebuild.{rebuild_portfolio_from_fills}
use indian_algo_trading_plat.Portfolio.Quantities.{quantity_at, IsAccounted}
use indian_algo_trading_plat.Portfolio.Ledger.{ledger_from, rebuild_quantities}
use indian_algo_trading_plat.Portfolio.Restart.{rebuild_idem}
use indian_algo_trading_plat.Portfolio.EquityCurve.{
  EquityCurve, Point, new_curve, add_point, latest, IsBounded, add_point-IsBounded,
}
use indian_algo_trading_plat.Portfolio.Engine.{
  new_engine, on_tick, equity, Runs, start, price, engine_lem,
}
use indian_algo_trading_plat.Portfolio.Agreement.{agrees, item_named, reconcile-nil_iff}
use indian_algo_trading_plat.Portfolio.Reconciliation.{Item, Severity, reconcile}
use indian_algo_trading_plat.Tests.{fill}

abbrev ledger : OrderStore ℤ
ledger = record { order_requests = []; order_events = []; order_fills = fill ∷ [] }

abbrev fresh : FillRow ℤ → String
fresh row = "e7"

abbrev fresh_request : RequestRow ℤ → String
fresh_request row = "e8"

rebuild_quantities_example :
    (quantity_at
        (rebuild_portfolio_from_fills fresh fresh_request ledger new_tracker none).tracker
        "INFY"
      ≡ ledger_from (pos 0) (fill ∷ []) "INFY")
    × IsAccounted (rebuild_portfolio_from_fills fresh fresh_request ledger new_tracker none).tracker
rebuild_quantities_example =
    rebuild_quantities fresh fresh_request ledger fill [] "INFY" refl
      ((refl, ground arith, refl, refl), tt) (refl, tt)

rebuild_idem_example :
    (rebuild_portfolio_from_fills fresh fresh_request ledger
      (rebuild_portfolio_from_fills fresh fresh_request ledger new_tracker none).tracker
      none).tracker
    ≡ (rebuild_portfolio_from_fills fresh fresh_request ledger new_tracker none).tracker
rebuild_idem_example =
    rebuild_idem fresh fresh fresh_request fresh_request ledger new_tracker fill [] refl (refl, tt)

abbrev curve : EquityCurve ℤ
curve = new_curve (some (pos 100)) 3

curve-IsBounded : IsBounded curve
unfolding new_curve
curve-IsBounded = record {
  few = ground arith;
  below_peak = tt;
  within_worst = tt;
  peak_number = refl;
  worst_number = refl;
}

fall_is_number : whole.le (whole.sub (pos 100) (pos 90)) (whole.sub (pos 100) (pos 90)) ≡ true
unfolding ◌-ℤ◌
fall_is_number = refl

add_point-IsBounded_example : IsBounded (add_point (pos 90) curve)
unfolding new_curve ◌-ℤ◌
add_point-IsBounded_example =
    add_point-IsBounded whole-IsOrdered (pos 90) curve refl refl curve-IsBounded

ticked : Runs (new_engine (pos 100)) (on_tick "INFY" (some (pos 101)) (new_engine (pos 100)))
ticked = price "INFY" (some (pos 101)) start

engine_lem_example :
    IsAccounted (on_tick "INFY" (some (pos 101)) (new_engine (pos 100))).positions
    × (pos 0
        ≤ℤ quantity_at (on_tick "INFY" (some (pos 101)) (new_engine (pos 100))).positions "INFY")
    × (length (on_tick "INFY" (some (pos 101)) (new_engine (pos 100))).equity_curve.points ≤ 5_000)
    × (((on_tick "INFY" (some (pos 101)) (new_engine (pos 100))).equity_curve.points ≡ [])
        ⊎ ((p : Point ℤ) × (latest
                (on_tick "INFY" (some (pos 101)) (new_engine (pos 100))).equity_curve
              ≡ some p)
            × (p.equity ≡ equity (on_tick "INFY" (some (pos 101)) (new_engine (pos 100))))))
engine_lem_example = engine_lem (pos 100) "INFY" ticked

abbrev holding_of : ℤ → Item ℤ
holding_of n = record {
  symbol = some "INFY";
  tradingsymbol = none;
  quantity = some n;
  qty = none;
  netqty = none;
  avg_price = some (pos 100);
  averageprice = none;
  average_price = none;
}

reconcile-nil_iff_example :
    (reconcile
        (holding_of (pos 5) ∷ [])
        (holding_of (pos 6) ∷ [])
        Severity.critical
        Severity.critical
      ≡ [])
    ↔ ((symbol : String)
        → agrees
            (item_named symbol (holding_of (pos 5) ∷ []))
            (item_named symbol (holding_of (pos 6) ∷ []))
          ≡ true)
reconcile-nil_iff_example =
    reconcile-nil_iff (holding_of (pos 5) ∷ []) (holding_of (pos 6) ∷ []) Severity.critical
      Severity.critical
