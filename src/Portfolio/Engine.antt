-- ===== src/Portfolio/Engine.antt =====
-- backend/portfolio/portfolio_engine.py: the tracker, the equity curve and the last mismatches behind the
-- handlers of fills and ticks. The holdings are a parameter of what reads them; publishing on the
-- event bus is not modelled.
use indian_algo_trading_plat.Common.{
  ℕ, zero, suc, ◌≤◌, ◌≡◌, refl, String, not, ◌||◌, ◌⊎◌, Option, none, some, List, [], ◌∷◌, ◌++◌,
  arith, if◌then◌else◌, get_last?, drop, length, length-last_n-le, length-append, Bool-cases, inl,
  inr, map, subst,
}
use indian_algo_trading_plat.Common.Int.{pos, eqb_ℤ, ◌≤ℤ◌}
use indian_algo_trading_plat.Common.Float.{Float}
use indian_algo_trading_plat.Types.{OrderStateEvent, OrderStatus, same_status}
use indian_algo_trading_plat.FeeModel.{FeeError, FeeResult, charged, refused, calculate}
use indian_algo_trading_plat.Market.{is_zero}
use indian_algo_trading_plat.Portfolio.Positions.{
  PositionTracker, Booked, booked, unbooked, new_tracker, on_fill, update_unrealized, get_summary,
  Position, get_all_positions,
}
use indian_algo_trading_plat.Portfolio.EquityCurve.{
  EquityCurve, Point, new_curve, add_point, latest,
}
use indian_algo_trading_plat.Portfolio.Quantities.{IsAccounted, quantity_at}
use indian_algo_trading_plat.Portfolio.Runs.{Reaches, here, fill, tick, tracker-IsAccounted}
use indian_algo_trading_plat.Portfolio.Reconciliation.{
  Item, Mismatch, MismatchSummary, reconcile_positions, reconcile_holdings, summarize,
}

pub record PortfolioEngine (P : Type 0) : Type 0 where
  pub initial_capital : P
  pub positions : PositionTracker P
  pub equity_curve : EquityCurve P
  pub last_position_mismatches : List (Mismatch P)
  pub last_holding_mismatches : List (Mismatch P)

-- A handler returns, or the fee model's ValueError passes through it.
pub data Handled (P : Type 0) : Type 0 where
  handled : PortfolioEngine P → Handled P
  unhandled : FeeError → Handled P

module _ {P : Type 0} ⦃d : Float P⦄ where
  open d use {add, round}

  unfoldable pub new_engine : P → PortfolioEngine P
  new_engine capital = record {
    initial_capital = capital;
    positions = new_tracker;
    equity_curve = new_curve (some capital) 5_000;
    last_position_mismatches = [];
    last_holding_mismatches = [];
  }

  -- `get_summary()["equity"]`
  unfoldable pub equity : PortfolioEngine P → P
  equity g = round (add g.initial_capital (get_summary g.positions).net_pnl) 2

  unfoldable pub add_equity_point : PortfolioEngine P → PortfolioEngine P
  add_equity_point g = record g { equity_curve = add_point (equity g) g.equity_curve }

  -- The fees that the handler computes, before it calls `on_fill`.
  unfoldable pub fees_first : OrderStateEvent P → Option (FeeResult P)
  fees_first e = elim e.avg_fill_price [
    | none ↦ none
    | some price ↦
        if is_zero price || eqb_ℤ e.filled_quantity (pos 0)
        then none
        else some (calculate e.side e.filled_quantity price)
  ]

  abbrev after_fill : PortfolioEngine P → Booked P → Handled P
  after_fill g (booked t) = handled (add_equity_point (record g { positions = t }))
  after_fill g (unbooked x) = unhandled x

  abbrev filled : OrderStateEvent P → Option (FeeResult P) → PortfolioEngine P → Handled P
  filled e none g = after_fill g (on_fill e none g.positions)
  filled e (some (charged f)) g = after_fill g (on_fill e (some f) g.positions)
  filled e (some (refused x)) g = unhandled x

  unfoldable pub on_order_state_event : OrderStateEvent P → PortfolioEngine P → Handled P
  unfolding fees_first
  on_order_state_event e g =
      if not (same_status e.status OrderStatus.filled) then handled g else filled e (fees_first e) g

  unfoldable pub on_tick : String → Option P → PortfolioEngine P → PortfolioEngine P
  on_tick symbol none g = g
  on_tick symbol (some ltp) g =
      add_equity_point (record g { positions = update_unrealized symbol ltp g.positions })

  -- A position of the tracker as an item: its dict has the keys `symbol`, `quantity` and `avg_price`.
  abbrev item_of : Position P → Item P
  item_of p = record {
    symbol = some p.symbol;
    tradingsymbol = none;
    quantity = some (d.of_int p.quantity);
    qty = none;
    netqty = none;
    avg_price = some p.avg_price;
    averageprice = none;
    average_price = none;
  }

  unfoldable pub reconcile_with_broker_positions :
      List (Item P) → PortfolioEngine P → PortfolioEngine P × List (Mismatch P)
  reconcile_with_broker_positions broker g =
      let found = reconcile_positions (map item_of (get_all_positions g.positions)) broker in
      (record g { last_position_mismatches = found }, found)

  unfoldable pub reconcile_with_broker_holdings :
      List (Item P) → List (Item P) → PortfolioEngine P → PortfolioEngine P × List (Mismatch P)
  reconcile_with_broker_holdings holdings broker g =
      let found = reconcile_holdings holdings broker in
      (record g { last_holding_mismatches = found }, found)

  -- `status()["reconciliation"]`
  unfoldable pub reconciliation_status : PortfolioEngine P → MismatchSummary
  reconciliation_status g = summarize (g.last_position_mismatches ++ g.last_holding_mismatches)

  -- The calls of the handlers that return.
  pub data Runs (g : PortfolioEngine P) : PortfolioEngine P → Type 0 where
    start : Runs g g
    event :
        (e : OrderStateEvent P) {u v : PortfolioEngine P}
        → Runs g u
        → on_order_state_event e u ≡ handled v
        → Runs g v
    price :
        (symbol : String) (ltp : Option P) {u : PortfolioEngine P}
        → Runs g u
        → Runs g (on_tick symbol ltp u)

  -- The engine's tracker is reached by fills and ticks, and its last point is its equity.
  record IsRunning (g : PortfolioEngine P) : Type 0 where
    reached : Reaches new_tracker g.positions
    room : g.equity_curve.max_points ≡ 5_000
    few : length g.equity_curve.points ≤ 5_000
    last_point :
        (g.equity_curve.points ≡ [])
        ⊎ ((p : Point P) × (latest g.equity_curve ≡ some p) × (p.equity ≡ round (equity g) 2))

  get_last?-append : (xs : List (Point P)) (p : Point P) → get_last? (xs ++ p ∷ []) ≡ some p
  get_last?-append [] p = refl
  get_last?-append (x ∷ []) p = refl
  get_last?-append (x ∷ y ∷ xs) p = get_last?-append (y ∷ xs) p

  get_last?-drop :
      (k : ℕ) (xs : List (Point P)) (p : Point P)
      → k ≤ length xs
      → get_last? (drop k (xs ++ p ∷ [])) ≡ some p
  get_last?-drop zero xs p h = get_last?-append xs p
  get_last?-drop (suc k) [] p h = ground (arith, h)
  get_last?-drop (suc k) (x ∷ xs) p h = get_last?-drop k xs p (omega (arith, h))

  latest-add_point :
      (x : P) (c : EquityCurve P)
      → 1 ≤ c.max_points
      → (p : Point P) × (latest (add_point x c) ≡ some p) × (p.equity ≡ round x 2)
  unfolding latest add_point
  latest-add_point x c h =
      (_, get_last?-drop _ c.points _ (omega (arith, h, length-append c.points (_ ∷ []))), refl)

  add_equity_point-IsRunning :
      (g : PortfolioEngine P)
      → Reaches new_tracker g.positions
      → g.equity_curve.max_points ≡ 5_000
      → IsRunning (add_equity_point g)
  unfolding add_equity_point equity add_point
  add_equity_point-IsRunning g r room = record {
    reached = r;
    room = room;
    few =
        omega (
          arith,
          length-last_n-le g.equity_curve.max_points (g.equity_curve.points ++ _ ∷ []),
          room,
        );
    last_point = inr (latest-add_point (equity g) g.equity_curve (omega (arith, room)));
  }

  -- What the handler does with the tracker's answer keeps the engine running.
  after_fill-IsRunning :
      (b : Booked P) (g : PortfolioEngine P) {h : PortfolioEngine P}
      → IsRunning g
      → ((t : PositionTracker P) → b ≡ booked t → Reaches new_tracker t)
      → after_fill g b ≡ handled h
      → IsRunning h
  after_fill-IsRunning (unbooked x) g k reaches run = cc
  after_fill-IsRunning (booked t) g {h} k reaches run =
      let same : add_equity_point (record g { positions = t }) ≡ h = cc in
      subst IsRunning same
        (add_equity_point-IsRunning (record g { positions = t }) (reaches t refl) k.room)

  filled-IsRunning :
      (e : OrderStateEvent P) (r : Option (FeeResult P)) (g : PortfolioEngine P)
      {h : PortfolioEngine P}
      → IsRunning g
      → filled e r g ≡ handled h
      → IsRunning h
  filled-IsRunning e none g k run =
      after_fill-IsRunning (on_fill e none g.positions) g k (λ t took. fill e none k.reached took)
        run
  filled-IsRunning e (some (charged f)) g k run =
      after_fill-IsRunning (on_fill e (some f) g.positions) g k
        (λ t took. fill e (some f) k.reached took) run
  filled-IsRunning e (some (refused x)) g k run = cc

  on_order_state_event-IsRunning :
      (e : OrderStateEvent P) (g : PortfolioEngine P) {h : PortfolioEngine P}
      → IsRunning g
      → on_order_state_event e g ≡ handled h
      → IsRunning h
  unfolding on_order_state_event
  on_order_state_event-IsRunning e g {h} k run =
      elim (Bool-cases (same_status e.status OrderStatus.filled)) [
        | inl now ↦ filled-IsRunning e (fees_first e) g k (ground (arith, now, run))
        | inr later ↦ (let same : g ≡ h = ground (arith, later, run) in subst IsRunning same k)
      ]

  on_tick-IsRunning :
      (symbol : String) (ltp : Option P) (g : PortfolioEngine P)
      → IsRunning g
      → IsRunning (on_tick symbol ltp g)
  unfolding on_tick
  on_tick-IsRunning symbol none g k = k
  on_tick-IsRunning symbol (some ltp) g k =
      add_equity_point-IsRunning (record g { positions = update_unrealized symbol ltp g.positions })
        (tick symbol ltp k.reached) k.room

  new_engine-IsRunning : (capital : P) → IsRunning (new_engine capital)
  unfolding new_engine new_curve
  new_engine-IsRunning capital = record {
    reached = here;
    room = refl;
    few = omega arith;
    last_point = inl refl;
  }

  Runs-IsRunning : (capital : P) {g : PortfolioEngine P} → Runs (new_engine capital) g → IsRunning g
  Runs-IsRunning capital start = new_engine-IsRunning capital
  Runs-IsRunning capital (event e {u} r run) =
      on_order_state_event-IsRunning e u (Runs-IsRunning capital r) run
  Runs-IsRunning capital (price symbol ltp {u} r) =
      on_tick-IsRunning symbol ltp u (Runs-IsRunning capital r)

  -- After any calls of the two handlers that return, a new engine's quantities are what its fill history
  -- amounts to and not negative, its curve has at most 5000 points, and the last of them, if there is
  -- one, is the equity that the summary reports now, rounded to two digits.
  pub engine_lem :
      (capital : P) (symbol : String) {g : PortfolioEngine P}
      → Runs (new_engine capital) g
      → IsAccounted g.positions
        × (pos 0 ≤ℤ quantity_at g.positions symbol)
        × (length g.equity_curve.points ≤ 5_000)
        × ((g.equity_curve.points ≡ [])
            ⊎ ((p : Point P) × (latest g.equity_curve ≡ some p) × (p.equity ≡ round (equity g) 2)))
  engine_lem capital symbol {g} r =
      let k = Runs-IsRunning capital r in
      let held = tracker-IsAccounted symbol k.reached in (held.0, held.1, k.few, k.last_point)
