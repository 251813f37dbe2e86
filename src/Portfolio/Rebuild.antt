-- ===== src/Portfolio/Rebuild.antt =====
-- backend/portfolio/rebuild.py: the replay of the ledger into the portfolio after a restart, with its
-- fallback on the FILLED rows of order_requests. A row of the ledger has all its columns, so the
-- conversions of the source do not fail; a set of ids is a list in the order of insertion.
use indian_algo_trading_plat.Common.{
  ℕ, ◌+◌, String, Bool, not, ◌||◌, ◌&&◌, Option, none, some, List, [], ◌∷◌, ◌++◌, map,
  if◌then◌else◌, is_empty, upper, any_of, str_eq, or_default,
}
use indian_algo_trading_plat.Common.Int.{pos, leb_ℤ}
use indian_algo_trading_plat.Common.Float.{Float, nought}
use indian_algo_trading_plat.Types.{OrderStateEvent, OrderStatus, known_side}
use indian_algo_trading_plat.OrderStore.{
  OrderStore, FillRow, RequestRow, get_all_fills_chronological, get_filled_orders, upper_side,
}
use indian_algo_trading_plat.FeeModel.{FeeError, charged, refused, calculate}
use indian_algo_trading_plat.Market.{is_zero}
use indian_algo_trading_plat.Portfolio.Positions.{
  PositionTracker, FillEntry, booked, unbooked, on_fill,
}

pub data Warning : Type 0 where
  invalid_filled_quantity no_fill_price non_positive_price unknown_side : String → Warning
  error_replaying : String → FeeError → Warning

pub data RebuildSource : Type 0 where
  unknown_source fill_ledger filled_orders_fallback : RebuildSource

pub record PortfolioRebuildSummary : Type 0 where
  pub total_fills_processed : ℕ
  pub skipped_rows : ℕ
  pub rebuilt_positions : List String
  pub warnings : List Warning
  pub source : RebuildSource

-- The state of the loop: the ids that were seen, the tracker of the engine, the summary.
pub record Replay (P : Type 0) : Type 0 where
  pub seen_ids : List String
  pub tracker : PositionTracker P
  pub summary : PortfolioRebuildSummary

unfoldable pub new_summary : RebuildSource → PortfolioRebuildSummary
new_summary source = record {
  total_fills_processed = 0;
  skipped_rows = 0;
  rebuilt_positions = [];
  warnings = [];
  source = source;
}

abbrev pub is_seen : String → List String → Bool
is_seen id ids = any_of (str_eq id) ids

abbrev add_id : String → List String → List String
add_id id ids = if is_empty id then ids else ids ++ id ∷ []

abbrev add_symbol : String → List String → List String
add_symbol symbol symbols =
    if any_of (str_eq symbol) symbols then symbols else symbols ++ symbol ∷ []

module _ {P : Type 0} where
  -- `summary.warnings.append(…)`, `summary.skipped_rows += 1`
  abbrev pub skip_with : Warning → Replay P → Replay P
  skip_with w s = record s {
    summary = record (s.summary) {
      warnings = s.summary.warnings ++ w ∷ [];
      skipped_rows = s.summary.skipped_rows + 1;
    };
  }

  abbrev pub skip_silently : Replay P → Replay P
  skip_silently s = record s {
    summary = record (s.summary) { skipped_rows = s.summary.skipped_rows + 1 };
  }

  abbrev pub done_with : String → String → PositionTracker P → Replay P → Replay P
  done_with id symbol tracker s = record {
    seen_ids = add_id id s.seen_ids;
    tracker = tracker;
    summary = record (s.summary) {
      total_fills_processed = s.summary.total_fills_processed + 1;
      rebuilt_positions = add_symbol symbol s.summary.rebuilt_positions;
    };
  }

  -- The event that is made of a row; `event_id` is the row's id, or one that uuid4 gives.
  unfoldable pub event_of_fill : String → FillRow P → OrderStateEvent P
  event_of_fill fresh row = record {
    event_id = if is_empty row.fill_id then fresh else row.fill_id;
    order_id = if is_empty row.request_id then row.fill_id else row.request_id;
    broker_order_id = row.broker_order_id;
    symbol = upper row.symbol;
    side = upper_side row.side;
    quantity = row.filled_quantity;
    filled_quantity = row.filled_quantity;
    avg_fill_price = some row.fill_price;
    status = OrderStatus.filled;
    reject_reason = none;
    order_request_id = some row.request_id;
  }

  unfoldable pub event_of_request : String → RequestRow P → P → OrderStateEvent P
  event_of_request fresh row price = record {
    event_id = fresh;
    order_id = row.request_id;
    broker_order_id = row.broker_order_id;
    symbol = upper row.symbol;
    side = upper_side row.side;
    quantity = row.quantity;
    filled_quantity = row.quantity;
    avg_fill_price = some price;
    status = OrderStatus.filled;
    reject_reason = none;
    order_request_id = some row.request_id;
  }

module _ {P : Type 0} ⦃d : Float P⦄ where
  -- The `try` block: the fees and `on_fill`; an exception is a warning and a skipped row.
  unfoldable pub apply_event : String → OrderStateEvent P → P → Replay P → Replay P
  apply_event id e price s = elim (calculate e.side e.filled_quantity price) [
    | refused x ↦ skip_with (error_replaying id x) s
    | charged f ↦ elim (on_fill e (some f) s.tracker) [
      | booked t ↦ done_with id e.symbol t s
      | unbooked x ↦ skip_with (error_replaying id x) s
    ]
  ]

  -- One round of `_replay_fill_rows`.
  unfoldable pub replay_row : (FillRow P → String) → FillRow P → Replay P → Replay P
  replay_row fresh row s =
      if not (is_empty row.fill_id) && is_seen row.fill_id s.seen_ids
      then s
      else if leb_ℤ row.filled_quantity (pos 0)
      then skip_with (invalid_filled_quantity row.fill_id) s
      else if is_zero row.fill_price
      then skip_with (no_fill_price row.fill_id) s
      else if d.le row.fill_price nought
      then skip_with (non_positive_price row.fill_id) s
      else if not (known_side (upper_side row.side))
      then skip_with (unknown_side row.fill_id) s
      else apply_event row.fill_id (event_of_fill (fresh row) row) row.fill_price s

  unfoldable pub replay_rows : (FillRow P → String) → List (FillRow P) → Replay P → Replay P
  replay_rows fresh [] s = s
  replay_rows fresh (row ∷ rows) s = replay_rows fresh rows (replay_row fresh row s)

  -- One round of `_run_fallback_rebuild`.
  unfoldable pub fallback_row : (RequestRow P → String) → RequestRow P → Replay P → Replay P
  fallback_row fresh row s =
      if not (is_empty row.request_id) && is_seen row.request_id s.seen_ids
      then s
      else (elim row.avg_fill_price [
        | none ↦ skip_with (no_fill_price row.request_id) s
        | some price ↦
            if is_zero price
            then skip_with (no_fill_price row.request_id) s
            else if d.le price nought
                || not (known_side (upper_side row.side))
                || leb_ℤ row.quantity (pos 0)
            then skip_silently s
            else apply_event row.request_id (event_of_request (fresh row) row price) price s
      ])

  unfoldable pub fallback_rows : (RequestRow P → String) → List (RequestRow P) → Replay P → Replay P
  fallback_rows fresh [] s = s
  fallback_rows fresh (row ∷ rows) s = fallback_rows fresh rows (fallback_row fresh row s)

  -- The ids in the tracker's history, or those that the caller gives.
  abbrev pub start_ids :
      (FillEntry P → String) → Option (List String) → PositionTracker P → List String
  start_ids id replayed t = or_default replayed (map id t.fill_history)

  unfoldable pub rebuild_portfolio_from_fills :
      (FillRow P → String)
      → (RequestRow P → String)
      → OrderStore P
      → PositionTracker P
      → Option (List String)
      → Replay P
  unfolding replay_rows fallback_rows get_all_fills_chronological get_filled_orders new_summary
  rebuild_portfolio_from_fills fresh fresh_request store t replayed =
      elim (get_all_fills_chronological store) [
        | row ∷ rows ↦ replay_rows fresh (row ∷ rows) (record {
          seen_ids = start_ids (λ e. e.event_id) replayed t;
          tracker = t;
          summary = new_summary fill_ledger;
        })
        | [] ↦ fallback_rows fresh_request (get_filled_orders store) (record {
          seen_ids = start_ids (λ e. e.order_id) replayed t;
          tracker = t;
          summary = new_summary filled_orders_fallback;
        })
      ]
