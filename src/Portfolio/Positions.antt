-- ===== src/Portfolio/Positions.antt =====
-- backend/portfolio/position_tracker.py: long positions by symbol, and the sums over all fills. A
-- quantity is an `int`; a price and an amount are floats of the type `P`.
use indian_algo_trading_plat.Common.{
  ℕ, String, Bool, not, ◌||◌, ◌&&◌, Option, none, some, List, [], ◌∷◌, ◌++◌, map, if◌then◌else◌,
  upper, filter_by, length, or_default,
}
use indian_algo_trading_plat.Common.Int.{ℤ, pos, ◌+ℤ◌, ◌-ℤ◌, leb_ℤ, ltb_ℤ}
use indian_algo_trading_plat.Common.Float.{Float, nought}
use indian_algo_trading_plat.Common.Dict.{Dict, lookup, insert, values}
use indian_algo_trading_plat.Types.{
  OrderSide, OrderStateEvent, OrderStatus, is_buy, is_sell, same_status,
}
use indian_algo_trading_plat.FeeModel.{Fees, FeeError, FeeResult, charged, refused, calculate}

pub data PositionSide : Type 0 where
  long : PositionSide

pub record Position (P : Type 0) : Type 0 where
  pub symbol : String
  pub side : Option PositionSide
  pub quantity : ℤ
  pub avg_price : P
  pub ltp : Option P
  pub unrealized_pnl : P
  pub realized_pnl : P
  pub fees : P
  pub last_fill_price : Option P

-- An entry of `_fill_history`.
pub record FillEntry (P : Type 0) : Type 0 where
  pub event_id : String
  pub order_id : String
  pub symbol : String
  pub side : OrderSide
  pub quantity : ℤ
  pub price : P
  pub fees : P

pub record PositionTracker (P : Type 0) : Type 0 where
  pub positions : Dict (Position P)
  pub fill_history : List (FillEntry P)
  pub realized_pnl : P
  pub gross_pnl : P
  pub total_fees : P

-- `on_fill` returns, or the fee model's ValueError passes through it.
pub data Booked (P : Type 0) : Type 0 where
  booked : PositionTracker P → Booked P
  unbooked : FeeError → Booked P

pub record PositionSummary (P : Type 0) : Type 0 where
  pub realized_pnl : P
  pub unrealized_pnl : P
  pub gross_pnl : P
  pub total_fees : P
  pub net_pnl : P
  pub open_positions_count : ℕ
  pub total_open_notional : P

abbrev pub min_ℤ : ℤ → ℤ → ℤ
min_ℤ a b = if ltb_ℤ b a then b else a

module _ {P : Type 0} ⦃d : Float P⦄ where
  open d use {add, sub, mul, div, of_int, round}

  abbrev pub money : P → P
  money x = round x 2

  unfoldable pub new_tracker : PositionTracker P
  new_tracker = record {
    positions = [];
    fill_history = [];
    realized_pnl = nought;
    gross_pnl = nought;
    total_fees = nought;
  }

  unfoldable pub empty_position : String → Position P
  empty_position symbol = record {
    symbol = symbol;
    side = none;
    quantity = pos 0;
    avg_price = nought;
    ltp = none;
    unrealized_pnl = nought;
    realized_pnl = nought;
    fees = nought;
    last_fill_price = none;
  }

  -- The BUY branch.
  unfoldable pub bought : ℤ → P → Position P → Position P
  bought qty price p = record p {
    avg_price =
        div (add (mul p.avg_price (of_int p.quantity)) (mul price (of_int qty)))
          (of_int (p.quantity +ℤ qty));
    quantity = p.quantity +ℤ qty;
    side = some long;
  }

  -- A position whose quantity is 0 forgets its prices.
  abbrev cleared : Position P → Position P
  cleared p =
      if leb_ℤ p.quantity (pos 0) && leb_ℤ (pos 0) p.quantity
      then record p { avg_price = nought; unrealized_pnl = nought; ltp = none }
      else p

  -- The gain of the part that a sale can close.
  abbrev pub gain : ℤ → P → Position P → P
  gain exit_qty price p = mul (sub price p.avg_price) (of_int exit_qty)

  -- The SELL branch, where `exit_qty > 0`.
  unfoldable pub sold : ℤ → P → P → Position P → Position P
  sold exit_qty price fee_total p = cleared (record p {
    realized_pnl = add p.realized_pnl (sub (gain exit_qty price p) fee_total);
    quantity = p.quantity -ℤ exit_qty;
  })

  -- `min(qty, position["quantity"])`, where it is positive.
  abbrev pub exit_of : ℤ → Position P → Option ℤ
  exit_of qty p = if leb_ℤ (min_ℤ qty p.quantity) (pos 0) then none else some (min_ℤ qty p.quantity)

  -- What both branches leave of the position and of the two sums of gains.
  unfoldable pub traded :
      OrderSide → ℤ → P → P → Position P → PositionTracker P → Position P × PositionTracker P
  unfolding bought sold
  traded side qty price fee_total p t =
      if is_buy side
      then (bought qty price p, t)
      else if is_sell side
      then (elim (exit_of qty p) [
        | none ↦ (p, t)
        | some n ↦ (
          sold n price fee_total p,
          record t {
            gross_pnl = add t.gross_pnl (gain n price p);
            realized_pnl = add t.realized_pnl (sub (gain n price p) fee_total);
          },
        )
      ])
      else (p, t)

  abbrev pub entry_of : OrderStateEvent P → P → P → FillEntry P
  entry_of e price fee_total = record {
    event_id = e.event_id;
    order_id = e.order_id;
    symbol = upper e.symbol;
    side = e.side;
    quantity = e.filled_quantity;
    price = price;
    fees = fee_total;
  }

  -- From the lookup of the position to the end of `on_fill`.
  unfoldable pub book : OrderStateEvent P → P → P → PositionTracker P → PositionTracker P
  unfolding traded empty_position
  book e price fee_total t =
      let symbol = upper e.symbol in
      let start = or_default (lookup symbol t.positions) (empty_position symbol) in
      let (p, u) = traded e.side e.filled_quantity price fee_total start t in
      record u {
        positions =
            insert symbol (record p { fees = add p.fees fee_total; last_fill_price = some price })
              u.positions;
        total_fees = add u.total_fees fee_total;
        fill_history = u.fill_history ++ entry_of e price fee_total ∷ [];
      }

  -- `fees or self.fee_model.calculate(…)`
  abbrev pub fees_or : Option (Fees P) → OrderStateEvent P → P → FeeResult P
  fees_or (some f) e price = charged f
  fees_or none e price = calculate e.side e.filled_quantity price

  unfoldable pub on_fill : OrderStateEvent P → Option (Fees P) → PositionTracker P → Booked P
  unfolding book same_status
  on_fill e fees t =
      if not (same_status e.status OrderStatus.filled) then booked t else (elim e.avg_fill_price [
        | none ↦ booked t
        | some price ↦
            if d.le price nought || leb_ℤ e.filled_quantity (pos 0)
            then booked t
            else (elim (fees_or fees e price) [
              | charged f ↦ booked (book e price f.total_fees t)
              | refused x ↦ unbooked x
            ])
      ])

  abbrev pub is_open : Position P → Bool
  is_open p = not (leb_ℤ p.quantity (pos 0))

  abbrev pub marked : P → Position P → Position P
  marked ltp p = record p {
    ltp = some ltp;
    unrealized_pnl = mul (sub ltp p.avg_price) (of_int p.quantity);
  }

  unfoldable pub update_unrealized : String → P → PositionTracker P → PositionTracker P
  update_unrealized symbol ltp t = elim (lookup (upper symbol) t.positions) [
    | none ↦ t
    | some p ↦
        if not (is_open p)
        then t
        else record t { positions = insert (upper symbol) (marked ltp p) t.positions }
  ]

  unfoldable pub update_many_unrealized : List (String × P) → PositionTracker P → PositionTracker P
  unfolding update_unrealized
  update_many_unrealized [] t = t
  update_many_unrealized ((symbol, price) ∷ prices) t =
      update_many_unrealized prices (update_unrealized symbol price t)

  abbrev money_if : Option P → Option P
  money_if none = none
  money_if (some x) = some (money x)

  -- `_serializable_position` without the market value, which is a function of its other fields.
  unfoldable pub serializable_position : Position P → Position P
  serializable_position p = record p {
    avg_price = money p.avg_price;
    unrealized_pnl = money p.unrealized_pnl;
    realized_pnl = money p.realized_pnl;
    fees = money p.fees;
    last_fill_price = money_if p.last_fill_price;
    ltp = money_if p.ltp;
  }

  unfoldable pub get_position : String → PositionTracker P → Option (Position P)
  unfolding serializable_position
  get_position symbol t = elim (lookup (upper symbol) t.positions) [
    | none ↦ none
    | some p ↦ if is_open p then some (serializable_position p) else none
  ]

  unfoldable pub get_all_positions : PositionTracker P → List (Position P)
  unfolding serializable_position
  get_all_positions t = map serializable_position (filter_by is_open (values t.positions))

  abbrev sum_by : (Position P → P) → List (Position P) → P → P
  sum_by f [] total = total
  sum_by f (p ∷ ps) total = sum_by f ps (add total (f p))

  unfoldable pub total_open_notional : PositionTracker P → P
  total_open_notional t = money (
      sum_by (λ p. mul (of_int p.quantity) (or_default p.ltp p.avg_price))
        (filter_by is_open (values t.positions)) nought)

  unfoldable pub get_summary : PositionTracker P → PositionSummary P
  unfolding get_all_positions total_open_notional
  get_summary t =
      let unrealized = sum_by (λ p. p.unrealized_pnl) (values t.positions) nought in
      record {
        realized_pnl = money t.realized_pnl;
        unrealized_pnl = money unrealized;
        gross_pnl = money (add t.gross_pnl unrealized);
        total_fees = money t.total_fees;
        net_pnl = money (sub (add t.gross_pnl unrealized) t.total_fees);
        open_positions_count = length (get_all_positions t);
        total_open_notional = total_open_notional t;
      }
