-- ===== src/FeeModel.antt =====
-- backend/execution/fee_model.py: the charges on one fill. A decimal literal of the source is the
-- quotient of two whole numbers, which is the same float.
use indian_algo_trading_plat.Common.{ℕ, ◌≡◌, true, false, not, ◌↔◌, if◌then◌else◌, arith}
use indian_algo_trading_plat.Common.Int.{ℤ, pos, leb_ℤ, ◌≤ℤ◌}
use indian_algo_trading_plat.Common.Float.{Float, IsOrdered, nought, min_of}
use indian_algo_trading_plat.Market.{is_zero}
use indian_algo_trading_plat.Types.{OrderSide, buy, sell, is_buy, is_sell, known_side}

-- The `ValueError`s of `calculate`.
pub data FeeError : Type 0 where
  bad_quantity bad_price bad_side : FeeError

pub record Fees (P : Type 0) : Type 0 where
  pub turnover : P
  pub brokerage : P
  pub stt : P
  pub exchange_charge : P
  pub sebi_charge : P
  pub stamp_duty : P
  pub gst : P
  pub total_fees : P
  pub net_cost_to_buy : P
  pub net_proceeds_from_sell : P

pub data FeeResult (P : Type 0) : Type 0 where
  charged : Fees P → FeeResult P
  refused : FeeError → FeeResult P

pub record RoundTrip (P : Type 0) : Type 0 where
  pub buy_fees : Fees P
  pub sell_fees : Fees P
  pub total_fees : P
  pub gross_pnl : P
  pub net_pnl : P
  pub breakeven_move_pct : P

pub data TripResult (P : Type 0) : Type 0 where
  tripped : RoundTrip P → TripResult P
  refused_trip : FeeError → TripResult P

module _ {P : Type 0} ⦃d : Float P⦄ where
  open d use {add, sub, mul, div, of_int, round}

  abbrev ratio : ℕ → ℕ → P
  ratio a b = div (of_int (pos a)) (of_int (pos b))

  -- 0.025 / 100 and its kin
  abbrev percent : ℕ → ℕ → P
  percent a b = div (ratio a b) (of_int (pos 100))

  abbrev pub stt_sell_rate : P
  stt_sell_rate = percent 25 1000

  abbrev pub exchange_charge_rate : P
  exchange_charge_rate = percent 345 100_000

  abbrev pub sebi_rate : P
  sebi_rate = percent 1 10_000

  abbrev pub stamp_duty_buy_rate : P
  stamp_duty_buy_rate = percent 15 1000

  abbrev pub gst_rate : P
  gst_rate = ratio 18 100

  abbrev pub brokerage_flat : P
  brokerage_flat = of_int (pos 20)

  abbrev pub brokerage_pct : P
  brokerage_pct = percent 25 100

  -- The brokerage before rounding: a share of the turnover, with a flat cap.
  unfoldable pub raw_brokerage : P → P
  raw_brokerage turnover = min_of brokerage_flat (mul turnover brokerage_pct)

  abbrev pub charges : OrderSide → P → Fees P
  charges side turnover =
      let brokerage = raw_brokerage turnover in
      let exchange_charge = mul turnover exchange_charge_rate in
      let sebi_charge = mul turnover sebi_rate in
      let stt = if is_sell side then mul turnover stt_sell_rate else nought in
      let stamp_duty = if is_buy side then mul turnover stamp_duty_buy_rate else nought in
      let gst = mul (add brokerage exchange_charge) gst_rate in
      let total_fees =
        add (add (add (add (add brokerage stt) exchange_charge) sebi_charge) stamp_duty) gst in
      record {
        turnover = round turnover 2;
        brokerage = round brokerage 2;
        stt = round stt 2;
        exchange_charge = round exchange_charge 4;
        sebi_charge = round sebi_charge 4;
        stamp_duty = round stamp_duty 2;
        gst = round gst 2;
        total_fees = round total_fees 2;
        net_cost_to_buy = if is_buy side then round (add turnover total_fees) 2 else nought;
        net_proceeds_from_sell = if is_sell side then round (sub turnover total_fees) 2 else nought;
      }

  unfoldable pub calculate : OrderSide → ℤ → P → FeeResult P
  unfolding raw_brokerage
  calculate side quantity price =
      if leb_ℤ quantity (pos 0)
      then refused bad_quantity
      else if d.le price nought
      then refused bad_price
      else if not (known_side side)
      then refused bad_side
      else charged (charges side (mul (of_int quantity) price))

  abbrev trip : ℤ → P → P → Fees P → Fees P → RoundTrip P
  trip quantity buy_price sell_price buy_fees sell_fees =
      let total_fees = add buy_fees.total_fees sell_fees.total_fees in
      let gross_pnl = mul (sub sell_price buy_price) (of_int quantity) in
      let cost = mul (of_int quantity) buy_price in
      record {
        buy_fees = buy_fees;
        sell_fees = sell_fees;
        total_fees = round total_fees 2;
        gross_pnl = round gross_pnl 2;
        net_pnl = round (sub gross_pnl total_fees) 2;
        breakeven_move_pct =
            round (if is_zero cost then nought else mul (div total_fees cost) (of_int (pos 100))) 4;
      }

  unfoldable pub round_trip_fees : ℤ → P → P → TripResult P
  unfolding calculate
  round_trip_fees quantity buy_price sell_price = elim (calculate buy quantity buy_price) [
    | refused e ↦ refused_trip e
    | charged b ↦ elim (calculate sell quantity sell_price) [
      | refused e ↦ refused_trip e
      | charged s ↦ tripped (trip quantity buy_price sell_price b s)
    ]
  ]

  -- A fee is charged exactly on a positive quantity, a price that is not at or below 0, and a known
  -- side.
  pub calculate_charges_iff :
      (side : OrderSide) (quantity : ℤ) (price : P)
      → ((f : Fees P) × (calculate side quantity price ≡ charged f))
        ↔ ((pos 1 ≤ℤ quantity) × (d.le price nought ≡ false) × (known_side side ≡ true))
  unfolding calculate
  calculate_charges_iff side quantity price =
      (λ h. ground (arith, h.1), λ h. (charges side (mul (of_int quantity) price), ground arith))

  -- The brokerage before rounding never passes the flat cap of 20 rupees, nor the share of the
  -- turnover, where neither is a NaN.
  pub raw_brokerage_capped :
      (o : IsOrdered d) (turnover : P)
      → d.le brokerage_flat brokerage_flat ≡ true
      → d.le (mul turnover brokerage_pct) (mul turnover brokerage_pct) ≡ true
      → (d.le (raw_brokerage turnover) brokerage_flat ≡ true)
        × (d.le (raw_brokerage turnover) (mul turnover brokerage_pct) ≡ true)
  unfolding raw_brokerage
  raw_brokerage_capped o turnover h k =
      let share = mul turnover brokerage_pct in
      ground (arith, o.le_of_lt share brokerage_flat, o.comparable share brokerage_flat k h)
