-- ===== src/PaperConfig.antt =====
-- backend/execution/paper_execution_config.py and the market-hours guard of
-- backend/execution/paper_order_manager.py. A clock reading is the weekday in India (Monday is 0) with
-- the microseconds since midnight there.
use indian_algo_trading_plat.Common.{
  ℕ, ◌+◌, ◌*◌, ◌≤◌, ◌<◌, ◌≡◌, ◌↔◌, Bool, true, false, not, ◌||◌, ◌&&◌, if◌then◌else◌, arith, leb,
  ltb,
}
use indian_algo_trading_plat.Common.Int.{ℤ, pos}
use indian_algo_trading_plat.Common.Float.{Float}
use indian_algo_trading_plat.Types.{OrderSide, is_buy}

pub record PaperExecutionConfig : Type 0 where
  pub slippage_bps : ℤ
  pub market_hours_enforced : Bool
  pub allow_after_hours : Bool
  pub session_open_hour : ℕ
  pub session_open_minute : ℕ
  pub session_close_hour : ℕ
  pub session_close_minute : ℕ

abbrev pub default_config : PaperExecutionConfig
default_config = record {
  slippage_bps = pos 5;
  market_hours_enforced = true;
  allow_after_hours = false;
  session_open_hour = 9;
  session_open_minute = 15;
  session_close_hour = 15;
  session_close_minute = 30;
}

pub record Clock : Type 0 where
  pub weekday : ℕ
  pub microseconds : ℕ

-- The microseconds from midnight to hh:mm:00.
abbrev pub at_time : ℕ → ℕ → ℕ
at_time hour minute = (hour * 60 + minute) * 60_000_000

module _ {P : Type 0} ⦃d : Float P⦄ where
  -- The multiplier of the reference price: above 1 for a buyer, below 1 for all others.
  unfoldable pub slippage_factor : PaperExecutionConfig → OrderSide → P
  slippage_factor cfg side =
      let delta = d.div (d.of_int cfg.slippage_bps) (d.of_int (pos 10_000)) in
      if is_buy side then d.add (d.of_int (pos 1)) delta else d.sub (d.of_int (pos 1)) delta

-- `_market_open`
unfoldable pub market_open : PaperExecutionConfig → Clock → Bool
market_open cfg now =
    if not cfg.market_hours_enforced || cfg.allow_after_hours
    then true
    else if not (ltb now.weekday 5)
    then false
    else leb (at_time cfg.session_open_hour cfg.session_open_minute) now.microseconds
      && leb now.microseconds (at_time cfg.session_close_hour cfg.session_close_minute)

-- With the rules enforced the market is open exactly on weekdays from 09:15:00 to 15:30:00 of the
-- default session, both ends included.
pub market_open_iff :
    (now : Clock)
    → (market_open default_config now ≡ true) ↔ (
        (now.weekday < 5)
        × (33_300_000_000 ≤ now.microseconds)
        × (now.microseconds ≤ 55_800_000_000))
unfolding market_open
market_open_iff now = (λ h. ground arith, λ h. ground arith)
