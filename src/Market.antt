-- ===== src/Market.antt =====
-- The market data of one symbol, as the dict that the risk gate and the paper engine read
-- (`latest_market`, a tick of backend/gateway/market_watch.py). A price is a float, `none` where the
-- key is missing or holds None.
use indian_algo_trading_plat.Common.{Bool, ◌&&◌, Option, none, some, if◌then◌else◌, or_else}
use indian_algo_trading_plat.Common.Float.{Float, nought}

-- A timestamp: a datetime or an ISO text as its POSIX time in seconds, or any other non-empty value.
pub data Stamp (P : Type 0) : Type 0 where
  instant : P → Stamp P
  unreadable : Stamp P

pub record MarketData (P : Type 0) : Type 0 where
  pub ltp : Option P
  pub price : Option P
  pub received_at : Option (Stamp P)
  pub last_update : Option (Stamp P)
  pub timestamp : Option (Stamp P)

module _ {P : Type 0} ⦃d : Float P⦄ where
  -- `x == 0`, so `not x`, for a float
  abbrev pub is_zero : P → Bool
  is_zero x = d.le x nought && d.le nought x

  -- `a or b` on floats that may be None: 0.0 is passed over too.
  abbrev pub or_price : Option P → Option P → Option P
  or_price none b = b
  or_price (some a) b = if is_zero a then b else some a

  -- `latest_market.get("ltp") or latest_market.get("price")`
  abbrev pub quoted : MarketData P → Option P
  quoted m = or_price m.ltp m.price

  abbrev pub stamp_of : MarketData P → Option (Stamp P)
  stamp_of m = or_else m.received_at (or_else m.last_update m.timestamp)
