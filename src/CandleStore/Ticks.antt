-- ===== src/CandleStore/Ticks.antt =====
-- backend/candles/candle_store.py: the ticks of one symbol, and the candle that those of a bucket should
-- make. A history of ticks has the latest first.
use indian_algo_trading_plat.Common.{
  ℕ, ◌+◌, Option, none, some, List, [], ◌∷◌, if◌then◌else◌, ltb, ◌==◌,
}
use indian_algo_trading_plat.Common.Float.{Float, min_of, max_of}
use indian_algo_trading_plat.CandleStore.{
  Timeframe, bucket_start, Candle, Frame, empty_frame, tick_frame,
}

-- A tick as the loop over the timeframes takes it, with the volume that it adds.
pub record Trade (P : Type 0) : Type 0 where
  pub price : P
  pub increment : ℕ
  pub received_at : ℕ

module _ {P : Type 0} where
  abbrev pub bucket_of : Timeframe → Trade P → ℕ
  bucket_of tf t = bucket_start t.received_at tf

  -- The latest bucket of the ticks.
  unfoldable pub latest_bucket : Timeframe → List (Trade P) → ℕ
  latest_bucket tf [] = 0
  latest_bucket tf (t ∷ ts) =
      if ltb (latest_bucket tf ts) (bucket_of tf t) then bucket_of tf t else latest_bucket tf ts

  unfoldable pub ticks_in : Timeframe → ℕ → List (Trade P) → List (Trade P)
  ticks_in tf b [] = []
  ticks_in tf b (t ∷ ts) =
      let rest = ticks_in tf b ts in if bucket_of tf t == b then t ∷ rest else rest

  -- The price of the earliest tick.
  unfoldable pub first_price : P → List (Trade P) → P
  first_price p [] = p
  first_price p (t ∷ ts) = first_price t.price ts

  unfoldable pub total_volume : List (Trade P) → ℕ
  total_volume [] = 0
  total_volume (t ∷ ts) = total_volume ts + t.increment

module _ {P : Type 0} ⦃d : Float P⦄ where
  unfoldable pub highest : Trade P → List (Trade P) → P
  highest t [] = t.price
  highest t (u ∷ us) = max_of (highest u us) t.price

  unfoldable pub lowest : Trade P → List (Trade P) → P
  lowest t [] = t.price
  lowest t (u ∷ us) = min_of (lowest u us) t.price

  -- The candle of the ticks of one bucket.
  abbrev pub full_candle : ℕ → Trade P → List (Trade P) → Candle P
  full_candle b t ts = record {
    time = b;
    open_price = first_price t.price ts;
    high = highest t ts;
    low = lowest t ts;
    close = t.price;
    volume = total_volume (t ∷ ts);
  }

  unfoldable pub candle_of : ℕ → List (Trade P) → Option (Candle P)
  candle_of b [] = none
  candle_of b (t ∷ ts) = some (full_candle b t ts)

  -- The frame after a history of ticks.
  unfoldable pub after_ticks : Timeframe → List (Trade P) → Frame P
  unfolding tick_frame
  after_ticks tf [] = empty_frame
  after_ticks tf (t ∷ ts) = tick_frame tf (bucket_of tf t) t.price t.increment (after_ticks tf ts)
