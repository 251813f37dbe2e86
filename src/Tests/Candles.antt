-- ===== src/Tests/Candles.antt =====
-- The candle store at concrete inputs.
use indian_algo_trading_plat.Common.{ℕ, ◌≤◌, ◌≡◌, refl, none, some, List, [], ◌∷◌, String, length}
use indian_algo_trading_plat.Common.Int.{ℤ, pos}
use indian_algo_trading_plat.Common.Float.{whole}
use indian_algo_trading_plat.CandleStore.{
  one_minute, bucket_start, max_candles, Candle, RawCandle, merged_candles, TickEvent, series_of,
}
use indian_algo_trading_plat.CandleStore.Ticks.{
  Trade, after_ticks, candle_of, latest_bucket, ticks_in,
}
use indian_algo_trading_plat.CandleStore.Live.{after_ticks-live}
use indian_algo_trading_plat.CandleStore.Order.{
  IsSorted, IsChronological, merged_candles-IsSorted, after_ticks-IsChronological,
}
use indian_algo_trading_plat.CandleStore.Events.{after_events, trades_of, after_events-frames}

abbrev at : ℕ → ℤ → Trade ℤ
at time price = record { price = price; increment = 5; received_at = time }

-- The latest first; the last but one is late.
abbrev ticks : List (Trade ℤ)
ticks = at 130 (pos 104) ∷ at 70 (pos 90) ∷ at 125 (pos 101) ∷ at 65 (pos 99) ∷ []

after_ticks-live_example :
    (after_ticks one_minute ticks).live
    ≡ candle_of
        (latest_bucket one_minute ticks)
        (ticks_in one_minute (latest_bucket one_minute ticks) ticks)
after_ticks-live_example = after_ticks-live one_minute ticks

after_ticks-IsChronological_example : IsChronological one_minute (after_ticks one_minute ticks)
after_ticks-IsChronological_example = after_ticks-IsChronological one_minute ticks

-- The live candle of the ticks.
abbrev live_candle : Candle ℤ
live_candle = record {
  time = 120;
  open_price = pos 101;
  high = pos 104;
  low = pos 101;
  close = pos 104;
  volume = 10;
}

live_minute : (after_ticks one_minute ticks).live ≡ some live_candle
unfolding after_ticks bucket_start
live_minute = refl

abbrev raw : ℕ → RawCandle ℤ
raw time = record {
  time = some time;
  open_price = some (pos 1);
  high = some (pos 2);
  low = some (pos 1);
  close = some (pos 2);
  volume = some none;
}

merged_candles-IsSorted_example :
    IsSorted (merged_candles one_minute (raw 180 ∷ raw 60 ∷ raw 180 ∷ []) (live_candle ∷ []))
    × (length (merged_candles one_minute (raw 180 ∷ raw 60 ∷ raw 180 ∷ []) (live_candle ∷ []))
        ≤ max_candles one_minute)
merged_candles-IsSorted_example =
    merged_candles-IsSorted one_minute (raw 180 ∷ raw 60 ∷ raw 180 ∷ []) (live_candle ∷ [])

abbrev heard : String → ℕ → TickEvent ℤ
heard symbol time = record {
  symbol = symbol;
  ltp = some (pos 100);
  volume = some time;
  received_at = time;
}

after_events-frames_example :
    (series_of "INFY" (after_events (heard "INFY" 70 ∷ heard "TCS" 65 ∷ []))).frames one_minute
    ≡ after_ticks one_minute (trades_of "INFY" (heard "INFY" 70 ∷ heard "TCS" 65 ∷ []))
after_events-frames_example =
    after_events-frames "INFY" one_minute (heard "INFY" 70 ∷ heard "TCS" 65 ∷ [])
