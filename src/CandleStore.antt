-- ===== src/CandleStore.antt =====
-- backend/candles/candle_store.py: for each symbol and timeframe the closed candles, a deque of bounded
-- length, and the live candle that ticks build. A time is the whole number of seconds of a timestamp
-- and a volume is a natural number; reading a missing symbol does not add it here.
use indian_algo_trading_plat.Common.{
  ℕ, zero, ◌+◌, ◌-◌, ◌*◌, ◌/◌, String, Bool, true, false, Option, none, some, List, [], ◌∷◌, ◌++◌,
  if◌then◌else◌, ltb, ◌==◌, is_empty, upper, strip, or_default, last_n, get_last?, length, str_eq,
}
use indian_algo_trading_plat.Common.Int.{ℤ, pos, leb_ℤ, pos_part}
use indian_algo_trading_plat.Common.Float.{Float, min_of, max_of}
use indian_algo_trading_plat.Common.Dict.{Dict, lookup, insert}
pub mod Ticks
pub mod Live
pub mod Order
pub mod Events

pub data Timeframe : Type 0 where
  one_minute five_minutes fifteen_minutes one_hour one_day : Timeframe

abbrev same_timeframe : Timeframe → Timeframe → Bool
same_timeframe one_minute one_minute = true
same_timeframe five_minutes five_minutes = true
same_timeframe fifteen_minutes fifteen_minutes = true
same_timeframe one_hour one_hour = true
same_timeframe one_day one_day = true
same_timeframe _ _ = false

-- `MAX_CANDLES`
unfoldable pub max_candles : Timeframe → ℕ
max_candles one_minute = 390
max_candles five_minutes = 390
max_candles fifteen_minutes = 260
max_candles one_hour = 200
max_candles one_day = 252

-- `_validate_timeframe`, which raises a ValueError on any other text
unfoldable pub timeframe_of : String → Option Timeframe
timeframe_of s =
    if str_eq s "1m"
    then some one_minute
    else if str_eq s "5m"
    then some five_minutes
    else if str_eq s "15m"
    then some fifteen_minutes
    else if str_eq s "1h"
    then some one_hour
    else if str_eq s "1d"
    then some one_day
    else none

unfoldable pub interval_seconds : Timeframe → ℕ
interval_seconds one_minute = 60
interval_seconds five_minutes = 5 * 60
interval_seconds fifteen_minutes = 15 * 60
interval_seconds one_hour = 60 * 60
interval_seconds one_day = 24 * 60 * 60

unfoldable pub bucket_start : ℕ → Timeframe → ℕ
unfolding interval_seconds
bucket_start timestamp tf = timestamp / interval_seconds tf * interval_seconds tf

pub record Candle (P : Type 0) : Type 0 where
  pub time : ℕ
  pub open_price : P
  pub high : P
  pub low : P
  pub close : P
  pub volume : ℕ

-- A candle's dict before it is cleaned: `none` stands for a key that is missing or does not convert,
-- but a volume that is missing is `some none`.
pub record RawCandle (P : Type 0) : Type 0 where
  pub time : Option ℕ
  pub open_price : Option P
  pub high : Option P
  pub low : Option P
  pub close : Option P
  pub volume : Option (Option ℕ)

-- What the store holds of one symbol in one timeframe.
pub record Frame (P : Type 0) : Type 0 where
  pub candles : List (Candle P)
  pub live : Option (Candle P)

pub record Series (P : Type 0) : Type 0 where
  pub frames : Timeframe → Frame P
  pub last_cumulative_volume : ℕ

abbrev pub CandleStore : Type 0 → Type 0
CandleStore P = Dict (Series P)

pub record TickEvent (P : Type 0) : Type 0 where
  pub symbol : String
  pub ltp : Option P
  pub volume : Option ℕ
  pub received_at : ℕ

-- The volume that a tick adds, from the cumulative volumes before and at it.
unfoldable pub tick_increment : ℕ → ℕ → ℕ
tick_increment last_cum volume =
    if last_cum == 0 then 0 else if ltb volume last_cum then volume else volume - last_cum

abbrev pub normalized : String → String
normalized symbol = upper (strip symbol)

infixl 5 ◌>>=◌
abbrev ◌>>=◌ : {A B : Type 0} → Option A → (A → Option B) → Option B
none >>= f = none
some a >>= f = f a

module _ {P : Type 0} where
  abbrev pub empty_frame : Frame P
  empty_frame = record { candles = []; live = none }

  abbrev pub empty_series : Series P
  empty_series = record { frames = λ tf. empty_frame; last_cumulative_volume = 0 }

  abbrev pub series_of : String → CandleStore P → Series P
  series_of symbol s = or_default (lookup symbol s) empty_series

  unfoldable pub new_candle : ℕ → P → ℕ → Candle P
  new_candle time price volume = record {
    time = time;
    open_price = price;
    high = price;
    low = price;
    close = price;
    volume = volume;
  }

  unfoldable pub clean_candle : RawCandle P → Option (Candle P)
  clean_candle r = do
    time ← r.time
    open_price ← r.open_price
    high ← r.high
    low ← r.low
    close ← r.close
    volume ← r.volume
    some (record {
      time = time;
      open_price = open_price;
      high = high;
      low = low;
      close = close;
      volume = or_default volume 0;
    })

  -- `merged[int(c["time"])] = c`, the dict as the list of its values in insertion order.
  abbrev pub put : Candle P → List (Candle P) → List (Candle P)
  put c [] = c ∷ []
  put c (x ∷ xs) = if x.time == c.time then c ∷ xs else x ∷ put c xs

  abbrev pub put_all : List (Candle P) → List (Candle P) → List (Candle P)
  put_all [] merged = merged
  put_all (c ∷ cs) merged = put_all cs (put c merged)

  abbrev pub clean_all : List (RawCandle P) → List (Candle P)
  clean_all [] = []
  clean_all (r ∷ rs) = elim (clean_candle r) [ none ↦ clean_all rs | some c ↦ c ∷ clean_all rs ]

  -- `[merged[key] for key in sorted(merged)]`
  abbrev pub place : Candle P → List (Candle P) → List (Candle P)
  place c [] = c ∷ []
  place c (x ∷ xs) = if ltb x.time c.time then x ∷ place c xs else c ∷ x ∷ xs

  abbrev pub sorted : List (Candle P) → List (Candle P)
  sorted [] = []
  sorted (c ∷ cs) = place c (sorted cs)

  -- The candles that `load_historical` leaves of those stored and those given.
  unfoldable pub merged_candles : Timeframe → List (RawCandle P) → List (Candle P) → List (Candle P)
  merged_candles tf given stored =
      last_n (max_candles tf) (sorted (put_all (clean_all given) (put_all stored [])))

  abbrev pub update_frame : Timeframe → (Frame P → Frame P) → Series P → Series P
  update_frame tf f s = record s {
    frames = λ g. if same_timeframe tf g then f (s.frames g) else s.frames g;
  }

  -- The store after, and the number that the call returns.
  unfoldable pub load_historical :
      String → Timeframe → List (RawCandle P) → CandleStore P → CandleStore P × ℕ
  unfolding merged_candles
  load_historical symbol tf given s =
      let key = normalized symbol in
      let series = series_of key s in
      let kept = merged_candles tf given (series.frames tf).candles in
      if is_empty key
      then (s, 0)
      else (insert key (update_frame tf (λ f. record f { candles = kept }) series) s, length kept)

  -- `_candles[symbol][timeframe].append(candle)`
  abbrev pub append_candle : Timeframe → Candle P → List (Candle P) → List (Candle P)
  append_candle tf c cs = last_n (max_candles tf) (cs ++ c ∷ [])

  unfoldable pub add_candle : Timeframe → String → Candle P → CandleStore P → CandleStore P
  add_candle tf symbol c s =
      let key = normalized symbol in
      if is_empty key
      then s
      else insert key
          (update_frame tf (λ f. record f { candles = append_candle tf c f.candles })
            (series_of key s))
          s

  -- The closed candles with the live one over or after the last of them.
  abbrev pub with_live : List (Candle P) → Candle P → List (Candle P)
  with_live [] l = l ∷ []
  with_live (c ∷ cs) l = elim cs [
    | [] ↦ if c.time == l.time then l ∷ [] else if ltb c.time l.time then c ∷ l ∷ [] else c ∷ []
    | x ∷ xs ↦ c ∷ with_live cs l
  ]

  -- `candles[-max(int(limit), 0):]`, where `-0` cuts nothing off.
  abbrev pub limited : Option ℤ → List (Candle P) → List (Candle P)
  limited none cs = cs
  limited (some limit) cs = if pos_part limit == 0 then cs else last_n (pos_part limit) cs

  abbrev pub shown : Frame P → List (Candle P)
  shown f = elim f.live [ none ↦ f.candles | some l ↦ with_live f.candles l ]

  unfoldable pub get_candles : String → Timeframe → Option ℤ → CandleStore P → List (Candle P)
  get_candles symbol tf limit s =
      limited limit (shown ((series_of (normalized symbol) s).frames tf))

  unfoldable pub get_latest_candle : String → Timeframe → CandleStore P → Option (Candle P)
  unfolding get_candles
  get_latest_candle symbol tf s = get_last? (get_candles symbol tf (some (pos 1)) s)

module _ {P : Type 0} ⦃d : Float P⦄ where
  abbrev pub merged_tick : P → ℕ → Candle P → Candle P
  merged_tick price increment l = record l {
    high = max_of l.high price;
    low = min_of l.low price;
    close = price;
    volume = l.volume + increment;
  }

  -- One round of the loop over the timeframes.
  unfoldable pub tick_frame : Timeframe → ℕ → P → ℕ → Frame P → Frame P
  unfolding new_candle
  tick_frame tf bucket price increment f = elim f.live [
    | none ↦ record f { live = some (new_candle bucket price increment) }
    | some l ↦
        if l.time == bucket
        then record f { live = some (merged_tick price increment l) }
        else if ltb l.time bucket
        then record {
          candles = append_candle tf l f.candles;
          live = some (new_candle bucket price increment);
        }
        else f
  ]

  unfoldable pub update_live_candle : String → P → ℕ → ℕ → CandleStore P → CandleStore P
  unfolding tick_increment tick_frame bucket_start
  update_live_candle symbol price volume received_at s =
      let key = normalized symbol in
      let series = series_of key s in
      let increment = tick_increment series.last_cumulative_volume volume in
      if is_empty key
      then s
      else insert key
          (record {
            frames = λ tf.
                tick_frame tf (bucket_start received_at tf) price increment (series.frames tf);
            last_cumulative_volume = volume;
          })
          s

  unfoldable pub on_tick_event : TickEvent P → CandleStore P → CandleStore P
  unfolding update_live_candle
  on_tick_event e s = elim e.ltp [
    | none ↦ s
    | some ltp ↦
        if is_empty e.symbol
        then s
        else update_live_candle e.symbol ltp (or_default e.volume 0) e.received_at s
  ]
