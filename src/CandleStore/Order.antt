-- ===== src/CandleStore/Order.antt =====
-- backend/candles/candle_store.py: the order of the candles of one symbol and timeframe, as ticks close
-- them and as a load of historical candles merges them, and the volumes that ticks add.
use indian_algo_trading_plat.Common.{
  ℕ, zero, suc, ◌+◌, ◌%◌, ◌≤◌, ◌<◌, ◌≡◌, ◌≢◌, refl, sym, subst, Option, none, some, List, [], ◌∷◌,
  ◌++◌, arith, ltb, ◌==◌, drop, length, length-last_n-le, All, All-append, All-drop, Bool-cases,
  inl, inr,
}
use indian_algo_trading_plat.Common.Float.{Float}
use indian_algo_trading_plat.CandleStore.{
  Timeframe, one_minute, five_minutes, fifteen_minutes, one_hour, one_day, max_candles,
  interval_seconds, bucket_start, tick_increment, Candle, RawCandle, Frame, put, put_all, clean_all,
  place, sorted, merged_candles, append_candle, tick_frame, new_candle,
}
use indian_algo_trading_plat.CandleStore.Ticks.{Trade, bucket_of, after_ticks}

-- A timestamp lies in its bucket, which starts at a multiple of the timeframe's interval.
pub bucket_start_bounds :
    (timestamp : ℕ) (tf : Timeframe)
    → (bucket_start timestamp tf % interval_seconds tf ≡ 0)
      × (bucket_start timestamp tf ≤ timestamp)
      × (timestamp < bucket_start timestamp tf + interval_seconds tf)
unfolding bucket_start interval_seconds
bucket_start_bounds t one_minute = omega arith
bucket_start_bounds t five_minutes = omega arith
bucket_start_bounds t fifteen_minutes = omega arith
bucket_start_bounds t one_hour = omega arith
bucket_start_bounds t one_day = omega arith

module _ {P : Type 0} where
  abbrev After : Candle P → Candle P → Type 0
  After c x = c.time < x.time

  -- The times go up from candle to candle.
  abbrev pub IsSorted : List (Candle P) → Type 0
  IsSorted [] = Unit
  IsSorted (c ∷ cs) = All (After c) cs × IsSorted cs

  abbrev Other : Candle P → Candle P → Type 0
  Other c x = c.time ≢ x.time

  -- No time occurs twice.
  abbrev IsUnique : List (Candle P) → Type 0
  IsUnique [] = Unit
  IsUnique (c ∷ cs) = All (Other c) cs × IsUnique cs

  put-All :
      (p : Candle P → Type 0) (c : Candle P) (cs : List (Candle P))
      → p c
      → All p cs
      → All p (put c cs)
  put-All p c [] h k = (h, tt)
  put-All p c (x ∷ xs) h k = elim (Bool-cases (x.time == c.time)) [
    | inl same ↦ rw (same) (h, k.1)
    | inr other ↦ rw (other) (k.0, put-All p c xs h k.1)
  ]

  Other-same :
      (x c : Candle P) (cs : List (Candle P))
      → x.time ≡ c.time
      → All (Other x) cs
      → All (Other c) cs
  Other-same x c [] h k = tt
  Other-same x c (y ∷ ys) h k = (ground (arith, h, k.0), Other-same x c ys h k.1)

  put-IsUnique : (c : Candle P) (cs : List (Candle P)) → IsUnique cs → IsUnique (put c cs)
  put-IsUnique c [] h = (tt, tt)
  put-IsUnique c (x ∷ xs) h = elim (Bool-cases (x.time == c.time)) [
    | inl same ↦ rw (same) (Other-same x c xs (ground (arith, same)) h.0, h.1)
    | inr other ↦
        rw (other) (put-All (Other x) c xs (ground (arith, other)) h.0, put-IsUnique c xs h.1)
  ]

  put_all-IsUnique : (cs merged : List (Candle P)) → IsUnique merged → IsUnique (put_all cs merged)
  put_all-IsUnique [] merged h = h
  put_all-IsUnique (c ∷ cs) merged h = put_all-IsUnique cs (put c merged) (put-IsUnique c merged h)

  place-All :
      (p : Candle P → Type 0) (c : Candle P) (cs : List (Candle P))
      → p c
      → All p cs
      → All p (place c cs)
  place-All p c [] h k = (h, tt)
  place-All p c (x ∷ xs) h k = elim (Bool-cases (ltb x.time c.time)) [
    | inl before ↦ rw (before) (k.0, place-All p c xs h k.1)
    | inr after ↦ rw (after) (h, k)
  ]

  sorted-All : (p : Candle P → Type 0) (cs : List (Candle P)) → All p cs → All p (sorted cs)
  sorted-All p [] h = tt
  sorted-All p (c ∷ cs) h = place-All p c (sorted cs) h.0 (sorted-All p cs h.1)

  raise-All :
      (c x : Candle P) (cs : List (Candle P))
      → c.time < x.time
      → All (After x) cs
      → All (After c) cs
  raise-All c x [] h k = tt
  raise-All c x (y ∷ ys) h k = (omega (arith, h, k.0), raise-All c x ys h k.1)

  place-IsSorted :
      (c : Candle P) (cs : List (Candle P)) → All (Other c) cs → IsSorted cs → IsSorted (place c cs)
  place-IsSorted c [] h k = (tt, tt)
  place-IsSorted c (x ∷ xs) h k = elim (Bool-cases (ltb x.time c.time)) [
    | inl before ↦
        rw (before)
          (place-All (After x) c xs (ground (arith, before)) k.0, place-IsSorted c xs h.1 k.1)
    | inr after ↦
        (let below : c.time < x.time = ground (arith, after, h.0) in
          rw (after) ((below, raise-All c x xs below k.0), k))
  ]

  sorted-IsSorted : (cs : List (Candle P)) → IsUnique cs → IsSorted (sorted cs)
  sorted-IsSorted [] h = tt
  sorted-IsSorted (c ∷ cs) h =
      place-IsSorted c (sorted cs) (sorted-All (Other c) cs h.0) (sorted-IsSorted cs h.1)

  drop-IsSorted : (n : ℕ) (cs : List (Candle P)) → IsSorted cs → IsSorted (drop n cs)
  drop-IsSorted zero cs h = h
  drop-IsSorted (suc n) [] h = h
  drop-IsSorted (suc n) (c ∷ cs) h = drop-IsSorted n cs h.1

  -- A load of historical candles leaves candles whose times go up strictly, whatever the order and the
  -- repetitions of those stored and those given, and at most the timeframe's number.
  pub merged_candles-IsSorted :
      (tf : Timeframe) (given : List (RawCandle P)) (stored : List (Candle P))
      → IsSorted (merged_candles tf given stored)
        × (length (merged_candles tf given stored) ≤ max_candles tf)
  unfolding merged_candles
  merged_candles-IsSorted tf given stored =
      let merged = put_all (clean_all given) (put_all stored []) in
      let unique =
        put_all-IsUnique (clean_all given) (put_all stored []) (put_all-IsUnique stored [] tt) in
      (
        drop-IsSorted _ (sorted merged) (sorted-IsSorted merged unique),
        length-last_n-le (max_candles tf) (sorted merged),
      )

  abbrev LiveIsLast : Timeframe → List (Candle P) → Option (Candle P) → Type 0
  LiveIsLast tf cs none = cs ≡ []
  LiveIsLast tf cs (some l) = (l.time % interval_seconds tf ≡ 0) × All (λ c. c.time < l.time) cs

  -- The closed candles come in the order of their times, all start at multiples of the interval, the
  -- live one does so too and is after them, and there are at most the timeframe's number of them.
  pub record IsChronological (tf : Timeframe) (f : Frame P) : Type 0 where
    pub in_order : IsSorted f.candles
    pub aligned : All (λ c. c.time % interval_seconds tf ≡ 0) f.candles
    pub last_is_live : LiveIsLast tf f.candles f.live
    pub few : length f.candles ≤ max_candles tf

  append-IsSorted :
      (cs : List (Candle P)) (l : Candle P)
      → IsSorted cs
      → All (λ c. c.time < l.time) cs
      → IsSorted (cs ++ l ∷ [])
  append-IsSorted [] l h k = (tt, tt)
  append-IsSorted (c ∷ cs) l h k =
      (All-append (After c) cs (l ∷ []) h.0 (k.0, tt), append-IsSorted cs l h.1 k.1)

  earlier-All :
      (cs : List (Candle P)) (a b : ℕ) → a < b → All (λ c. c.time < a) cs → All (λ c. c.time < b) cs
  earlier-All [] a b h k = tt
  earlier-All (c ∷ cs) a b h k = (omega (arith, h, k.0), earlier-All cs a b h k.1)

module _ {P : Type 0} ⦃d : Float P⦄ where
  -- A tick of a later bucket closes the live candle.
  closed-IsChronological :
      (tf : Timeframe) (t : Trade P) (cs : List (Candle P)) (l : Candle P)
      → IsChronological tf (record { candles = cs; live = some l })
      → l.time < bucket_of tf t
      → IsChronological tf (record {
        candles = append_candle tf l cs;
        live = some (new_candle (bucket_of tf t) t.price t.increment);
      })
  unfolding new_candle
  closed-IsChronological tf t cs l h later =
      let start = (bucket_start_bounds t.received_at tf).0 in
      let before =
        All-append (λ c. c.time < bucket_of tf t) cs (l ∷ [])
          (earlier-All cs l.time (bucket_of tf t) later h.last_is_live.1) (later, tt) in
      let whole =
        All-append (λ c. c.time % interval_seconds tf ≡ 0) cs (l ∷ []) h.aligned
          (h.last_is_live.0, tt) in
      record {
        in_order =
            drop-IsSorted _ (cs ++ l ∷ []) (append-IsSorted cs l h.in_order h.last_is_live.1);
        aligned = All-drop (λ c. c.time % interval_seconds tf ≡ 0) _ (cs ++ l ∷ []) whole;
        last_is_live = (start, All-drop (λ c. c.time < bucket_of tf t) _ (cs ++ l ∷ []) before);
        few = length-last_n-le (max_candles tf) (cs ++ l ∷ []);
      }

  tick_frame-IsChronological :
      (tf : Timeframe) (t : Trade P) (cs : List (Candle P)) (live : Option (Candle P))
      → IsChronological tf (record { candles = cs; live = live })
      → IsChronological tf (
          tick_frame tf (bucket_of tf t) t.price t.increment (record { candles = cs; live = live }))
  unfolding tick_frame new_candle
  tick_frame-IsChronological tf t cs none h =
      let at = bucket_start_bounds t.received_at tf in
      record {
        in_order = h.in_order;
        aligned = h.aligned;
        last_is_live = (at.0, subst (All (λ c. c.time < bucket_of tf t)) (sym h.last_is_live) tt);
        few = h.few;
      }
  tick_frame-IsChronological tf t cs (some l) h = elim (Bool-cases (l.time == bucket_of tf t)) [
    | inl same ↦ rw (same) (record {
      in_order = h.in_order;
      aligned = h.aligned;
      last_is_live = h.last_is_live;
      few = h.few;
    })
    | inr other ↦ elim (Bool-cases (ltb l.time (bucket_of tf t))) [
      | inl later ↦
          rw (other) (rw (later) (closed-IsChronological tf t cs l h (ground (arith, later))))
      | inr earlier ↦ rw (other) (rw (earlier) h)
    ]
  ]

  -- After any ticks on an empty frame the candles are in order: their times are multiples of the
  -- timeframe's interval that go up strictly, the live candle is after all of them, and there are at
  -- most the timeframe's number of closed ones.
  pub after_ticks-IsChronological :
      (tf : Timeframe) (ts : List (Trade P)) → IsChronological tf (after_ticks tf ts)
  unfolding after_ticks
  after_ticks-IsChronological tf [] = record {
    in_order = tt;
    aligned = tt;
    last_is_live = refl;
    few = omega arith;
  }
  after_ticks-IsChronological tf (t ∷ ts) =
      tick_frame-IsChronological tf t (after_ticks tf ts).candles (after_ticks tf ts).live
        (after_ticks-IsChronological tf ts)

-- The volumes that ticks add, from the cumulative volume before them and those at them.
unfoldable pub increments : ℕ → List ℕ → ℕ
unfolding tick_increment
increments last_cum [] = 0
increments last_cum (v ∷ vs) = tick_increment last_cum v + increments v vs

unfoldable pub last_volume : ℕ → List ℕ → ℕ
last_volume v [] = v
last_volume v (w ∷ ws) = last_volume w ws

abbrev pub IsCumulative : ℕ → List ℕ → Type 0
IsCumulative v [] = Unit
IsCumulative v (w ∷ ws) = (v ≤ w) × IsCumulative w ws

-- From a cumulative volume that is not 0, the volumes that ticks add come to the whole growth of
-- cumulative volumes that do not go down.
pub increments_lem :
    (v : ℕ) (vs : List ℕ) → 1 ≤ v → IsCumulative v vs → v + increments v vs ≡ last_volume v vs
unfolding increments last_volume tick_increment
increments_lem v [] h k = omega arith
increments_lem v (w ∷ ws) h k = ground (arith, h, k.0, increments_lem w ws, k.1)
