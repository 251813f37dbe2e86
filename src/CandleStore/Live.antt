-- ===== src/CandleStore/Live.antt =====
-- backend/candles/candle_store.py: the live candle against the ticks of its bucket.
use indian_algo_trading_plat.Common.{
  ℕ, ◌+◌, ◌≤◌, ◌<◌, ◌≡◌, ◌∙◌, refl, sym, ap, subst, some, List, [], ◌∷◌, arith, if◌then◌else◌, ltb,
  ◌==◌, ◌⊎◌, inl, inr, Bool-cases,
}
use indian_algo_trading_plat.Common.Float.{Float}
use indian_algo_trading_plat.CandleStore.{
  Timeframe, Candle, Frame, new_candle, merged_tick, tick_frame,
}
use indian_algo_trading_plat.CandleStore.Ticks.{
  Trade, bucket_of, latest_bucket, ticks_in, first_price, total_volume, highest, lowest,
  full_candle, candle_of, after_ticks,
}

module _ {P : Type 0} ⦃d : Float P⦄ where
  Frame-live :
      (tf : Timeframe) (t : Trade P) (f : Frame P) (c : Candle P)
      → f.live ≡ some c
      → (tick_frame tf (bucket_of tf t) t.price t.increment f).live ≡ (
          if c.time == bucket_of tf t
          then some (merged_tick t.price t.increment c)
          else if ltb c.time (bucket_of tf t)
          then some (new_candle (bucket_of tf t) t.price t.increment)
          else some c)
  unfolding tick_frame
  Frame-live tf t f c h = rw (h) ground arith

  candle_of-more :
      (b : ℕ) (t u : Trade P) (us : List (Trade P)) (c : Candle P)
      → candle_of b (u ∷ us) ≡ some c
      → some (merged_tick t.price t.increment c) ≡ candle_of b (t ∷ u ∷ us)
  unfolding candle_of highest lowest total_volume first_price
  candle_of-more b t u us c h =
      let same : full_candle b u us ≡ c = ground (arith, h) in
      subst (λ x. some (merged_tick t.price t.increment x) ≡ candle_of b (t ∷ u ∷ us)) same refl

  -- No tick lies in a bucket after the latest.
  ticks_in-late :
      (tf : Timeframe) (b : ℕ) (ts : List (Trade P))
      → latest_bucket tf ts < b
      → ticks_in tf b ts ≡ []
  unfolding ticks_in latest_bucket
  ticks_in-late tf b [] h = refl
  ticks_in-late tf b (t ∷ ts) h = ground (arith, ticks_in-late tf b ts)

  latest_bucket-cases :
      (tf : Timeframe) (t : Trade P) (ts : List (Trade P))
      → ((latest_bucket tf (t ∷ ts) ≡ bucket_of tf t) × (latest_bucket tf ts < bucket_of tf t))
        ⊎ ((latest_bucket tf (t ∷ ts) ≡ latest_bucket tf ts)
            × (bucket_of tf t ≤ latest_bucket tf ts))
  unfolding latest_bucket
  latest_bucket-cases tf t ts = elim (Bool-cases (ltb (latest_bucket tf ts) (bucket_of tf t))) [
    | inl after ↦ inl (ground (arith, after), ground (arith, after))
    | inr before ↦ inr (ground (arith, before), ground (arith, before))
  ]

  ticks_in-hit :
      (tf : Timeframe) (b : ℕ) (t : Trade P) (ts : List (Trade P))
      → bucket_of tf t ≡ b
      → ticks_in tf b (t ∷ ts) ≡ t ∷ ticks_in tf b ts
  unfolding ticks_in
  ticks_in-hit tf b t ts h = ground (arith, h)

  ticks_in-miss :
      (tf : Timeframe) (b : ℕ) (t : Trade P) (ts : List (Trade P))
      → bucket_of tf t < b
      → ticks_in tf b (t ∷ ts) ≡ ticks_in tf b ts
  unfolding ticks_in
  ticks_in-miss tf b t ts h = ground (arith, h)

  first_bucket :
      (tf : Timeframe) (t : Trade P)
      → bucket_of tf t ≤ latest_bucket {P = P} tf []
      → bucket_of tf t ≡ latest_bucket {P = P} tf []
  unfolding latest_bucket
  first_bucket tf t h = omega (arith, h)

  -- Some tick lies in a bucket.
  abbrev IsUsed : Timeframe → ℕ → List (Trade P) → Type 0
  IsUsed tf b ts = (u : Trade P) × (us : List (Trade P)) × (ticks_in tf b ts ≡ u ∷ us)

  IsUsed-hit :
      (tf : Timeframe) (b : ℕ) (t : Trade P) (ts : List (Trade P))
      → bucket_of tf t ≡ b
      → IsUsed tf b (t ∷ ts)
  IsUsed-hit tf b t ts h = (t, ticks_in tf b ts, ticks_in-hit tf b t ts h)

  IsUsed-older :
      (tf : Timeframe) (b : ℕ) (t : Trade P) (ts : List (Trade P))
      → bucket_of tf t ≤ b
      → IsUsed tf b ts
      → IsUsed tf b (t ∷ ts)
  IsUsed-older tf b t ts h (u, us, found) = elim (Bool-cases (bucket_of tf t == b)) [
    | inl at ↦ IsUsed-hit tf b t ts (ground (arith, at))
    | inr other ↦ (u, us, ticks_in-miss tf b t ts (ground (arith, other, h)) ∙ found)
  ]

  latest_bucket-IsUsed :
      (tf : Timeframe) (ts : List (Trade P)) (t : Trade P)
      → IsUsed tf (latest_bucket tf (t ∷ ts)) (t ∷ ts)
  latest_bucket-IsUsed tf [] t = elim (latest_bucket-cases tf t []) [
    | inl (now, h) ↦ IsUsed-hit tf _ t [] (sym now)
    | inr (before, h) ↦ IsUsed-hit tf _ t [] (first_bucket tf t h ∙ sym before)
  ]
  latest_bucket-IsUsed tf (u ∷ us) t = elim (latest_bucket-cases tf t (u ∷ us)) [
    | inl (now, h) ↦ IsUsed-hit tf _ t (u ∷ us) (sym now)
    | inr (before, h) ↦
        subst (λ b. IsUsed tf b (t ∷ u ∷ us)) (sym before)
          (IsUsed-older tf _ t (u ∷ us) h (latest_bucket-IsUsed tf us u))
  ]

  candle_of-one :
      (tf : Timeframe) (t : Trade P)
      → candle_of (bucket_of tf t) (t ∷ []) ≡ some (new_candle (bucket_of tf t) t.price t.increment)
  unfolding candle_of new_candle highest lowest total_volume first_price
  candle_of-one tf t =
      let none_before : 0 + t.increment ≡ t.increment = omega arith in
      ap
        (λ v. some (record {
          time = bucket_of tf t;
          open_price = t.price;
          high = t.price;
          low = t.price;
          close = t.price;
          volume = v;
        }))
        none_before

  -- A tick of a later bucket starts its candle.
  later_tick :
      (tf : Timeframe) (t : Trade P) (ts : List (Trade P)) (f : Frame P) (c : Candle P)
      → latest_bucket tf ts < bucket_of tf t
      → c.time ≡ latest_bucket tf ts
      → f.live ≡ some c
      → (tick_frame tf (bucket_of tf t) t.price t.increment f).live
        ≡ candle_of (bucket_of tf t) (ticks_in tf (bucket_of tf t) (t ∷ ts))
  later_tick tf t ts f c late at live =
      let left = Frame-live tf t f c live in
      let new : _ ≡ some (new_candle (bucket_of tf t) t.price t.increment) =
        ground (arith, late, at, left) in
      let only =
        ticks_in-hit tf (bucket_of tf t) t ts refl
        ∙ ap (λ us. t ∷ us) (ticks_in-late tf (bucket_of tf t) ts late) in
      new ∙ sym (ap (candle_of (bucket_of tf t)) only ∙ candle_of-one tf t)

  -- A tick of the live bucket is merged, and one of an earlier bucket is dropped.
  earlier_tick :
      (tf : Timeframe) (b : ℕ) (t : Trade P) (ts : List (Trade P)) (f : Frame P) (c : Candle P)
      → bucket_of tf t ≤ b
      → c.time ≡ b
      → IsUsed tf b ts
      → candle_of b (ticks_in tf b ts) ≡ some c
      → f.live ≡ some c
      → (tick_frame tf (bucket_of tf t) t.price t.increment f).live
        ≡ candle_of b (ticks_in tf b (t ∷ ts))
  earlier_tick tf b t ts f c early at (u, us, found) here live =
      let left = Frame-live tf t f c live in
      elim (Bool-cases (c.time == bucket_of tf t)) [
        | inl same ↦
            (let merge : (tick_frame tf (bucket_of tf t) t.price t.increment f).live
                  ≡ some (merged_tick t.price t.increment c) =
                left ∙ rw (same) refl in
              let all =
                ticks_in-hit tf b t ts (ground (arith, same, at)) ∙ ap (λ xs. t ∷ xs) found in
              merge
              ∙ candle_of-more b t u us c (sym (ap (candle_of b) found) ∙ here)
              ∙ sym (ap (candle_of b) all))
        | inr other ↦
            (let keep : (tick_frame tf (bucket_of tf t) t.price t.increment f).live ≡ some c =
                ground (arith, other, at, early, left) in
              keep
              ∙ sym here
              ∙ sym (ap (candle_of b) (ticks_in-miss tf b t ts (ground (arith, other, at, early)))))
      ]

  empty_lem :
      (tf : Timeframe)
      → (after_ticks {P = P} tf []).live
        ≡ candle_of (latest_bucket {P = P} tf []) (ticks_in tf (latest_bucket {P = P} tf []) [])
  unfolding after_ticks latest_bucket ticks_in candle_of
  empty_lem tf = refl

  single_bucket : (tf : Timeframe) (t : Trade P) → latest_bucket tf (t ∷ []) ≡ bucket_of tf t
  single_bucket tf t = elim (latest_bucket-cases tf t []) [
    | inl (now, h) ↦ now
    | inr (before, h) ↦ before ∙ sym (first_bucket tf t h)
  ]

  no_more : (tf : Timeframe) (t : Trade P) → t ∷ ticks_in tf (bucket_of tf t) [] ≡ t ∷ []
  unfolding ticks_in
  no_more tf t = refl

  single_lem :
      (tf : Timeframe) (t : Trade P)
      → (after_ticks tf (t ∷ [])).live
        ≡ candle_of (latest_bucket tf (t ∷ [])) (ticks_in tf (latest_bucket tf (t ∷ [])) (t ∷ []))
  unfolding after_ticks tick_frame
  single_lem tf t =
      let at = single_bucket tf t in
      let start =
        sym (candle_of-one tf t)
        ∙ sym (
            ap (candle_of (bucket_of tf t))
              (ticks_in-hit tf (bucket_of tf t) t [] refl ∙ no_more tf t)) in
      subst (λ x. (after_ticks tf (t ∷ [])).live ≡ candle_of x (ticks_in tf x (t ∷ []))) (sym at)
        start

  used_candle :
      (b : ℕ) (ts : List (Trade P)) {u : Trade P} {us : List (Trade P)}
      → ts ≡ u ∷ us
      → candle_of b ts ≡ some (full_candle b u us)
  unfolding candle_of
  used_candle b ts h = rw (h) refl

  -- The live candle of a timeframe, after any ticks on an empty frame, is the candle of the ticks of the
  -- latest bucket, in whatever order they came: it opens with the first price of that bucket and closes
  -- with the last, its high and low are the highest and the lowest price of it, and its volume is the
  -- sum of what its ticks add. Ticks of earlier buckets, late ones included, have no part in it.
  pub after_ticks-live :
      (tf : Timeframe) (ts : List (Trade P))
      → (after_ticks tf ts).live
        ≡ candle_of (latest_bucket tf ts) (ticks_in tf (latest_bucket tf ts) ts)
  unfolding after_ticks
  after_ticks-live tf [] = empty_lem tf
  after_ticks-live tf (t ∷ []) = single_lem tf t
  after_ticks-live tf (t ∷ v ∷ vs) =
      let ts = v ∷ vs in
      let b = latest_bucket tf ts in
      let (u, us, found) = latest_bucket-IsUsed tf vs v in
      let c = full_candle b u us in
      let here = used_candle b (ticks_in tf b ts) found in
      let live = after_ticks-live tf (v ∷ vs) ∙ here in
      elim (latest_bucket-cases tf t ts) [
        | inl (now, late) ↦
            subst (λ x. (after_ticks tf (t ∷ ts)).live ≡ candle_of x (ticks_in tf x (t ∷ ts)))
              (sym now) (later_tick tf t ts (after_ticks tf ts) c late refl live)
        | inr (before, early) ↦
            subst (λ x. (after_ticks tf (t ∷ ts)).live ≡ candle_of x (ticks_in tf x (t ∷ ts)))
              (sym before)
              (earlier_tick tf b t ts (after_ticks tf ts) c early refl (u, us, found) here live)
      ]
