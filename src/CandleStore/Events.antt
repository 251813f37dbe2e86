-- ===== src/CandleStore/Events.antt =====
-- backend/candles/candle_store.py: the store after tick events of any symbols against the ticks of each
-- symbol. A history of events has the latest first.
use indian_algo_trading_plat.Common.{
  ℕ, ◌≡◌, ◌∙◌, refl, sym, ap, subst, Bool, true, false, not, ◌&&◌, none, some, List, [], ◌∷◌,
  String, arith, if◌then◌else◌, Bool-cases, Option-cases, inl, inr, is_empty, str_eq, eq_iff,
  or_default,
}
use indian_algo_trading_plat.Common.Float.{Float}
use indian_algo_trading_plat.Common.Dict.{lookup, insert, lookup-insert, lookup-insert_self}
use indian_algo_trading_plat.CandleStore.{
  Timeframe, bucket_start, tick_increment, Frame, Series, CandleStore, TickEvent, normalized,
  series_of, empty_series, tick_frame, update_live_candle, on_tick_event,
}
use indian_algo_trading_plat.CandleStore.Ticks.{Trade, after_ticks}

module _ {P : Type 0} where
  -- The event counts for the symbol: it has a price and the symbol's text.
  abbrev pub is_about : String → TickEvent P → Bool
  is_about key e =
      not (is_empty e.symbol)
      && (not (is_empty (normalized e.symbol)) && str_eq (normalized e.symbol) key)

  abbrev volume_of : TickEvent P → ℕ
  volume_of e = or_default e.volume 0

  -- The symbol's cumulative volume at its last event.
  unfoldable pub volume_at : String → List (TickEvent P) → ℕ
  volume_at key [] = 0
  volume_at key (e ∷ es) =
      let before = volume_at key es in
      elim e.ltp [ none ↦ before | some ltp ↦ if is_about key e then volume_of e else before ]

  -- The symbol's ticks, with the volumes that they add.
  unfoldable pub trades_of : String → List (TickEvent P) → List (Trade P)
  unfolding volume_at
  trades_of key [] = []
  trades_of key (e ∷ es) =
      let before = trades_of key es in
      elim e.ltp [
        | none ↦ before
        | some ltp ↦
            if is_about key e
            then record {
              price = ltp;
              increment = tick_increment (volume_at key es) (volume_of e);
              received_at = e.received_at;
            }
              ∷ before
            else before
      ]

module _ {P : Type 0} ⦃d : Float P⦄ where
  unfoldable pub after_events : List (TickEvent P) → CandleStore P
  unfolding on_tick_event
  after_events [] = []
  after_events (e ∷ es) = on_tick_event e (after_events es)

  -- What a series of the store has to be.
  record IsSeries (key : String) (es : List (TickEvent P)) (s : Series P) : Type 0 where
    frames_of : (tf : Timeframe) → s.frames tf ≡ after_ticks tf (trades_of key es)
    volume : s.last_cumulative_volume ≡ volume_at key es

  -- One tick of the series' own symbol.
  abbrev after_tick : P → ℕ → ℕ → Series P → Series P
  after_tick ltp volume received_at series = record {
    frames = λ tf.
        tick_frame tf (bucket_start received_at tf) ltp
          (tick_increment series.last_cumulative_volume volume) (series.frames tf);
    last_cumulative_volume = volume;
  }

  about_symbol :
      (key : String) (e : TickEvent P)
      → is_about key e ≡ true
      → (is_empty e.symbol ≡ false)
        × (is_empty (normalized e.symbol) ≡ false)
        × (normalized e.symbol ≡ key)
  about_symbol key e h = ground (arith, h, eq_iff (normalized e.symbol) key)

  series_of-heard :
      (key : String) (e : TickEvent P) (s : CandleStore P) (ltp : P)
      → e.ltp ≡ some ltp
      → is_about key e ≡ true
      → series_of key (on_tick_event e s)
        ≡ after_tick ltp (volume_of e) e.received_at (series_of key s)
  unfolding on_tick_event update_live_candle
  series_of-heard key e s ltp priced h =
      let (named, used, same) = about_symbol key e h in
      let new = after_tick ltp (volume_of e) e.received_at (series_of (normalized e.symbol) s) in
      let own =
        ap (λ o. or_default o empty_series) (lookup-insert_self (normalized e.symbol) new s) in
      rw (priced) (
        rw (named) (
          rw (used) (
            subst
              (λ k.
                or_default (lookup k (insert (normalized e.symbol) new s)) empty_series
                ≡ after_tick ltp (volume_of e) e.received_at (series_of k s))
              same own)))

  series_of-unheard :
      (key : String) (e : TickEvent P) (s : CandleStore P) (ltp : P)
      → e.ltp ≡ some ltp
      → is_about key e ≡ false
      → series_of key (on_tick_event e s) ≡ series_of key s
  unfolding on_tick_event update_live_candle
  series_of-unheard key e s ltp priced h = rw (priced) (
      ground (
        arith,
        h,
        eq_iff (normalized e.symbol) key,
        lookup-insert (normalized e.symbol) key
            (after_tick ltp (volume_of e) e.received_at (series_of (normalized e.symbol) s)) s,
      ))

  abbrev updated_frame : Timeframe → P → ℕ → TickEvent P → Frame P → Frame P
  updated_frame tf ltp last e f =
      tick_frame tf (bucket_start e.received_at tf) ltp (tick_increment last (volume_of e)) f

  new-IsSeries : (key : String) → IsSeries key [] (empty_series {P = P})
  unfolding volume_at trades_of after_ticks
  new-IsSeries key = record { frames_of = λ tf. refl; volume = refl }

  -- The tick of an event.
  abbrev trade : P → ℕ → TickEvent P → Trade P
  trade ltp before e = record {
    price = ltp;
    increment = tick_increment before (volume_of e);
    received_at = e.received_at;
  }

  trades_of-heard :
      (key : String) (e : TickEvent P) (es : List (TickEvent P)) (ltp : P)
      → e.ltp ≡ some ltp
      → is_about key e ≡ true
      → (trades_of key (e ∷ es) ≡ trade ltp (volume_at key es) e ∷ trades_of key es)
        × (volume_at key (e ∷ es) ≡ volume_of e)
  unfolding volume_at trades_of
  trades_of-heard key e es ltp priced about =
      (ground (arith, priced, about), ground (arith, priced, about))

  trades_of-unheard :
      (key : String) (e : TickEvent P) (es : List (TickEvent P)) (ltp : P)
      → e.ltp ≡ some ltp
      → is_about key e ≡ false
      → (trades_of key (e ∷ es) ≡ trades_of key es) × (volume_at key (e ∷ es) ≡ volume_at key es)
  unfolding volume_at trades_of
  trades_of-unheard key e es ltp priced about =
      (ground (arith, priced, about), ground (arith, priced, about))

  heard-IsSeries :
      (key : String) (e : TickEvent P) (es : List (TickEvent P)) (t : Series P) (ltp : P)
      → e.ltp ≡ some ltp
      → is_about key e ≡ true
      → IsSeries key es t
      → IsSeries key (e ∷ es) (after_tick ltp (volume_of e) e.received_at t)
  unfolding after_ticks
  heard-IsSeries key e es t ltp priced about h =
      let (ticks, volume) = trades_of-heard key e es ltp priced about in
      record {
        frames_of = λ tf.
            subst
              (λ v.
                updated_frame tf ltp v e (t.frames tf) ≡ after_ticks tf (trades_of key (e ∷ es)))
              (sym h.volume)
              (ap (updated_frame tf ltp (volume_at key es) e) (h.frames_of tf)
                ∙ sym (ap (after_ticks tf) ticks));
        volume = sym volume;
      }

  unheard-IsSeries :
      (key : String) (e : TickEvent P) (es : List (TickEvent P)) (t : Series P) (ltp : P)
      → e.ltp ≡ some ltp
      → is_about key e ≡ false
      → IsSeries key es t
      → IsSeries key (e ∷ es) t
  unheard-IsSeries key e es t ltp priced about h =
      let (ticks, volume) = trades_of-unheard key e es ltp priced about in
      record {
        frames_of = λ tf. h.frames_of tf ∙ sym (ap (after_ticks tf) ticks);
        volume = h.volume ∙ sym volume;
      }

  silent-IsSeries :
      (key : String) (e : TickEvent P) (es : List (TickEvent P)) (s : CandleStore P)
      → e.ltp ≡ none
      → IsSeries key es (series_of key s)
      → IsSeries key (e ∷ es) (series_of key (on_tick_event e s))
  unfolding on_tick_event trades_of volume_at
  silent-IsSeries key e es s silent h =
      let ticks : trades_of key (e ∷ es) ≡ trades_of key es = ground (arith, silent) in
      let volume : volume_at key (e ∷ es) ≡ volume_at key es = ground (arith, silent) in
      let same : on_tick_event e s ≡ s = ground (arith, silent) in
      subst (λ x. IsSeries key (e ∷ es) (series_of key x)) (sym same)
        (record {
          frames_of = λ tf. h.frames_of tf ∙ sym (ap (after_ticks tf) ticks);
          volume = h.volume ∙ sym volume;
        })

  event-IsSeries :
      (key : String) (e : TickEvent P) (es : List (TickEvent P)) (s : CandleStore P)
      → IsSeries key es (series_of key s)
      → IsSeries key (e ∷ es) (series_of key (on_tick_event e s))
  event-IsSeries key e es s h = elim (Option-cases e.ltp) [
    | inl silent ↦ silent-IsSeries key e es s silent h
    | inr (ltp, priced) ↦ elim (Bool-cases (is_about key e)) [
      | inl about ↦
          subst (IsSeries key (e ∷ es)) (sym (series_of-heard key e s ltp priced about))
            (heard-IsSeries key e es (series_of key s) ltp priced about h)
      | inr other ↦
          subst (IsSeries key (e ∷ es)) (sym (series_of-unheard key e s ltp priced other))
            (unheard-IsSeries key e es (series_of key s) ltp priced other h)
    ]
  ]

  after_events-IsSeries :
      (key : String) (es : List (TickEvent P)) → IsSeries key es (series_of key (after_events es))
  unfolding after_events
  after_events-IsSeries key [] = new-IsSeries key
  after_events-IsSeries key (e ∷ es) =
      event-IsSeries key e es (after_events es) (after_events-IsSeries key es)

  -- After any tick events of any symbols, what the store holds of a symbol in a timeframe is what the
  -- loop over that symbol's own ticks alone leaves, with the volumes that they add to the cumulative
  -- volume of that symbol.
  pub after_events-frames :
      (key : String) (tf : Timeframe) (es : List (TickEvent P))
      → (series_of key (after_events es)).frames tf ≡ after_ticks tf (trades_of key es)
  after_events-frames key tf es = (after_events-IsSeries key es).frames_of tf
