-- ===== src/Portfolio/Replay.antt =====
-- The loop `_replay_fill_rows` of backend/portfolio/rebuild.py on rows that have an id: what one round
-- does to the ids and the tracker, and a second run over the same rows.
use indian_algo_trading_plat.Common.{
  ◌≡◌, ◌∙◌, refl, ap, String, false, not, ◌||◌, Option, none, some, List, [], ◌∷◌, ◌++◌, map, arith,
  if◌then◌else◌, is_empty, Bool-cases, inl, inr, All,
}
use indian_algo_trading_plat.Common.Int.{pos, leb_ℤ}
use indian_algo_trading_plat.Common.Float.{Float, nought}
use indian_algo_trading_plat.Types.{OrderStatus, OrderStateEvent, known_side, same_status}
use indian_algo_trading_plat.OrderStore.{FillRow, upper_side}
use indian_algo_trading_plat.FeeModel.{Fees, FeeResult, charged, refused, calculate}
use indian_algo_trading_plat.Market.{is_zero}
use indian_algo_trading_plat.Portfolio.Positions.{
  PositionTracker, FillEntry, Booked, booked, unbooked, book, on_fill, entry_of,
}
use indian_algo_trading_plat.Portfolio.Quantities.{book-fill_history}
use indian_algo_trading_plat.Portfolio.Rebuild.{
  Replay, is_seen, event_of_fill, apply_event, error_replaying, replay_row, replay_rows, skip_with,
  done_with,
}

module _ {P : Type 0} ⦃d : Float P⦄ where
  abbrev fee_in : FeeResult P → Option P
  fee_in (charged f) = some f.total_fees
  fee_in (refused x) = none

  -- The fee of a row that can be replayed.
  abbrev pub fee_of : FillRow P → Option P
  fee_of row =
      if leb_ℤ row.filled_quantity (pos 0)
        || is_zero row.fill_price
        || d.le row.fill_price nought
        || not (known_side (upper_side row.side))
      then none
      else fee_in (calculate (upper_side row.side) row.filled_quantity row.fill_price)

  abbrev pub kept_or_applied :
      (FillRow P → String)
      → FillRow P
      → List String × PositionTracker P
      → Option P
      → List String × PositionTracker P
  kept_or_applied fresh row s none = s
  kept_or_applied fresh row (ids, t) (some fee) =
      (ids ++ row.fill_id ∷ [], book (event_of_fill (fresh row) row) row.fill_price fee t)

  -- The ids and the tracker that one round leaves, without the summary.
  abbrev pub core :
      (FillRow P → String)
      → FillRow P
      → List String × PositionTracker P
      → List String × PositionTracker P
  core fresh row (ids, t) =
      if is_seen row.fill_id ids then (ids, t) else kept_or_applied fresh row (ids, t) (fee_of row)

  abbrev pub state_of : Replay P → List String × PositionTracker P
  state_of s = (s.seen_ids, s.tracker)

  on_fill_booked :
      (e : OrderStateEvent P) (f : Fees P) (price : P) (t : PositionTracker P)
      → e.status ≡ OrderStatus.filled
      → e.avg_fill_price ≡ some price
      → d.le price nought ≡ false
      → leb_ℤ e.filled_quantity (pos 0) ≡ false
      → on_fill e (some f) t ≡ booked (book e price f.total_fees t)
  unfolding on_fill same_status
  on_fill_booked e f price t done priced p g = rw (done, priced, p, g) refl

  abbrev applied :
      FillRow P → OrderStateEvent P → Replay P → Option P → List String × PositionTracker P
  applied row e s none = state_of s
  applied row e s (some fee) = (s.seen_ids ++ row.fill_id ∷ [], book e row.fill_price fee s.tracker)

  abbrev outcome : FillRow P → OrderStateEvent P → Replay P → Booked P → Replay P
  outcome row e s (booked t) = done_with row.fill_id e.symbol t s
  outcome row e s (unbooked x) = skip_with (error_replaying row.fill_id x) s

  -- The `try` block, from the result of the fee model on.
  abbrev tried : FillRow P → OrderStateEvent P → Replay P → FeeResult P → Replay P
  tried row e s (refused x) = skip_with (error_replaying row.fill_id x) s
  tried row e s (charged f) = outcome row e s (on_fill e (some f) s.tracker)

  tried_core :
      (row : FillRow P) (e : OrderStateEvent P) (s : Replay P) (r : FeeResult P)
      → is_empty row.fill_id ≡ false
      → e.status ≡ OrderStatus.filled
      → e.avg_fill_price ≡ some row.fill_price
      → d.le row.fill_price nought ≡ false
      → leb_ℤ e.filled_quantity (pos 0) ≡ false
      → state_of (tried row e s r) ≡ applied row e s (fee_in r)
  tried_core row e s (refused x) named done priced p g = refl
  tried_core row e s (charged f) named done priced p g =
      ap (λ b. state_of (outcome row e s b))
        (on_fill_booked e f row.fill_price s.tracker done priced p g)
      ∙ rw named refl

  apply_event-tried :
      (row : FillRow P) (e : OrderStateEvent P) (s : Replay P)
      → apply_event row.fill_id e row.fill_price s
        ≡ tried row e s (calculate e.side e.filled_quantity row.fill_price)
  unfolding apply_event
  apply_event-tried row e s = ground arith

  same_application :
      (fresh : FillRow P → String) (row : FillRow P) (s : Replay P) (fee : Option P)
      → applied row (event_of_fill (fresh row) row) s fee
        ≡ kept_or_applied fresh row (state_of s) fee
  same_application fresh row s none = refl
  same_application fresh row s (some fee) = refl

  usable_core :
      (fresh : FillRow P → String) (row : FillRow P) (s : Replay P)
      → is_empty row.fill_id ≡ false
      → d.le row.fill_price nought ≡ false
      → leb_ℤ row.filled_quantity (pos 0) ≡ false
      → state_of (apply_event row.fill_id (event_of_fill (fresh row) row) row.fill_price s)
        ≡ kept_or_applied fresh row
            (state_of s)
            (fee_in (calculate (upper_side row.side) row.filled_quantity row.fill_price))
  unfolding event_of_fill
  usable_core fresh row s named p q =
      ap state_of (apply_event-tried row (event_of_fill (fresh row) row) s)
      ∙ tried_core row (event_of_fill (fresh row) row) s
          (calculate (upper_side row.side) row.filled_quantity row.fill_price) named refl refl p q
      ∙ same_application fresh row s
          (fee_in (calculate (upper_side row.side) row.filled_quantity row.fill_price))

  -- One round on a row with an id.
  replay_row-core :
      (fresh : FillRow P → String) (row : FillRow P) (s : Replay P)
      → is_empty row.fill_id ≡ false
      → state_of (replay_row fresh row s) ≡ core fresh row (state_of s)
  unfolding replay_row
  replay_row-core fresh row s named =
      let e = event_of_fill (fresh row) row in
      elim (Bool-cases (is_seen row.fill_id s.seen_ids)) [
        | inl seen ↦ rw (named, seen) refl
        | inr new ↦ elim (Bool-cases (leb_ℤ row.filled_quantity (pos 0))) [
          | inl q ↦ rw (named, new, q) refl
          | inr q ↦ elim (Bool-cases (is_zero row.fill_price)) [
            | inl z ↦ rw (named, new, q, z) refl
            | inr z ↦ elim (Bool-cases (d.le row.fill_price nought)) [
              | inl p ↦ rw (named, new, q, z, p) refl
              | inr p ↦ elim (Bool-cases (known_side (upper_side row.side))) [
                | inr k ↦ rw (named, new, q, z, p, k) refl
                | inl k ↦ rw (named, new, q, z, p, k) (usable_core fresh row s named p q)
              ]
            ]
          ]
        ]
      ]

  abbrev pub cores :
      (FillRow P → String)
      → List (FillRow P)
      → List String × PositionTracker P
      → List String × PositionTracker P
  cores fresh [] s = s
  cores fresh (row ∷ rows) s = cores fresh rows (core fresh row s)

  -- Every row has an id.
  abbrev pub HasId : FillRow P → Type 0
  HasId row = is_empty row.fill_id ≡ false

  pub replay_rows-cores :
      (fresh : FillRow P → String) (rows : List (FillRow P)) (s : Replay P)
      → All HasId rows
      → state_of (replay_rows fresh rows s) ≡ cores fresh rows (state_of s)
  unfolding replay_rows
  replay_rows-cores fresh [] s h = refl
  replay_rows-cores fresh (row ∷ rows) s h =
      replay_rows-cores fresh rows (replay_row fresh row s) h.1
      ∙ ap (cores fresh rows) (replay_row-core fresh row s h.0)

  abbrev pub ids_of : PositionTracker P → List String
  ids_of t = map (λ (e : FillEntry P). e.event_id) t.fill_history

  -- The ids are those of the history.
  abbrev pub IsSynced : List String × PositionTracker P → Type 0
  IsSynced (ids, t) = ids ≡ ids_of t

  map-append_entry :
      (es : List (FillEntry P)) (e : FillEntry P)
      → map (λ (x : FillEntry P). x.event_id) (es ++ e ∷ [])
        ≡ map (λ (x : FillEntry P). x.event_id) es ++ e.event_id ∷ []
  map-append_entry [] e = refl
  map-append_entry (x ∷ es) e = ap (λ ys. x.event_id ∷ ys) (map-append_entry es e)

  applied-IsSynced :
      (fresh : FillRow P → String) (row : FillRow P) (ids : List String) (t : PositionTracker P)
      (fee : Option P)
      → HasId row
      → ids ≡ ids_of t
      → IsSynced (kept_or_applied fresh row (ids, t) fee)
  unfolding event_of_fill
  applied-IsSynced fresh row ids t none named h = h
  applied-IsSynced fresh row ids t (some fee) named h =
      let e = event_of_fill (fresh row) row in
      rw
        (
          book-fill_history e row.fill_price fee t,
          map-append_entry t.fill_history (entry_of e row.fill_price fee),
          named,
          h,
        )
        refl

  core-IsSynced :
      (fresh : FillRow P → String) (row : FillRow P) (ids : List String) (t : PositionTracker P)
      → HasId row
      → ids ≡ ids_of t
      → IsSynced (core fresh row (ids, t))
  core-IsSynced fresh row ids t named h = elim (Bool-cases (is_seen row.fill_id ids)) [
    | inl seen ↦ rw seen h
    | inr new ↦ rw new (applied-IsSynced fresh row ids t (fee_of row) named h)
  ]

  pub cores-IsSynced :
      (fresh : FillRow P → String) (rows : List (FillRow P)) (s : List String × PositionTracker P)
      → All HasId rows
      → IsSynced s
      → IsSynced (cores fresh rows s)
  cores-IsSynced fresh [] s h k = k
  cores-IsSynced fresh (row ∷ rows) (ids, t) h k =
      cores-IsSynced fresh rows (core fresh row (ids, t)) h.1 (core-IsSynced fresh row ids t h.0 k)
