-- ===== src/Portfolio/Ledger.antt =====
-- A rebuild by backend/portfolio/rebuild.py of a new tracker, against the ledger: `ledger_from` is what
-- the rows amount to, without the code's events and trackers.
use indian_algo_trading_plat.Common.{
  ◌≡◌, ◌∙◌, refl, ap, String, true, false, ◌||◌, none, some, List, [], ◌∷◌, ◌++◌, arith,
  if◌then◌else◌, str_eq, is_empty, upper, any_of, All,
}
use indian_algo_trading_plat.Common.Int.{ℤ, pos, ◌≤ℤ◌}
use indian_algo_trading_plat.Common.Float.{Float, nought}
use indian_algo_trading_plat.OrderStore.{OrderStore, RequestRow, FillRow, upper_side}
use indian_algo_trading_plat.Types.{known_side}
use indian_algo_trading_plat.Portfolio.Quantities.{
  holding_after, holding, quantity_at, IsAccounted, book-IsAccounted, new_tracker-IsAccounted,
  book-fill_history, holding_from-append,
}
use indian_algo_trading_plat.Portfolio.Positions.{PositionTracker, book, entry_of, new_tracker}
use indian_algo_trading_plat.Portfolio.Rebuild.{
  is_seen, rebuild_portfolio_from_fills, event_of_fill,
}
use indian_algo_trading_plat.Portfolio.Replay.{fee_of, core, cores, kept_or_applied, HasId}
use indian_algo_trading_plat.Portfolio.Restart.{rebuild-tracker}
use indian_algo_trading_plat.OrderStore.Fills.{HasUniqueFills}
use indian_algo_trading_plat.FeeModel.{calculate_charges_iff}
use indian_algo_trading_plat.Common.{subst}
use indian_algo_trading_plat.Common.{sym}

is_seen-append_one :
    (id other : String) (ids : List String)
    → is_seen id (ids ++ other ∷ []) ≡ (is_seen id ids || str_eq id other)
is_seen-append_one id other [] = ground arith
is_seen-append_one id other (x ∷ ids) = ground (arith, is_seen-append_one id other ids)

module _ {P : Type 0} ⦃d : Float P⦄ where
  -- The quantity of a symbol that a ledger amounts to, from a first quantity.
  abbrev pub ledger_from : ℤ → List (FillRow P) → String → ℤ
  ledger_from q [] symbol = q
  ledger_from q (row ∷ rows) symbol =
      ledger_from
        (if str_eq (upper (upper row.symbol)) symbol
          then holding_after (upper_side row.side) row.filled_quantity q
          else q)
        rows symbol

  -- A row that the rebuild can replay: the condition of the fee model, and a price that is not 0.
  abbrev pub IsReplayable : FillRow P → Type 0
  IsReplayable row =
      (is_empty row.fill_id ≡ false)
      × (pos 1 ≤ℤ row.filled_quantity)
      × (d.le row.fill_price nought ≡ false)
      × (known_side (upper_side row.side) ≡ true)

  fee_of_replayable : (row : FillRow P) → IsReplayable row → (fee : P) × (fee_of row ≡ some fee)
  fee_of_replayable row h =
      let charge =
        (calculate_charges_iff (upper_side row.side) row.filled_quantity row.fill_price).1
          (h.1, h.2, h.3) in
      (charge.0.total_fees, ground (arith, charge.1))

  core_replayable :
      (fresh : FillRow P → String) (row : FillRow P) (ids : List String) (t : PositionTracker P)
      {fee : P}
      → is_seen row.fill_id ids ≡ false
      → fee_of row ≡ some fee
      → core fresh row (ids, t)
        ≡ (ids ++ row.fill_id ∷ [], book (event_of_fill (fresh row) row) row.fill_price fee t)
  core_replayable fresh row ids t new some_fee =
      rw new (ap (kept_or_applied fresh row (ids, t)) some_fee)

  abbrev IsUnseen : List String → FillRow P → Type 0
  IsUnseen ids row = is_seen row.fill_id ids ≡ false

  IsUnseen-append :
      (ids : List String) (id : String) (rows : List (FillRow P))
      → All (IsUnseen ids) rows
      → any_of (λ g. str_eq g.fill_id id) rows ≡ false
      → All (IsUnseen (ids ++ id ∷ [])) rows
  IsUnseen-append ids id [] h k = tt
  IsUnseen-append ids id (row ∷ rows) h k =
      ground (arith, is_seen-append_one row.fill_id id ids, IsUnseen-append ids id rows h.1)

  booked_row :
      (fresh : FillRow P → String) (row : FillRow P) (fee : P) (t : PositionTracker P)
      → IsReplayable row
      → IsAccounted t
      → IsAccounted (book (event_of_fill (fresh row) row) row.fill_price fee t)
  unfolding event_of_fill
  booked_row fresh row fee t h k =
      book-IsAccounted (event_of_fill (fresh row) row) row.fill_price fee t h.1 k

  held_after :
      (fresh : FillRow P → String) (row : FillRow P) (fee : P) (t : PositionTracker P)
      (symbol : String)
      → holding (book (event_of_fill (fresh row) row) row.fill_price fee t).fill_history symbol ≡ (
          if str_eq (upper (upper row.symbol)) symbol
          then holding_after
              (upper_side row.side)
              row.filled_quantity
              (holding t.fill_history symbol)
          else holding t.fill_history symbol)
  unfolding event_of_fill
  held_after fresh row fee t symbol =
      let e = event_of_fill (fresh row) row in
      rw (book-fill_history e row.fill_price fee t)
        (holding_from-append (pos 0) t.fill_history (entry_of e row.fill_price fee) symbol)

  -- The tracker that a list of rows leaves: it agrees with its history, and holds what the rows amount
  -- to on top of what it held.
  cores-ledger :
      (fresh : FillRow P → String) (rows : List (FillRow P)) (ids : List String)
      (t : PositionTracker P) (symbol : String)
      → All IsReplayable rows
      → HasUniqueFills rows
      → All (IsUnseen ids) rows
      → IsAccounted t
      → IsAccounted (cores fresh rows (ids, t)).1
        × (holding (cores fresh rows (ids, t)).1.fill_history symbol
            ≡ ledger_from (holding t.fill_history symbol) rows symbol)
  cores-ledger fresh [] ids t symbol h u n k = (k, refl)
  cores-ledger fresh (row ∷ rows) ids t symbol h u n k =
      let (fee, some_fee) = fee_of_replayable row h.0 in
      let e = event_of_fill (fresh row) row in
      let t' = book e row.fill_price fee t in
      let step = core_replayable fresh row ids t n.0 some_fee in
      let (k', q) =
        cores-ledger fresh rows (ids ++ row.fill_id ∷ []) t' symbol h.1 u.1
          (IsUnseen-append ids row.fill_id rows n.1 u.0) (booked_row fresh row fee t h.0 k) in
      subst
        (λ (x : List String × PositionTracker P).
          IsAccounted (cores fresh rows x).1
          × (holding (cores fresh rows x).1.fill_history symbol
              ≡ ledger_from (holding t.fill_history symbol) (row ∷ rows) symbol))
        (sym step) (k', q ∙ ap (λ x. ledger_from x rows symbol) (held_after fresh row fee t symbol))

  IsUnseen-nothing : (rows : List (FillRow P)) → All (IsUnseen []) rows
  IsUnseen-nothing [] = tt
  IsUnseen-nothing (row ∷ rows) = (refl, IsUnseen-nothing rows)

  ids_of_replayable : (rows : List (FillRow P)) → All IsReplayable rows → All HasId rows
  ids_of_replayable [] h = tt
  ids_of_replayable (row ∷ rows) h = (h.0.0, ids_of_replayable rows h.1)

  -- A rebuild of a new tracker from a ledger that is not empty, whose fills are replayable and have
  -- different ids, holds of every symbol the quantity that the ledger amounts to, and agrees with its
  -- own history.
  pub rebuild_quantities :
      (fresh : FillRow P → String) (fresh_request : RequestRow P → String) (store : OrderStore P)
      (row : FillRow P) (rows : List (FillRow P)) (symbol : String)
      → store.order_fills ≡ row ∷ rows
      → All IsReplayable (row ∷ rows)
      → HasUniqueFills (row ∷ rows)
      → (quantity_at
            (rebuild_portfolio_from_fills fresh fresh_request store new_tracker none).tracker
            symbol
          ≡ ledger_from (pos 0) (row ∷ rows) symbol)
        × IsAccounted
            (rebuild_portfolio_from_fills fresh fresh_request store new_tracker none).tracker
  unfolding new_tracker
  rebuild_quantities fresh fresh_request store row rows symbol e good unique =
      let run =
        rebuild-tracker fresh fresh_request store new_tracker row rows e
          (ids_of_replayable (row ∷ rows) good) in
      let (k, q) =
        cores-ledger fresh (row ∷ rows) [] new_tracker symbol good unique
          (IsUnseen-nothing (row ∷ rows)) new_tracker-IsAccounted in
      rw run (k.quantities symbol ∙ q, k)
