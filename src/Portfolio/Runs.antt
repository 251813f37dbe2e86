-- ===== src/Portfolio/Runs.antt =====
-- The calls of backend/portfolio/position_tracker.py in sequence: fills and ticks, and what they keep of
-- the quantities.
use indian_algo_trading_plat.Common.{
  ◌≡◌, refl, sym, subst, String, ◌||◌, Option, some, arith, if◌then◌else◌, upper, eq_iff,
  Bool-cases, Option-cases, inl, inr,
}
use indian_algo_trading_plat.Common.Int.{pos, ◌≤ℤ◌, leb_ℤ}
use indian_algo_trading_plat.Common.Float.{Float, nought}
use indian_algo_trading_plat.Common.Dict.{lookup, insert, lookup-insert}
use indian_algo_trading_plat.Types.{OrderStatus, same_status, OrderStateEvent}
use indian_algo_trading_plat.FeeModel.{Fees, FeeResult, charged, refused}
use indian_algo_trading_plat.Portfolio.Positions.{
  Position, PositionTracker, booked, unbooked, fees_or, is_open, marked, update_unrealized, book,
  on_fill, new_tracker,
}
use indian_algo_trading_plat.Portfolio.Quantities.{
  quantity_at, IsAccounted, new_tracker-IsAccounted, quantity_at_nonneg, book-IsAccounted,
}

module _ {P : Type 0} ⦃d : Float P⦄ where
  -- The calls that reach a tracker: fills and ticks, in any order.
  pub data Reaches (t : PositionTracker P) : PositionTracker P → Type 0 where
    here : Reaches t t
    fill :
        (e : OrderStateEvent P) (fees : Option (Fees P)) {u v : PositionTracker P}
        → Reaches t u
        → on_fill e fees u ≡ booked v
        → Reaches t v
    tick :
        (symbol : String) (ltp : P) {u : PositionTracker P}
        → Reaches t u
        → Reaches t (update_unrealized symbol ltp u)

  -- What a call of `on_fill` that returns did: nothing, or one booking.
  data Effect (e : OrderStateEvent P) (t u : PositionTracker P) : Type 0 where
    ignored : u ≡ t → Effect e t u
    taken : (price fee : P) → pos 1 ≤ℤ e.filled_quantity → u ≡ book e price fee t → Effect e t u

  charged-Effect :
      (e : OrderStateEvent P) (price : P) (r : FeeResult P) (t : PositionTracker P)
      {u : PositionTracker P}
      → pos 1 ≤ℤ e.filled_quantity
      → (elim r [ charged f ↦ booked (book e price f.total_fees t) | refused x ↦ unbooked x ])
        ≡ booked u
      → Effect e t u
  charged-Effect e price (charged f) t n h = taken price f.total_fees n (cc)
  charged-Effect e price (refused x) t n h = absurd (cc)

  priced-Effect :
      (e : OrderStateEvent P) (fees : Option (Fees P)) (price : P) (t : PositionTracker P)
      {u : PositionTracker P}
      → (if d.le price nought || leb_ℤ e.filled_quantity (pos 0)
          then booked t
          else (elim (fees_or fees e price) [
            | charged f ↦ booked (book e price f.total_fees t)
            | refused x ↦ unbooked x
          ]))
        ≡ booked u
      → Effect e t u
  priced-Effect e fees price t h =
      elim (Bool-cases (d.le price nought || leb_ℤ e.filled_quantity (pos 0))) [
        | inl off ↦ ignored (ground (arith, off, h))
        | inr on ↦ charged-Effect e price (fees_or fees e price) t (ground arith) (rw on at h)
      ]

  on_fill-Effect :
      (e : OrderStateEvent P) (fees : Option (Fees P)) (t : PositionTracker P)
      {u : PositionTracker P}
      → on_fill e fees t ≡ booked u
      → Effect e t u
  unfolding on_fill
  on_fill-Effect e fees t h = elim (Bool-cases (same_status e.status OrderStatus.filled)) [
    | inr other ↦ ignored (ground (arith, other, h))
    | inl filled_now ↦ elim (Option-cases e.avg_fill_price) [
      | inl unpriced ↦ ignored (ground (arith, filled_now, unpriced, h))
      | inr (price, priced) ↦ priced-Effect e fees price t (rw (filled_now, priced) at h)
    ]
  ]

  on_fill-IsAccounted :
      (e : OrderStateEvent P) (fees : Option (Fees P)) (t : PositionTracker P)
      {u : PositionTracker P}
      → on_fill e fees t ≡ booked u
      → IsAccounted t
      → IsAccounted u
  on_fill-IsAccounted e fees t run h = elim (on_fill-Effect e fees t run) [
    | ignored same ↦ subst IsAccounted (sym same) h
    | taken price fee n same ↦ subst IsAccounted (sym same) (book-IsAccounted e price fee t n h)
  ]

  marked-IsAccounted :
      (symbol : String) (p q : Position P) (t : PositionTracker P)
      → lookup symbol t.positions ≡ some p
      → q.quantity ≡ p.quantity
      → IsAccounted t
      → IsAccounted (record t { positions = insert symbol q t.positions })
  marked-IsAccounted symbol p q t found same h = record {
    quantities = λ other. ground (
      arith,
      h.quantities other,
      lookup-insert symbol other q t.positions,
      found,
      same,
      eq_iff symbol other,
    );
    genuine = h.genuine;
    fees = h.fees;
  }

  update_unrealized-IsAccounted :
      (symbol : String) (ltp : P) (t : PositionTracker P)
      → IsAccounted t
      → IsAccounted (update_unrealized symbol ltp t)
  unfolding update_unrealized
  update_unrealized-IsAccounted symbol ltp t h =
      elim (Option-cases (lookup (upper symbol) t.positions)) [
        | inl none_held ↦ rw (none_held, update_unrealized) h
        | inr (p, found) ↦ elim (Bool-cases (is_open p)) [
          | inr shut ↦ rw (found, shut, update_unrealized) h
          | inl held ↦
              rw (found, held, update_unrealized)
                (marked-IsAccounted (upper symbol) p (marked ltp p) t found refl h)
        ]
      ]

  -- Through any fills and ticks from a new tracker, the quantity of every symbol is the holding that
  -- its fill history amounts to, it is never negative, and the fees are the sum over the history.
  pub tracker-IsAccounted :
      (symbol : String) {t : PositionTracker P}
      → Reaches new_tracker t
      → IsAccounted t × (pos 0 ≤ℤ quantity_at t symbol)
  tracker-IsAccounted symbol {t} r = (go r, quantity_at_nonneg t symbol (go r))
    where
      go : {u : PositionTracker P} → Reaches new_tracker u → IsAccounted u
      go here = new_tracker-IsAccounted
      go (fill e fees {u} r run) = on_fill-IsAccounted e fees u run (go r)
      go (tick symbol ltp {u} r) = update_unrealized-IsAccounted symbol ltp u (go r)
