-- ===== src/Portfolio/Quantities.antt =====
-- The quantities of backend/portfolio/position_tracker.py as a function of the fill history: `holding`
-- is the specification, a fold over the entries of one symbol that never goes below 0.
use indian_algo_trading_plat.Common.{
  ◌≡◌, ◌∙◌, refl, ap, String, Option, none, some, List, [], ◌∷◌, ◌++◌, arith, if◌then◌else◌, str_eq,
  upper, or_default, eq_iff, Bool-cases, inl, inr, All, All-append,
}
use indian_algo_trading_plat.Common.Int.{ℤ, pos, ◌+ℤ◌, ◌-ℤ◌, ◌≤ℤ◌, leb_ℤ, -ℤ_parts, eq_of_parts}
use indian_algo_trading_plat.Common.Float.{Float, nought}
use indian_algo_trading_plat.Common.Dict.{lookup, lookup-insert}
use indian_algo_trading_plat.Types.{OrderSide, buy, sell, other_side, OrderStateEvent}
use indian_algo_trading_plat.Portfolio.Positions.{
  Position, FillEntry, PositionTracker, bought, sold, traded, book, entry_of, empty_position,
  new_tracker,
}

-- What one fill makes of a quantity.
abbrev pub holding_after : OrderSide → ℤ → ℤ → ℤ
holding_after buy n q = q +ℤ n
holding_after sell n q = if leb_ℤ q n then pos 0 else q -ℤ n
holding_after (other_side s) n q = q

-- A fill of a positive quantity keeps a quantity at 0 or above.
holding_after_nonneg :
    (side : OrderSide) (n q : ℤ) → pos 1 ≤ℤ n → pos 0 ≤ℤ q → pos 0 ≤ℤ holding_after side n q
unfolding ◌+ℤ◌ ◌-ℤ◌
holding_after_nonneg buy n q h k = ground arith
holding_after_nonneg sell n q h k = ground arith
holding_after_nonneg (other_side s) n q h k = k

module _ {P : Type 0} where
  -- The quantity of a symbol after a list of fills, from a first quantity.
  abbrev pub holding_from : ℤ → List (FillEntry P) → String → ℤ
  holding_from q [] symbol = q
  holding_from q (e ∷ es) symbol =
      holding_from (if str_eq e.symbol symbol then holding_after e.side e.quantity q else q) es
        symbol

  abbrev pub holding : List (FillEntry P) → String → ℤ
  holding es symbol = holding_from (pos 0) es symbol

  abbrev pub quantity_of : Option (Position P) → ℤ
  quantity_of none = pos 0
  quantity_of (some p) = p.quantity

  -- The quantity that the tracker holds of a symbol, which its text gives in upper case.
  abbrev pub quantity_at : PositionTracker P → String → ℤ
  quantity_at t symbol = quantity_of (lookup symbol t.positions)

  abbrev pub IsFill : FillEntry P → Type 0
  IsFill e = pos 1 ≤ℤ e.quantity

  pub holding_from-append :
      (q : ℤ) (es : List (FillEntry P)) (e : FillEntry P) (symbol : String)
      → holding_from q (es ++ e ∷ []) symbol ≡ (
          if str_eq e.symbol symbol
          then holding_after e.side e.quantity (holding_from q es symbol)
          else holding_from q es symbol)
  holding_from-append q [] e symbol = refl
  holding_from-append q (x ∷ es) e symbol =
      holding_from-append (if str_eq x.symbol symbol then holding_after x.side x.quantity q else q)
        es e symbol

  holding_from_nonneg :
      (q : ℤ) (es : List (FillEntry P)) (symbol : String)
      → pos 0 ≤ℤ q
      → All IsFill es
      → pos 0 ≤ℤ holding_from q es symbol
  holding_from_nonneg q [] symbol h k = h
  holding_from_nonneg q (e ∷ es) symbol h k =
      holding_from_nonneg (if str_eq e.symbol symbol then holding_after e.side e.quantity q else q)
        es symbol (ground (arith, holding_after_nonneg e.side e.quantity q)) k.1

module _ {P : Type 0} ⦃d : Float P⦄ where
  sold-quantity :
      (n : ℤ) (price fee : P) (p : Position P) (t : PositionTracker P)
      → pos 1 ≤ℤ n
      → pos 0 ≤ℤ p.quantity
      → (traded sell n price fee p t).0.quantity ≡ holding_after sell n p.quantity
  unfolding traded sold
  sold-quantity n price fee p t h k = ground (
    arith,
    -ℤ_parts p.quantity n,
    -ℤ_parts p.quantity p.quantity,
    eq_of_parts (p.quantity -ℤ n) (pos 0),
    eq_of_parts (p.quantity -ℤ p.quantity) (pos 0),
    eq_of_parts p.quantity (pos 0),
  )

  traded-quantity :
      (side : OrderSide) (n : ℤ) (price fee : P) (p : Position P) (t : PositionTracker P)
      → pos 1 ≤ℤ n
      → pos 0 ≤ℤ p.quantity
      → (traded side n price fee p t).0.quantity ≡ holding_after side n p.quantity
  unfolding traded bought sold
  traded-quantity buy n price fee p t h k = refl
  traded-quantity sell n price fee p t h k = sold-quantity n price fee p t h k
  traded-quantity (other_side s) n price fee p t h k = refl

  -- A trade leaves the positions, the history and the sum of the fees alone.
  record Keeps (t u : PositionTracker P) : Type 0 where
    same_positions : u.positions ≡ t.positions
    same_history : u.fill_history ≡ t.fill_history
    same_fees : u.total_fees ≡ t.total_fees

  traded-Keeps :
      (side : OrderSide) (n : ℤ) (price fee : P) (p : Position P) (t : PositionTracker P)
      → Keeps t (traded side n price fee p t).1
  unfolding traded
  traded-Keeps side n price fee p t = ground arith

  abbrev pub fees_from : P → List (FillEntry P) → P
  fees_from total [] = total
  fees_from total (e ∷ es) = fees_from (d.add total e.fees) es

  fees_from-append :
      (total : P) (es : List (FillEntry P)) (e : FillEntry P)
      → fees_from total (es ++ e ∷ []) ≡ d.add (fees_from total es) e.fees
  fees_from-append total [] e = refl
  fees_from-append total (x ∷ es) e = fees_from-append (d.add total x.fees) es e

  -- The tracker agrees with its own history: the quantity of every symbol is the holding that the
  -- history amounts to, and the fees are its sum.
  pub record IsAccounted (t : PositionTracker P) : Type 0 where
    pub quantities : (symbol : String) → quantity_at t symbol ≡ holding t.fill_history symbol
    pub genuine : All IsFill t.fill_history
    pub fees : t.total_fees ≡ fees_from nought t.fill_history

  pub new_tracker-IsAccounted : IsAccounted new_tracker
  unfolding new_tracker
  new_tracker-IsAccounted = record { quantities = λ symbol. refl; genuine = tt; fees = refl }

  pub quantity_at_nonneg :
      (t : PositionTracker P) (symbol : String) → IsAccounted t → pos 0 ≤ℤ quantity_at t symbol
  quantity_at_nonneg t symbol h =
      rw (h.quantities symbol)
        (holding_from_nonneg (pos 0) t.fill_history symbol (omega arith) h.genuine)

  start_quantity :
      (o : Option (Position P)) (symbol : String)
      → (or_default o (empty_position symbol)).quantity ≡ quantity_of o
  unfolding empty_position
  start_quantity none symbol = refl
  start_quantity (some p) symbol = refl

  pub book-IsAccounted :
      (e : OrderStateEvent P) (price fee : P) (t : PositionTracker P)
      → pos 1 ≤ℤ e.filled_quantity
      → IsAccounted t
      → IsAccounted (book e price fee t)
  unfolding book
  book-IsAccounted e price fee t n h =
      let key = upper e.symbol in
      let start = or_default (lookup key t.positions) (empty_position key) in
      let held : start.quantity ≡ quantity_at t key = start_quantity (lookup key t.positions) key in
      let k = traded-Keeps e.side e.filled_quantity price fee start t in
      let q =
        traded-quantity e.side e.filled_quantity price fee start t n
          (rw held (quantity_at_nonneg t key h)) in
      record {
        quantities = λ symbol.
            rw
              (
                lookup-insert key symbol
                    (record ((traded e.side e.filled_quantity price fee start t).0) {
                      fees = d.add (traded e.side e.filled_quantity price fee start t).0.fees fee;
                      last_fill_price = some price;
                    })
                    (traded e.side e.filled_quantity price fee start t).1.positions,
                k.same_positions,
                k.same_history,
                holding_from-append (pos 0) t.fill_history (entry_of e price fee) symbol,
              )
              (elim (Bool-cases (str_eq key symbol)) [
                | inl same ↦ rw same (
                    q
                    ∙ ap (holding_after e.side e.filled_quantity) (
                        held
                        ∙ h.quantities key
                        ∙ ap (holding t.fill_history) ((eq_iff key symbol).0 same)))
                | inr other ↦ rw other (h.quantities symbol)
              ]);
        genuine =
            rw k.same_history
              (All-append IsFill t.fill_history (entry_of e price fee ∷ []) h.genuine (n, tt));
        fees =
            rw
              (
                k.same_fees,
                k.same_history,
                fees_from-append nought t.fill_history (entry_of e price fee),
              )
              (ap (λ (x : P). d.add x fee) h.fees);
      }

  pub book-fill_history :
      (e : OrderStateEvent P) (price fee : P) (t : PositionTracker P)
      → (book e price fee t).fill_history ≡ t.fill_history ++ entry_of e price fee ∷ []
  unfolding book
  book-fill_history e price fee t =
      let key = upper e.symbol in
      let start = or_default (lookup key t.positions) (empty_position key) in
      ap (λ xs. xs ++ entry_of e price fee ∷ [])
        (traded-Keeps e.side e.filled_quantity price fee start t).same_history
