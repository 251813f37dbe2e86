-- ===== src/OrderPoller/Deltas.antt =====
-- backend/execution/order_poller.py, `_record_fill_delta`: the ledger against the quantity that the
-- broker reports.
use indian_algo_trading_plat.Common.{
  ◌≡◌, ◌∙◌, refl, String, true, false, some, arith, if◌then◌else◌, is_empty, str_eq, eq_refl,
  any_of, Bool-cases, inl, inr,
}
use indian_algo_trading_plat.Common.Int.{ℤ, pos, ◌+ℤ◌, ◌-ℤ◌, leb_ℤ, int_laws, -ℤ_parts}
use indian_algo_trading_plat.Common.Float.{Float, nought}
use indian_algo_trading_plat.Types.{OrderSide}
use indian_algo_trading_plat.OrderStore.{OrderStore, record_fill, get_cumulative_filled_quantity}
use indian_algo_trading_plat.OrderStore.Fills.{get_cumulative_filled_quantity-record_fill}
use indian_algo_trading_plat.OrderPoller.{delta_fill, record_fill_delta}

-- The larger of the quantity that the broker reports and of the sum that is recorded.
abbrev pub larger : ℤ → ℤ → ℤ
larger new already = if leb_ℤ new already then already else new

leb_delta : (a b : ℤ) → leb_ℤ (a -ℤ b) (pos 0) ≡ leb_ℤ a b
leb_delta a b = ground (arith, -ℤ_parts a b)

whole_delta : (new already : ℤ) → already +ℤ (new -ℤ already) ≡ new
whole_delta new already = omega int_laws

module _ {P : Type 0} ⦃d : Float P⦄ where
  record_fill-delta :
      (digits : ℤ → String) (id broker symbol : String) (side : OrderSide) (new : ℤ) (price : P)
      (s : OrderStore P)
      → is_empty (delta_fill digits id broker symbol side new price s).fill_id ≡ false
      → is_empty id ≡ false
      → d.le price nought ≡ false
      → d.le price price ≡ true
      → any_of
          (λ g. str_eq g.fill_id (delta_fill digits id broker symbol side new price s).fill_id)
          s.order_fills
        ≡ false
      → leb_ℤ new (get_cumulative_filled_quantity s id) ≡ false
      → (record_fill s (delta_fill digits id broker symbol side new price s)).1 ≡ true
  unfolding record_fill
  record_fill-delta digits id broker symbol side new price s h1 h2 h3 h4 h5 more =
      let positive = leb_delta new (get_cumulative_filled_quantity s id) ∙ more in
      ground (arith, h1, h2, h3, h4, h5, positive)

  -- Where the request has an id, the price is above 0 and no NaN, and the ledger does not have the fill
  -- that the poller would record, the ledger's sum for the request becomes the larger of the broker's
  -- quantity and of the sum before.
  pub record_fill_delta_lem :
      (digits : ℤ → String) (id broker symbol : String) (side : OrderSide) (new : ℤ) (price : P)
      (s : OrderStore P)
      → is_empty (delta_fill digits id broker symbol side new price s).fill_id ≡ false
      → is_empty id ≡ false
      → d.le price nought ≡ false
      → d.le price price ≡ true
      → any_of
          (λ g. str_eq g.fill_id (delta_fill digits id broker symbol side new price s).fill_id)
          s.order_fills
        ≡ false
      → get_cumulative_filled_quantity
          (record_fill_delta digits (some id) broker symbol side new price s)
          id
        ≡ larger new (get_cumulative_filled_quantity s id)
  unfolding record_fill_delta
  record_fill_delta_lem digits id broker symbol side new price s h1 h2 h3 h4 h5 =
      let already = get_cumulative_filled_quantity s id in
      let f = delta_fill digits id broker symbol side new price s in
      elim (Bool-cases (leb_ℤ new already)) [
        | inl enough ↦
            (let none_new = leb_delta new already ∙ enough in rw (h2, none_new, enough) refl)
        | inr more ↦
            (let some_new = leb_delta new already ∙ more in
              let taken =
                record_fill-delta digits id broker symbol side new price s h1 h2 h3 h4 h5 more in
              rw (h2, some_new, more)
                (get_cumulative_filled_quantity-record_fill s f id h2
                  ∙ rw (taken, eq_refl id) (whole_delta new already)))
      ]
