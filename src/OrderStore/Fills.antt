-- ===== src/OrderStore/Fills.antt =====
-- The table order_fills of backend/execution/order_store.py: the ledger that `record_fill` writes, and
-- its sums per request.
use indian_algo_trading_plat.Common.{
  ◌≡◌, refl, ◌⊎◌, String, Bool, true, false, ◌||◌, List, [], ◌∷◌, ◌++◌, arith, eq_iff, eq_refl,
  if◌then◌else◌, str_eq, filter_by, any_of, is_empty, upper, Bool-cases, inl, inr, All, All-append,
  filter_by-append,
}
use indian_algo_trading_plat.Common.Int.{ℤ, pos, ◌+ℤ◌, ◌≤ℤ◌, leb_ℤ, int_laws}
use indian_algo_trading_plat.Common.Float.{Float, IsOrdered, nought}
use indian_algo_trading_plat.OrderStore.{
  FillRow, OrderStore, record_fill, sum_filled, get_cumulative_filled_quantity, upper_side,
}

abbrev pub filled_by : Bool → ℤ → ℤ
filled_by true q = q
filled_by false q = pos 0

module _ {P : Type 0} ⦃d : Float P⦄ where
  abbrev pub IsPositiveFill : FillRow P → Type 0
  IsPositiveFill f = (pos 1 ≤ℤ f.filled_quantity) × (d.lt nought f.fill_price ≡ true)

  abbrev pub HasUniqueFills : List (FillRow P) → Type 0
  HasUniqueFills [] = Unit
  HasUniqueFills (f ∷ fs) =
      (any_of (λ g. str_eq g.fill_id f.fill_id) fs ≡ false) × HasUniqueFills fs

  abbrev pub IsLedger : OrderStore P → Type 0
  IsLedger s = HasUniqueFills s.order_fills × All IsPositiveFill s.order_fills

  any_of-append_fill :
      (p : FillRow P → Bool) (fs : List (FillRow P)) (f : FillRow P)
      → any_of p (fs ++ f ∷ []) ≡ (any_of p fs || p f)
  any_of-append_fill p [] f = ground arith
  any_of-append_fill p (g ∷ fs) f = ground (arith, any_of-append_fill p fs f)

  append-HasUniqueFills :
      (fs : List (FillRow P)) (f : FillRow P)
      → HasUniqueFills fs
      → any_of (λ g. str_eq g.fill_id f.fill_id) fs ≡ false
      → HasUniqueFills (fs ++ f ∷ [])
  append-HasUniqueFills [] f h e = (refl, tt)
  append-HasUniqueFills (g ∷ fs) f h e = ground (
    arith,
    append-HasUniqueFills fs f h.1,
    any_of-append_fill (λ k. str_eq k.fill_id g.fill_id) fs f,
    eq_iff g.fill_id f.fill_id,
    eq_iff f.fill_id g.fill_id,
  )

  positive_of_refused :
      IsOrdered d → (x : P) → d.le x nought ≡ false → d.le x x ≡ true → d.lt nought x ≡ true
  positive_of_refused o x h k =
      ground (arith, o.comparable nought x o.nought_number k, Bool-cases (d.lt nought x))

  -- The row that an accepted fill leaves.
  abbrev pub stored : FillRow P → FillRow P
  stored f = record f { symbol = upper f.symbol; side = upper_side f.side }

  record Accepted (s : OrderStore P) (f : FillRow P) : Type 0 where
    result : record_fill s f ≡ (record s { order_fills = s.order_fills ++ stored f ∷ [] }, true)
    new_id : any_of (λ g. str_eq g.fill_id f.fill_id) s.order_fills ≡ false
    quantity : pos 1 ≤ℤ f.filled_quantity
    above : d.le f.fill_price nought ≡ false
    number : d.le f.fill_price f.fill_price ≡ true

  record_fill-cases :
      (s : OrderStore P) (f : FillRow P) → (record_fill s f ≡ (s, false)) ⊎ Accepted s f
  unfolding record_fill
  record_fill-cases s f = elim (Bool-cases (is_empty f.fill_id)) [
    | inl e ↦ inl (ground arith)
    | inr e ↦ elim (Bool-cases (is_empty f.request_id)) [
      | inl r ↦ inl (ground arith)
      | inr r ↦ elim (Bool-cases (leb_ℤ f.filled_quantity (pos 0))) [
        | inl q ↦ inl (ground arith)
        | inr q ↦ elim (Bool-cases (d.le f.fill_price nought)) [
          | inl p ↦ inl (ground arith)
          | inr p ↦ elim (Bool-cases (d.le f.fill_price f.fill_price)) [
            | inr n ↦ inl (ground arith)
            | inl n ↦ elim (Bool-cases (any_of (λ g. str_eq g.fill_id f.fill_id) s.order_fills)) [
              | inl u ↦ inl (ground arith)
              | inr u ↦ inr (record {
                result = ground arith;
                new_id = u;
                quantity = ground arith;
                above = p;
                number = n;
              })
            ]
          ]
        ]
      ]
    ]
  ]

  -- Whatever fill is offered, the ledger keeps unique fill ids, positive quantities and positive
  -- prices.
  pub record_fill-IsLedger :
      (o : IsOrdered d) (s : OrderStore P) (f : FillRow P)
      → IsLedger s
      → IsLedger (record_fill s f).0
  record_fill-IsLedger o s f h = elim (record_fill-cases s f) [
    | inl e ↦ rw e h
    | inr a ↦ rw a.result (
      append-HasUniqueFills s.order_fills (stored f) h.0 a.new_id,
      All-append IsPositiveFill s.order_fills (stored f ∷ []) h.1
          ((a.quantity, positive_of_refused o f.fill_price a.above a.number), tt),
    )
  ]

  -- An accepted fill is there afterwards.
  record_fill-exists :
      (s : OrderStore P) (f : FillRow P)
      → (record_fill s f).1 ≡ true
      → any_of (λ g. str_eq g.fill_id f.fill_id) (record_fill s f).0.order_fills ≡ true
  unfolding record_fill
  record_fill-exists s f h = ground (
    arith,
    any_of-append_fill (λ g. str_eq g.fill_id f.fill_id) s.order_fills
        (record f { symbol = upper f.symbol; side = upper_side f.side }),
    eq_refl f.fill_id,
  )

  record_fill_refused :
      (s : OrderStore P) (f : FillRow P)
      → any_of (λ g. str_eq g.fill_id f.fill_id) s.order_fills ≡ true
      → record_fill s f ≡ (s, false)
  unfolding record_fill
  record_fill_refused s f h = ground arith

  record_fill_unchanged :
      (s : OrderStore P) (f : FillRow P)
      → (record_fill s f).1 ≡ false
      → record_fill s f ≡ (s, false)
  unfolding record_fill
  record_fill_unchanged s f h = ground arith

  -- Recording a fill a second time changes nothing and answers `false`, whether or not the first
  -- call was accepted.
  pub record_fill_idem :
      (s : OrderStore P) (f : FillRow P)
      → record_fill (record_fill s f).0 f ≡ ((record_fill s f).0, false)
  record_fill_idem s f = elim (Bool-cases (record_fill s f).1) [
    | inl ok ↦ record_fill_refused (record_fill s f).0 f (record_fill-exists s f ok)
    | inr refused ↦ let e = record_fill_unchanged s f refused in rw (e, e)
  ]

  sum_filled-append :
      (xs ys : List (FillRow P)) → sum_filled (xs ++ ys) ≡ sum_filled xs +ℤ sum_filled ys
  sum_filled-append [] ys = omega int_laws
  sum_filled-append (x ∷ xs) ys = rw (sum_filled-append xs ys) (omega int_laws)

  sum_filled-one :
      (f : FillRow P) (id : String) (s : OrderStore P)
      → sum_filled (filter_by (λ k. str_eq k.request_id id) s.order_fills)
          +ℤ sum_filled (filter_by (λ k. str_eq k.request_id id) (stored f ∷ []))
        ≡ sum_filled (filter_by (λ k. str_eq k.request_id id) s.order_fills)
          +ℤ filled_by (str_eq f.request_id id) f.filled_quantity
  sum_filled-one f id s = elim (Bool-cases (str_eq f.request_id id)) [
    | inl e ↦ rw e (omega int_laws)
    | inr e ↦ rw e
  ]

  -- The cumulative quantity of a request grows by exactly the accepted fills of that request.
  pub get_cumulative_filled_quantity-record_fill :
      (s : OrderStore P) (f : FillRow P) (id : String)
      → is_empty id ≡ false
      → get_cumulative_filled_quantity (record_fill s f).0 id
        ≡ get_cumulative_filled_quantity s id
          +ℤ (if (record_fill s f).1
              then filled_by (str_eq f.request_id id) f.filled_quantity
              else pos 0)
  unfolding get_cumulative_filled_quantity
  get_cumulative_filled_quantity-record_fill s f id h = elim (record_fill-cases s f) [
    | inl e ↦ rw (e, h) (omega int_laws)
    | inr a ↦
        rw
          (
            a.result,
            h,
            filter_by-append (λ k. str_eq k.request_id id) s.order_fills (stored f ∷ []),
            sum_filled-append (filter_by (λ k. str_eq k.request_id id) s.order_fills)
                (filter_by (λ k. str_eq k.request_id id) (stored f ∷ [])),
          )
          (sum_filled-one f id s)
  ]
