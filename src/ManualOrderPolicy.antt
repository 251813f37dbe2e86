-- ===== src/ManualOrderPolicy.antt =====
-- backend/execution/manual_order_policy.py: what a manual order has to keep. `is_plain` stands for the
-- match of the regular expression `^[A-Z\-]+$`; the quantity is a whole number already.
use text.Mathlib.Text.{find?}
use indian_algo_trading_plat.Common.{
  ◌≡◌, ◌↔◌, ◌⊎◌, eq_iff, refl, String, Bool, true, false, not, ◌||◌, ◌&&◌, Option, none, some, List,
  [], ◌∷◌, arith, if◌then◌else◌, is_empty, is_some, str_eq, upper, or_default, Bool-cases, inl, inr,
}
use indian_algo_trading_plat.Common.Int.{ℤ, pos, leb_ℤ, ◌≤ℤ◌}
use indian_algo_trading_plat.Common.Float.{Float, nought}
use indian_algo_trading_plat.Market.{or_price}

pub record ManualOrderPolicy (P : Type 0) : Type 0 where
  pub max_quantity : ℤ
  pub max_notional : P

-- The attributes that the policy looks for on an order.
pub record ManualOrder (P : Type 0) : Type 0 where
  pub symbol : String
  pub product_type : Option String
  pub producttype : Option String
  pub order_type : Option String
  pub ordertype : Option String
  pub quantity : ℤ
  pub price : Option P

pub data ManualCheck : Type 0 where
  missing_symbol equity_only_restriction product_type_restriction : ManualCheck
  market_order_requires_dry_run invalid_quantity : ManualCheck
  quantity_exceeds_max notional_exceeds_max : ManualCheck

-- `a or b or ""` in upper case
abbrev pub upper_of : Option String → Option String → String
upper_of none b = upper (or_default b "")
upper_of (some a) b = if is_empty a then upper (or_default b "") else upper a

abbrev pub has_derivative_mark : String → Bool
has_derivative_mark symbol =
    is_some (find? symbol "FUT") || (is_some (find? symbol "CE") || is_some (find? symbol "PE"))

abbrev unless_ok : Bool → ManualCheck → List ManualCheck → List ManualCheck
unless_ok true c cs = cs
unless_ok false c cs = c ∷ cs

abbrev check_symbol : (String → Bool) → String → List ManualCheck → List ManualCheck
check_symbol is_plain symbol cs =
    if is_empty symbol
    then missing_symbol ∷ cs
    else unless_ok (is_plain symbol && not (has_derivative_mark symbol)) equity_only_restriction cs

abbrev check_quantity : ℤ → ℤ → List ManualCheck → List ManualCheck
check_quantity max_quantity q cs =
    if leb_ℤ q (pos 0)
    then invalid_quantity ∷ cs
    else unless_ok (leb_ℤ q max_quantity) quantity_exceeds_max cs

abbrev pub is_delivery : String → Bool
is_delivery s = str_eq s "CNC" || str_eq s "DELIVERY"

module _ {P : Type 0} ⦃d : Float P⦄ where
  -- `qty * float(price or ltp or 0.0)`
  abbrev pub manual_notional : ManualOrder P → P → P
  manual_notional o ltp =
      d.mul (d.of_int o.quantity) (or_default (or_price o.price (or_price (some ltp) none)) nought)

  unfoldable pub validate_manual_order :
      (String → Bool) → ManualOrderPolicy P → ManualOrder P → P → Bool → List ManualCheck
  validate_manual_order is_plain p o ltp is_dry_run = check_symbol is_plain o.symbol (
      unless_ok (is_delivery (upper_of o.product_type o.producttype)) product_type_restriction (
        unless_ok (not (str_eq (upper_of o.order_type o.ordertype) "MARKET") || is_dry_run)
          market_order_requires_dry_run
          (check_quantity p.max_quantity o.quantity (
            unless_ok (not (d.lt p.max_notional (manual_notional o ltp))) notional_exceeds_max
              []))))

  -- `validate`, its texts left out
  unfoldable pub validate :
      (String → Bool) → ManualOrderPolicy P → ManualOrder P → P → Bool → Bool × List ManualCheck
  unfolding validate_manual_order
  validate is_plain p o ltp is_dry_run =
      let failures = validate_manual_order is_plain p o ltp is_dry_run in
      (elim failures [ [] ↦ true | c ∷ cs ↦ false ], failures)

  -- What a manual order has to be, apart from the list of the checks.
  pub record IsPermitted (is_plain : String → Bool) (p : ManualOrderPolicy P) (o : ManualOrder P)
      (ltp : P) (is_dry_run : Bool) : Type 0 where
    pub named : is_empty o.symbol ≡ false
    pub plain : is_plain o.symbol ≡ true
    pub no_future : is_some (find? o.symbol "FUT") ≡ false
    pub no_call : is_some (find? o.symbol "CE") ≡ false
    pub no_put : is_some (find? o.symbol "PE") ≡ false
    pub delivery :
        (upper_of o.product_type o.producttype ≡ "CNC")
        ⊎ (upper_of o.product_type o.producttype ≡ "DELIVERY")
    pub priced : not (str_eq (upper_of o.order_type o.ordertype) "MARKET") || is_dry_run ≡ true
    pub some_shares : pos 1 ≤ℤ o.quantity
    pub few_shares : o.quantity ≤ℤ p.max_quantity
    pub small : d.lt p.max_notional (manual_notional o ltp) ≡ false

delivery_of : (s : String) → is_delivery s ≡ true → (s ≡ "CNC") ⊎ (s ≡ "DELIVERY")
delivery_of s h = elim (Bool-cases (str_eq s "CNC")) [
  | inl cnc ↦ inl ((eq_iff s "CNC").0 cnc)
  | inr other ↦ inr ((eq_iff s "DELIVERY").0 (ground (arith, other, h)))
]

of_delivery : (s : String) → (s ≡ "CNC") ⊎ (s ≡ "DELIVERY") → is_delivery s ≡ true
of_delivery s (inl h) = let e = (eq_iff s "CNC").1 h in ground (arith, e)
of_delivery s (inr h) = let e = (eq_iff s "DELIVERY").1 h in ground (arith, e)

unless_ok-nil :
    (b : Bool) (c : ManualCheck) (cs : List ManualCheck)
    → unless_ok b c cs ≡ []
    → (b ≡ true) × (cs ≡ [])
unless_ok-nil true c cs h = (refl, h)
unless_ok-nil false c cs h = cc

check_symbol-nil :
    (is_plain : String → Bool) (symbol : String) (cs : List ManualCheck)
    → check_symbol is_plain symbol cs ≡ []
    → (is_empty symbol ≡ false)
      × (is_plain symbol ≡ true)
      × (has_derivative_mark symbol ≡ false)
      × (cs ≡ [])
check_symbol-nil is_plain symbol cs h = elim (Bool-cases (is_empty symbol)) [
  | inl unnamed ↦ ground (arith, unnamed, h)
  | inr named ↦
      (let parts =
          unless_ok-nil (is_plain symbol && not (has_derivative_mark symbol))
            equity_only_restriction cs (ground (arith, named, h)) in
        (named, ground (arith, parts.0), ground (arith, parts.0), parts.1))
]

check_quantity-nil :
    (most q : ℤ) (cs : List ManualCheck)
    → check_quantity most q cs ≡ []
    → (pos 1 ≤ℤ q) × (q ≤ℤ most) × (cs ≡ [])
check_quantity-nil most q cs h = elim (Bool-cases (leb_ℤ q (pos 0))) [
  | inl low ↦ ground (arith, low, h)
  | inr more ↦
      (let parts = unless_ok-nil (leb_ℤ q most) quantity_exceeds_max cs (ground (arith, more, h)) in
        (ground (arith, more), ground (arith, parts.0), parts.1))
]

module _ {P : Type 0} ⦃d : Float P⦄ where
  nil-IsPermitted :
      (is_plain : String → Bool) (p : ManualOrderPolicy P) (o : ManualOrder P) (ltp : P)
      (is_dry_run : Bool)
      → validate_manual_order is_plain p o ltp is_dry_run ≡ []
      → IsPermitted is_plain p o ltp is_dry_run
  unfolding validate_manual_order
  nil-IsPermitted is_plain p o ltp is_dry_run h =
      let (named, plain, equity, h1) = check_symbol-nil is_plain o.symbol _ h in
      let (delivery, h2) =
        unless_ok-nil (is_delivery (upper_of o.product_type o.producttype)) product_type_restriction
          _ h1 in
      let (priced, h3) =
        unless_ok-nil (not (str_eq (upper_of o.order_type o.ordertype) "MARKET") || is_dry_run)
          market_order_requires_dry_run _ h2 in
      let (some_shares, few_shares, h4) = check_quantity-nil p.max_quantity o.quantity _ h3 in
      let (small, h5) =
        unless_ok-nil (not (d.lt p.max_notional (manual_notional o ltp))) notional_exceeds_max []
          h4 in
      record {
        named = named;
        plain = plain;
        no_future = ground (arith, equity);
        no_call = ground (arith, equity);
        no_put = ground (arith, equity);
        delivery = delivery_of (upper_of o.product_type o.producttype) delivery;
        priced = priced;
        some_shares = some_shares;
        few_shares = few_shares;
        small = ground (arith, small);
      }

  IsPermitted-nil :
      (is_plain : String → Bool) (p : ManualOrderPolicy P) (o : ManualOrder P) (ltp : P)
      (is_dry_run : Bool)
      → IsPermitted is_plain p o ltp is_dry_run
      → validate_manual_order is_plain p o ltp is_dry_run ≡ []
  unfolding validate_manual_order
  IsPermitted-nil is_plain p o ltp is_dry_run h =
      let more : leb_ℤ o.quantity (pos 0) ≡ false = ground (arith, h.some_shares) in
      let few : leb_ℤ o.quantity p.max_quantity ≡ true = ground (arith, h.few_shares) in
      let delivery = of_delivery (upper_of o.product_type o.producttype) h.delivery in
      simp
        (h.named, h.plain, h.no_future, h.no_call, h.no_put, delivery, h.priced, more, few, h.small)

  -- The policy finds nothing against an order exactly if its symbol is given, matches the expression and
  -- contains none of FUT, CE and PE, its product is CNC or DELIVERY, it is no MARKET order unless
  -- this is a dry run, its quantity is from 1 to the most allowed, and its notional is not above
  -- the most allowed.
  pub validate_manual_order-nil_iff :
      (is_plain : String → Bool) (p : ManualOrderPolicy P) (o : ManualOrder P) (ltp : P)
      (is_dry_run : Bool)
      → (validate_manual_order is_plain p o ltp is_dry_run ≡ [])
        ↔ IsPermitted is_plain p o ltp is_dry_run
  validate_manual_order-nil_iff is_plain p o ltp is_dry_run =
      (nil-IsPermitted is_plain p o ltp is_dry_run, IsPermitted-nil is_plain p o ltp is_dry_run)
