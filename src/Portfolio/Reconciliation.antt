-- ===== src/Portfolio/Reconciliation.antt =====
-- backend/portfolio/broker_reconciliation.py: internal items against those of the broker, by symbol. An
-- item is a dict of which the class reads alternative keys; a missing key and None are `none`. The
-- numbers of an item are numbers already.
use indian_algo_trading_plat.Common.{
  String, Bool, true, false, Option, none, some, List, [], ◌∷◌, ◌++◌, if◌then◌else◌, is_empty,
  upper, or_default, ℕ, ◌+◌, length,
}
use indian_algo_trading_plat.Common.Int.{ℤ, pos, eqb_ℤ}
use indian_algo_trading_plat.Common.Float.{Float, nought, abs_of}
use indian_algo_trading_plat.Common.Dict.{Dict, lookup, insert}
use indian_algo_trading_plat.Market.{is_zero}

pub record Item (P : Type 0) : Type 0 where
  pub symbol : Option String
  pub tradingsymbol : Option String
  pub quantity : Option P
  pub qty : Option P
  pub netqty : Option P
  pub avg_price : Option P
  pub averageprice : Option P
  pub average_price : Option P

pub data Severity : Type 0 where
  critical warning : Severity

pub data Mismatch (P : Type 0) : Type 0 where
  missing_from_broker missing_internally : String → Item P → Severity → Mismatch P
  quantity_mismatch : String → ℤ → ℤ → Mismatch P
  avg_price_mismatch : String → P → P → Mismatch P

pub record MismatchSummary : Type 0 where
  pub mismatch_count : ℕ
  pub critical_count : ℕ
  pub warning_count : ℕ
  pub ok : Bool

-- `a or b` on texts
abbrev or_text : Option String → Option String → Option String
or_text none b = b
or_text (some a) b = if is_empty a then b else some a

module _ {P : Type 0} where
  unfoldable pub symbol_of : Item P → String
  symbol_of i = upper (or_default (or_text i.symbol i.tradingsymbol) "")

  -- `{self._symbol(item): item for item in items if self._symbol(item)}`
  abbrev pub index_from : Dict (Item P) → List (Item P) → Dict (Item P)
  index_from index [] = index
  index_from index (i ∷ items) =
      index_from (if is_empty (symbol_of i) then index else insert (symbol_of i) i index) items

  unfoldable pub index_of : List (Item P) → Dict (Item P)
  index_of items = index_from [] items

  unfoldable pub severity_of : Mismatch P → Severity
  severity_of (missing_from_broker s i v) = v
  severity_of (missing_internally s i v) = v
  severity_of (quantity_mismatch s a b) = critical
  severity_of (avg_price_mismatch s a b) = warning

  -- The mismatches of every entry of a dict, in its order.
  abbrev pub each_entry : (String → Item P → List (Mismatch P)) → Dict (Item P) → List (Mismatch P)
  each_entry check [] = []
  each_entry check ((symbol, i) ∷ entries) = check symbol i ++ each_entry check entries

  abbrev count_by : Severity → List (Mismatch P) → ℕ
  count_by v [] = 0
  count_by v (m ∷ ms) =
      (elim v [
        | critical ↦ elim (severity_of m) [ critical ↦ 1 | warning ↦ 0 ]
        | warning ↦ elim (severity_of m) [ critical ↦ 0 | warning ↦ 1 ]
      ])
      + count_by v ms

  unfoldable pub summarize : List (Mismatch P) → MismatchSummary
  summarize ms = record {
    mismatch_count = length ms;
    critical_count = count_by critical ms;
    warning_count = count_by warning ms;
    ok = elim ms [ [] ↦ true | m ∷ rest ↦ false ];
  }

module _ {P : Type 0} ⦃d : Float P⦄ where
  -- `a or b` on numbers: 0 is passed over.
  abbrev or_number : Option P → Option P → Option P
  or_number none b = b
  or_number (some a) b = if is_zero a then b else some a

  unfoldable pub qty_of : Item P → ℤ
  qty_of i = d.to_int (or_default (or_number i.quantity (or_number i.qty i.netqty)) nought)

  unfoldable pub avg_of : Item P → P
  avg_of i = or_default (or_number i.avg_price (or_number i.averageprice i.average_price)) nought

  abbrev pub cent : P
  cent = d.div (d.of_int (pos 1)) (d.of_int (pos 100))

  -- `abs(internal_avg - broker_avg) > 0.01` on the rounded averages
  abbrev pub far_apart : Item P → Item P → Bool
  far_apart a b = d.lt cent (abs_of (d.sub (d.round (avg_of a) 2) (d.round (avg_of b) 2)))

  abbrev pub compare_items : String → Item P → Item P → List (Mismatch P)
  compare_items symbol a b =
      (if eqb_ℤ (qty_of a) (qty_of b)
        then []
        else quantity_mismatch symbol (qty_of a) (qty_of b) ∷ [])
      ++ (if far_apart a b
          then avg_price_mismatch symbol (d.round (avg_of a) 2) (d.round (avg_of b) 2) ∷ []
          else [])

  abbrev pub check_internal : Severity → Dict (Item P) → String → Item P → List (Mismatch P)
  check_internal v broker symbol a = elim (lookup symbol broker) [
    | none ↦ missing_from_broker symbol a v ∷ []
    | some b ↦ compare_items symbol a b
  ]

  abbrev pub check_broker : Severity → Dict (Item P) → String → Item P → List (Mismatch P)
  check_broker v internal symbol b = elim (lookup symbol internal) [
    | none ↦ if eqb_ℤ (qty_of b) (pos 0) then [] else missing_internally symbol b v ∷ []
    | some a ↦ []
  ]

  unfoldable pub reconcile : List (Item P) → List (Item P) → Severity → Severity → List (Mismatch P)
  unfolding index_of
  reconcile internal_items broker_items missing_broker missing_internal =
      let internal = index_of internal_items in
      let broker = index_of broker_items in
      each_entry (check_internal missing_broker broker) internal
      ++ each_entry (check_broker missing_internal internal) broker

  unfoldable pub reconcile_positions : List (Item P) → List (Item P) → List (Mismatch P)
  unfolding reconcile
  reconcile_positions internal broker = reconcile internal broker critical critical

  unfoldable pub reconcile_holdings : List (Item P) → List (Item P) → List (Mismatch P)
  unfolding reconcile
  reconcile_holdings internal broker = reconcile internal broker warning warning
