-- ===== src/Portfolio/Agreement.antt =====
-- backend/portfolio/broker_reconciliation.py: when a reconciliation reports nothing, told by the last item
-- of each list that has a symbol, without the dicts and the loops.
use indian_algo_trading_plat.Common.{
  ◌≡◌, refl, sym, ◌∙◌, inl, inr, Bool-cases, String, Bool, true, false, not, ◌&&◌, Option, none,
  some, List, [], ◌∷◌, ◌++◌, if◌then◌else◌, is_empty, arith, str_eq, eq_iff, eq_refl, ◌↔◌, subst,
}
use indian_algo_trading_plat.Common.Int.{pos, eqb_ℤ}
use indian_algo_trading_plat.Common.Float.{Float}
use indian_algo_trading_plat.Common.Dict.{Dict, lookup, insert, lookup-insert}
use indian_algo_trading_plat.Portfolio.Reconciliation.{
  Item, Severity, Mismatch, symbol_of, index_from, index_of, qty_of, far_apart, missing_from_broker,
  missing_internally, compare_items, check_internal, check_broker, each_entry, reconcile,
}

-- No key occurs twice.
abbrev pub IsDict : {V : Type 0} → Dict V → Type 0
IsDict [] = Unit
IsDict ((k, v) ∷ d) = (lookup k d ≡ none) × IsDict d

insert-IsDict : {V : Type 0} (k : String) (v : V) (d : Dict V) → IsDict d → IsDict (insert k v d)
insert-IsDict k v [] h = (refl, tt)
insert-IsDict k v ((j, w) ∷ d) h = elim (Bool-cases (str_eq j k)) [
  | inl same ↦ rw (same) h
  | inr other ↦
      rw (other) (
        ground (arith, lookup-insert k j v d, eq_iff j k, eq_iff k j, h.0),
        insert-IsDict k v d h.1,
      )
]

if-IsDict :
    {V : Type 0} (b : Bool) (d e : Dict V) → IsDict d → IsDict e → IsDict (if b then d else e)
if-IsDict true d e h k = h
if-IsDict false d e h k = k

module _ {P : Type 0} where
  -- The last item of a list that has a symbol, if its symbol is that.
  unfoldable pub item_named : String → List (Item P) → Option (Item P)
  item_named symbol [] = none
  item_named symbol (i ∷ items) = elim (item_named symbol items) [
    | some j ↦ some j
    | none ↦ if str_eq (symbol_of i) symbol && not (is_empty symbol) then some i else none
  ]

  or_later : Option (Item P) → Option (Item P) → Option (Item P)
  or_later none b = b
  or_later (some a) b = some a

  or_later-none : (a : Option (Item P)) → or_later a none ≡ a
  unfolding or_later
  or_later-none none = refl
  or_later-none (some a) = refl

  lookup-index_from :
      (symbol : String) (index : Dict (Item P)) (items : List (Item P))
      → lookup symbol (index_from index items)
        ≡ or_later (item_named symbol items) (lookup symbol index)
  unfolding item_named or_later
  lookup-index_from symbol index [] = refl
  lookup-index_from symbol index (i ∷ items) = ground (
    arith,
    lookup-index_from symbol index items,
    lookup-index_from symbol (insert (symbol_of i) i index) items,
    lookup-insert (symbol_of i) symbol i index,
    eq_iff (symbol_of i) symbol,
  )

  lookup-index_of :
      (symbol : String) (items : List (Item P))
      → lookup symbol (index_of items) ≡ item_named symbol items
  unfolding index_of
  lookup-index_of symbol items =
      lookup-index_from symbol [] items ∙ or_later-none (item_named symbol items)

  index_from-IsDict :
      (index : Dict (Item P)) (items : List (Item P))
      → IsDict index
      → IsDict (index_from index items)
  index_from-IsDict index [] h = h
  index_from-IsDict index (i ∷ items) h =
      index_from-IsDict (if is_empty (symbol_of i) then index else insert (symbol_of i) i index)
        items
        (if-IsDict (is_empty (symbol_of i)) index (insert (symbol_of i) i index) h
          (insert-IsDict (symbol_of i) i index h))

module _ {P : Type 0} where
  append-nil : (xs ys : List (Mismatch P)) → xs ++ ys ≡ [] → (xs ≡ []) × (ys ≡ [])
  append-nil [] ys h = (refl, h)
  append-nil (x ∷ xs) ys h = cc

  after_fresh :
      (key symbol : String) (j i : Item P) (d : Dict (Item P))
      → lookup key d ≡ none
      → lookup symbol d ≡ some i
      → lookup symbol ((key, j) ∷ d) ≡ some i
  after_fresh key symbol j i d fresh found = elim (Bool-cases (str_eq key symbol)) [
    | inl same ↦ (let name : key ≡ symbol = ground (arith, eq_iff key symbol, same) in cc)
    | inr other ↦ ground (arith, other, found)
  ]

  -- Every entry passes a check that passes what is found under each key, and the other way round.
  each_entry-lookup :
      (check : String → Item P → List (Mismatch P)) (d : Dict (Item P)) (symbol : String)
      (i : Item P)
      → each_entry check d ≡ []
      → lookup symbol d ≡ some i
      → check symbol i ≡ []
  each_entry-lookup check [] symbol i h found = cc
  each_entry-lookup check ((key, j) ∷ d) symbol i h found =
      let parts = append-nil (check key j) (each_entry check d) h in
      elim (Bool-cases (str_eq key symbol)) [
        | inl same ↦
            (let name : key ≡ symbol = ground (arith, eq_iff key symbol, same) in
              let here : j ≡ i = ground (arith, same, found) in let passed = parts.0 in cc)
        | inr other ↦ each_entry-lookup check d symbol i parts.1 (ground (arith, other, found))
      ]

  each_entry-nil :
      (check : String → Item P → List (Mismatch P)) (d : Dict (Item P))
      → IsDict d
      → ((symbol : String) (i : Item P) → lookup symbol d ≡ some i → check symbol i ≡ [])
      → each_entry check d ≡ []
  each_entry-nil check [] h passed = refl
  each_entry-nil check ((key, j) ∷ d) h passed =
      let own : check key j ≡ [] = passed key j (simp (eq_refl)) in
      let rest =
        each_entry-nil check d h.1
          (λ symbol i found. passed symbol i (after_fresh key symbol j i d h.0 found)) in
      rw (own) rest

module _ {P : Type 0} ⦃d : Float P⦄ where
  -- What the two sides hold of one symbol agrees.
  unfoldable pub agrees : Option (Item P) → Option (Item P) → Bool
  agrees none none = true
  agrees none (some b) = eqb_ℤ (qty_of b) (pos 0)
  agrees (some a) none = false
  agrees (some a) (some b) = eqb_ℤ (qty_of a) (qty_of b) && not (far_apart a b)

  compare-agrees :
      (symbol : String) (a b : Item P)
      → (compare_items symbol a b ≡ []) ↔ (agrees (some a) (some b) ≡ true)
  unfolding agrees
  compare-agrees symbol a b = (λ h. ground arith, λ h. ground arith)

  -- The two checks of one symbol, on what is found under it.
  abbrev internal_check : Severity → String → Item P → Option (Item P) → List (Mismatch P)
  internal_check v symbol a y = elim y [
    | none ↦ missing_from_broker symbol a v ∷ []
    | some b ↦ compare_items symbol a b
  ]

  abbrev broker_check : Severity → String → Option (Item P) → Item P → List (Mismatch P)
  broker_check w symbol x b = elim x [
    | none ↦ if eqb_ℤ (qty_of b) (pos 0) then [] else missing_internally symbol b w ∷ []
    | some a ↦ []
  ]

  passed-agrees :
      (v w : Severity) (symbol : String) (x y : Option (Item P))
      → ((a : Item P) → x ≡ some a → internal_check v symbol a y ≡ [])
      → ((b : Item P) → y ≡ some b → broker_check w symbol x b ≡ [])
      → agrees x y ≡ true
  unfolding agrees
  passed-agrees v w symbol none none f g = refl
  passed-agrees v w symbol none (some b) f g = let h = g b refl in ground arith
  passed-agrees v w symbol (some a) none f g = let h = f a refl in cc
  passed-agrees v w symbol (some a) (some b) f g = (compare-agrees symbol a b).0 (f a refl)

  agrees-internal :
      (v : Severity) (symbol : String) (x y : Option (Item P)) (a : Item P)
      → agrees x y ≡ true
      → x ≡ some a
      → internal_check v symbol a y ≡ []
  unfolding agrees
  agrees-internal v symbol none y a h found = cc
  agrees-internal v symbol (some c) none a h found = cc
  agrees-internal v symbol (some c) (some b) a h found =
      (compare-agrees symbol a b).1 (subst (λ z. agrees z (some b) ≡ true) found h)

  agrees-broker :
      (w : Severity) (symbol : String) (x y : Option (Item P)) (b : Item P)
      → agrees x y ≡ true
      → y ≡ some b
      → broker_check w symbol x b ≡ []
  unfolding agrees
  agrees-broker w symbol (some a) y b h found = refl
  agrees-broker w symbol none none b h found = cc
  agrees-broker w symbol none (some c) b h found =
      let same : c ≡ b = ground (arith, found) in
      let zero_held : eqb_ℤ (qty_of b) (pos 0) ≡ true =
        subst (λ z. eqb_ℤ (qty_of z) (pos 0) ≡ true) same h in
      simp (zero_held)

  index_of-IsDict : (items : List (Item P)) → IsDict (index_of items)
  unfolding index_of
  index_of-IsDict items = index_from-IsDict [] items tt

  -- The loops on two dicts.
  abbrev loops : Severity → Severity → Dict (Item P) → Dict (Item P) → List (Mismatch P)
  loops v w internal broker =
      each_entry (check_internal v broker) internal ++ each_entry (check_broker w internal) broker

  loops-agrees :
      (v w : Severity) (internal broker : Dict (Item P))
      → loops v w internal broker ≡ []
      → (symbol : String) → agrees (lookup symbol internal) (lookup symbol broker) ≡ true
  loops-agrees v w internal broker h symbol =
      let parts = append-nil (each_entry (check_internal v broker) internal) _ h in
      passed-agrees v w symbol (lookup symbol internal) (lookup symbol broker)
        (λ a found. each_entry-lookup (check_internal v broker) internal symbol a parts.0 found)
        (λ b found. each_entry-lookup (check_broker w internal) broker symbol b parts.1 found)

  agrees-loops :
      (v w : Severity) (internal broker : Dict (Item P))
      → IsDict internal
      → IsDict broker
      → ((symbol : String) → agrees (lookup symbol internal) (lookup symbol broker) ≡ true)
      → loops v w internal broker ≡ []
  agrees-loops v w internal broker k l h =
      let first =
        each_entry-nil (check_internal v broker) internal k (λ symbol a found.
          agrees-internal v symbol _ (lookup symbol broker) a (h symbol) found) in
      let second =
        each_entry-nil (check_broker w internal) broker l (λ symbol b found.
          agrees-broker w symbol (lookup symbol internal) _ b (h symbol) found) in
      rw (first) second

  -- A reconciliation reports nothing exactly if, for every symbol, the last items with it on the two
  -- sides agree: both have the same quantity and averages that are not far apart, or only the
  -- broker has one and its quantity is 0, or neither has one.
  pub reconcile-nil_iff :
      (internal broker : List (Item P)) (v w : Severity)
      → (reconcile internal broker v w ≡ []) ↔ (
          (symbol : String) → agrees (item_named symbol internal) (item_named symbol broker) ≡ true)
  unfolding reconcile
  reconcile-nil_iff internal broker v w = (
    λ h symbol.
        rw (sym (lookup-index_of symbol internal), sym (lookup-index_of symbol broker))
          (loops-agrees v w (index_of internal) (index_of broker) h symbol),
    λ h.
        agrees-loops v w (index_of internal) (index_of broker) (index_of-IsDict internal)
          (index_of-IsDict broker)
          (λ symbol.
            rw (lookup-index_of symbol internal, lookup-index_of symbol broker) (h symbol)),
  )
