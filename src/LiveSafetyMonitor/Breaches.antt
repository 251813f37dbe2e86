-- ===== src/LiveSafetyMonitor/Breaches.antt =====
-- backend/execution/live_safety_monitor.py: when a run of the checks activates the kill switch, told by
-- what the monitor reads.
use indian_algo_trading_plat.Common.{
  ℕ, ◌+◌, ◌-◌, ◌≤◌, ◌<◌, ◌≡◌, ◌≢◌, ◌↔◌, ◌⊎◌, refl, ap, String, Bool, true, false, not, ◌&&◌, ◌||◌,
  Option, none, some, List, [], ◌∷◌, ◌++◌, map, arith, leb, length, str_eq, eq_iff, eq_refl, any_of,
  filter_by, is_empty, Bool-cases, Option-cases, inl, inr,
}
use indian_algo_trading_plat.Common.Float.{Float, nought}
use indian_algo_trading_plat.OrderStateMachine.{OrderStateMachine, pending_orders, open_orders}
use indian_algo_trading_plat.OrderStore.{OrderStore, RequestRow, get_active_requests}
use indian_algo_trading_plat.LiveSafetyMonitor.{
  PortfolioManager, Trigger, Surroundings, check_open_orders, is_known, distinct, orphaned,
  check_oms_consistency, as_list, check_anomalies, anomalies_after, loss_pct, pnl_of, capital_of,
  check_daily_loss, triggers,
}

abbrev has : String → List String → Bool
has s ss = any_of (str_eq s) ss

has-filter_by :
    (p : String → Bool) (s : String) (ss : List String) → has s (filter_by p ss) ≡ has s ss && p s
has-filter_by p s [] = refl
has-filter_by p s (t ∷ ts) = elim (Bool-cases (str_eq s t)) [
  | inl same ↦
      (let equal : p s ≡ p t = ap p ((eq_iff s t).0 same) in
        ground (arith, same, equal, has-filter_by p s ts))
  | inr other ↦ ground (arith, other, has-filter_by p s ts)
]

distinct-has : (s : String) (ss : List String) → has s (distinct ss) ≡ has s ss
distinct-has s [] = refl
distinct-has s (t ∷ ts) = ground (arith, distinct-has s ts, distinct-has t ts, eq_iff s t)

has-map :
    {P : Type 0} (s : String) (rows : List (RequestRow P))
    → has s (map (λ r. r.request_id) rows) ≡ any_of (λ r. str_eq s r.request_id) rows
has-map s [] = refl
has-map s (r ∷ rs) = ap (λ b. str_eq s r.request_id || b) (has-map s rs)

-- A list that is not empty has some text.
some_has : (ss : List String) → 1 ≤ length ss → (s : String) × (has s ss ≡ true)
some_has [] h = ground (arith, h)
some_has (s ∷ ss) h = (s, ground (arith, eq_refl s))

has-length : (s : String) (ss : List String) → has s ss ≡ true → 1 ≤ length ss
has-length s [] h = ground (arith, h)
has-length s (t ∷ ts) h = omega arith

module _ {P : Type 0} where
  -- An active row of the store has an id that no pending or open order has.
  abbrev pub IsOrphan : Option (OrderStateMachine P) → List (RequestRow P) → String → Type 0
  IsOrphan machine rows id =
      (any_of (λ r. str_eq id r.request_id) rows ≡ true)
      × (is_empty id ≡ false)
      × (is_known machine id ≡ false)

  orphaned-IsOrphan :
      (machine : Option (OrderStateMachine P)) (rows : List (RequestRow P)) (id : String)
      → (has id (orphaned machine rows) ≡ true) ↔ IsOrphan machine rows id
  unfolding orphaned
  orphaned-IsOrphan machine rows id =
      let ids = map (λ r. r.request_id) rows in
      let named = filter_by (λ s. not (is_empty s)) ids in
      let first = has-filter_by (λ s. not (is_known machine s)) id (distinct named) in
      let second = distinct-has id named in
      let third = has-filter_by (λ s. not (is_empty s)) id ids in
      let fourth = has-map id rows in
      (
        λ h. ground (arith, h, first, second, third, fourth),
        λ h. ground (arith, h.0, h.1, h.2, first, second, third, fourth),
      )

  -- What the monitor may find against going on.
  pub data Breach ⦃d : Float P⦄ (s : Surroundings P) (anomalies : ℕ) : Type 0 where
    too_many_orders :
        (m : OrderStateMachine P)
        → s.order_state_machine ≡ some m
        → s.config.max_open_orders < length (pending_orders m) + length (open_orders m)
        → Breach s anomalies
    loss_too_large :
        (p : PortfolioManager P)
        → s.portfolio_manager ≡ some p
        → d.le nought (pnl_of p) ≡ false
        → d.le (loss_pct (pnl_of p) (capital_of p)) s.config.max_daily_loss_pct ≡ false
        → Breach s anomalies
    orphan :
        (store : OrderStore P) (id : String)
        → s.order_store ≡ some store
        → IsOrphan s.order_state_machine (get_active_requests store) id
        → Breach s anomalies
    past_anomalies : s.config.reconciliation_anomaly_threshold ≤ anomalies - 1 → Breach s anomalies

module _ {P : Type 0} ⦃d : Float P⦄ where
  -- Each check is passed, or it finds a breach.
  orders-Breach : (s : Surroundings P) (n : ℕ) → (check_open_orders s ≡ none) ⊎ Breach s n
  unfolding check_open_orders
  orders-Breach s n = elim (Option-cases s.order_state_machine) [
    | inl absent ↦ inl (rw (absent) refl)
    | inr (m, present) ↦
        elim (Bool-cases
          (leb (length (pending_orders m) + length (open_orders m)) s.config.max_open_orders)) [
            | inl few ↦ inl (rw (present) (rw (few) refl))
            | inr many ↦ inr (too_many_orders m present (ground (arith, many)))
          ]
  ]

  loss-Breach : (s : Surroundings P) (n : ℕ) → (check_daily_loss s ≡ none) ⊎ Breach s n
  unfolding check_daily_loss
  loss-Breach s n = elim (Option-cases s.portfolio_manager) [
    | inl absent ↦ inl (rw (absent) refl)
    | inr (p, present) ↦ elim (Bool-cases (d.le nought (pnl_of p))) [
      | inl gain ↦ inl (ground (arith, present, gain))
      | inr loss ↦
          elim (Bool-cases
            (d.le (loss_pct (pnl_of p) (capital_of p)) s.config.max_daily_loss_pct)) [
              | inl small ↦ inl (ground (arith, present, loss, small))
              | inr large ↦ inr (loss_too_large p present loss large)
            ]
    ]
  ]

  oms-Breach : (s : Surroundings P) (n : ℕ) → (check_oms_consistency s ≡ none) ⊎ Breach s n
  unfolding check_oms_consistency
  oms-Breach s n = elim (Option-cases s.order_store) [
    | inl absent ↦ inl (rw (absent) refl)
    | inr (store, present) ↦
        (let ids = orphaned s.order_state_machine (get_active_requests store) in
          elim (Bool-cases (leb (length ids) 0)) [
            | inl clean ↦ inl (ground (arith, present, clean))
            | inr dirty ↦
                (let (id, found) = some_has ids (ground (arith, dirty)) in
                  inr (
                    orphan store id present (
                      (orphaned-IsOrphan s.order_state_machine (get_active_requests store) id).0
                        found)))
          ])
  ]

  as_list-nil :
      (t : Option (Trigger P)) (ts : List (Trigger P))
      → as_list t ++ ts ≡ []
      → (t ≡ none) × (ts ≡ [])
  as_list-nil none ts h = (refl, h)
  as_list-nil (some t) ts h = cc

  as_list-none : (t : Option (Trigger P)) → as_list t ≡ [] → t ≡ none
  as_list-none none h = refl
  as_list-none (some t) h = cc

  triggers-none :
      (s : Surroundings P) (n : ℕ)
      → triggers s n ≡ []
      → (check_open_orders s ≡ none)
        × (check_daily_loss s ≡ none)
        × (check_oms_consistency s ≡ none)
        × (check_anomalies {P = P} s.config.reconciliation_anomaly_threshold n ≡ none)
  unfolding triggers
  triggers-none s n h =
      let (few, h1) = as_list-nil (check_open_orders s) _ h in
      let (gain, h2) = as_list-nil (check_daily_loss s) _ h1 in
      let (clean, h3) = as_list-nil (check_oms_consistency s) _ h2 in
      (few, gain, clean, as_list-none _ h3)

  -- A breach is found by the check that looks for it.
  pub Breach-triggers :
      (s : Surroundings P) (n : ℕ)
      → Breach s n
      → triggers s (anomalies_after (check_oms_consistency s) n) ≢ []
  unfolding check_open_orders check_daily_loss check_oms_consistency
  Breach-triggers s n (too_many_orders m present many) h =
      let few = (triggers-none s _ h).0 in ground (arith, few, present, many)
  Breach-triggers s n (loss_too_large p present loss large) h =
      let gain = (triggers-none s _ h).1 in ground (arith, gain, present, loss, large)
  Breach-triggers s n (orphan store id present lost) h =
      let clean = (triggers-none s _ h).2 in
      let ids = orphaned s.order_state_machine (get_active_requests store) in
      let found = (orphaned-IsOrphan s.order_state_machine (get_active_requests store) id).1 lost in
      let many = has-length id ids found in ground (arith, clean, present, many)
  Breach-triggers s n (past_anomalies past) h =
      let (few, gain, clean, calm) = triggers-none s _ h in
      let same : anomalies_after (check_oms_consistency s) n ≡ n - 1 =
        ap (λ t. anomalies_after t n) clean in
      ground (arith, past, same, calm)

  pub triggers-Breach :
      (s : Surroundings P) (n : ℕ)
      → (triggers s (anomalies_after (check_oms_consistency s) n) ≡ []) ⊎ Breach s n
  unfolding triggers
  triggers-Breach s n = elim (orders-Breach s n) [
    | inr b ↦ inr b
    | inl few ↦ elim (loss-Breach s n) [
      | inr b ↦ inr b
      | inl gain ↦ elim (oms-Breach s n) [
        | inr b ↦ inr b
        | inl clean ↦ elim (Bool-cases (leb s.config.reconciliation_anomaly_threshold (n - 1))) [
          | inl past ↦ inr (past_anomalies (ground (arith, past)))
          | inr calm ↦ inl (rw (few, gain, clean, calm) refl)
        ]
      ]
    ]
  ]
