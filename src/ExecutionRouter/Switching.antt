-- ===== src/ExecutionRouter/Switching.antt =====
-- backend/execution/execution_router.py: the switches of the mode, the recovery at startup, and
-- `submit_intent`.
use indian_algo_trading_plat.Common.{
  none, ℕ, ◌≡◌, ◌↔◌, ◌⊎◌, eq_iff, String, Bool, true, false, not, List, [], ◌∷◌, arith,
  if◌then◌else◌, is_empty, any_of, str_eq, Bool-cases, inl, inr, or_default, eq_refl,
}
use indian_algo_trading_plat.Types.{OrderRequest, OrderIntent, TradingMode}
use indian_algo_trading_plat.OrderStore.{RequestRow, get_active_requests}
use indian_algo_trading_plat.OrderStateMachine.{has_pending_or_open_orders}
use indian_algo_trading_plat.OrderStateMachine.Recovery.{load_from_store}
use indian_algo_trading_plat.ExecutionRouter.{ExecutionRouter}
use indian_algo_trading_plat.ExecutionRouter.Routing.{live_checks_pass}
use indian_algo_trading_plat.Common.Float.{Float}
use indian_algo_trading_plat.Market.{MarketData}
use indian_algo_trading_plat.ExecutionRouter.{RouteSetting, Routed, answer, simple_rejected_event}
use indian_algo_trading_plat.ExecutionRouter.Routing.{route, duplicate_request}
use indian_algo_trading_plat.ExecutionRouter.Duplicates.{IsUnexecuted}
use indian_algo_trading_plat.ExecutionRouter.Repeats.{route_at_most_once}
use indian_algo_trading_plat.Common.{Option}

-- The ids of the recovered rows that are not empty, before those that were there.
unfoldable pub seed : {P : Type 0} → List (RequestRow P) → List String → List String
seed [] ids = ids
seed (row ∷ rows) ids = seed rows (if is_empty row.request_id then ids else row.request_id ∷ ids)

module _ {P : Type 0} where
  unfoldable pub switch_to_live : Bool → ExecutionRouter P → ExecutionRouter P × Bool
  switch_to_live confirm r =
      if not confirm
      then (r, false)
      else if not r.live_enabled
      then (r, false)
      else if not r.session_valid
      then (r, false)
      else if has_pending_or_open_orders r.paper.osm
      then (r, false)
      else if r.open_positions
      then (r, false)
      else if r.kill_switch.active
      then (r, false)
      else (record r { mode = TradingMode.live }, true)

  unfoldable pub switch_to_paper : ExecutionRouter P → ExecutionRouter P
  switch_to_paper r = record r { mode = TradingMode.paper }

  -- The store's query does not raise here; the number is that of the recovered orders.
  unfoldable pub recover_from_store : ExecutionRouter P → ExecutionRouter P × ℕ
  unfolding get_active_requests load_from_store seed
  recover_from_store r =
      let rows = get_active_requests r.paper.store in
      let (m, count) = load_from_store r.paper.osm rows in
      (
        record r {
          paper = record (r.paper) { osm = m };
          processed_request_ids = seed rows r.processed_request_ids;
        },
        count,
      )

  -- `order_intent_to_request_event`, then `event_id = intent.intent_id`
  unfoldable pub request_of_intent : OrderIntent P → OrderRequest P
  request_of_intent i = record {
    event_id = i.intent_id;
    symbol = i.symbol;
    side = i.side;
    quantity = i.quantity;
    order_type = i.order_type;
    price = i.price;
    strategy_name = or_default i.strategy_name "";
    signal_event_id = i.signal_event_id;
    trading_mode = i.trading_mode;
    source = i.source;
    strategy_signal_id = none;
  }

  -- Whatever the source calls safe, in one record: the states in which LIVE may begin.
  pub record IsReadyForLive (r : ExecutionRouter P) : Type 0 where
    pub enabled : r.live_enabled ≡ true
    pub logged_in : r.session_valid ≡ true
    pub no_orders : has_pending_or_open_orders r.paper.osm ≡ false
    pub no_positions : r.open_positions ≡ false
    pub unlocked : r.kill_switch.active ≡ false

  ready_of_switched :
      (confirm : Bool) (r : ExecutionRouter P)
      → (switch_to_live confirm r).1 ≡ true
      → (confirm ≡ true) × IsReadyForLive r
  unfolding switch_to_live
  ready_of_switched confirm r h = ground arith

  switched_of_ready :
      (confirm : Bool) (r : ExecutionRouter P)
      → (confirm ≡ true) × IsReadyForLive r
      → (switch_to_live confirm r).1 ≡ true
  unfolding switch_to_live
  switched_of_ready confirm r h = ground arith

  -- The switch to LIVE succeeds exactly when it is confirmed and the router is ready for it.
  pub switch_to_live_iff :
      (confirm : Bool) (r : ExecutionRouter P)
      → ((switch_to_live confirm r).1 ≡ true) ↔ ((confirm ≡ true) × IsReadyForLive r)
  switch_to_live_iff confirm r = (ready_of_switched confirm r, switched_of_ready confirm r)

  -- After a successful switch to LIVE the checks that `route` makes before the live adapter pass, and
  -- after a refused one the router is as it was.
  pub switch_to_live_lem :
      (confirm : Bool) (r : ExecutionRouter P)
      → (((switch_to_live confirm r).1 ≡ true)
          × (live_checks_pass (switch_to_live confirm r).0 ≡ true))
        ⊎ (switch_to_live confirm r ≡ (r, false))
  unfolding switch_to_live live_checks_pass
  switch_to_live_lem confirm r = ground arith

  seed_keeps :
      (id : String) (rows : List (RequestRow P)) (ids : List String)
      → any_of (str_eq id) ids ≡ true
      → any_of (str_eq id) (seed rows ids) ≡ true
  unfolding seed
  seed_keeps id [] ids h = h
  seed_keeps id (row ∷ rows) ids h = seed_keeps id rows _ (ground arith)

  seed_lem :
      (id : String) (rows : List (RequestRow P)) (ids : List String)
      → is_empty id ≡ false
      → any_of (λ row. str_eq row.request_id id) rows ≡ true
      → any_of (str_eq id) (seed rows ids) ≡ true
  unfolding seed
  seed_lem id [] ids named h = absurd (ground arith)
  seed_lem id (row ∷ rows) ids named h = elim (Bool-cases (str_eq row.request_id id)) [
    | inl here ↦ seed_keeps id rows _ (ground (arith, eq_iff row.request_id id, eq_refl id))
    | inr there ↦ seed_lem id rows _ named (ground arith)
  ]

  -- After a recovery, every id of an active row counts as processed, so that a request that comes
  -- again after a restart is a duplicate without a look into the store.
  pub recover_from_store-seeds :
      (id : String) (r : ExecutionRouter P)
      → is_empty id ≡ false
      → any_of (λ row. str_eq row.request_id id) (get_active_requests r.paper.store) ≡ true
      → any_of (str_eq id) (recover_from_store r).0.processed_request_ids ≡ true
  unfolding recover_from_store
  recover_from_store-seeds id r named h =
      seed_lem id (get_active_requests r.paper.store) r.processed_request_ids named h

module _ {P : Type 0} ⦃d : Float P⦄ where
  unfoldable pub submit_intent :
      RouteSetting P
      → OrderIntent P
      → Option (MarketData P)
      → ExecutionRouter P
      → Routed P × ExecutionRouter P
  unfolding route request_of_intent
  submit_intent e i latest r = route e (request_of_intent i) latest r

  -- An intent is executed at most once: a second submission with the same intent id is answered as a
  -- duplicate, and changes no order, position, fill or journal entry.
  pub submit_intent_at_most_once :
      (e e' : RouteSetting P) (i i' : OrderIntent P) (latest latest' : Option (MarketData P))
      (r : ExecutionRouter P)
      → i'.intent_id ≡ i.intent_id
      → ((submit_intent e' i' latest' (submit_intent e i latest r).1).0
          ≡ answer (simple_rejected_event (request_of_intent i') duplicate_request e'.event_id))
        × IsUnexecuted
            (submit_intent e i latest r).1
            (submit_intent e' i' latest' (submit_intent e i latest r).1).1
  unfolding submit_intent request_of_intent
  submit_intent_at_most_once e e' i i' latest latest' r same =
      route_at_most_once e e' (request_of_intent i) (request_of_intent i') latest latest' r same
