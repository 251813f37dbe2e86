-- ===== src/ExecutionRouter/Duplicates.antt =====
-- `route` of backend/execution/execution_router.py on an id that it has seen, and the helpers of the router that write only to the store.
use indian_algo_trading_plat.Common.{
  ◌≡◌, ◌∙◌, refl, String, true, Option, some, arith, Bool-cases, inl, inr,
}
use indian_algo_trading_plat.Common.Float.{Float}
use indian_algo_trading_plat.Types.{OrderRequest, OrderStateEvent}
use indian_algo_trading_plat.OrderStore.{OrderStore, DbStatus, update_order_status, add_order_event}
use indian_algo_trading_plat.Market.{MarketData}
use indian_algo_trading_plat.ExecutionRouter.{
  ExecutionRouter, RouteSetting, answer, publish, on_order_state_event, simple_rejected_event,
}
use indian_algo_trading_plat.ExecutionRouter.Routing.{
  route, is_duplicate, reject_duplicate, note, set_row, duplicate_request,
}

module _ {P : Type 0} where
  -- No order was created or moved, no position and no fill was written, and the journal has nothing
  -- new.
  pub record IsUnexecuted (r r' : ExecutionRouter P) : Type 0 where
    pub same_orders : r'.paper.osm ≡ r.paper.osm
    pub same_positions : r'.paper.positions ≡ r.paper.positions
    pub same_fills : r'.paper.store.order_fills ≡ r.paper.store.order_fills
    pub same_journal : r'.paper.journal ≡ r.paper.journal

  on_order_state_event-fills :
      (s : OrderStore P) (e : OrderStateEvent P)
      → (on_order_state_event s e).order_fills ≡ s.order_fills
  unfolding on_order_state_event update_order_status add_order_event
  on_order_state_event-fills s e = ground arith

  pub publish-IsUnexecuted :
      (r : ExecutionRouter P) (e : OrderStateEvent P) → IsUnexecuted r (publish r e)
  unfolding publish
  publish-IsUnexecuted r e = elim (Bool-cases r.paper.osm.event_bus) [
    | inl b ↦ rw b (record {
      same_orders = refl;
      same_positions = refl;
      same_fills = on_order_state_event-fills r.paper.store e;
      same_journal = refl;
    })
    | inr b ↦ rw b (record {
      same_orders = refl;
      same_positions = refl;
      same_fills = refl;
      same_journal = refl;
    })
  ]

  pub IsUnexecuted-trans :
      {a b c : ExecutionRouter P} → IsUnexecuted a b → IsUnexecuted b c → IsUnexecuted a c
  IsUnexecuted-trans h k = record {
    same_orders = k.same_orders ∙ h.same_orders;
    same_positions = k.same_positions ∙ h.same_positions;
    same_fills = k.same_fills ∙ h.same_fills;
    same_journal = k.same_journal ∙ h.same_journal;
  }

  pub note-IsUnexecuted :
      (id event_type status : String) (reason : Option String) (r : ExecutionRouter P)
      → IsUnexecuted r (note id event_type status reason r)
  unfolding note add_order_event
  note-IsUnexecuted id event_type status reason r = record {
    same_orders = refl;
    same_positions = refl;
    same_fills = refl;
    same_journal = refl;
  }

  pub set_row-IsUnexecuted :
      (id : String) (status : DbStatus) (reason : Option String) (r : ExecutionRouter P)
      → IsUnexecuted r (set_row id status reason r)
  unfolding set_row update_order_status
  set_row-IsUnexecuted id status reason r = record {
    same_orders = refl;
    same_positions = refl;
    same_fills = refl;
    same_journal = refl;
  }

  pub reject_duplicate-IsUnexecuted :
      (e : RouteSetting P) (q : OrderRequest P) (r : ExecutionRouter P)
      → IsUnexecuted r (reject_duplicate e q r).1
  unfolding reject_duplicate
  reject_duplicate-IsUnexecuted e q r =
      IsUnexecuted-trans
        (note-IsUnexecuted q.event_id "DUPLICATE_REJECTED" "REJECTED" (some duplicate_request) r)
        (publish-IsUnexecuted
          (note q.event_id "DUPLICATE_REJECTED" "REJECTED" (some duplicate_request) r)
          (simple_rejected_event q duplicate_request e.event_id))

module _ {P : Type 0} ⦃d : Float P⦄ where
  -- A duplicate, in memory or in the store, is answered with REJECTED and its reason, and nothing is
  -- executed.
  pub route_duplicate :
      (e : RouteSetting P) (q : OrderRequest P) (latest : Option (MarketData P))
      (r : ExecutionRouter P)
      → is_duplicate q r ≡ true
      → ((route e q latest r).0 ≡ answer (simple_rejected_event q duplicate_request e.event_id))
        × IsUnexecuted r (route e q latest r).1
  unfolding route reject_duplicate
  route_duplicate e q latest r dup = rw dup (refl, reject_duplicate-IsUnexecuted e q r)
