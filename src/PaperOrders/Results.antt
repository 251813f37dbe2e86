-- ===== src/PaperOrders/Results.antt =====
-- What `place_order` answers on every path, and what it leaves.
use indian_algo_trading_plat.Common.{◌≡◌, refl, ◌≢◌, String, Bool, true, false, none, some, arith}
use indian_algo_trading_plat.Common.Int.{pos, ◌≤ℤ◌}
use indian_algo_trading_plat.Common.Dict.{lookup}
use indian_algo_trading_plat.Types.{
  OrderRequest, OrderState, OrderStateEvent, OrderStatus, pending, opened, filled, rejected,
  known_side, TradingMode,
}
use indian_algo_trading_plat.OrderStateMachine.{new_order, updated, to_event, Updates}
use indian_algo_trading_plat.OrderStateMachine.Transitions.{◌⟶◌, reject_pending}
use indian_algo_trading_plat.PaperConfig.{market_open}
use indian_algo_trading_plat.PaperOrders.{Setting, Paper, Result, ok, err, reject, move_to, Action}
use indian_algo_trading_plat.OrderStateMachine.{no_updates}
use indian_algo_trading_plat.OrderStore.{add_order_event}
use indian_algo_trading_plat.PaperOrders.{PaperError, try_except, paper_execution_error}
use indian_algo_trading_plat.Common.{subst, sym}
use indian_algo_trading_plat.Types.{is_limit}
use indian_algo_trading_plat.OrderStateMachine.Transitions.{after, transition_found}

module _ {P : Type 0} where
  -- An answer on the way: a new order stands under `id`.
  abbrev pub IsNew : OrderRequest P → String → Paper P → Type 0
  IsNew r id s = lookup id s.osm.orders ≡ some (new_order r TradingMode.paper id)

  -- The call ends by an event that satisfies `Q`, and raises nothing.
  abbrev pub Answers : (OrderStateEvent P → Type 0) → Result (OrderStateEvent P) × Paper P → Type 0
  Answers Q (ok e, s) = Q e
  Answers Q (err x, s) = ⊥

  pub record IsRejection (r : OrderRequest P) (e : OrderStateEvent P) : Type 0 where
    pub status : e.status ≡ rejected
    pub unfilled : e.filled_quantity ≡ pos 0
    pub explained : e.reject_reason ≢ none
    pub request : e.order_request_id ≡ some r.event_id

  -- The updates of a rejection.
  abbrev because : String → Updates P
  because reason = record no_updates { reject_reason = some (some reason) }

  pub move_to_found :
      (id : String) (new : OrderStatus) (u : Updates P) (ev : String) (s : Paper P)
      {o : OrderState P}
      → lookup id s.osm.orders ≡ some o
      → o.status ⟶ new
      → move_to id new u ev s
        ≡ (ok (to_event (updated o new u) ev), record s { osm = after s.osm id o new u ev })
  move_to_found id new u ev s {o} found edge = rw (transition_found s.osm id new u ev found edge)

  pub new_status :
      (r : OrderRequest P) (id : String) → (new_order r TradingMode.paper id).status ≡ pending
  unfolding new_order
  new_status r id = refl

  reject_edge :
      (r : OrderRequest P) (id : String) → (new_order r TradingMode.paper id).status ⟶ rejected
  reject_edge r id = rw (new_status r id) reject_pending

  reject_run :
      (hs : Bool) (id reason ev : String) (r : OrderRequest P) (s : Paper P)
      → IsNew r id s
      → (s' : Paper P) × (reject hs id reason r ev s ≡ (
        ok (to_event (updated (new_order r TradingMode.paper id) rejected (because reason)) ev),
        s',
      ))
  unfolding reject
  reject_run true id reason ev r s h = (
    record s {
      osm = after s.osm id (new_order r TradingMode.paper id) rejected (because reason) ev;
      store = add_order_event s.store r.event_id reason "REJECTED" (some reason) none;
    },
    ground (arith, move_to_found id rejected (because reason) ev s h (reject_edge r id)),
  )
  reject_run false id reason ev r s h = (
    record s {
      osm = after s.osm id (new_order r TradingMode.paper id) rejected (because reason) ev;
    },
    ground (arith, move_to_found id rejected (because reason) ev s h (reject_edge r id)),
  )

  -- What an order must meet before it is priced.
  pub record IsTradable (e : Setting) (r : OrderRequest P) : Type 0 where
    pub quantity : pos 1 ≤ℤ r.quantity
    pub side : known_side r.side ≡ true
    pub hours : market_open e.config e.now ≡ true

  -- The three ends of a call: nothing is filled, a LIMIT order waits, or all of a tradable order is
  -- filled at a price.
  pub data Verdict (e : Setting) (r : OrderRequest P) (ev : OrderStateEvent P) : Type 0 where
    refused_order :
        ev.status ≡ rejected → ev.filled_quantity ≡ pos 0 → ev.reject_reason ≢ none → Verdict e r ev
    parked_order :
        ev.status ≡ opened
        → ev.filled_quantity ≡ pos 0
        → is_limit r.order_type ≡ true
        → IsTradable e r
        → Verdict e r ev
    filled_order :
        ev.status ≡ filled
        → ev.filled_quantity ≡ r.quantity
        → ev.avg_fill_price ≢ none
        → IsTradable e r
        → Verdict e r ev

  -- The call returns an event about the order and its request, and raises nothing.
  pub record Returns (e : Setting) (r : OrderRequest P) (x : Result (OrderStateEvent P) × Paper P)
      : Type 0 where
    pub event : OrderStateEvent P
    pub state : Paper P
    pub result : x ≡ (ok event, state)
    pub order : event.order_id ≡ e.order_id
    pub request : event.order_request_id ≡ some r.event_id
    pub verdict : Verdict e r event

  pub reject-Returns :
      (e : Setting) (reason ev : String) (r : OrderRequest P) (s : Paper P)
      → IsNew r e.order_id s
      → Returns e r (reject e.has_store e.order_id reason r ev s)
  unfolding new_order updated to_event
  reject-Returns e reason ev r s h =
      let (s', run) = reject_run e.has_store e.order_id reason ev r s h in
      record {
        event =
            to_event (updated (new_order r TradingMode.paper e.order_id) rejected (because reason))
              ev;
        state = s';
        result = run;
        order = refl;
        request = refl;
        verdict = refused_order refl refl (λ q. cc);
      }

  -- What a `try` block leaves to its handler, where it raised before it changed anything.
  pub try-Returns :
      (e : Setting) (r : OrderRequest P) (s : Paper P) (x : PaperError)
      (m : Action P (OrderStateEvent P))
      → IsNew r e.order_id s
      → m s ≡ (err x, s)
      → Returns e r
          (try_except m (reject e.has_store e.order_id paper_execution_error r e.retry_event_id) s)
  try-Returns e r s x m h raises =
      subst
        (λ t. Returns e r (elim t.0 [
          | ok a ↦ (ok a, t.1)
          | err y ↦ reject e.has_store e.order_id paper_execution_error r e.retry_event_id t.1
        ]))
        (sym raises) (reject-Returns e paper_execution_error e.retry_event_id r s h)
