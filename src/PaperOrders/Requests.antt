-- ===== src/PaperOrders/Requests.antt =====
-- What the methods of backend/execution/paper_order_manager.py do to the rows of order_requests.
use indian_algo_trading_plat.Common.{
  ◌≡◌, ◌∙◌, refl, String, Bool, true, false, not, Option, none, some, arith, if◌then◌else◌,
}
use indian_algo_trading_plat.Common.Int.{pos, leb_ℤ}
use indian_algo_trading_plat.Common.Float.{Float}
use indian_algo_trading_plat.Types.{
  OrderRequest, OrderState, OrderStateEvent, OrderStatus, filled, opened, rejected, known_side,
  is_limit,
}
use indian_algo_trading_plat.OrderStore.{OrderStore, FillRow, record_fill, add_order_event}
use indian_algo_trading_plat.OrderStateMachine.{
  Updates, Outcome, no_updates, raised, moved, transition,
}
use indian_algo_trading_plat.FeeModel.{Fees}
use indian_algo_trading_plat.Market.{MarketData}
use indian_algo_trading_plat.PaperConfig.{market_open}
use indian_algo_trading_plat.PaperOrders.Monad.{
  Paper, Result, Action, ok, err, pure, ◌>>=◌, ◌>>◌, try_except,
}
use indian_algo_trading_plat.PaperOrders.{
  Setting, apply_transition, move_to, create, persist_event, reject, update_positions,
  record_in_journal, persist_fill, charge, fill, or_execution_error, execute_market, park,
  execute_limit, valid_limit, execute, admit, place_order, invalid_quantity, invalid_side,
  market_closed, paper_execution_error, no_market_price, limit_not_crossed, market_ltp,
  limit_is_marketable, market_fill_price, limit_fill_price,
}
use indian_algo_trading_plat.PaperOrders.Fills.{fills}

module _ {P : Type 0} where
  abbrev pub KeepsRequests : {A : Type 0} → Action P A → Type 0
  KeepsRequests m = (s : Paper P) → (m s).1.store.order_requests ≡ s.store.order_requests

  result-KeepsRequests :
      {A B : Type 0} (x : Result A × Paper P) (f : A → Action P B) (s : Paper P)
      → x.1.store.order_requests ≡ s.store.order_requests
      → ((a : A) → KeepsRequests (f a))
      → let out : Result B × Paper P = elim x.0 [ ok a ↦ f a x.1 | err e ↦ (err e, x.1) ] in
        out.1.store.order_requests ≡ s.store.order_requests
  result-KeepsRequests (ok a, s') f s h k = k a s' ∙ h
  result-KeepsRequests (err e, s') f s h k = h

  bind-KeepsRequests :
      {A B : Type 0} (m : Action P A) (f : A → Action P B)
      → KeepsRequests m
      → ((a : A) → KeepsRequests (f a))
      → KeepsRequests (m >>= f)
  bind-KeepsRequests m f h k s = result-KeepsRequests (m s) f s (h s) k

  -- The last step of a method gives its answer.
  then-KeepsRequests :
      {A B : Type 0} (m : Action P A) (b : B) → KeepsRequests m → KeepsRequests (m >> pure b)
  then-KeepsRequests m b h = bind-KeepsRequests m (λ a. pure b) h (λ a s. refl)

  handler-KeepsRequests :
      {A : Type 0} (x : Result A × Paper P) (handler : Action P A) (s : Paper P)
      → x.1.store.order_requests ≡ s.store.order_requests
      → KeepsRequests handler
      → let out : Result A × Paper P = elim x.0 [ ok a ↦ (ok a, x.1) | err e ↦ handler x.1 ] in
        out.1.store.order_requests ≡ s.store.order_requests
  handler-KeepsRequests (ok a, s') handler s h k = h
  handler-KeepsRequests (err e, s') handler s h k = k s' ∙ h

  try_except-KeepsRequests :
      {A : Type 0} (m handler : Action P A)
      → KeepsRequests m
      → KeepsRequests handler
      → KeepsRequests (try_except m handler)
  try_except-KeepsRequests m handler h k s = handler-KeepsRequests (m s) handler s (h s) k

  if-KeepsRequests :
      {A : Type 0} (b : Bool) (m k : Action P A)
      → KeepsRequests m
      → KeepsRequests k
      → KeepsRequests (if b then m else k)
  if-KeepsRequests true m k h g = h
  if-KeepsRequests false m k h g = g

  apply_transition-KeepsRequests :
      (s : Paper P) (o : Outcome P)
      → (apply_transition s o).1.store.order_requests ≡ s.store.order_requests
  apply_transition-KeepsRequests s (raised e) = refl
  apply_transition-KeepsRequests s (moved event m) = refl

  move_to-KeepsRequests :
      (id : String) (new : OrderStatus) (u : Updates P) (ev : String)
      → KeepsRequests (move_to id new u ev)
  move_to-KeepsRequests id new u ev s =
      apply_transition-KeepsRequests s (transition s.osm id new u ev)

  persist_event-KeepsRequests :
      (hs : Bool) (r : OrderRequest P) (event_type status : String) (reason : Option String)
      → KeepsRequests (persist_event hs r event_type status reason)
  unfolding persist_event add_order_event
  persist_event-KeepsRequests true r event_type status reason s = refl
  persist_event-KeepsRequests false r event_type status reason s = refl

  reject-KeepsRequests :
      (hs : Bool) (id reason : String) (r : OrderRequest P) (ev : String)
      → KeepsRequests (reject hs id reason r ev)
  unfolding reject
  reject-KeepsRequests hs id reason r ev =
      bind-KeepsRequests
        (move_to id rejected (record no_updates { reject_reason = some (some reason) }) ev)
        (λ event. persist_event hs r reason "REJECTED" (some reason) >> pure event)
        (move_to-KeepsRequests id rejected _ ev)
        (λ event.
          then-KeepsRequests (persist_event hs r reason "REJECTED" (some reason)) event
            (persist_event-KeepsRequests hs r reason "REJECTED" (some reason)))

  update_positions-KeepsRequests :
      (r : OrderRequest P) (p : P) → KeepsRequests (update_positions r p)
  unfolding update_positions
  update_positions-KeepsRequests r p s = refl

  record_in_journal-KeepsRequests :
      (e : Setting) (event : OrderStateEvent P) → KeepsRequests (record_in_journal e event)
  record_in_journal-KeepsRequests e event s = ground arith

module _ {P : Type 0} ⦃d : Float P⦄ where
  record_fill-requests :
      (s : OrderStore P) (f : FillRow P) → (record_fill s f).0.order_requests ≡ s.order_requests
  unfolding record_fill
  record_fill-requests s f = ground arith

  persist_fill-KeepsRequests :
      (hs : Bool) (r : OrderRequest P) (p fees : P) → KeepsRequests (persist_fill hs r p fees)
  unfolding persist_fill
  persist_fill-KeepsRequests true r p fees s = record_fill-requests s.store _
  persist_fill-KeepsRequests false r p fees s = refl

  charge-KeepsRequests : (r : OrderRequest P) (p : P) → KeepsRequests (charge r p)
  charge-KeepsRequests r p s = ground arith

  -- The steps of a fill after its transition.
  abbrev book :
      Setting → OrderRequest P → P → Fees P → OrderStateEvent P → Action P (OrderStateEvent P)
  book e r p fees event =
      update_positions r p
      >> (persist_fill e.has_store r p fees.total_fees >> (record_in_journal e event >> pure event))

  book-KeepsRequests :
      (e : Setting) (r : OrderRequest P) (p : P) (fees : Fees P) (event : OrderStateEvent P)
      → KeepsRequests (book e r p fees event)
  book-KeepsRequests e r p fees event =
      bind-KeepsRequests (update_positions r p)
        (λ u.
          persist_fill e.has_store r p fees.total_fees >> (record_in_journal e event >> pure event))
        (update_positions-KeepsRequests r p)
        (λ u.
          bind-KeepsRequests (persist_fill e.has_store r p fees.total_fees)
            (λ v. record_in_journal e event >> pure event)
            (persist_fill-KeepsRequests e.has_store r p fees.total_fees)
            (λ v.
              then-KeepsRequests (record_in_journal e event) event
                (record_in_journal-KeepsRequests e event)))

  fill-KeepsRequests :
      (e : Setting) (o : OrderState P) (r : OrderRequest P) (p : P) → KeepsRequests (fill e o r p)
  unfolding fill
  fill-KeepsRequests e o r p =
      bind-KeepsRequests (charge r p)
        (λ fees.
          move_to o.order_id filled (fills r p) e.event_id >>= λ event. book e r p fees event)
        (charge-KeepsRequests r p)
        (λ fees.
          bind-KeepsRequests (move_to o.order_id filled (fills r p) e.event_id)
            (λ event. book e r p fees event)
            (move_to-KeepsRequests o.order_id filled (fills r p) e.event_id)
            (λ event. book-KeepsRequests e r p fees event))

  or_execution_error-KeepsRequests :
      (e : Setting) (o : OrderState P) (r : OrderRequest P) (m : Action P (OrderStateEvent P))
      → KeepsRequests m
      → KeepsRequests (or_execution_error e o r m)
  or_execution_error-KeepsRequests e o r m h =
      try_except-KeepsRequests m
        (reject e.has_store o.order_id paper_execution_error r e.retry_event_id) h
        (reject-KeepsRequests e.has_store o.order_id paper_execution_error r e.retry_event_id)

  park-KeepsRequests :
      (e : Setting) (o : OrderState P) (r : OrderRequest P) (event_type : String)
      (reason : Option String)
      → KeepsRequests (park e o r event_type reason)
  park-KeepsRequests e o r event_type reason =
      bind-KeepsRequests
        (move_to o.order_id opened
          (record no_updates { reject_reason = some (some limit_not_crossed) }) e.event_id)
        (λ event. persist_event e.has_store r event_type "OPEN" reason >> pure event)
        (move_to-KeepsRequests o.order_id opened _ e.event_id)
        (λ event.
          then-KeepsRequests (persist_event e.has_store r event_type "OPEN" reason) event
            (persist_event-KeepsRequests e.has_store r event_type "OPEN" reason))

  execute_limit-KeepsRequests :
      (e : Setting) (o : OrderState P) (r : OrderRequest P) (p : P) (ltp : Option P)
      → KeepsRequests (execute_limit e o r p ltp)
  unfolding execute_limit
  execute_limit-KeepsRequests e o r p none =
      or_execution_error-KeepsRequests e o r (park e o r "LIMIT_PARKED" (some no_market_price))
        (park-KeepsRequests e o r "LIMIT_PARKED" (some no_market_price))
  execute_limit-KeepsRequests e o r p (some ltp) =
      let waits = park e o r "LIMIT_NOT_CROSSED" none in
      let fills_now = fill e o r (limit_fill_price e.config r.side p ltp) in
      or_execution_error-KeepsRequests e o r
        (λ s. (if not (limit_is_marketable r.side p ltp) then waits else fills_now) s)
        (if-KeepsRequests (not (limit_is_marketable r.side p ltp)) waits fills_now
          (park-KeepsRequests e o r "LIMIT_NOT_CROSSED" none)
          (fill-KeepsRequests e o r (limit_fill_price e.config r.side p ltp)))

  execute_market-KeepsRequests :
      (e : Setting) (o : OrderState P) (r : OrderRequest P) (ref : P)
      → KeepsRequests (execute_market e o r ref)
  unfolding execute_market
  execute_market-KeepsRequests e o r ref =
      let p = market_fill_price e.config r.side ref in
      or_execution_error-KeepsRequests e o r (fill e o r p) (fill-KeepsRequests e o r p)

  limit-KeepsRequests :
      (e : Setting) (o : OrderState P) (r : OrderRequest P) (ltp limit : Option P)
      → KeepsRequests (elim limit [
        | none ↦ reject e.has_store o.order_id no_market_price r e.event_id
        | some p ↦ execute_limit e o r p ltp
      ])
  limit-KeepsRequests e o r ltp none =
      reject-KeepsRequests e.has_store o.order_id no_market_price r e.event_id
  limit-KeepsRequests e o r ltp (some p) = execute_limit-KeepsRequests e o r p ltp

  market-KeepsRequests :
      (e : Setting) (o : OrderState P) (r : OrderRequest P) (ltp : Option P)
      → KeepsRequests (elim ltp [
        | none ↦ reject e.has_store o.order_id no_market_price r e.event_id
        | some ref ↦ execute_market e o r ref
      ])
  market-KeepsRequests e o r none =
      reject-KeepsRequests e.has_store o.order_id no_market_price r e.event_id
  market-KeepsRequests e o r (some ref) = execute_market-KeepsRequests e o r ref

  execute-KeepsRequests :
      (e : Setting) (r : OrderRequest P) (latest : Option (MarketData P)) (o : OrderState P)
      → KeepsRequests (execute e r latest o)
  execute-KeepsRequests e r latest o =
      if-KeepsRequests (is_limit r.order_type) _ _
        (limit-KeepsRequests e o r (market_ltp latest) (valid_limit r.price))
        (market-KeepsRequests e o r (market_ltp latest))

  admit-KeepsRequests :
      (e : Setting) (r : OrderRequest P) (latest : Option (MarketData P)) (o : OrderState P)
      → KeepsRequests (admit e r latest o)
  admit-KeepsRequests e r latest o =
      if-KeepsRequests (leb_ℤ r.quantity (pos 0)) _ _
        (reject-KeepsRequests e.has_store o.order_id invalid_quantity r e.event_id)
        (if-KeepsRequests (not (known_side r.side)) _ _
          (reject-KeepsRequests e.has_store o.order_id invalid_side r e.event_id)
          (if-KeepsRequests (not (market_open e.config e.now)) _ _
            (reject-KeepsRequests e.has_store o.order_id market_closed r e.event_id)
            (execute-KeepsRequests e r latest o)))

  -- Whatever is ordered, and whether the call returns or raises, the rows of order_requests are as
  -- they were.
  pub place_order-KeepsRequests :
      (e : Setting) (r : OrderRequest P) (latest : Option (MarketData P)) (s : Paper P)
      → (place_order e r latest s).1.store.order_requests ≡ s.store.order_requests
  unfolding place_order
  place_order-KeepsRequests e r latest =
      bind-KeepsRequests (create r e.order_id) (admit e r latest) (λ s. refl)
        (admit-KeepsRequests e r latest)
