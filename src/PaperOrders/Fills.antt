-- ===== src/PaperOrders/Fills.antt =====
-- The paths of `place_order` that fill or park an order, and the answer of the whole call.
use indian_algo_trading_plat.Common.{
  ◌≡◌, refl, ◌⊎◌, inl, inr, String, true, false, ◌&&◌, Option, none, some, if◌then◌else◌, [], ◌∷◌,
  ◌++◌, arith, Bool-cases,
}
use indian_algo_trading_plat.Common.Float.{Float}
use indian_algo_trading_plat.Common.Dict.{insert}
use indian_algo_trading_plat.Types.{
  OrderRequest, OrderState, OrderStateEvent, opened, filled, TradingMode, is_limit,
}
use indian_algo_trading_plat.OrderStore.{record_fill, add_order_event}
use indian_algo_trading_plat.OrderStateMachine.{new_order, updated, to_event, Updates, no_updates}
use indian_algo_trading_plat.OrderStateMachine.Transitions.{◌⟶◌, fill_pending, accept}
use indian_algo_trading_plat.FeeModel.{Fees, FeeResult, charged, refused, calculate}
use indian_algo_trading_plat.PaperOrders.{
  Setting, Paper, Result, ok, err, fee_error, reject, fill, execute_limit, Action, try_except,
  paper_execution_error, fill_id_of, limit_not_crossed, persist_event,
}
use indian_algo_trading_plat.PaperOrders.Results.{
  IsNew, move_to_found, new_status, IsTradable, Returns, try-Returns, filled_order, parked_order,
}
use indian_algo_trading_plat.FeeModel.{FeeError}
use indian_algo_trading_plat.PaperOrders.{
  park, no_market_price, limit_is_marketable, limit_fill_price,
}
use indian_algo_trading_plat.OrderStateMachine.Transitions.{after}

-- The journal takes what it is given.
abbrev pub IsQuiet : Setting → Type 0
IsQuiet e = (e.has_journal && e.journal_raises) ≡ false

module _ {P : Type 0} ⦃d : Float P⦄ where
  -- The updates of a fill.
  abbrev pub fills : OrderRequest P → P → Updates P
  fills r p = record no_updates {
    filled_quantity = some r.quantity;
    avg_fill_price = some (some p);
  }

  abbrev pub paper_order : Setting → OrderRequest P → OrderState P
  paper_order e r = new_order r TradingMode.paper e.order_id

  FeeResult-cases :
      (x : FeeResult P) → ((f : Fees P) × (x ≡ charged f)) ⊎ ((y : FeeError) × (x ≡ refused y))
  FeeResult-cases (charged f) = inl (f, refl)
  FeeResult-cases (refused y) = inr (y, refl)

  fill_refused :
      (e : Setting) (o : OrderState P) (r : OrderRequest P) (p : P) (s : Paper P) {x : FeeError}
      → calculate r.side r.quantity p ≡ refused x
      → fill e o r p s ≡ (err (fee_error x), s)
  unfolding fill
  fill_refused e o r p s h = ground arith

  pub fill_edge : (e : Setting) (r : OrderRequest P) → (paper_order e r).status ⟶ filled
  fill_edge e r = rw (new_status r e.order_id) fill_pending

  -- The position, the ledger and the journal after a fill.
  abbrev pub settled : Setting → OrderRequest P → P → Fees P → Paper P → Paper P
  settled e r p f s =
      let event = to_event (updated (paper_order e r) filled (fills r p)) e.event_id in
      record s {
        osm = after s.osm e.order_id (paper_order e r) filled (fills r p) e.event_id;
        positions =
            insert r.symbol (record { side = r.side; quantity = r.quantity; entry_price = p })
              s.positions;
        store =
            if e.has_store
            then (record_fill s.store (record {
              fill_id = fill_id_of r;
              request_id = r.event_id;
              broker_order_id = none;
              symbol = r.symbol;
              side = r.side;
              filled_quantity = r.quantity;
              fill_price = p;
              fees = f.total_fees;
              source = "paper";
            })).0
            else s.store;
        journal = if e.has_journal then s.journal ++ event ∷ [] else s.journal;
      }

  -- A charged fill leaves the settled state, where the journal does not raise.
  pub fill_run :
      (e : Setting) (r : OrderRequest P) (p : P) (s : Paper P) {f : Fees P}
      → IsNew r e.order_id s
      → calculate r.side r.quantity p ≡ charged f
      → (e.has_journal && e.journal_raises) ≡ false
      → fill e (paper_order e r) r p s ≡ (
        ok (to_event (updated (paper_order e r) filled (fills r p)) e.event_id),
        settled e r p f s,
      )
  unfolding fill new_order
  fill_run e r p s {f} h c quiet =
      ground (arith, move_to_found e.order_id filled (fills r p) e.event_id s h (fill_edge e r))

  unfoldable pub handled :
      (e : Setting) (r : OrderRequest P) (s : Paper P)
      → Action P (OrderStateEvent P)
      → Result (OrderStateEvent P) × Paper P
  handled e r s m =
      try_except m (reject e.has_store e.order_id paper_execution_error r e.retry_event_id) s

  ok-Returns :
      (e : Setting) (r : OrderRequest P) (s : Paper P) (m : Action P (OrderStateEvent P))
      {ev : OrderStateEvent P} {s' : Paper P}
      → m s ≡ (ok ev, s')
      → handled e r s m ≡ (ok ev, s')
  unfolding handled
  ok-Returns e r s m h = ground arith

  pub fill-Returns :
      (e : Setting) (r : OrderRequest P) (p : P) (s : Paper P)
      → IsNew r e.order_id s
      → IsQuiet e
      → IsTradable e r
      → Returns e r (handled e r s (fill e (paper_order e r) r p))
  fill-Returns e r p s h quiet t = elim (FeeResult-cases (calculate r.side r.quantity p)) [
    | inl (f, c) ↦ record {
      event = to_event (updated (paper_order e r) filled (fills r p)) e.event_id;
      state = settled e r p f s;
      result = ok-Returns e r s (fill e (paper_order e r) r p) (fill_run e r p s h c quiet);
      order = unfold new_order updated to_event in refl;
      request = unfold new_order updated to_event in refl;
      verdict =
          filled_order (unfold updated to_event in refl) (unfold updated to_event in refl)
            (unfold updated to_event in λ q. cc) t;
    }
    | inr (y, c) ↦
        unfold handled in
        try-Returns e r s (fee_error y) (fill e (paper_order e r) r p) h
          (fill_refused e (paper_order e r) r p s c)
  ]

  abbrev waits : Updates P
  waits = record no_updates { reject_reason = some (some limit_not_crossed) }

  park_edge : (e : Setting) (r : OrderRequest P) → (paper_order e r).status ⟶ opened
  park_edge e r = rw (new_status r e.order_id) accept

  abbrev parked : Setting → OrderRequest P → String → Option String → Paper P → Paper P
  parked e r event_type reason s = record s {
    osm = after s.osm e.order_id (paper_order e r) opened waits e.event_id;
    store =
        if e.has_store
        then add_order_event s.store r.event_id event_type "OPEN" reason none
        else s.store;
  }

  park_run :
      (e : Setting) (r : OrderRequest P) (event_type : String) (reason : Option String)
      (s : Paper P)
      → IsNew r e.order_id s
      → park e (paper_order e r) r event_type reason s ≡ (
        ok (to_event (updated (paper_order e r) opened waits) e.event_id),
        parked e r event_type reason s,
      )
  unfolding persist_event new_order
  park_run e r event_type reason s h =
      ground (arith, move_to_found e.order_id opened waits e.event_id s h (park_edge e r))

  park-Returns :
      (e : Setting) (r : OrderRequest P) (event_type : String) (reason : Option String)
      (s : Paper P)
      → IsNew r e.order_id s
      → is_limit r.order_type ≡ true
      → IsTradable e r
      → Returns e r (handled e r s (park e (paper_order e r) r event_type reason))
  park-Returns e r event_type reason s h l t = record {
    event = to_event (updated (paper_order e r) opened waits) e.event_id;
    state = parked e r event_type reason s;
    result =
        ok-Returns e r s (park e (paper_order e r) r event_type reason)
          (park_run e r event_type reason s h);
    order = unfold new_order updated to_event in refl;
    request = unfold new_order updated to_event in refl;
    verdict =
        parked_order (unfold updated to_event in refl) (unfold new_order updated to_event in refl) l
          t;
  }

  pub limit-Returns :
      (e : Setting) (r : OrderRequest P) (p : P) (ltp : Option P) (s : Paper P)
      → IsNew r e.order_id s
      → IsQuiet e
      → is_limit r.order_type ≡ true
      → IsTradable e r
      → Returns e r (execute_limit e (paper_order e r) r p ltp s)
  unfolding execute_limit handled new_order
  limit-Returns e r p none s h quiet l t =
      park-Returns e r "LIMIT_PARKED" (some no_market_price) s h l t
  limit-Returns e r p (some ltp) s h quiet l t =
      elim (Bool-cases (limit_is_marketable r.side p ltp)) [
        | inl yes_fill ↦
            rw yes_fill (fill-Returns e r (limit_fill_price e.config r.side p ltp) s h quiet t)
        | inr wait ↦ rw wait (park-Returns e r "LIMIT_NOT_CROSSED" none s h l t)
      ]
