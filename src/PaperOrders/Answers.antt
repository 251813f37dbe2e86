-- ===== src/PaperOrders/Answers.antt =====
-- `place_order` of backend/execution/paper_order_manager.py as a whole, and a journal that raises.
use indian_algo_trading_plat.Common.{
  ◌≡◌, refl, inl, inr, String, Bool, true, false, Option, some, arith, Bool-cases, Option-cases,
}
use indian_algo_trading_plat.Common.Int.{pos, leb_ℤ}
use indian_algo_trading_plat.Common.Float.{Float}
use indian_algo_trading_plat.Common.Dict.{lookup, lookup-insert_self}
use indian_algo_trading_plat.Types.{
  OrderRequest, OrderState, OrderStateEvent, known_side, TradingMode, is_limit, filled,
}
use indian_algo_trading_plat.OrderStateMachine.{create_order, new_order}
use indian_algo_trading_plat.PaperConfig.{market_open}
use indian_algo_trading_plat.Market.{MarketData}
use indian_algo_trading_plat.PaperOrders.{
  Setting, Paper, Result, err, place_order, reject, execute_market, market_ltp, admit, execute,
  valid_limit, market_fill_price, invalid_quantity, invalid_side, market_closed, no_market_price,
  fill,
}
use indian_algo_trading_plat.PaperOrders.Results.{IsNew, IsTradable, Returns, reject-Returns}
use indian_algo_trading_plat.PaperOrders.Fills.{
  IsQuiet, handled, fill-Returns, limit-Returns, paper_order,
}
use indian_algo_trading_plat.OrderStateMachine.{transition, updated, publish, terminal_order}
use indian_algo_trading_plat.FeeModel.{Fees, calculate, charged}
use indian_algo_trading_plat.PaperOrders.{osm_error, journal_error, paper_execution_error}
use indian_algo_trading_plat.PaperOrders.Results.{move_to_found}
use indian_algo_trading_plat.PaperOrders.Fills.{settled, fills, fill_edge}
use indian_algo_trading_plat.Common.{ap, ◌∙◌}

module _ {P : Type 0} ⦃d : Float P⦄ where
  execute-Returns :
      (e : Setting) (r : OrderRequest P) (market : Option (MarketData P)) (s : Paper P)
      → IsNew r e.order_id s
      → IsQuiet e
      → IsTradable e r
      → Returns e r (execute e r market (paper_order e r) s)
  unfolding new_order execute_market handled
  execute-Returns e r market s h quiet t = elim (Bool-cases (is_limit r.order_type)) [
    | inl l ↦ elim (Option-cases (valid_limit r.price)) [
      | inl bad ↦ rw (l, bad) (reject-Returns e no_market_price e.event_id r s h)
      | inr (p, good) ↦ rw (l, good) (limit-Returns e r p (market_ltp market) s h quiet l t)
    ]
    | inr m ↦ elim (Option-cases (market_ltp market)) [
      | inl bad ↦ rw (m, bad) (reject-Returns e no_market_price e.event_id r s h)
      | inr (ref, good) ↦
          rw (m, good) (fill-Returns e r (market_fill_price e.config r.side ref) s h quiet t)
    ]
  ]

  admit-Returns :
      (e : Setting) (r : OrderRequest P) (market : Option (MarketData P)) (s : Paper P)
      → IsNew r e.order_id s
      → IsQuiet e
      → Returns e r (admit e r market (paper_order e r) s)
  unfolding new_order
  admit-Returns e r market s h quiet = elim (Bool-cases (leb_ℤ r.quantity (pos 0))) [
    | inl q ↦ rw q (reject-Returns e invalid_quantity e.event_id r s h)
    | inr q ↦ elim (Bool-cases (known_side r.side)) [
      | inr k ↦ rw (q, k) (reject-Returns e invalid_side e.event_id r s h)
      | inl k ↦ elim (Bool-cases (market_open e.config e.now)) [
        | inr o ↦ rw (q, k, o) (reject-Returns e market_closed e.event_id r s h)
        | inl o ↦
            rw (q, k, o)
              (execute-Returns e r market s h quiet
                (record { quantity = ground arith; side = k; hours = o }))
      ]
    ]
  ]

  -- Where the trade journal does not raise, `place_order` answers every request with an event about
  -- it and raises nothing: a rejection that fills nothing and gives a reason, a LIMIT order that
  -- waits, or a complete fill at a price. A fill or a wait needs a positive quantity, a known side
  -- and an open market.
  pub place_order-Returns :
      (e : Setting) (r : OrderRequest P) (market : Option (MarketData P)) (s : Paper P)
      → IsQuiet e
      → Returns e r (place_order e r market s)
  unfolding place_order create_order
  place_order-Returns e r market s quiet =
      admit-Returns e r market
        (record s { osm = (create_order s.osm r TradingMode.paper e.order_id).0 })
        (lookup-insert_self e.order_id (paper_order e r) s.osm.orders) quiet

  reject-filled :
      (hs : Bool) (id reason ev : String) (r : OrderRequest P) (s : Paper P) {o : OrderState P}
      → lookup id s.osm.orders ≡ some o
      → o.status ≡ filled
      → reject hs id reason r ev s ≡ (err (osm_error terminal_order), s)
  unfolding reject transition
  reject-filled hs id reason ev r s h k = ground arith

  -- The state when the journal raises: all but the journal is as after the fill.
  abbrev unjournaled : Setting → OrderRequest P → P → Fees P → Paper P → Paper P
  unjournaled e r p f s = record (settled e r p f s) { journal = s.journal }

  fill_journal_raises :
      (e : Setting) (r : OrderRequest P) (p : P) (s : Paper P) {f : Fees P}
      → IsNew r e.order_id s
      → calculate r.side r.quantity p ≡ charged f
      → e.has_journal ≡ true
      → e.journal_raises ≡ true
      → fill e (paper_order e r) r p s ≡ (err journal_error, unjournaled e r p f s)
  unfolding fill new_order
  fill_journal_raises e r p s {f} h c j k =
      ground (arith, move_to_found e.order_id filled (fills r p) e.event_id s h (fill_edge e r))

  settled_order :
      (e : Setting) (r : OrderRequest P) (p : P) (f : Fees P) (s : Paper P)
      → lookup e.order_id (unjournaled e r p f s).osm.orders
        ≡ some (updated (paper_order e r) filled (fills r p))
  unfolding publish
  settled_order e r p f s = ground (
    arith,
    lookup-insert_self e.order_id (updated (paper_order e r) filled (fills r p)) s.osm.orders,
  )

  market_fill_raises :
      (e : Setting) (r : OrderRequest P) (ref : P) (s : Paper P) {f : Fees P}
      → IsNew r e.order_id s
      → calculate r.side r.quantity (market_fill_price e.config r.side ref) ≡ charged f
      → e.has_journal ≡ true
      → e.journal_raises ≡ true
      → execute_market e (paper_order e r) r ref s ≡ (
        err (osm_error terminal_order),
        unjournaled e r (market_fill_price e.config r.side ref) f s,
      )
  unfolding execute_market new_order
  market_fill_raises e r ref s {f} h c j k =
      let p = market_fill_price e.config r.side ref in
      ground (
        arith,
        fill_journal_raises e r p s h c j k,
        reject-filled e.has_store e.order_id paper_execution_error e.retry_event_id r
            (unjournaled e r p f s) (settled_order e r p f s) (unfold updated in refl),
      )

  admit_market :
      (e : Setting) (r : OrderRequest P) (market : Option (MarketData P)) {ref : P} (s : Paper P)
      → IsTradable e r
      → is_limit r.order_type ≡ false
      → market_ltp market ≡ some ref
      → admit e r market (paper_order e r) s ≡ execute_market e (paper_order e r) r ref s
  admit_market e r market s t l m =
      let q : leb_ℤ r.quantity (pos 0) ≡ false = ground arith in rw (q, t.side, t.hours, l, m)

  -- The handler of `_execute_market` rejects an order that is FILLED already. So a MARKET order that is
  -- tradable, priced and charged makes `place_order` raise when the journal raises, and the order stays
  -- filled.
  pub place_order_journal_raises :
      (e : Setting) (r : OrderRequest P) (market : Option (MarketData P)) (ref : P) (s : Paper P)
      {f : Fees P}
      → IsTradable e r
      → is_limit r.order_type ≡ false
      → market_ltp market ≡ some ref
      → calculate r.side r.quantity (market_fill_price e.config r.side ref) ≡ charged f
      → e.has_journal ≡ true
      → e.journal_raises ≡ true
      → ((place_order e r market s).0 ≡ err (osm_error terminal_order))
        × (o : OrderState P) × (lookup e.order_id (place_order e r market s).1.osm.orders ≡ some o)
        × (o.status ≡ filled)
  place_order_journal_raises e r market ref s {f} t l m c j k =
      let s1 : Paper P = record s { osm = (create_order s.osm r TradingMode.paper e.order_id).0 } in
      let p = market_fill_price e.config r.side ref in
      let run : place_order e r market s
          ≡ (err (osm_error terminal_order), unjournaled e r p f s1) =
        unfold place_order create_order in
        admit_market e r market s1 t l m
        ∙ market_fill_raises e r ref s1
            (lookup-insert_self e.order_id (paper_order e r) s.osm.orders) c j k in
      (
        ap (λ (x : Result (OrderStateEvent P) × Paper P). x.0) run,
        updated (paper_order e r) filled (fills r p),
        ap (λ (x : Result (OrderStateEvent P) × Paper P). lookup e.order_id x.1.osm.orders) run
            ∙ settled_order e r p f s1,
        unfold updated in refl,
      )
