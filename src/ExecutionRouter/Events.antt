-- ===== src/ExecutionRouter/Events.antt =====
-- `_on_order_state_event` of backend/execution/execution_router.py: what one event of the bus
-- does to the rows of the store, against a description of the written row that uses none of the
-- handler's helpers.
use indian_algo_trading_plat.Common.{
  inl, inr, ◌≡◌, refl, String, true, false, ◌&&◌, some, List, [], ◌∷◌, map, arith, is_empty, eq_iff,
  eq_refl, Bool-cases, Option-cases, ap, or_else,
}
use indian_algo_trading_plat.Types.{
  OrderStateEvent, OrderStatus, pending, opened, filled, rejected, cancelled,
}
use indian_algo_trading_plat.OrderStore.{
  OrderStore, DbStatus, RequestRow, set_status, update_order_status, add_order_event,
  get_order_request, update_where,
}
use indian_algo_trading_plat.OrderStore.Requests.{find_request-update_where}
use indian_algo_trading_plat.ExecutionRouter.{
  status_to_db, kept_reason, kept_price, is_risk_rejected, is_rejected, on_order_state_event,
}

is_risk_rejected_lem : (t : DbStatus) → is_risk_rejected t ≡ true → t ≡ DbStatus.risk_rejected
is_risk_rejected_lem DbStatus.risk_rejected h = refl
is_risk_rejected_lem _ h = ground arith

is_rejected_lem : (t : OrderStatus) → is_rejected t ≡ true → t ≡ rejected
is_rejected_lem rejected h = refl
is_rejected_lem _ h = ground arith

not-is_risk_rejected : (t : DbStatus) → is_risk_rejected t ≡ false → ¬ (t ≡ DbStatus.risk_rejected)
not-is_risk_rejected t h k = ground (arith, ap is_risk_rejected k)

module _ {P : Type 0} where
  -- What an event may make of the row of the request that it is about, status by status.
  pub data Written (e : OrderStateEvent P) (before after : RequestRow P) : Type 0 where
    kept_risk_rejected :
        e.status ≡ rejected
        → before.status ≡ DbStatus.risk_rejected
        → after ≡ before
        → Written e before after
    written_pending :
        e.status ≡ pending
        → after ≡ record before {
          status = DbStatus.pending;
          broker_order_id = or_else e.broker_order_id before.broker_order_id;
        }
        → Written e before after
    written_open :
        e.status ≡ opened
        → after ≡ record before {
          status = DbStatus.opened;
          broker_order_id = or_else e.broker_order_id before.broker_order_id;
        }
        → Written e before after
    written_filled :
        e.status ≡ filled
        → after ≡ record before {
          status = DbStatus.filled;
          broker_order_id = or_else e.broker_order_id before.broker_order_id;
          avg_fill_price = or_else e.avg_fill_price before.avg_fill_price;
        }
        → Written e before after
    written_rejected :
        e.status ≡ rejected
        → ¬ (before.status ≡ DbStatus.risk_rejected)
        → after ≡ record before {
          status = DbStatus.rejected;
          broker_order_id = or_else e.broker_order_id before.broker_order_id;
          reject_reason = or_else e.reject_reason before.reject_reason;
        }
        → Written e before after
    written_cancelled :
        e.status ≡ cancelled
        → after ≡ record before {
          status = DbStatus.cancelled;
          broker_order_id = or_else e.broker_order_id before.broker_order_id;
          reject_reason = or_else e.reject_reason before.reject_reason;
        }
        → Written e before after

  abbrev pub request_ids : OrderStore P → List String
  request_ids s = map (λ r. r.request_id) s.order_requests

  update_where-ids :
      (id : String) (f : RequestRow P → RequestRow P)
      → ((r : RequestRow P) → (f r).request_id ≡ r.request_id)
      → (rs : List (RequestRow P))
      → map (λ r. r.request_id) (update_where id f rs) ≡ map (λ r. r.request_id) rs
  update_where-ids id f ids [] = refl
  update_where-ids id f ids (r ∷ rs) = ground (arith, ids r, update_where-ids id f ids rs)

  pub on_order_state_event-ids :
      (s : OrderStore P) (e : OrderStateEvent P)
      → request_ids (on_order_state_event s e) ≡ request_ids s
  unfolding on_order_state_event update_order_status add_order_event
  on_order_state_event-ids s e = elim (Option-cases e.order_request_id) [
    | inl none_linked ↦ rw none_linked refl
    | inr (id, linked) ↦ ground (
      arith,
      linked,
      update_where-ids id
          (set_status (status_to_db e.status) (kept_reason e.status e.reject_reason)
            e.broker_order_id (kept_price e.status e.avg_fill_price))
          (λ r. refl) s.order_requests,
    )
  ]

  -- The handler's write, by the description.
  set_status-Written :
      (e : OrderStateEvent P) (row : RequestRow P) (st : OrderStatus)
      → e.status ≡ st
      → (is_risk_rejected row.status && is_rejected st) ≡ false
      → Written e row (
          set_status
            (status_to_db st)
            (kept_reason st e.reject_reason)
            e.broker_order_id
            (kept_price st e.avg_fill_price)
            row)
  unfolding status_to_db
  set_status-Written e row pending k h = written_pending k refl
  set_status-Written e row opened k h = written_open k refl
  set_status-Written e row filled k h = written_filled k refl
  set_status-Written e row rejected k h =
      written_rejected k (not-is_risk_rejected row.status (ground arith)) refl
  set_status-Written e row cancelled k h = written_cancelled k refl

  abbrev update : OrderStateEvent P → RequestRow P → RequestRow P
  update e row =
      set_status (status_to_db e.status) (kept_reason e.status e.reject_reason) e.broker_order_id
        (kept_price e.status e.avg_fill_price) row

  -- An event that is not about the request leaves its row alone.
  pub on_order_state_event_unrelated :
      (s : OrderStore P) (e : OrderStateEvent P) (id : String)
      → ¬ (e.order_request_id ≡ some id)
      → get_order_request (on_order_state_event s e) id ≡ get_order_request s id
  unfolding on_order_state_event get_order_request update_order_status add_order_event
  on_order_state_event_unrelated s e id other = elim (Option-cases e.order_request_id) [
    | inl none_linked ↦ rw none_linked refl
    | inr (ref, linked) ↦ ground (
      arith,
      linked,
      eq_iff ref id,
      find_request-update_where id ref (update e) (λ r. refl) s.order_requests,
    )
  ]

  on_order_state_event_skipped :
      (s : OrderStore P) (e : OrderStateEvent P) (id : String) (row : RequestRow P)
      → get_order_request s id ≡ some row
      → e.order_request_id ≡ some id
      → (is_risk_rejected row.status && is_rejected e.status) ≡ true
      → on_order_state_event s e ≡ s
  unfolding on_order_state_event
  on_order_state_event_skipped s e id row found linked skip = ground (arith, linked, found, skip)

  on_order_state_event_updated :
      (s : OrderStore P) (e : OrderStateEvent P) (id : String) (row : RequestRow P)
      → is_empty id ≡ false
      → get_order_request s id ≡ some row
      → e.order_request_id ≡ some id
      → (is_risk_rejected row.status && is_rejected e.status) ≡ false
      → get_order_request (on_order_state_event s e) id ≡ some (update e row)
  unfolding on_order_state_event get_order_request update_order_status add_order_event
  on_order_state_event_updated s e id row named found linked go = ground (
    arith,
    linked,
    named,
    found,
    eq_refl id,
    find_request-update_where id id (update e) (λ r. refl) s.order_requests,
  )

  -- An event about the request makes of its row what the description says.
  pub on_order_state_event_related :
      (s : OrderStore P) (e : OrderStateEvent P) (id : String) (row : RequestRow P)
      → is_empty id ≡ false
      → get_order_request s id ≡ some row
      → e.order_request_id ≡ some id
      → (next : RequestRow P) × (get_order_request (on_order_state_event s e) id ≡ some next)
        × Written e row next
  on_order_state_event_related s e id row named found linked =
      elim (Bool-cases (is_risk_rejected row.status && is_rejected e.status)) [
        | inl skip ↦ (
          row,
          rw (on_order_state_event_skipped s e id row found linked skip) found,
          kept_risk_rejected (is_rejected_lem e.status (ground arith))
              (is_risk_rejected_lem row.status (ground arith)) refl,
        )
        | inr go ↦ (
          update e row,
          on_order_state_event_updated s e id row named found linked go,
          set_status-Written e row e.status refl go,
        )
      ]
