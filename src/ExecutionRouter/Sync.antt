-- ===== src/ExecutionRouter/Sync.antt =====
-- `_on_order_state_event` of backend/execution/execution_router.py: what a sequence of events
-- of the bus does to the row of a request.
use indian_algo_trading_plat.Common.{
  ◌⊎◌, inl, inr, ◌≡◌, refl, String, false, Option, none, some, List, [], ◌∷◌, arith, str_eq,
  is_empty, eq_iff, Bool-cases, ◌∙◌,
}
use indian_algo_trading_plat.Types.{OrderStateEvent}
use indian_algo_trading_plat.OrderStore.{OrderStore, RequestRow, get_order_request}
use indian_algo_trading_plat.ExecutionRouter.{on_order_state_event, deliver}
use indian_algo_trading_plat.ExecutionRouter.Events.{
  Written, request_ids, on_order_state_event-ids, on_order_state_event_unrelated,
  on_order_state_event_related,
}

dec_linked : (o : Option String) (id : String) → (o ≡ some id) ⊎ (¬ (o ≡ some id))
dec_linked none id = inr (λ h. ground (arith, h))
dec_linked (some ref) id = elim (Bool-cases (str_eq ref id)) [
  | inl same ↦ inl (ground (arith, eq_iff ref id))
  | inr other ↦ inr (λ h. ground (arith, eq_iff ref id, h))
]

module _ {P : Type 0} where
  -- What a sequence of events may make of the row with a request id.
  pub data Synced (id : String)
      : List (OrderStateEvent P) → RequestRow P → RequestRow P → Type 0 where
    done : {row : RequestRow P} → Synced id [] row row
    unrelated :
        {e : OrderStateEvent P} {es : List (OrderStateEvent P)} {row last : RequestRow P}
        → ¬ (e.order_request_id ≡ some id)
        → Synced id es row last
        → Synced id (e ∷ es) row last
    related :
        {e : OrderStateEvent P} {es : List (OrderStateEvent P)} {row next last : RequestRow P}
        → e.order_request_id ≡ some id
        → Written e row next
        → Synced id es next last
        → Synced id (e ∷ es) row last

  -- Whatever sequence of events the bus delivers, the row of a stored request with a non-empty id is
  -- afterwards what the events about it make of it in turn: each writes the database's name of its
  -- status and its broker order id where it has one, FILLED its price, REJECTED and CANCELLED their
  -- reason, and leaves every other column alone; only a REJECTED event about a RISK_REJECTED row, and
  -- events about no or another request, leave the whole row alone. No row is added, lost or reordered.
  pub deliver-Synced :
      (s : OrderStore P) (es : List (OrderStateEvent P)) (id : String) (row : RequestRow P)
      → is_empty id ≡ false
      → get_order_request s id ≡ some row
      → (last : RequestRow P) × (get_order_request (deliver es s) id ≡ some last)
        × Synced id es row last
        × (request_ids (deliver es s) ≡ request_ids s)
  unfolding deliver
  deliver-Synced s [] id row named found = (row, found, done, refl)
  deliver-Synced s (e ∷ es) id row named found = elim (dec_linked e.order_request_id id) [
    | inl linked ↦
        let (next, found_next, write) =
          on_order_state_event_related s e id row named found linked in
        let (last, found_last, rest, ids) =
          deliver-Synced (on_order_state_event s e) es id next named found_next in
        (last, found_last, related linked write rest, ids ∙ on_order_state_event-ids s e)
    | inr other ↦
        let (last, found_last, rest, ids) =
          deliver-Synced (on_order_state_event s e) es id row named
            (on_order_state_event_unrelated s e id other ∙ found) in
        (last, found_last, unrelated other rest, ids ∙ on_order_state_event-ids s e)
  ]
