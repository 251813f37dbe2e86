-- ===== src/LiveOrders.antt =====
-- backend/execution/live_order_manager.py up to the mutation guard. What stands behind the guard
-- (rate limit, manual policy, the call of the broker) is the argument `beyond`.
use indian_algo_trading_plat.Common.{
  ◌≡◌, String, Bool, true, false, not, Option, none, some, if◌then◌else◌, arith, Option-cases, inl,
  inr,
}
use indian_algo_trading_plat.Common.Int.{pos, leb_ℤ}
use indian_algo_trading_plat.Types.{
  OrderRequest, TradingMode, is_live, known_side, known_type, rejected,
}
use indian_algo_trading_plat.OrderStateMachine.{
  OrderStateMachine, Outcome, create_order, transition, no_updates,
}
use indian_algo_trading_plat.MutationGuard.{check_mutation, place_order-denied}

-- What the manager reads at a call: the flags, the session with its SmartAPI object, the optional risk
-- approval of this request, the reason of a failed pre-flight, and the ids that uuid4 gives.
pub record LiveSetting : Type 0 where
  pub build_enabled : Bool
  pub live_enabled : Bool
  pub trading_mode : TradingMode
  pub session_valid : Bool
  pub smart_api : Bool
  pub risk_approval : Option Bool
  pub preflight_failure : Option String
  pub order_id : String
  pub event_id : String

abbrev pub build_disabled : String
build_disabled = "live_execution_build_disabled: Live execution is not enabled in this build"

abbrev pub lacks_approval : Option Bool → Bool
lacks_approval none = false
lacks_approval (some approved) = not approved

module _ {P : Type 0} where
  -- `_rejected_event`
  unfoldable pub rejected_event :
      OrderStateMachine P → OrderRequest P → String → String → String → Outcome P
  rejected_event m r order_id event_id reason =
      transition (create_order m r TradingMode.live order_id).0 order_id rejected
        (record no_updates { reject_reason = some (some reason) }) event_id

  unfoldable pub safety_rejection : LiveSetting → OrderRequest P → Option String
  safety_rejection e r =
      if not e.live_enabled
      then some "live_trading_disabled"
      else if not (is_live e.trading_mode)
      then some "not_live_mode"
      else if not e.session_valid
      then some "session_invalid"
      else if not e.smart_api
      then some "smart_api_unavailable"
      else if leb_ℤ r.quantity (pos 0)
      then some "invalid_quantity"
      else if not (known_side r.side)
      then some "unsupported_side"
      else if not (known_type r.order_type)
      then some "unsupported_order_type"
      else if lacks_approval e.risk_approval
      then some "risk_approval_missing"
      else none

  unfoldable pub place_order :
      (OrderStateMachine P → Outcome P)
      → LiveSetting
      → OrderStateMachine P
      → OrderRequest P
      → Outcome P
  unfolding rejected_event safety_rejection
  place_order beyond e m r =
      let refuse = rejected_event m r e.order_id e.event_id in
      if not e.build_enabled then refuse build_disabled else (elim (safety_rejection e r) [
        | some reason ↦ refuse reason
        | none ↦ elim e.preflight_failure [
          | some reason ↦ refuse reason
          | none ↦ elim (check_mutation true "place_order") [
            | some reason ↦ refuse reason
            | none ↦ beyond m
          ]
        ]
      ])

  -- The code behind the mutation guard is never reached, even in a build with live execution enabled,
  -- a valid session and a passed pre-flight: whatever stands there, the call is the same.
  pub place_order_never_beyond :
      (beyond other : OrderStateMachine P → Outcome P) (e : LiveSetting) (m : OrderStateMachine P)
      (r : OrderRequest P)
      → place_order beyond e m r ≡ place_order other e m r
  unfolding place_order
  place_order_never_beyond beyond other e m r =
      elim (Option-cases (check_mutation true "place_order")) [
        | inl open_guard ↦ absurd (ground (arith, place_order-denied))
        | inr (reason, shut) ↦ ground arith
      ]
