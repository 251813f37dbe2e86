-- ===== src/MutationGuard.antt =====
-- backend/execution/broker_mutation_guard.py and backend/core/live_build_policy.py: the two locks
-- between the program and the broker.
use Prim.Native.String
use text.Mathlib.Text.{find?}
use indian_algo_trading_plat.Common.{
  ◌≡◌, refl, String, Bool, true, false, ◌&&◌, ◌||◌, Option, none, some, List, [], ◌∷◌,
  if◌then◌else◌, str_eq, any_of, is_some, lower, strip, lstrip, rstrip, without_underscores,
}

-- BUILD_LIVE_EXECUTION_ALLOWED
unfoldable pub is_live_execution_build_enabled : Bool
is_live_execution_build_enabled = false

abbrev pub blocked_actions : List String
blocked_actions =
    "place" ∷ "cancel" ∷ "modify" ∷ "squareoff" ∷ "liveexecution" ∷ "placeorder" ∷ "modifyorder"
    ∷ "cancelorder" ∷ "square_off" ∷ []

unfoldable pub normalize : String → String
unfolding lower strip lstrip rstrip without_underscores
normalize action = without_underscores (strip (lower action))

unfoldable pub is_blocked : String → Bool
unfolding normalize
is_blocked action =
    any_of (λ b. str_eq b (normalize action)) blocked_actions
    || is_some (find? (normalize action) "live")
    || is_some (find? (normalize action) "execution")

-- The reason of the rejection, or `none` where the action may go on.
unfoldable pub check_mutation : Bool → String → Option String
unfolding is_blocked
check_mutation enabled action =
    if enabled && is_blocked action
    then some (
        String.◌++◌ "Broker mutation '" (
          String.◌++◌ action (
            String.◌++◌ "' blocked by default security guard. "
              (String.◌++◌ action " is blocked."))))
    else none

-- `protect`: the call is made, or `ValueError(reason)` is raised.
pub data Protected (A : Type 0) : Type 0 where
  called : A → Protected A
  denied : String → Protected A

module _ {A : Type 0} where
  unfoldable pub protect : Bool → String → A → Protected A
  unfolding check_mutation
  protect enabled func_name result = elim (check_mutation enabled func_name) [
    | none ↦ called result
    | some reason ↦ denied reason
  ]

-- An enabled guard refuses to place an order.
pub place_order-denied : is_some (check_mutation true "place_order") ≡ true
unfolding check_mutation
place_order-denied = refl
