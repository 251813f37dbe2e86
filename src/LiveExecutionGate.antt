-- ===== src/LiveExecutionGate.antt =====
-- backend/execution/live_execution_gate.py: the checks before a live order. The session manager, the
-- market watch and the settings may be absent; the clock is an argument, and the details of the
-- result are not modelled.
use indian_algo_trading_plat.Common.{
  ◌≡◌, ◌↔◌, ◌⊎◌, refl, String, Bool, true, false, not, ◌||◌, Option, none, some, List, [], ◌∷◌,
  ◌++◌, arith, is_empty, str_eq, upper, ap, Bool-cases, inl, inr, eq_iff, ◌∙◌,
}
use indian_algo_trading_plat.Common.Int.{pos}
use indian_algo_trading_plat.Common.Float.{Float}
use indian_algo_trading_plat.Common.Dict.{Dict, lookup}
use indian_algo_trading_plat.Market.{is_zero}
use indian_algo_trading_plat.KillSwitch.{KillSwitchService}
use indian_algo_trading_plat.MutationGuard.{is_live_execution_build_enabled}
pub mod Clearance

pub record SessionManager : Type 0 where
  pub is_valid : Bool
  -- `smart_api or smart` has a callable `placeOrder`.
  pub places_orders : Bool

-- The time of a tick, in seconds.
pub data ReceivedAt (P : Type 0) : Type 0 where
  absent unreadable : ReceivedAt P
  received : P → ReceivedAt P

pub data LiveCheck (P : Type 0) : Type 0 where
  live_execution_build_disabled live_trading_disabled kill_switch_active : LiveCheck P
  session_invalid_or_missing smart_api_not_available : LiveCheck P
  wrong_trading_mode market_data_stale : String → LiveCheck P
  notional_exceeds_limit : P → P → LiveCheck P

pub record LiveExecutionGate (P : Type 0) : Type 0 where
  pub kill_switch : Option KillSwitchService
  pub session_manager : Option SessionManager
  pub market_watch : Option (Dict (ReceivedAt P))
  -- `settings.max_order_notional`, where there are settings
  pub max_order_notional : Option P

-- The arguments of `evaluate`.
pub record LiveCall (P : Type 0) : Type 0 where
  pub trading_mode : String
  pub live_enabled : Bool
  pub symbol : Option String
  pub estimated_notional : Option P

abbrev pub is_off : Option KillSwitchService → Bool
is_off none = true
is_off (some k) = not k.active

abbrev pub is_session_valid : Option SessionManager → Bool
is_session_valid none = false
is_session_valid (some m) = m.is_valid

abbrev pub can_place : Option SessionManager → Bool
can_place none = false
can_place (some m) = m.places_orders

module _ {P : Type 0} ⦃d : Float P⦄ where
  unfoldable pub is_market_data_stale : P → Dict (ReceivedAt P) → String → Bool
  is_market_data_stale now ticks symbol = elim (lookup (upper symbol) ticks) [
    | none ↦ true
    | some t ↦ elim t [
      | absent ↦ true
      | unreadable ↦ true
      | received at ↦ d.lt (d.of_int (pos 30)) (d.sub now at)
    ]
  ]

  abbrev pub fails : Bool → LiveCheck P → List (LiveCheck P)
  fails true c = []
  fails false c = c ∷ []

  abbrev pub check_market : P → Option String → Option (Dict (ReceivedAt P)) → List (LiveCheck P)
  check_market now none watch = []
  check_market now (some symbol) none = []
  check_market now (some symbol) (some ticks) =
      fails (is_empty symbol || not (is_market_data_stale now ticks symbol))
        (market_data_stale symbol)

  abbrev pub check_notional : Option P → Option P → List (LiveCheck P)
  check_notional none max_notional = []
  check_notional (some n) none = []
  check_notional (some n) (some limit) =
      fails (is_zero limit || not (d.lt limit n)) (notional_exceeds_limit n limit)

  -- `failed_checks` of the result, on a build with the lock open or shut.
  unfoldable pub failed_checks : Bool → P → LiveExecutionGate P → LiveCall P → List (LiveCheck P)
  unfolding is_market_data_stale
  failed_checks build now g c =
      fails build live_execution_build_disabled
      ++ (fails c.live_enabled live_trading_disabled
          ++ (fails (is_off g.kill_switch) kill_switch_active
              ++ (fails (str_eq c.trading_mode "LIVE") (wrong_trading_mode c.trading_mode)
                  ++ (fails (is_session_valid g.session_manager) session_invalid_or_missing
                      ++ (fails (can_place g.session_manager) smart_api_not_available
                          ++ (check_market now c.symbol g.market_watch
                              ++ check_notional c.estimated_notional g.max_order_notional))))))

  unfoldable pub evaluate : P → LiveExecutionGate P → LiveCall P → Bool × List (LiveCheck P)
  unfolding failed_checks is_live_execution_build_enabled
  evaluate now g c =
      let failed = failed_checks is_live_execution_build_enabled now g c in
      (elim failed [ [] ↦ true | x ∷ xs ↦ false ], failed)
