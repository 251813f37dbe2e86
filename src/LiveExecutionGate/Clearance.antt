-- ===== src/LiveExecutionGate/Clearance.antt =====
-- backend/execution/live_execution_gate.py: the orders that the gate lets pass, told without its lists.
use indian_algo_trading_plat.Common.{
  ◌≡◌, ◌⊎◌, String, Bool, true, false, Option, none, some, is_empty,
}
use indian_algo_trading_plat.Common.Float.{Float}
use indian_algo_trading_plat.Common.Dict.{Dict}
use indian_algo_trading_plat.Market.{is_zero}
use indian_algo_trading_plat.KillSwitch.{KillSwitchService}
use indian_algo_trading_plat.LiveExecutionGate.{
  SessionManager, ReceivedAt, LiveExecutionGate, LiveCall, is_market_data_stale,
}

-- The switch is absent or inactive.
abbrev pub IsOff : Option KillSwitchService → Type 0
IsOff o = (o ≡ none) ⊎ ((k : KillSwitchService) × (o ≡ some k) × (k.active ≡ false))

module _ {P : Type 0} ⦃d : Float P⦄ where
  -- The market data do not speak against an order: none are asked for, or the symbol's tick is fresh.
  pub data IsFresh (now : P) (o : Option String) (watch : Option (Dict (ReceivedAt P)))
      : Type 0 where
    no_symbol : o ≡ none → IsFresh now o watch
    empty_symbol :
        (symbol : String) → o ≡ some symbol → is_empty symbol ≡ true → IsFresh now o watch
    no_watch : watch ≡ none → IsFresh now o watch
    fresh_tick :
        (symbol : String) (ticks : Dict (ReceivedAt P))
        → o ≡ some symbol
        → watch ≡ some ticks
        → is_market_data_stale now ticks symbol ≡ false
        → IsFresh now o watch

  -- The notional is not given, no limit is set, or it is not above the limit.
  pub data IsSmall (o : Option P) (max_notional : Option P) : Type 0 where
    no_notional : o ≡ none → IsSmall o max_notional
    no_limit : max_notional ≡ none → IsSmall o max_notional
    zero_limit :
        (limit : P) → max_notional ≡ some limit → is_zero limit ≡ true → IsSmall o max_notional
    within :
        (n limit : P)
        → o ≡ some n
        → max_notional ≡ some limit
        → d.lt limit n ≡ false
        → IsSmall o max_notional

  -- What a live order needs, apart from the lists of the gate.
  pub record IsCleared (build : Bool) (now : P) (g : LiveExecutionGate P) (c : LiveCall P)
      : Type 0 where
    pub unlocked : build ≡ true
    pub enabled : c.live_enabled ≡ true
    pub switched_off : IsOff g.kill_switch
    pub live_mode : c.trading_mode ≡ "LIVE"
    pub session :
        (m : SessionManager) × (g.session_manager ≡ some m)
        × (m.is_valid ≡ true)
        × (m.places_orders ≡ true)
    pub fresh : IsFresh now c.symbol g.market_watch
    pub small : IsSmall c.estimated_notional g.max_order_notional
