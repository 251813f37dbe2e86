-- ===== src/SignalValidator/Approval.antt =====
-- backend/strategy/signal_validator.py: which signals become requests, and what the router makes of the
-- requests.
use indian_algo_trading_plat.Common.{
  ◌≡◌, ◌↔◌, ◌∙◌, refl, ap, String, Bool, true, false, not, ◌||◌, ◌&&◌, Option, none, some, List, [],
  ◌∷◌, arith, is_empty, upper, strip, Bool-cases, inl, inr,
}
use indian_algo_trading_plat.Common.Int.{ℤ, pos, leb_ℤ, ◌≤ℤ◌}
use indian_algo_trading_plat.Types.{
  OrderSide, buy, sell, other_side, OrderType, OrderRequest, OrderIntent, TradingMode, is_paper,
  known_side,
}
use indian_algo_trading_plat.ExecutionRouter.Intents.{new_intent, built}
use indian_algo_trading_plat.SignalValidator.{
  SignalEvent, SignalValidator, SignalCheck, invalid_action, missing_symbol, invalid_quantity,
  live_trading_disabled, kill_switch_active, is_neutral, fails, check_quantity, is_active,
  failed_signal_checks, request_of_signal, conclude_signal, validate_and_route, approved_signal,
}

fails-nil :
    (b : Bool) (c : SignalCheck) (cs : List SignalCheck)
    → fails b c cs ≡ []
    → (b ≡ false) × (cs ≡ [])
fails-nil true c cs h = cc
fails-nil false c cs h = (refl, h)

check_quantity-nil :
    (o : Option ℤ) (cs : List SignalCheck)
    → check_quantity o cs ≡ []
    → (q : ℤ) × (o ≡ some q) × (leb_ℤ q (pos 0) ≡ false) × (cs ≡ [])
check_quantity-nil none cs h = cc
check_quantity-nil (some q) cs h =
    let parts = fails-nil (leb_ℤ q (pos 0)) invalid_quantity cs h in (q, refl, parts.0, parts.1)

neutral_unknown : (a : OrderSide) → known_side a ≡ true → is_neutral a ≡ false
neutral_unknown buy h = refl
neutral_unknown sell h = refl
neutral_unknown (other_side s) h = cc

module _ {P : Type 0} where
  -- What an approved signal is, apart from the list of the checks.
  pub record IsRoutable (v : SignalValidator) (e : SignalEvent P) (mode : TradingMode) (q : ℤ)
      : Type 0 where
    pub quantity : v.default_quantity ≡ some q
    pub above_zero : pos 1 ≤ℤ q
    pub side : known_side e.action ≡ true
    pub named : is_empty e.symbol ≡ false
    pub allowed : is_paper mode || v.live_trading_enabled ≡ true
    pub not_blocked : is_active v.kill_switch ≡ false

  nil-IsRoutable :
      (v : SignalValidator) (e : SignalEvent P) (mode : TradingMode)
      → failed_signal_checks v e mode ≡ []
      → (q : ℤ) × IsRoutable v e mode q
  unfolding failed_signal_checks
  nil-IsRoutable v e mode h =
      let (p1, h1) = fails-nil (not (known_side e.action)) invalid_action _ h in
      let (p2, h2) = fails-nil (is_empty e.symbol) missing_symbol _ h1 in
      let (q, given, more, h3) = check_quantity-nil v.default_quantity _ h2 in
      let (p4, h4) =
        fails-nil (not (is_paper mode) && not v.live_trading_enabled) live_trading_disabled _ h3 in
      let (p5, h5) = fails-nil (is_active v.kill_switch) kill_switch_active [] h4 in
      (
        q,
        record {
          quantity = given;
          above_zero = ground (arith, more);
          side = ground (arith, p1);
          named = p2;
          allowed = ground (arith, p4);
          not_blocked = p5;
        },
      )

  IsRoutable-nil :
      (v : SignalValidator) (e : SignalEvent P) (mode : TradingMode) (q : ℤ)
      → IsRoutable v e mode q
      → failed_signal_checks v e mode ≡ []
  unfolding failed_signal_checks
  IsRoutable-nil v e mode q h =
      let more : leb_ℤ q (pos 0) ≡ false = ground (arith, h.above_zero) in
      let allowed : not (is_paper mode) && not v.live_trading_enabled ≡ false =
        ground (arith, h.allowed) in
      simp (h.quantity, h.side, h.named, more, allowed, h.not_blocked)

  approved_of :
      (e : SignalEvent P) (o : Option ℤ) (mode : TradingMode) (id : String) (cs : List SignalCheck)
      {r : OrderRequest P}
      → conclude_signal e o mode id cs ≡ approved_signal r
      → (cs ≡ []) × ((q : ℤ) × (o ≡ some q) × (r ≡ request_of_signal e q mode id))
  approved_of e none mode id cs h = cc
  approved_of e (some q) mode id [] h = (refl, (q, refl, ground (arith, h)))
  approved_of e (some q) mode id (c ∷ cs) h = cc

  approved-parts :
      (v : SignalValidator) (e : SignalEvent P) (mode : TradingMode) (id : String)
      {r : OrderRequest P}
      → conclude_signal e v.default_quantity mode id (failed_signal_checks v e mode)
        ≡ approved_signal r
      → (q : ℤ) × IsRoutable v e mode q × (r ≡ request_of_signal e q mode id)
  approved-parts v e mode id {r} h =
      let (passed, (q, given, made)) =
        approved_of e v.default_quantity mode id (failed_signal_checks v e mode) h in
      let (n, good) = nil-IsRoutable v e mode passed in
      let same : q ≡ n = ground (arith, given, good.quantity) in
      (n, good, made ∙ ap (λ x. request_of_signal e x mode id) same)

  parts-approved :
      (v : SignalValidator) (e : SignalEvent P) (mode : TradingMode) (id : String) (q : ℤ)
      → IsRoutable v e mode q
      → conclude_signal e v.default_quantity mode id (failed_signal_checks v e mode)
        ≡ approved_signal (request_of_signal e q mode id)
  parts-approved v e mode id q h =
      ap (λ cs. conclude_signal e v.default_quantity mode id cs) (IsRoutable-nil v e mode q h)
      ∙ ap (λ o. conclude_signal e o mode id []) h.quantity

  -- A signal is approved exactly if the default quantity is above_zero, the action is BUY or SELL, there
  -- is a symbol, the mode is PAPER or live trading is enabled, and no kill switch is active; and
  -- the request is then the signal's, a MARKET order of the default quantity.
  pub validate_and_route-approved_iff :
      (v : SignalValidator) (e : SignalEvent P) (mode : TradingMode) (id : String)
      (r : OrderRequest P)
      → (validate_and_route v e mode id ≡ approved_signal r)
        ↔ ((q : ℤ) × IsRoutable v e mode q × (r ≡ request_of_signal e q mode id))
  unfolding validate_and_route
  validate_and_route-approved_iff v e mode id r = (
    λ h. elim (Bool-cases (is_neutral e.action)) [
      | inl neutral ↦ ground (arith, neutral, h)
      | inr active ↦ approved-parts v e mode id (ground (arith, active, h))
    ],
    λ (q, good, made).
        (let active = neutral_unknown e.action good.side in
          ground (arith, active, parts-approved v e mode id q good, made)),
  )

  -- The request of an approved signal in PAPER mode whose symbol is not blank is one that the router's
  -- constructor of an intent accepts.
  pub approved-built :
      (v : SignalValidator) (e : SignalEvent P) (id intent_id : String) (r : OrderRequest P)
      → is_empty (upper (strip e.symbol)) ≡ false
      → validate_and_route v e TradingMode.paper id ≡ approved_signal r
      → (i : OrderIntent P) × (new_intent r TradingMode.paper intent_id ≡ built i)
  unfolding new_intent request_of_signal
  approved-built v e id intent_id r named h =
      let (q, good, made) = (validate_and_route-approved_iff v e TradingMode.paper id r).0 h in
      let more : leb_ℤ q (pos 0) ≡ false = ground (arith, good.above_zero) in
      let i : OrderIntent P = record {
        intent_id = intent_id;
        symbol = upper (strip e.symbol);
        side = e.action;
        quantity = q;
        order_type = OrderType.market;
        price = e.ltp;
        strategy_name = some e.strategy_name;
        signal_event_id = some e.event_id;
        source = "AUTOMATIC";
        trading_mode = TradingMode.paper;
      } in
      (i, rw (made) (simp (named, more, good.side)))
