-- ===== src/Lib.antt =====
-- A model of the core of the Indian algo trading platform: the execution (backend/execution), in which
-- an order request becomes a paper fill, a live rejection, or a rejection by a check; the portfolio
-- (backend/portfolio), which books the fills; and the candles (backend/candles) that ticks build.
--
-- The parts and how they interact. `ExecutionRouter.route` receives a request, refuses duplicates,
-- stores it, asks the risk gate, and hands it to the adapter of its mode. The paper engine and the
-- live adapter create and move orders in one shared state machine; the paper engine also writes fills
-- to the order store. The kill switch is read by the gate, by the live checks and by the switch of the
-- mode. Events reach the store through the router's own subscriber. The portfolio engine books FILLED
-- events and is rebuilt from the store's ledger of fills after a restart; the safety monitor compares
-- the store with the state machine and activates the kill switch.
--
--   Common            shared names: Booleans, lists, texts, dicts in insertion order, whole numbers,
--                     and `Float`, the interface of Python's float arithmetic. What a theorem needs of
--                     it is in `IsOrdered` (how <= and < behave on numbers, NaN left out); the
--                     examples use whole numbers.
--   Types             backend/core/types.py, order events of backend/core/events.py, orders of
--                     backend/execution/models.py
--   OrderStore        backend/execution/order_store.py: each table is the list of its rows; Requests
--                     is about order_requests, Fills about order_fills
--   OrderStateMachine backend/execution/order_state_machine.py: Transitions (one call), Lifecycle
--                     (sequences of calls), Recovery (load_from_store)
--   KillSwitch        backend/execution/kill_switch.py
--   Market, RiskGate  backend/execution/pre_trade_risk_gate.py; Approval is its specification
--   FeeModel          backend/execution/fee_model.py
--   PaperConfig       backend/execution/paper_execution_config.py and the market hours
--   PaperOrders       backend/execution/paper_order_manager.py: Monad (state and exceptions), Prices,
--                     Results, Fills and Answers (what a call returns), Requests (what it
--                     leaves alone)
--   MutationGuard     backend/execution/broker_mutation_guard.py, backend/core/live_build_policy.py
--   LiveOrders        backend/execution/live_order_manager.py up to the guard
--   RateLimiter       backend/execution/broker_rate_limiter.py: Windows (what it accepts over time)
--   ExecutionRouter   backend/execution/execution_router.py: Intents and Routing (route), Fills (the
--                     PAPER path), Duplicates, Repeats, Rejections, Switching (modes, recovery),
--                     Events and Sync (the subscriber of the bus, on one event and on many)
--   LiveExecutionGate backend/execution/live_execution_gate.py; Clearance is its specification
--   LiveSafetyMonitor backend/execution/live_safety_monitor.py: Breaches (what the checks look for),
--                     Runs (what a run does)
--   OrderPoller       backend/execution/order_poller.py: Deltas (the fills that it records), Orders (what
--                     it does to the orders in memory)
--   SignalValidator   backend/strategy/signal_validator.py; Approval is its specification
--   ManualOrderPolicy backend/execution/manual_order_policy.py, with its specification
--   Portfolio         backend/portfolio: Positions (position_tracker.py; Quantities is its
--                     specification by the fill history, Runs is about sequences of calls),
--                     Rebuild (rebuild.py; Replay, Ledger and Restart are about it), EquityCurve,
--                     Reconciliation (broker_reconciliation.py; Agreement is its specification) and
--                     Engine (portfolio_engine.py)
--   CandleStore       backend/candles/candle_store.py: Ticks (what the ticks of a bucket should
--                     make), Live (the live candle), Order (times and volumes), Events (the
--                     store as a whole)
--   Tests             concrete data, and each property at it
--
-- State is passed explicitly; a method that can raise returns its exception as a value with the state
-- that was written before it. No model needs fuel: every loop of the code is over a list
-- or over the five timeframes.
--
-- Left out: clock readings that are only stored, log lines, the SQLite connection and its migrations,
-- and the code behind the mutation guard, which is an argument (`beyond`) of the live adapter. Ids
-- that uuid4 gives, the market data, the session, the pre-flight verdict and whether the trade journal
-- raises are arguments too, and so are `str` on whole numbers and the match of a regular expression.
-- Calls of the router do not overlap in the model. The quantities of the order store and their
-- sums are within SQLite's 64-bit INTEGER: for a larger quantity record_fill would answer False and
-- add_order_request raise. The HTTP routers and services, the gateway to the
-- broker, the database and the background tasks are not modelled: they call what is modelled here, or
-- third-party code. The backtest engine, the indicators and the orchestrator are not modelled.
pub mod Common
pub mod Types
pub mod OrderStore
pub mod OrderStateMachine
pub mod KillSwitch
pub mod Market
pub mod RiskGate
pub mod FeeModel
pub mod PaperConfig
pub mod PaperOrders
pub mod MutationGuard
pub mod LiveOrders
pub mod RateLimiter
pub mod Portfolio
pub mod CandleStore
pub mod LiveSafetyMonitor
pub mod LiveExecutionGate
pub mod OrderPoller
pub mod SignalValidator
pub mod ManualOrderPolicy
pub mod ExecutionRouter
pub mod Tests
