-- ===== src/Portfolio.antt =====
-- backend/portfolio: positions from fills, their rebuild from the ledger after a restart, the equity
-- curve, and the engine that owns them.
pub mod Positions
pub mod EquityCurve
pub mod Reconciliation
pub mod Agreement
pub mod Engine
pub mod Ledger
pub mod Quantities
pub mod Runs
pub mod Rebuild
pub mod Replay
pub mod Restart
