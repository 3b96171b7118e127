-- ===== src/Points.antt =====
-- app/services/point_service.py: every change of a user's points together with its ledger rows
-- and the lots that the points are kept in.
pub mod Model
pub mod Lots
pub mod Rows
pub mod Credit
pub mod Expire
pub mod Debit
pub mod Refund
pub mod Invariant
pub mod Replay
pub mod Returns
pub mod History
pub mod Tests
