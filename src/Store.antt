-- ===== src/Store.antt =====
-- apps/broker/src/deckhand/store.py
pub mod Rows
pub mod Tx
pub mod Audit
pub mod Table
pub mod Advance
pub mod Ensures
pub mod Growth
pub mod Views
pub mod Commits
pub mod Jobs
pub mod Updates
pub mod Leases
pub mod Sweeps
pub mod Confirmations
pub mod Frame
pub mod Contracts
pub mod Operation
