-- ===== src/Store/Contracts.antt =====
-- What the callers of apps/broker/src/deckhand/store.py rely on, operation by operation.
pub mod Fence
pub mod Transition
pub mod Idempotency
pub mod Claim
pub mod Approval
