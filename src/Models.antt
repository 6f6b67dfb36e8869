-- ===== src/Models.antt =====
-- apps/broker/src/deckhand/models.py
pub mod State
pub mod Request
