-- ===== src/Outbox.antt =====
-- packages/outbox/src: the transactional outbox.
pub mod Entity
pub mod Store
pub mod Publisher
