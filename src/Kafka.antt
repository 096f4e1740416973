-- ===== src/Kafka.antt =====
-- packages/kafka/src: the messaging library.
pub mod Headers
pub mod Errors
pub mod Retry
pub mod Inbox
pub mod Consumer
