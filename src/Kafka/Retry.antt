-- ===== src/Kafka/Retry.antt =====
-- packages/kafka/src/retry: where a message goes after its handler has failed.
pub mod Policy
pub mod Dispatcher
pub mod Stages
pub mod Passing
pub mod Steps
pub mod Journey
