-- ===== src/Contracts.antt =====
-- packages/contracts/src: the topics and the events that the services exchange.
pub mod Topics
pub mod Events
