-- ===== src/Dlq.antt =====
-- app/order-service/src/modules/dlq: the dead letters, and what an operator does with them.
pub mod Json
pub mod Contract
pub mod Reprocess
pub mod Conforms
pub mod Corrected
pub mod Tables
pub mod Service
pub mod Rows
pub mod Decided
pub mod Saved
pub mod Commands
pub mod History
