-- ===== src/Orders.antt =====
-- app/order-service/src/modules/orders: the life cycle of an order.
pub mod Entity
pub mod StateMachine
pub mod Cancellation
pub mod FinalEvent
pub mod Tables
pub mod Repository
pub mod Transitions
pub mod Balance
pub mod Evolution
pub mod History
pub mod Outcomes
pub mod OrderId
pub mod Service
pub mod OutboxAdmin
