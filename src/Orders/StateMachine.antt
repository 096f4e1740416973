-- ===== src/Orders/StateMachine.antt =====
-- app/order-service/src/modules/orders/order-state-machine.ts.
use kafka_nest_playground.Prelude.{String, Option, none, some}
use kafka_nest_playground.Contracts.Events.{
  EventEnvelope, OrderRiskApprovedPayload, OrderRiskRejectedPayload, PaymentAuthorizedPayload,
  PaymentFailedPayload,
}
use kafka_nest_playground.Orders.Entity.{OrderStatus}

-- The union `OrderLifecycleEvent`.
pub data LifecyclePayload : Type 0 where
  order_risk_approved : OrderRiskApprovedPayload → LifecyclePayload
  order_risk_rejected : OrderRiskRejectedPayload → LifecyclePayload
  payment_authorized : PaymentAuthorizedPayload → LifecyclePayload
  payment_failed : PaymentFailedPayload → LifecyclePayload

abbrev pub OrderLifecycleEvent : Type 0
OrderLifecycleEvent = EventEnvelope LifecyclePayload

pub data LifecycleEventType : Type 0 where
  order_risk_approved order_risk_rejected payment_authorized payment_failed : LifecycleEventType

abbrev pub lifecycle_type : LifecyclePayload → LifecycleEventType
lifecycle_type (LifecyclePayload.order_risk_approved p) = LifecycleEventType.order_risk_approved
lifecycle_type (LifecyclePayload.order_risk_rejected p) = LifecycleEventType.order_risk_rejected
lifecycle_type (LifecyclePayload.payment_authorized p) = LifecycleEventType.payment_authorized
lifecycle_type (LifecyclePayload.payment_failed p) = LifecycleEventType.payment_failed

-- The strings of `eventType`.
abbrev pub lifecycle_type_text : LifecycleEventType → String
lifecycle_type_text LifecycleEventType.order_risk_approved = "OrderRiskApproved"
lifecycle_type_text LifecycleEventType.order_risk_rejected = "OrderRiskRejected"
lifecycle_type_text LifecycleEventType.payment_authorized = "PaymentAuthorized"
lifecycle_type_text LifecycleEventType.payment_failed = "PaymentFailed"

pub data FinalEventType : Type 0 where
  order_confirmed order_cancelled : FinalEventType

pub data OrderTransitionDecision : Type 0 where
  allowed : (from to : OrderStatus) → Option FinalEventType → OrderTransitionDecision
  rejected : (from : OrderStatus) → LifecycleEventType → OrderTransitionDecision

unfoldable pub decide_order_transition : OrderStatus → LifecycleEventType → OrderTransitionDecision
decide_order_transition OrderStatus.pending LifecycleEventType.order_risk_approved =
    OrderTransitionDecision.allowed OrderStatus.pending OrderStatus.risk_approved none
decide_order_transition OrderStatus.pending LifecycleEventType.order_risk_rejected =
    OrderTransitionDecision.allowed OrderStatus.pending OrderStatus.cancelled
      (some FinalEventType.order_cancelled)
decide_order_transition OrderStatus.risk_approved LifecycleEventType.payment_authorized =
    OrderTransitionDecision.allowed OrderStatus.risk_approved OrderStatus.confirmed
      (some FinalEventType.order_confirmed)
decide_order_transition OrderStatus.risk_approved LifecycleEventType.payment_failed =
    OrderTransitionDecision.allowed OrderStatus.risk_approved OrderStatus.cancelled
      (some FinalEventType.order_cancelled)
decide_order_transition current event_type = OrderTransitionDecision.rejected current event_type
