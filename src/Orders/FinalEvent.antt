-- ===== src/Orders/FinalEvent.antt =====
-- app/order-service/src/modules/orders/order-final-event.factory.ts.
use kafka_nest_playground.Prelude.{String, some}
use kafka_nest_playground.Contracts.Events.{
  EventEnvelope, DomainEvent, Payload, CancelledBy, OrderRiskRejectedPayload,
  PaymentAuthorizedPayload, PaymentFailedPayload,
}
use kafka_nest_playground.Orders.Entity.{Order, Js}

-- The union `FinalOrderSourceEvent`.
pub data FinalSourcePayload : Type 0 where
  order_risk_rejected : OrderRiskRejectedPayload → FinalSourcePayload
  payment_authorized : PaymentAuthorizedPayload → FinalSourcePayload
  payment_failed : PaymentFailedPayload → FinalSourcePayload

abbrev pub FinalOrderSourceEvent : Type 0
FinalOrderSourceEvent = EventEnvelope FinalSourcePayload

-- The payload of the event that ends the order, by the event that it answers.
abbrev pub final_payload : Js → Order → FinalSourcePayload → String → Payload
final_payload js order (FinalSourcePayload.payment_authorized p) occurred_at =
    Payload.order_confirmed (record {
      order_id = order.id;
      user_id = order.user_id;
      currency = order.currency;
      total_amount = js.to_number order.total_amount;
      payment_id = p.payment_id;
      confirmed_at = occurred_at;
    })
final_payload js order (FinalSourcePayload.order_risk_rejected p) occurred_at =
    Payload.order_cancelled (record {
      order_id = order.id;
      user_id = order.user_id;
      reason = p.reason;
      cancelled_by = CancelledBy.risk;
      cancelled_at = occurred_at;
    })
final_payload js order (FinalSourcePayload.payment_failed p) occurred_at =
    Payload.order_cancelled (record {
      order_id = order.id;
      user_id = order.user_id;
      reason = p.reason;
      cancelled_by = CancelledBy.payment;
      cancelled_at = occurred_at;
    })

unfoldable pub create_final_order_event :
    Js → (event_id : String) → Order → FinalOrderSourceEvent → (occurred_at : String) → DomainEvent
create_final_order_event js event_id order source occurred_at = record {
  event_id = event_id;
  event_version = 1;
  occurred_at = occurred_at;
  correlation_id = source.correlation_id;
  causation_id = some source.event_id;
  producer = "order-service";
  payload = final_payload js order source.payload occurred_at;
}
