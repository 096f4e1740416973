-- ===== src/Orders/Cancellation.antt =====
-- app/order-service/src/modules/orders/order-cancellation.ts.
use kafka_nest_playground.Prelude.{String, none, some}
use kafka_nest_playground.Contracts.Events.{
  EventEnvelope, Requester, CancelledBy, OrderCancellationRequestedPayload, OrderCancelledPayload,
  OrderCancellationRejectedPayload,
}
use kafka_nest_playground.Orders.Entity.{OrderStatus, status_text, Order}

pub record OrderCancellationCommand : Type 0 where
  pub order_id : String
  pub reason : String
  pub requested_by : Requester

pub data RejectedReason : Type 0 where
  already_cancelled already_confirmed invalid_status : RejectedReason

abbrev pub rejected_reason_text : RejectedReason → String
rejected_reason_text RejectedReason.already_cancelled = "already_cancelled"
rejected_reason_text RejectedReason.already_confirmed = "already_confirmed"
rejected_reason_text RejectedReason.invalid_status = "invalid_status"

-- An accepted decision's `to` is `CANCELLED` by its type.
pub data OrderCancellationDecision : Type 0 where
  accepted : (from : OrderStatus) → OrderCancellationDecision
  rejected : (from : OrderStatus) → RejectedReason → OrderCancellationDecision

unfoldable pub decide_order_cancellation : OrderStatus → OrderCancellationDecision
decide_order_cancellation OrderStatus.pending =
    OrderCancellationDecision.accepted OrderStatus.pending
decide_order_cancellation OrderStatus.risk_approved =
    OrderCancellationDecision.accepted OrderStatus.risk_approved
decide_order_cancellation OrderStatus.cancelled =
    OrderCancellationDecision.rejected OrderStatus.cancelled RejectedReason.already_cancelled
decide_order_cancellation OrderStatus.confirmed =
    OrderCancellationDecision.rejected OrderStatus.confirmed RejectedReason.already_confirmed
decide_order_cancellation status =
    OrderCancellationDecision.rejected status RejectedReason.invalid_status

unfoldable pub create_order_cancellation_requested_event :
    (event_id correlation_id : String)
    → Order
    → OrderCancellationCommand
    → (occurred_at : String) → EventEnvelope OrderCancellationRequestedPayload
create_order_cancellation_requested_event event_id correlation_id order command occurred_at =
    record {
      event_id = event_id;
      event_version = 1;
      occurred_at = occurred_at;
      correlation_id = correlation_id;
      causation_id = none;
      producer = "order-service";
      payload = record {
        order_id = order.id;
        user_id = order.user_id;
        reason = command.reason;
        requested_by = command.requested_by;
        requested_at = occurred_at;
      };
    }

abbrev pub requester_cancels : Requester → CancelledBy
requester_cancels Requester.user = CancelledBy.user
requester_cancels Requester.operator = CancelledBy.operator

unfoldable pub create_user_order_cancelled_event :
    (event_id : String)
    → Order
    → OrderCancellationCommand
    → EventEnvelope OrderCancellationRequestedPayload
    → (occurred_at : String) → EventEnvelope OrderCancelledPayload
create_user_order_cancelled_event event_id order command requested_event occurred_at = record {
  event_id = event_id;
  event_version = 1;
  occurred_at = occurred_at;
  correlation_id = requested_event.correlation_id;
  causation_id = some requested_event.event_id;
  producer = "order-service";
  payload = record {
    order_id = order.id;
    user_id = order.user_id;
    reason = command.reason;
    cancelled_by = requester_cancels command.requested_by;
    cancelled_at = occurred_at;
  };
}

unfoldable pub create_order_cancellation_rejected_event :
    (event_id : String)
    → Order
    → OrderCancellationCommand
    → EventEnvelope OrderCancellationRequestedPayload
    → (rejected_reason occurred_at : String) → EventEnvelope OrderCancellationRejectedPayload
create_order_cancellation_rejected_event event_id order command requested_event rejected_reason
      occurred_at =
    record {
      event_id = event_id;
      event_version = 1;
      occurred_at = occurred_at;
      correlation_id = requested_event.correlation_id;
      causation_id = some requested_event.event_id;
      producer = "order-service";
      payload = record {
        order_id = order.id;
        user_id = order.user_id;
        reason = command.reason;
        requested_by = command.requested_by;
        current_status = status_text order.status;
        rejected_reason = rejected_reason;
        rejected_at = occurred_at;
      };
    }
