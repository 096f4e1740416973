-- ===== src/Orders/Repository.antt =====
-- app/order-service/src/modules/orders/orders.repository.ts: its types and helpers. The bodies of
-- its transactions are in the modules below.
pub mod Create
pub mod Lifecycle
pub mod Cancel
pub mod Outbox
pub mod Sides
use kafka_nest_playground.Prelude.{
  ℕ, suc, String, Bool, true, false, List, [], ◌∷◌, ◌++◌, Option, none, some, if◌then◌else◌, ◌==◌,
}
use kafka_nest_playground.Prelude.Tx.{Result, ok, err, Error, ◌>>=◌, ◌>>◌, guard}
use kafka_nest_playground.Contracts.Topics
use kafka_nest_playground.Contracts.Events.{
  Number, EventEnvelope, DomainEvent, Payload, OrderCreatedPayload, with_payload, event_topic_map,
}
use kafka_nest_playground.Outbox.Entity.{OutboxEvent, create_outbox_event_entity}
use kafka_nest_playground.Orders.Entity.{OrderStatus, OrderItemSnapshot, Order, Js, Draws}
use kafka_nest_playground.Orders.StateMachine.{
  LifecyclePayload, OrderLifecycleEvent, FinalEventType, OrderTransitionDecision, lifecycle_type,
  lifecycle_type_text, decide_order_transition,
}
use kafka_nest_playground.Orders.Cancellation.{
  OrderCancellationCommand, OrderCancellationDecision, decide_order_cancellation,
  rejected_reason_text, create_order_cancellation_requested_event,
  create_user_order_cancelled_event, create_order_cancellation_rejected_event,
}
use kafka_nest_playground.Orders.FinalEvent.{
  FinalSourcePayload, FinalOrderSourceEvent, create_final_order_event,
}
use kafka_nest_playground.Orders.Tables.{
  Db, CreateOrderResponseSnapshot, IdempotencyRow, find_order, insert_order, save_order,
  insert_outbox, is_processed, read_idempotency_row, store_response,
}

pub record CreatePendingOrderParams : Type 0 where
  pub user_id : String
  pub currency : String
  pub total_amount : Number
  pub item_count : Number
  pub items : List OrderItemSnapshot
  pub create_event : Order → EventEnvelope OrderCreatedPayload

pub record CreateOrderIdempotencyParams : Type 0 where
  pub key : String
  pub request_hash : String

pub record ProcessLifecycleEventParams : Type 0 where
  pub order_id : String
  pub event : OrderLifecycleEvent
  pub source_topic : String
  pub source_offset : String

pub data OrderLifecycleProcessingResult : Type 0 where
  applied :
      (previous_status status : OrderStatus) → Option DomainEvent → OrderLifecycleProcessingResult
  duplicate_event : OrderLifecycleProcessingResult
  unknown_order : OrderLifecycleProcessingResult
  invalid_transition : (current_status : OrderStatus) → OrderLifecycleProcessingResult

pub data OrderCancellationProcessingResult : Type 0 where
  accepted :
      (previous_status : OrderStatus) (requested_event final_event : DomainEvent)
      → OrderCancellationProcessingResult
  rejected :
      (status : OrderStatus) (requested_event rejected_event : DomainEvent)
      → OrderCancellationProcessingResult
  unknown_order : OrderCancellationProcessingResult

pub data CreatePendingOrderResult : Type 0 where
  created :
      Order
      → EventEnvelope OrderCreatedPayload
      → CreateOrderResponseSnapshot
      → CreatePendingOrderResult
  replayed : CreateOrderResponseSnapshot → CreatePendingOrderResult

-- `manager.save(createOutboxEventEntity({ topic: EVENT_TOPIC_MAP[...], ... }))`; `n` numbers the
-- rows that one transaction adds.
unfoldable pub save_outbox : Draws → (n : ℕ) → (message_key : String) → DomainEvent → Db → Result Db
save_outbox draws n message_key event db = do
  row ←
      create_outbox_event_entity (draws.row_id n) draws.now (event_topic_map event.payload)
        message_key event draws.trace
  rows ← insert_outbox row db.outbox
  ok (record db { outbox = rows })

-- `asFinalOrderSourceEvent`.
unfoldable pub as_final_order_source_event : OrderLifecycleEvent → Result FinalOrderSourceEvent
as_final_order_source_event event = elim event.payload [
  | LifecyclePayload.order_risk_rejected p ↦
      ok (with_payload event (FinalSourcePayload.order_risk_rejected p))
  | LifecyclePayload.payment_authorized p ↦
      ok (with_payload event (FinalSourcePayload.payment_authorized p))
  | LifecyclePayload.payment_failed p ↦
      ok (with_payload event (FinalSourcePayload.payment_failed p))
  | LifecyclePayload.order_risk_approved p ↦
      err (Error.plain_error "cannot produce a final order event")
]

-- `createOrderResponseSnapshot`.
unfoldable pub create_order_response_snapshot : Js → Order → CreateOrderResponseSnapshot
create_order_response_snapshot js order = record {
  id = order.id;
  status = order.status;
  user_id = order.user_id;
  currency = order.currency;
  total_amount = js.to_number order.total_amount;
  item_count = order.item_count;
  created_at = js.to_iso_string order.created_at;
}
