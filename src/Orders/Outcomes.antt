-- ===== src/Orders/Outcomes.antt =====
-- The rows that a transaction on an order adds to the outbox.
pub mod Cancellation
pub mod Lifecycle
use kafka_nest_playground.Prelude.{
  String, ◌≡◌, refl, ◌∙◌, sym, ap, subst, Bool, true, false, List, [], ◌∷◌, ◌++◌, Option, none,
  some, append_assoc, arith, Bool-cases, inl, inr,
}
use kafka_nest_playground.Prelude.Tx.{Result, ok, >>=-eq-ok}
use kafka_nest_playground.Contracts.Topics
use kafka_nest_playground.Contracts.Events.{
  EventEnvelope, DomainEvent, Payload, event_topic_map, OrderCancellationRequestedPayload,
  with_payload,
}
use kafka_nest_playground.Outbox.Entity.{OutboxEvent, OutboxStatus}
use kafka_nest_playground.Orders.Entity.{OrderStatus, Order, Js, Draws}
use kafka_nest_playground.Orders.StateMachine.{
  OrderLifecycleEvent, OrderTransitionDecision, lifecycle_type, decide_order_transition,
}
use kafka_nest_playground.Orders.Cancellation.{
  OrderCancellationCommand, OrderCancellationDecision, decide_order_cancellation,
  rejected_reason_text, create_order_cancellation_requested_event,
  create_user_order_cancelled_event, create_order_cancellation_rejected_event,
}
use kafka_nest_playground.Orders.FinalEvent.{
  FinalSourcePayload, create_final_order_event, final_payload,
}
use kafka_nest_playground.Orders.Transitions.{is_final}
use kafka_nest_playground.Orders.Tables.{Db, find_order, save_order, is_processed}
use kafka_nest_playground.Orders.Tables.Laws.{find_order-id}
use kafka_nest_playground.Orders.Repository.{
  ProcessLifecycleEventParams, OrderLifecycleProcessingResult, OrderCancellationProcessingResult,
  save_outbox, as_final_order_source_event,
}
use kafka_nest_playground.Orders.Repository.Lifecycle.{
  with_status, processed_row, apply_decision, process_registered, process_lifecycle_event,
}
use kafka_nest_playground.Orders.Repository.Cancel.{settle_cancellation, cancel_found, cancel_order}
use kafka_nest_playground.Orders.Repository.Outbox.{
  outbox_row, save_outbox-eq-ok, outbox-save_outbox, orders-save_outbox,
}

-- A pending row that carries an order's event to the order topic, keyed by the order.
pub record IsOrderRow (id : String) (event : DomainEvent) (row : OutboxEvent) : Type 0 where
  pub event_is : row.event ≡ event
  pub event_id : row.event_id ≡ event.event_id
  pub topic : row.topic ≡ Topics.order_order_events
  pub message_key : row.message_key ≡ id
  pub status : row.status ≡ OutboxStatus.pending

pub outbox_row-IsOrderRow :
    (draws : Draws) (n : _) (id : String) (event : DomainEvent)
    → event_topic_map event.payload ≡ Topics.order_order_events
    → IsOrderRow id event (outbox_row draws n id event)
outbox_row-IsOrderRow draws n id event topic = record {
  event_is = refl;
  event_id = refl;
  topic = topic;
  message_key = refl;
  status = refl;
}
