-- ===== src/Examples/OrderCalls.antt =====
-- Calls of the order repository and of the order service.
use kafka_nest_playground.Prelude.{◌≡◌, refl, ◌⊎◌, true, String, [], none, some}
use kafka_nest_playground.Prelude.Text.{trim, trim_start, trim_end, utf16_length}
use kafka_nest_playground.Prelude.Tx.{Result, ok}
use kafka_nest_playground.Contracts.Events.{
  EventEnvelope, DomainEvent, Payload, OrderCancellationRequestedPayload, OrderCancelledPayload,
  Requester, with_payload,
}
use kafka_nest_playground.Outbox.Entity.{
  assert_non_empty_string, assert_valid_event_envelope, create_outbox_event_entity,
}
use kafka_nest_playground.Orders.Entity.{OrderStatus}
use kafka_nest_playground.Orders.StateMachine.{decide_order_transition}
use kafka_nest_playground.Orders.Cancellation.{
  decide_order_cancellation, create_order_cancellation_requested_event,
  create_user_order_cancelled_event,
}
use kafka_nest_playground.Orders.FinalEvent.{FinalSourcePayload, create_final_order_event}
use kafka_nest_playground.Orders.OrderId.{is_uuid, match_groups, assert_valid_order_id}
use kafka_nest_playground.Orders.Tables.{
  Db, CreateOrderResponseSnapshot, find_order, insert_order, save_order, insert_outbox,
  store_response,
}
use kafka_nest_playground.Orders.Repository.{
  OrderLifecycleProcessingResult, OrderCancellationProcessingResult, create_order_response_snapshot,
  save_outbox, as_final_order_source_event,
}
use kafka_nest_playground.Orders.Repository.Create.{
  pending_order, persist_pending_order_with_outbox, create_reserved,
  create_pending_order_with_outbox_idempotently,
}
use kafka_nest_playground.Orders.Repository.Lifecycle.{
  apply_decision, process_registered, process_lifecycle_event,
}
use kafka_nest_playground.Orders.Repository.Cancel.{settle_cancellation, cancel_found, cancel_order}
use kafka_nest_playground.Orders.Outcomes.Cancellation.Answer.{events_of, IsRequestAndAnswer}
use kafka_nest_playground.Orders.Outcomes.Cancellation.{cancel_order-IsRequestAndAnswer}
use kafka_nest_playground.Orders.Outcomes.Lifecycle.{
  IsFinalEvent, process_lifecycle_event-IsFinalEvent,
}
use kafka_nest_playground.Orders.Service.{
  Answer, CancelOrderCommand, CancelOrderResponse, CancellationStatus, CreateOrderCommand,
  total_amount, item_count, create_params, read_create_order_idempotency, create_by, create_order,
  require_cancellation_reason, cancel, truthy,
}
use kafka_nest_playground.Orders.Service.Laws.{create_order-paired}
use kafka_nest_playground.Orders.History.{empty_db, left_by}
use kafka_nest_playground.Examples.{
  js, draws_of, order_id, dto, authorized, delivery, cancellation, order_in, db_with,
}

-- A cancellation of the approved order: the request's event, and the answer's.
abbrev request : EventEnvelope OrderCancellationRequestedPayload
unfolding create_order_cancellation_requested_event
request =
    create_order_cancellation_requested_event "1cancel" "0cancel"
      (order_in OrderStatus.risk_approved) cancellation (js.to_iso_string 1000)

abbrev answer : EventEnvelope OrderCancelledPayload
unfolding create_user_order_cancelled_event
answer =
    create_user_order_cancelled_event "2cancel" (order_in OrderStatus.cancelled) cancellation
      request (js.to_iso_string 1000)

abbrev requested_event : DomainEvent
requested_event = with_payload request (Payload.order_cancellation_requested request.payload)

abbrev cancelled_event : DomainEvent
cancelled_event = with_payload answer (Payload.order_cancelled answer.payload)

abbrev cancelled_db : Db
cancelled_db =
    left_by (cancel_order js (draws_of "cancel") cancellation (db_with OrderStatus.risk_approved))
      (db_with OrderStatus.risk_approved)

abbrev cancellation_result : OrderCancellationProcessingResult
cancellation_result =
    OrderCancellationProcessingResult.accepted OrderStatus.risk_approved requested_event
      cancelled_event

cancellation_committed :
    cancel_order js (draws_of "cancel") cancellation (db_with OrderStatus.risk_approved)
    ≡ ok (cancellation_result, cancelled_db)
unfolding cancel_order cancel_found settle_cancellation decide_order_cancellation find_order
    save_order save_outbox create_outbox_event_entity assert_valid_event_envelope
    assert_non_empty_string trim trim_start trim_end insert_outbox
    create_order_cancellation_requested_event create_user_order_cancelled_event request answer
cancellation_committed = refl

cancel_order-IsRequestAndAnswer_example :
    (first second : DomainEvent) × (events_of cancellation_result ≡ some (first, second))
    × IsRequestAndAnswer cancellation
        (order_in OrderStatus.risk_approved)
        cancellation_result
        first
        second
        []
        cancelled_db.outbox
    × (order_id ≡ cancellation.order_id)
cancel_order-IsRequestAndAnswer_example =
    cancel_order-IsRequestAndAnswer js (draws_of "cancel") cancellation
      (db_with OrderStatus.risk_approved) (order_in OrderStatus.risk_approved) cancellation_result
      cancelled_db (unfold find_order in refl) cancellation_committed

-- The payment of the approved order.
abbrev confirmed_event : DomainEvent
unfolding create_final_order_event
confirmed_event =
    create_final_order_event js "0pay" (order_in OrderStatus.confirmed)
      (with_payload authorized (
        FinalSourcePayload.payment_authorized (record {
          payment_id = "payment-1";
          order_id = order_id;
          amount = record { bits = 30 };
          currency = "USD";
          provider = "bank";
        })))
      (js.to_iso_string 1000)

abbrev paid_db : Db
paid_db =
    left_by
      (process_lifecycle_event js (draws_of "pay") (delivery authorized)
        (db_with OrderStatus.risk_approved))
      (db_with OrderStatus.risk_approved)

payment_committed :
    process_lifecycle_event js
      (draws_of "pay")
      (delivery authorized)
      (db_with OrderStatus.risk_approved)
    ≡ ok (
      OrderLifecycleProcessingResult.applied OrderStatus.risk_approved OrderStatus.confirmed
          (some confirmed_event),
      paid_db,
    )
unfolding process_lifecycle_event process_registered apply_decision decide_order_transition
    as_final_order_source_event create_final_order_event find_order save_order save_outbox
    create_outbox_event_entity assert_valid_event_envelope assert_non_empty_string trim trim_start
    trim_end insert_outbox confirmed_event
payment_committed = refl

process_lifecycle_event-IsFinalEvent_example :
    IsFinalEvent
      (delivery authorized)
      OrderStatus.risk_approved
      OrderStatus.confirmed
      confirmed_event
      (db_with OrderStatus.risk_approved)
      paid_db
process_lifecycle_event-IsFinalEvent_example =
    process_lifecycle_event-IsFinalEvent js (draws_of "pay") (delivery authorized)
      (db_with OrderStatus.risk_approved) OrderStatus.risk_approved OrderStatus.confirmed
      confirmed_event paid_db payment_committed

-- The same cancellation through the service, with spaces around its reason and no requester.
abbrev command : CancelOrderCommand
command = record { id = order_id; reason = "  changed my mind "; requested_by = none }

abbrev cancel_response : Answer CancelOrderResponse
cancel_response = record {
  value = record {
    id = order_id;
    status = OrderStatus.cancelled;
    cancellation_status = CancellationStatus.accepted;
    reason = "changed my mind";
    requested_by = Requester.user;
    current_status = OrderStatus.cancelled;
  };
  db = cancelled_db;
  wakes_publisher = true;
}

service_cancelled :
    cancel js (draws_of "cancel") command (db_with OrderStatus.risk_approved) ≡ ok cancel_response
unfolding cancel require_cancellation_reason assert_valid_order_id is_uuid match_groups utf16_length
    cancel_order cancel_found settle_cancellation decide_order_cancellation find_order save_order
    save_outbox create_outbox_event_entity assert_valid_event_envelope assert_non_empty_string trim
    trim_start trim_end insert_outbox create_order_cancellation_requested_event
    create_user_order_cancelled_event
service_cancelled = refl

-- A creation through the service.
abbrev create_command : CreateOrderCommand
create_command = record { idempotency_key = some "key-1"; request_hash = some "hash-1" }

abbrev created : Result (Answer CreateOrderResponseSnapshot)
created = create_order js (draws_of "create") dto create_command empty_db

abbrev create_response : Answer CreateOrderResponseSnapshot
unfolding create_order_response_snapshot pending_order
create_response = record {
  value =
      create_order_response_snapshot js
        (pending_order js (draws_of "create") (create_params js (draws_of "create") dto));
  db =
      left_by
        (create_pending_order_with_outbox_idempotently js (draws_of "create")
          (create_params js (draws_of "create") dto)
          (record { key = "key-1"; request_hash = "hash-1" }) empty_db)
        empty_db;
  wakes_publisher = true;
}

service_created : created ≡ ok create_response
unfolding create_order create_by read_create_order_idempotency create_params total_amount item_count
    create_pending_order_with_outbox_idempotently create_reserved persist_pending_order_with_outbox
    pending_order insert_order save_outbox create_outbox_event_entity assert_valid_event_envelope
    assert_non_empty_string trim trim_start trim_end insert_outbox create_order_response_snapshot
    store_response create_response
service_created = refl

create_order-paired_example :
    ((truthy create_command.idempotency_key ≡ none) × (truthy create_command.request_hash ≡ none))
    ⊎ ((k : String) × (hash : String) × (truthy create_command.idempotency_key ≡ some k)
        × (truthy create_command.request_hash ≡ some hash))
create_order-paired_example =
    create_order-paired js (draws_of "create") dto create_command empty_db create_response
      service_created
