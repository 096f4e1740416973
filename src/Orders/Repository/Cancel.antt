-- ===== src/Orders/Repository/Cancel.antt =====
-- orders.repository.ts: `cancelOrder`.
use kafka_nest_playground.Prelude.{Option, none, some}
use kafka_nest_playground.Prelude.Tx.{Result, ok, ◌>>=◌}
use kafka_nest_playground.Contracts.Events.{
  EventEnvelope, Payload, OrderCancellationRequestedPayload, with_payload,
}
use kafka_nest_playground.Orders.Entity.{OrderStatus, Order, Js, Draws}
use kafka_nest_playground.Orders.Cancellation.{
  OrderCancellationCommand, OrderCancellationDecision, decide_order_cancellation,
  rejected_reason_text, create_order_cancellation_requested_event,
  create_user_order_cancelled_event, create_order_cancellation_rejected_event,
}
use kafka_nest_playground.Orders.Tables.{Db, find_order, save_order}
use kafka_nest_playground.Orders.Repository.{OrderCancellationProcessingResult, save_outbox}
use kafka_nest_playground.Orders.Repository.Lifecycle.{with_status}

-- From the decision on: the request's row is already in the outbox.
unfoldable pub settle_cancellation :
    Js
    → Draws
    → OrderCancellationCommand
    → Order
    → EventEnvelope OrderCancellationRequestedPayload
    → OrderCancellationDecision
    → Db
    → Result (OrderCancellationProcessingResult × Db)
settle_cancellation js draws command order requested
      (OrderCancellationDecision.rejected from reason) db =
    do
      let requested_event =
          with_payload requested (Payload.order_cancellation_requested requested.payload)
      let rejected =
          create_order_cancellation_rejected_event (draws.uuid 2) order command requested
            (rejected_reason_text reason) (js.to_iso_string draws.now)
      let rejected_event =
          with_payload rejected (Payload.order_cancellation_rejected rejected.payload)
      db' ← save_outbox draws 1 order.id rejected_event db
      ok (
        OrderCancellationProcessingResult.rejected order.status requested_event rejected_event,
        db',
      )
settle_cancellation js draws command order requested (OrderCancellationDecision.accepted from) db =
    do
      let requested_event =
          with_payload requested (Payload.order_cancellation_requested requested.payload)
      let updated_order = with_status draws OrderStatus.cancelled order
      let cancelled =
          create_user_order_cancelled_event (draws.uuid 2) updated_order command requested
            (js.to_iso_string draws.now)
      let final_event = with_payload cancelled (Payload.order_cancelled cancelled.payload)
      db' ←
          save_outbox draws 1 updated_order.id final_event
            (record db { orders = save_order updated_order db.orders })
      ok (OrderCancellationProcessingResult.accepted order.status requested_event final_event, db')

-- From `findOne` on.
unfoldable pub cancel_found :
    Js
    → Draws
    → OrderCancellationCommand
    → Option Order
    → Db
    → Result (OrderCancellationProcessingResult × Db)
cancel_found js draws command none db = ok (OrderCancellationProcessingResult.unknown_order, db)
cancel_found js draws command (some order) db = do
  let requested =
      create_order_cancellation_requested_event (draws.uuid 1) (draws.uuid 0) order command
        (js.to_iso_string draws.now)
  db' ←
      save_outbox draws 0 order.id
        (with_payload requested (Payload.order_cancellation_requested requested.payload)) db
  settle_cancellation js draws command order requested (decide_order_cancellation order.status) db'

unfoldable pub cancel_order :
    Js → Draws → OrderCancellationCommand → Db → Result (OrderCancellationProcessingResult × Db)
cancel_order js draws command db =
    cancel_found js draws command (find_order command.order_id db.orders) db
