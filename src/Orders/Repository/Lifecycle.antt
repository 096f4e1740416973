-- ===== src/Orders/Repository/Lifecycle.antt =====
-- orders.repository.ts: `processLifecycleEvent`.
use kafka_nest_playground.Prelude.{[], ◌∷◌, ◌++◌, Option, none, some, if◌then◌else◌}
use kafka_nest_playground.Prelude.Tx.{Result, ok, ◌>>=◌}
use kafka_nest_playground.Orders.Entity.{OrderStatus, Order, ProcessedKafkaEvent, Js, Draws}
use kafka_nest_playground.Orders.StateMachine.{
  OrderLifecycleEvent, OrderTransitionDecision, lifecycle_type, lifecycle_type_text,
  decide_order_transition,
}
use kafka_nest_playground.Orders.FinalEvent.{create_final_order_event}
use kafka_nest_playground.Orders.Tables.{Db, find_order, save_order, is_processed}
use kafka_nest_playground.Orders.Repository.{
  ProcessLifecycleEventParams, OrderLifecycleProcessingResult, save_outbox,
  as_final_order_source_event,
}

-- The row that registers the event.
abbrev pub processed_row : ProcessLifecycleEventParams → ProcessedKafkaEvent
processed_row params = record {
  event_id = params.event.event_id;
  event_type = lifecycle_type_text (lifecycle_type params.event.payload);
  source_topic = params.source_topic;
  source_offset = params.source_offset;
}

-- The new row of an order whose status changes; the update date is the database's.
abbrev pub with_status : Draws → OrderStatus → Order → Order
with_status draws status order = record order { status = status; updated_at = draws.now }

-- From `decision.allowed` on: the order's row, and the final event where the decision names one.
unfoldable pub apply_decision :
    Js
    → Draws
    → OrderLifecycleEvent
    → Order
    → OrderTransitionDecision
    → Db
    → Result (OrderLifecycleProcessingResult × Db)
apply_decision js draws event order (OrderTransitionDecision.rejected from event_type) db =
    ok (OrderLifecycleProcessingResult.invalid_transition order.status, db)
apply_decision js draws event order (OrderTransitionDecision.allowed from to none) db = ok (
  OrderLifecycleProcessingResult.applied order.status to none,
  record db { orders = save_order (with_status draws to order) db.orders },
)
apply_decision js draws event order (OrderTransitionDecision.allowed from to (some final_type)) db =
    do
      let updated_order = with_status draws to order
      source ← as_final_order_source_event event
      let final_event =
          create_final_order_event js (draws.uuid 0) updated_order source
            (js.to_iso_string draws.now)
      db' ←
          save_outbox draws 0 updated_order.id final_event
            (record db { orders = save_order updated_order db.orders })
      ok (OrderLifecycleProcessingResult.applied order.status to (some final_event), db')

-- From `findOne` on.
unfoldable pub process_registered :
    Js
    → Draws
    → OrderLifecycleEvent
    → Option Order
    → Db
    → Result (OrderLifecycleProcessingResult × Db)
process_registered js draws event none db = ok (OrderLifecycleProcessingResult.unknown_order, db)
process_registered js draws event (some order) db =
    apply_decision js draws event order
      (decide_order_transition order.status (lifecycle_type event.payload)) db

unfoldable pub process_lifecycle_event :
    Js → Draws → ProcessLifecycleEventParams → Db → Result (OrderLifecycleProcessingResult × Db)
process_lifecycle_event js draws params db =
    if is_processed params.event.event_id db.processed
    then ok (OrderLifecycleProcessingResult.duplicate_event, db)
    else process_registered js draws params.event (find_order params.order_id db.orders)
        (record db { processed = db.processed ++ processed_row params ∷ [] })
