-- ===== src/Examples/OrderFlow.antt =====
-- Runs of the order repository.
use kafka_nest_playground.Prelude.{◌<◌, Option, ◌≡◌, refl, ◌≢◌, ◌↔◌, List, [], ◌∷◌, none, some}
use kafka_nest_playground.Prelude.Text.{trim, trim_start, trim_end}
use kafka_nest_playground.Prelude.Tx.{Result, ok}
use kafka_nest_playground.Outbox.Entity.{
  assert_non_empty_string, assert_valid_event_envelope, create_outbox_event_entity,
}
use kafka_nest_playground.Orders.Entity.{OrderStatus, Order, Draws}
use kafka_nest_playground.Orders.StateMachine.{
  LifecycleEventType, FinalEventType, OrderTransitionDecision, decide_order_transition,
}
use kafka_nest_playground.Orders.Cancellation.{
  decide_order_cancellation, create_order_cancellation_requested_event,
  create_order_cancellation_rejected_event,
}
use kafka_nest_playground.Orders.FinalEvent.{create_final_order_event}
use kafka_nest_playground.Orders.Transitions.{
  Edge, IsStuck, rank, announced, decide_order_transition-iff-Edge,
}
use kafka_nest_playground.Orders.Tables.{
  Db, find_order, insert_order, save_order, insert_outbox, store_response,
}
use kafka_nest_playground.Orders.Repository.{
  OrderLifecycleProcessingResult, CreatePendingOrderResult, create_order_response_snapshot,
  save_outbox, as_final_order_source_event,
}
use kafka_nest_playground.Orders.Repository.Create.{
  pending_order, persist_pending_order_with_outbox, create_reserved,
  create_pending_order_with_outbox_idempotently,
}
use kafka_nest_playground.Orders.Repository.Lifecycle.{
  processed_row, apply_decision, process_registered, process_lifecycle_event,
}
use kafka_nest_playground.Orders.Repository.Cancel.{settle_cancellation, cancel_found, cancel_order}
use kafka_nest_playground.Orders.Service.{total_amount, item_count, create_params}
use kafka_nest_playground.Orders.Balance.{final_events, due}
use kafka_nest_playground.Orders.Evolution.{HasSameContent}
use kafka_nest_playground.Orders.History.{
  Request, create_with_outbox, process, cancel, serve, run, empty_db, left_by,
}
use kafka_nest_playground.Orders.History.FinalEvents.{final_event_once}
use kafka_nest_playground.Orders.History.Once.{redelivery_ignored}
use kafka_nest_playground.Orders.History.Replay.{keyed_creation_once}
use kafka_nest_playground.Orders.History.Content.{final_row_kept, order_kept, status_reachable}
use kafka_nest_playground.Examples.{
  js, draws_of, order_id, params, key, approved, authorized, delivery, cancellation, order_in,
  db_with,
}

-- An order is created, approved, paid, paid again, and cancelled too late.
abbrev history : List (Draws × Request)
history =
    (draws_of "create", create_with_outbox params)
    ∷ (draws_of "approve", process (delivery approved))
    ∷ (draws_of "pay", process (delivery authorized))
    ∷ (draws_of "again", process (delivery authorized))
    ∷ (draws_of "cancel", cancel cancellation)
    ∷ []

one_final_event : final_events order_id (run js history empty_db).outbox ≡ 1
unfolding final_events run serve persist_pending_order_with_outbox pending_order insert_order
    save_outbox create_outbox_event_entity assert_valid_event_envelope assert_non_empty_string trim
    trim_start trim_end insert_outbox process_lifecycle_event process_registered apply_decision
    decide_order_transition as_final_order_source_event create_final_order_event find_order
    save_order cancel_order cancel_found settle_cancellation decide_order_cancellation create_params
    create_order_cancellation_requested_event create_order_cancellation_rejected_event total_amount
    item_count
one_final_event = refl

final_event_once_example :
    final_events order_id (run js history empty_db).outbox
    ≡ due (find_order order_id (run js history empty_db).orders)
final_event_once_example = final_event_once js history order_id

-- The tables after the approval, and the deliveries between it and its repetition.
abbrev approved_db : Db
approved_db = record {
  orders = order_in OrderStatus.risk_approved ∷ [];
  processed = processed_row (delivery approved) ∷ [];
  outbox = [];
  idempotency = [];
}

abbrev between : List (Draws × Request)
between =
    (draws_of "pay", process (delivery authorized)) ∷ (draws_of "cancel", cancel cancellation) ∷ []

approval_committed :
    process_lifecycle_event js
      (draws_of "approve")
      (delivery approved)
      (db_with OrderStatus.pending)
    ≡ ok (
      OrderLifecycleProcessingResult.applied OrderStatus.pending OrderStatus.risk_approved none,
      approved_db,
    )
unfolding process_lifecycle_event process_registered apply_decision decide_order_transition
    find_order save_order
approval_committed = refl

redelivery_ignored_example :
    process_lifecycle_event js (draws_of "again") (delivery approved) (run js between approved_db)
    ≡ ok (OrderLifecycleProcessingResult.duplicate_event, run js between approved_db)
redelivery_ignored_example =
    redelivery_ignored js (draws_of "approve") (draws_of "again") (delivery approved)
      (delivery approved) (db_with OrderStatus.pending) approved_db _ between approval_committed
      refl

-- The first creation with a key, on empty tables, and the tables that it leaves.
abbrev first : Result (CreatePendingOrderResult × Db)
first = create_pending_order_with_outbox_idempotently js (draws_of "create") params key empty_db

abbrev first_order : Order
first_order = pending_order js (draws_of "create") params

first_committed :
    first
    ≡ ok (
      CreatePendingOrderResult.created first_order
          (params.create_event first_order)
          (create_order_response_snapshot js first_order),
      left_by first empty_db,
    )
unfolding create_pending_order_with_outbox_idempotently create_reserved
    persist_pending_order_with_outbox pending_order insert_order save_outbox
    create_outbox_event_entity assert_valid_event_envelope assert_non_empty_string trim trim_start
    trim_end insert_outbox create_params create_order_response_snapshot total_amount item_count
    store_response
first_committed = refl

keyed_creation_once_example :
    create_pending_order_with_outbox_idempotently js
      (draws_of "retry")
      params
      key
      (run js history (left_by first empty_db))
    ≡ ok (
      CreatePendingOrderResult.replayed (create_order_response_snapshot js first_order),
      run js history (left_by first empty_db),
    )
keyed_creation_once_example =
    keyed_creation_once js (draws_of "create") (draws_of "retry") params params key key empty_db
      (left_by first empty_db) first_order (params.create_event first_order)
      (create_order_response_snapshot js first_order) history first_committed refl

final_row_kept_example :
    find_order order_id (run js history (db_with OrderStatus.confirmed)).orders
    ≡ some (order_in OrderStatus.confirmed)
final_row_kept_example =
    final_row_kept js history (db_with OrderStatus.confirmed) order_id
      (order_in OrderStatus.confirmed) (unfold find_order in refl) refl

order_kept_example :
    (o' : Order) × (find_order order_id (run js history (db_with OrderStatus.pending)).orders
      ≡ some o')
    × HasSameContent (order_in OrderStatus.pending) o'
order_kept_example =
    order_kept js history (db_with OrderStatus.pending) order_id (order_in OrderStatus.pending)
      (unfold find_order in refl)

-- The order as its approval leaves it.
abbrev approval : List (Draws × Request)
approval =
    (draws_of "create", create_with_outbox params)
    ∷ (draws_of "approve", process (delivery approved))
    ∷ []

abbrev approved_order : Order
approved_order = record (pending_order js (draws_of "create") params) {
  status = OrderStatus.risk_approved;
}

approval_leaves : find_order order_id (run js approval empty_db).orders ≡ some approved_order
unfolding run serve persist_pending_order_with_outbox pending_order insert_order save_outbox
    create_outbox_event_entity assert_valid_event_envelope assert_non_empty_string trim trim_start
    trim_end insert_outbox process_lifecycle_event process_registered apply_decision
    decide_order_transition find_order save_order create_params total_amount item_count
approval_leaves = refl

status_reachable_example :
    (approved_order.status ≢ OrderStatus.risk_rejected)
    × (approved_order.status ≢ OrderStatus.payment_authorized)
    × (approved_order.status ≢ OrderStatus.payment_failed)
status_reachable_example = status_reachable js approval order_id approved_order approval_leaves

decide_order_transition-iff-Edge_example :
    ((from t : OrderStatus) (f : Option FinalEventType)
      → (decide_order_transition OrderStatus.confirmed LifecycleEventType.payment_failed
          ≡ OrderTransitionDecision.allowed from t f)
        ↔ ((from ≡ OrderStatus.confirmed)
            × Edge OrderStatus.confirmed LifecycleEventType.payment_failed t f))
    × ((from : OrderStatus) (e' : LifecycleEventType)
        → (decide_order_transition OrderStatus.confirmed LifecycleEventType.payment_failed
            ≡ OrderTransitionDecision.rejected from e')
          ↔ ((from ≡ OrderStatus.confirmed)
              × (e' ≡ LifecycleEventType.payment_failed)
              × IsStuck OrderStatus.confirmed LifecycleEventType.payment_failed))
    × ((t : OrderStatus) (f : Option FinalEventType)
        → Edge OrderStatus.confirmed LifecycleEventType.payment_failed t f
        → (rank OrderStatus.confirmed < rank t) × (f ≡ announced t))
decide_order_transition-iff-Edge_example =
    decide_order_transition-iff-Edge OrderStatus.confirmed LifecycleEventType.payment_failed
