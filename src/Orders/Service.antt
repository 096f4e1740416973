-- ===== src/Orders/Service.antt =====
-- app/order-service/src/modules/orders/orders.service.ts. A call returns its answer, the tables,
-- and whether it wakes the outbox publisher; the log lines are left out.
pub mod Laws
use kafka_nest_playground.Prelude.{
  ℕ, String, Bool, true, false, List, [], ◌∷◌, Option, none, some, if◌then◌else◌, leb, ◌&&◌, ◌||◌,
  ◌==◌,
}
use kafka_nest_playground.Prelude.Text.{trim, utf16_length, is_empty}
use kafka_nest_playground.Prelude.Tx.{Result, ok, err, Error, ◌>>=◌, ◌>>◌, guard}
use kafka_nest_playground.Contracts.Events.{
  Number, EventEnvelope, OrderCreatedPayload, Requester, DomainEvent,
}
use kafka_nest_playground.Orders.Entity.{OrderStatus, OrderItemSnapshot, Order, Js, Draws}
use kafka_nest_playground.Orders.StateMachine.{LifecyclePayload, OrderLifecycleEvent}
use kafka_nest_playground.Orders.Cancellation.{OrderCancellationCommand}
use kafka_nest_playground.Orders.OrderId.{assert_valid_order_id}
use kafka_nest_playground.Orders.Tables.{Db, CreateOrderResponseSnapshot}
use kafka_nest_playground.Orders.Repository.{
  CreatePendingOrderParams, CreateOrderIdempotencyParams, CreatePendingOrderResult,
  ProcessLifecycleEventParams, OrderLifecycleProcessingResult, OrderCancellationProcessingResult,
  create_order_response_snapshot,
}
use kafka_nest_playground.Orders.Repository.Create.{
  persist_pending_order_with_outbox, create_pending_order_with_outbox_idempotently,
}
use kafka_nest_playground.Orders.Repository.Lifecycle.{process_lifecycle_event}
use kafka_nest_playground.Orders.Repository.Cancel.{cancel_order}

pub record CreateOrderDto : Type 0 where
  pub user_id : String
  pub currency : String
  pub items : List OrderItemSnapshot

pub record CreateOrderCommand : Type 0 where
  pub idempotency_key : Option String
  pub request_hash : Option String

pub record CancelOrderCommand : Type 0 where
  pub id : String
  pub reason : String
  pub requested_by : Option Requester

pub data CancellationStatus : Type 0 where
  accepted rejected : CancellationStatus

pub record CancelOrderResponse : Type 0 where
  pub id : String
  pub status : OrderStatus
  pub cancellation_status : CancellationStatus
  pub reason : String
  pub requested_by : Requester
  pub current_status : OrderStatus

-- What a call ends with.
pub record Answer (A : Type 0) : Type 0 where
  pub value : A
  pub db : Db
  pub wakes_publisher : Bool

-- A text that JavaScript takes for true.
abbrev pub truthy : Option String → Option String
truthy none = none
truthy (some text) = if is_empty text then none else some text

-- The key and the hash must come as a pair.
abbrev pub pair_up : Option String → Option String → Result (Option CreateOrderIdempotencyParams)
pair_up none none = ok none
pair_up (some key) (some hash) = ok (some (record { key = key; request_hash = hash }))
pair_up (some key) none = err Error.bad_request
pair_up none (some hash) = err Error.bad_request

unfoldable pub read_create_order_idempotency :
    CreateOrderCommand → Result (Option CreateOrderIdempotencyParams)
read_create_order_idempotency command =
    pair_up (truthy command.idempotency_key) (truthy command.request_hash)

-- `dto.items.reduce((sum, item) => sum + item.quantity * item.unitPrice, 0)`.
unfoldable pub total_amount : Js → Number → List OrderItemSnapshot → Number
total_amount js sum [] = sum
total_amount js sum (item ∷ items) =
    total_amount js (js.add sum (js.mul item.quantity item.unit_price)) items

-- `dto.items.reduce((sum, item) => sum + item.quantity, 0)`.
unfoldable pub item_count : Js → Number → List OrderItemSnapshot → Number
item_count js sum [] = sum
item_count js sum (item ∷ items) = item_count js (js.add sum item.quantity) items

-- `createParams`; the ids of the event are drawn when the order is saved.
unfoldable pub create_params : Js → Draws → CreateOrderDto → CreatePendingOrderParams
unfolding total_amount item_count
create_params js draws dto = record {
  user_id = dto.user_id;
  currency = dto.currency;
  total_amount = total_amount js js.zero dto.items;
  item_count = item_count js js.zero dto.items;
  items = dto.items;
  create_event = λ saved_order. record {
    event_id = draws.uuid 0;
    event_version = 1;
    occurred_at = js.to_iso_string draws.now;
    correlation_id = draws.uuid 1;
    causation_id = none;
    producer = "order-service";
    payload = record {
      order_id = saved_order.id;
      user_id = saved_order.user_id;
      currency = saved_order.currency;
      total_amount = total_amount js js.zero dto.items;
      item_count = item_count js js.zero dto.items;
    };
  };
}

abbrev pub created_answer : CreatePendingOrderResult → Db → Answer CreateOrderResponseSnapshot
created_answer (CreatePendingOrderResult.replayed response) db = record {
  value = response;
  db = db;
  wakes_publisher = false;
}
created_answer (CreatePendingOrderResult.created order event response) db = record {
  value = response;
  db = db;
  wakes_publisher = true;
}

-- `createPendingOrderWithoutIdempotency`, or the idempotent method of the repository.
unfoldable pub create_by :
    Js
    → Draws
    → CreatePendingOrderParams
    → Option CreateOrderIdempotencyParams
    → Db
    → Result (CreatePendingOrderResult × Db)
create_by js draws params none db = do
  ((order, event), db') ← persist_pending_order_with_outbox js draws params db
  ok (CreatePendingOrderResult.created order event (create_order_response_snapshot js order), db')
create_by js draws params (some idempotency) db =
    create_pending_order_with_outbox_idempotently js draws params idempotency db

unfoldable pub create_order :
    Js
    → Draws
    → CreateOrderDto
    → CreateOrderCommand
    → Db
    → Result (Answer CreateOrderResponseSnapshot)
create_order js draws dto command db = do
  idempotency ← read_create_order_idempotency command
  (result, db') ← create_by js draws (create_params js draws dto) idempotency db
  ok (created_answer result db')

-- `requireCancellationReason`.
unfoldable pub require_cancellation_reason : String → Result String
require_cancellation_reason value = do
  let reason = trim value
  guard (leb 5 (utf16_length reason) && leb (utf16_length reason) 1000) Error.bad_request
  ok reason

abbrev pub requester_or_user : Option Requester → Requester
requester_or_user none = Requester.user
requester_or_user (some requester) = requester

abbrev pub cancel_answer :
    String
    → String
    → Requester
    → OrderCancellationProcessingResult
    → Db
    → Result (Answer CancelOrderResponse)
cancel_answer id reason requested_by OrderCancellationProcessingResult.unknown_order db =
    err Error.not_found
cancel_answer id reason requested_by (OrderCancellationProcessingResult.rejected status e1 e2) db =
    ok (record {
      value = record {
        id = id;
        status = status;
        cancellation_status = CancellationStatus.rejected;
        reason = reason;
        requested_by = requested_by;
        current_status = status;
      };
      db = db;
      wakes_publisher = true;
    })
cancel_answer id reason requested_by (OrderCancellationProcessingResult.accepted previous e1 e2)
      db =
    ok (record {
      value = record {
        id = id;
        status = OrderStatus.cancelled;
        cancellation_status = CancellationStatus.accepted;
        reason = reason;
        requested_by = requested_by;
        current_status = OrderStatus.cancelled;
      };
      db = db;
      wakes_publisher = true;
    })

unfoldable pub cancel : Js → Draws → CancelOrderCommand → Db → Result (Answer CancelOrderResponse)
cancel js draws command db = do
  assert_valid_order_id command.id
  reason ← require_cancellation_reason command.reason
  let requested_by = requester_or_user command.requested_by
  (result, db') ←
      cancel_order js draws
        (record { order_id = command.id; reason = reason; requested_by = requested_by }) db
  cancel_answer command.id reason requested_by result db'

abbrev pub lifecycle_order_id : LifecyclePayload → String
lifecycle_order_id (LifecyclePayload.order_risk_approved p) = p.order_id
lifecycle_order_id (LifecyclePayload.order_risk_rejected p) = p.order_id
lifecycle_order_id (LifecyclePayload.payment_authorized p) = p.order_id
lifecycle_order_id (LifecyclePayload.payment_failed p) = p.order_id

abbrev pub emits : OrderLifecycleProcessingResult → Bool
emits (OrderLifecycleProcessingResult.applied previous status (some event)) = true
emits _ = false

-- `processLifecycleEvent`, which the four handlers call; they add fields to the log alone.
unfoldable pub handle :
    Js → Draws → OrderLifecycleEvent → (topic offset : String) → Db → Result (Answer Unit)
handle js draws event topic offset db = do
  let order_id = lifecycle_order_id event.payload
  assert_valid_order_id order_id
  (result, db') ←
      process_lifecycle_event js draws
        (record {
          order_id = order_id;
          event = event;
          source_topic = topic;
          source_offset = offset;
        })
        db
  ok (record { value = tt; db = db'; wakes_publisher = emits result })
