-- ===== src/Examples.antt =====
-- Concrete inputs for the tests of the components: an order of one user, and the events that answer
-- it.
pub mod OrderFlow
pub mod OrderCalls
pub mod KafkaRetry
pub mod KafkaConsumer
pub mod KafkaInbox
pub mod OutboxFlow
pub mod OutboxOperator
pub mod AdminLimits
pub mod DeadLetters
pub mod Retaining
pub mod Answers
use kafka_nest_playground.Prelude.{
  ℕ, ◌+◌, ◌*◌, String, List, [], ◌∷◌, Option, none, some, eqb, if◌then◌else◌,
}
use Prim.Native.Char.{Char}
use kafka_nest_playground.Contracts.Events.{Number, Requester}
use kafka_nest_playground.Orders.Entity.{Js, Draws, Order, OrderStatus}
use kafka_nest_playground.Orders.StateMachine.{LifecyclePayload, OrderLifecycleEvent}
use kafka_nest_playground.Orders.Cancellation.{OrderCancellationCommand}
use kafka_nest_playground.Orders.Tables.{Db}
use kafka_nest_playground.Orders.Repository.{
  CreateOrderIdempotencyParams, CreatePendingOrderParams, ProcessLifecycleEventParams,
}
use kafka_nest_playground.Orders.Service.{CreateOrderDto, create_params}
use kafka_nest_playground.Orders.History.{empty_db}

abbrev pub order_id : String
order_id = "123e4567-e89b-42d3-a456-426614174000"

-- Numbers that stand for themselves, and constant texts.
abbrev pub js : Js
js = record {
  to_iso_string = λ ms. "2026-01-01T00:00:00.000Z";
  to_fixed2 = λ n. "30.00";
  to_number = λ text. record { bits = 30 };
  zero = record { bits = 0 };
  add = λ a b. record { bits = a.bits + b.bits };
  mul = λ a b. record { bits = a.bits * b.bits };
}

abbrev digit : ℕ → Char
digit n = if eqb n 0 then "0" else if eqb n 1 then "1" else "2"

-- The draws of the call named by `tag`.
abbrev pub draws_of : String → Draws
draws_of tag = record {
  now = 1000;
  uuid = λ n. String.◌∷◌ (digit n) tag;
  row_id = λ n. String.◌∷◌ (digit n) tag;
  order_id = order_id;
  trace = none;
}

abbrev pub dto : CreateOrderDto
dto = record {
  user_id = "user-1";
  currency = "USD";
  items =
      record {
        product_id = "book";
        quantity = record { bits = 3 };
        unit_price = record { bits = 10 };
      }
      ∷ [];
}

abbrev pub params : CreatePendingOrderParams
params = create_params js (draws_of "create") dto

abbrev pub key : CreateOrderIdempotencyParams
key = record { key = "key-1"; request_hash = "hash-1" }

abbrev pub event_of : String → LifecyclePayload → OrderLifecycleEvent
event_of id payload = record {
  event_id = id;
  event_version = 1;
  occurred_at = "2026-01-01T00:00:00.000Z";
  correlation_id = "correlation-1";
  causation_id = none;
  producer = "risk-service";
  payload = payload;
}

abbrev pub approved : OrderLifecycleEvent
approved = event_of "event-approved" (
    LifecyclePayload.order_risk_approved (record {
      order_id = order_id;
      amount = record { bits = 30 };
      currency = "USD";
      risk_score = record { bits = 1 };
      approved_by = "risk-service";
    }))

abbrev pub authorized : OrderLifecycleEvent
authorized = event_of "event-authorized" (
    LifecyclePayload.payment_authorized (record {
      payment_id = "payment-1";
      order_id = order_id;
      amount = record { bits = 30 };
      currency = "USD";
      provider = "bank";
    }))

abbrev pub delivery : OrderLifecycleEvent → ProcessLifecycleEventParams
delivery event = record {
  order_id = order_id;
  event = event;
  source_topic = "risk.risk-events";
  source_offset = "7";
}

abbrev pub cancellation : OrderCancellationCommand
cancellation = record {
  order_id = order_id;
  reason = "changed my mind";
  requested_by = Requester.user;
}

abbrev pub order_in : OrderStatus → Order
order_in status = record {
  id = order_id;
  user_id = "user-1";
  currency = "USD";
  total_amount = "30.00";
  item_count = record { bits = 3 };
  status = status;
  items = [];
  created_at = 1000;
  updated_at = 1000;
}

-- Tables with that order alone.
abbrev pub db_with : OrderStatus → Db
db_with status = record empty_db { orders = order_in status ∷ [] }
