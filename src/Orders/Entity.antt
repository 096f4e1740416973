-- ===== src/Orders/Entity.antt =====
-- app/order-service/src/modules/orders/entities, and what the code takes from its surroundings.
use kafka_nest_playground.Prelude.{ℕ, String, List, Option}
use kafka_nest_playground.Contracts.Events.{Number}
use kafka_nest_playground.Outbox.Entity.{TraceCarrier}

pub data OrderStatus : Type 0 where
  pending risk_approved risk_rejected payment_authorized payment_failed confirmed cancelled :
      OrderStatus

-- The strings of the enum.
abbrev pub status_text : OrderStatus → String
status_text OrderStatus.pending = "PENDING"
status_text OrderStatus.risk_approved = "RISK_APPROVED"
status_text OrderStatus.risk_rejected = "RISK_REJECTED"
status_text OrderStatus.payment_authorized = "PAYMENT_AUTHORIZED"
status_text OrderStatus.payment_failed = "PAYMENT_FAILED"
status_text OrderStatus.confirmed = "CONFIRMED"
status_text OrderStatus.cancelled = "CANCELLED"

pub record OrderItemSnapshot : Type 0 where
  pub product_id : String
  pub quantity : Number
  pub unit_price : Number

-- A row of `orders`; `total_amount` is the numeric column's text, and dates are milliseconds.
pub record Order : Type 0 where
  pub id : String
  pub user_id : String
  pub currency : String
  pub total_amount : String
  pub item_count : Number
  pub status : OrderStatus
  pub items : List OrderItemSnapshot
  pub created_at : ℕ
  pub updated_at : ℕ

-- A row of `processed_kafka_events`, without the columns that nothing reads back.
pub record ProcessedKafkaEvent : Type 0 where
  pub event_id : String
  pub event_type : String
  pub source_topic : String
  pub source_offset : String

-- The language's operations on doubles and dates.
pub record Js : Type 0 where
  pub to_iso_string : ℕ → String
  pub to_fixed2 : Number → String
  pub to_number : String → Number
  pub zero : Number
  pub add : Number → Number → Number
  pub mul : Number → Number → Number

-- What one call draws from the clock, from `randomUUID()`, from the columns that the database
-- generates, and from the active trace.
pub record Draws : Type 0 where
  pub now : ℕ
  pub uuid : ℕ → String
  pub row_id : ℕ → String
  pub order_id : String
  pub trace : Option TraceCarrier
