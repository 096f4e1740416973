-- ===== src/Contracts/Events.antt =====
-- packages/contracts/src/events.ts. The payload's constructor is the event's `eventType`: the
-- TypeScript union is discriminated by that field.
use kafka_nest_playground.Prelude.{ℕ, String, Option}
use kafka_nest_playground.Contracts.Topics

-- A JavaScript number, by the bits of its IEEE 754 double; the arithmetic on it is a parameter.
pub record Number : Type 0 where
  pub bits : ℕ

pub data Requester : Type 0 where
  user operator : Requester

pub data CancelledBy : Type 0 where
  risk payment user operator : CancelledBy

pub data Channel : Type 0 where
  email push webhook : Channel

pub record OrderCreatedPayload : Type 0 where
  pub order_id : String
  pub user_id : String
  pub currency : String
  pub total_amount : Number
  pub item_count : Number

pub record OrderCancellationRequestedPayload : Type 0 where
  pub order_id : String
  pub user_id : String
  pub reason : String
  pub requested_by : Requester
  pub requested_at : String

pub record OrderCancellationRejectedPayload : Type 0 where
  pub order_id : String
  pub user_id : String
  pub reason : String
  pub requested_by : Requester
  pub current_status : String
  pub rejected_reason : String
  pub rejected_at : String

pub record OrderConfirmedPayload : Type 0 where
  pub order_id : String
  pub user_id : String
  pub currency : String
  pub total_amount : Number
  pub payment_id : String
  pub confirmed_at : String

pub record OrderCancelledPayload : Type 0 where
  pub order_id : String
  pub user_id : String
  pub reason : String
  pub cancelled_by : CancelledBy
  pub cancelled_at : String

pub record OrderRiskApprovedPayload : Type 0 where
  pub order_id : String
  pub amount : Number
  pub currency : String
  pub risk_score : Number
  pub approved_by : String

pub record OrderRiskRejectedPayload : Type 0 where
  pub order_id : String
  pub risk_score : Number
  pub reason : String
  pub rejected_by : String

pub record PaymentAuthorizedPayload : Type 0 where
  pub payment_id : String
  pub order_id : String
  pub amount : Number
  pub currency : String
  pub provider : String

pub record PaymentFailedPayload : Type 0 where
  pub payment_id : Option String
  pub order_id : String
  pub reason : String
  pub provider : String

pub record NotificationCommandPayload : Type 0 where
  pub notification_id : String
  pub recipient : String
  pub channel : Channel
  pub template : String
  pub data_json : String

pub record DeadLetterPayload : Type 0 where
  pub original_topic : String
  pub original_partition : ℕ
  pub original_offset : String
  pub error_message : String
  pub error_stack : Option String
  pub raw_event : Option String

pub data Payload : Type 0 where
  order_created : OrderCreatedPayload → Payload
  order_cancellation_requested : OrderCancellationRequestedPayload → Payload
  order_cancellation_rejected : OrderCancellationRejectedPayload → Payload
  order_confirmed : OrderConfirmedPayload → Payload
  order_cancelled : OrderCancelledPayload → Payload
  order_risk_approved : OrderRiskApprovedPayload → Payload
  order_risk_rejected : OrderRiskRejectedPayload → Payload
  payment_authorized : PaymentAuthorizedPayload → Payload
  payment_failed : PaymentFailedPayload → Payload
  notification_command : NotificationCommandPayload → Payload
  dead_letter : DeadLetterPayload → Payload

-- `EventEnvelope<TPayload>`.
pub record EventEnvelope (P : Type 0) : Type 0 where
  pub event_id : String
  pub event_version : ℕ
  pub occurred_at : String
  pub correlation_id : String
  pub causation_id : Option String
  pub producer : String
  pub payload : P

-- The union `DomainEvent`.
abbrev pub DomainEvent : Type 0
DomainEvent = EventEnvelope Payload

-- An event of one type, as a member of the union.
abbrev pub with_payload : {P Q : Type 0} → EventEnvelope P → Q → EventEnvelope Q
with_payload e q = record {
  event_id = e.event_id;
  event_version = e.event_version;
  occurred_at = e.occurred_at;
  correlation_id = e.correlation_id;
  causation_id = e.causation_id;
  producer = e.producer;
  payload = q;
}

abbrev pub event_type_of : Payload → String
event_type_of (Payload.order_created p) = "OrderCreated"
event_type_of (Payload.order_cancellation_requested p) = "OrderCancellationRequested"
event_type_of (Payload.order_cancellation_rejected p) = "OrderCancellationRejected"
event_type_of (Payload.order_confirmed p) = "OrderConfirmed"
event_type_of (Payload.order_cancelled p) = "OrderCancelled"
event_type_of (Payload.order_risk_approved p) = "OrderRiskApproved"
event_type_of (Payload.order_risk_rejected p) = "OrderRiskRejected"
event_type_of (Payload.payment_authorized p) = "PaymentAuthorized"
event_type_of (Payload.payment_failed p) = "PaymentFailed"
event_type_of (Payload.notification_command p) = "NotificationCommand"
event_type_of (Payload.dead_letter p) = "DeadLetterEvent"

-- `event.eventType`.
abbrev pub event_type : DomainEvent → String
event_type e = event_type_of e.payload

-- `EVENT_TOPIC_MAP[event.eventType]`.
abbrev pub event_topic_map : Payload → String
event_topic_map (Payload.order_created p) = Topics.order_order_events
event_topic_map (Payload.order_cancellation_requested p) = Topics.order_order_events
event_topic_map (Payload.order_cancellation_rejected p) = Topics.order_order_events
event_topic_map (Payload.order_confirmed p) = Topics.order_order_events
event_topic_map (Payload.order_cancelled p) = Topics.order_order_events
event_topic_map (Payload.order_risk_approved p) = Topics.risk_risk_events
event_topic_map (Payload.order_risk_rejected p) = Topics.risk_risk_events
event_topic_map (Payload.payment_authorized p) = Topics.payment_payment_events
event_topic_map (Payload.payment_failed p) = Topics.payment_payment_events
event_topic_map (Payload.notification_command p) = Topics.notification_notification_commands
event_topic_map (Payload.dead_letter p) = Topics.dead_letter_events
