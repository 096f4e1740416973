-- ===== src/Outbox/Entity.antt =====
-- packages/outbox/src/outbox-event.entity.ts and create-outbox-event-entity.ts.
use kafka_nest_playground.Prelude.{ℕ, String, Option, none, ltb, not}
use kafka_nest_playground.Prelude.Text.{trim, is_empty}
use kafka_nest_playground.Prelude.Tx.{Result, ok, Error, ◌>>◌, guard}
use kafka_nest_playground.Contracts.Events.{DomainEvent, event_type}

pub data OutboxStatus : Type 0 where
  pending published failed ignored : OutboxStatus

-- packages/observability/src/tracing.ts: the headers that `injectTraceContext` may set.
pub record TraceCarrier : Type 0 where
  pub traceparent : Option String
  pub tracestate : Option String
  pub x_trace_id : Option String
  pub x_span_id : Option String

-- A row of `outbox_events`, without `updated_at`. Dates are milliseconds.
pub record OutboxEvent : Type 0 where
  pub id : String
  pub topic : String
  pub message_key : String
  pub event_type : String
  pub event_id : String
  pub event : DomainEvent
  pub trace_context : Option TraceCarrier
  pub status : OutboxStatus
  pub attempts : ℕ
  pub next_attempt_at : Option ℕ
  pub locked_by : Option String
  pub locked_until : Option ℕ
  pub published_at : Option ℕ
  pub last_error : Option String
  pub created_at : ℕ

-- `typeof value !== "string" || value.trim() === ""`; the model's values are texts.
unfoldable pub assert_non_empty_string : String → String → Result (Unit {0})
unfolding trim
assert_non_empty_string value field = guard (not (is_empty (trim value))) (Error.plain_error field)

unfoldable pub assert_valid_event_envelope : DomainEvent → Result (Unit {0})
unfolding assert_non_empty_string
assert_valid_event_envelope e = do
  assert_non_empty_string e.event_id "event.eventId"
  assert_non_empty_string (event_type e) "event.eventType"
  assert_non_empty_string e.occurred_at "event.occurredAt"
  assert_non_empty_string e.correlation_id "event.correlationId"
  assert_non_empty_string e.producer "event.producer"
  guard (ltb 0 e.event_version) (Error.plain_error "event.eventVersion")

-- `id` and `created_at` are the columns that the database fills in when the row is saved.
unfoldable pub create_outbox_event_entity :
    (id : String) (created_at : ℕ) (topic message_key : String) (event : DomainEvent)
    (trace_context : Option TraceCarrier)
    → Result OutboxEvent
unfolding assert_valid_event_envelope assert_non_empty_string
create_outbox_event_entity id created_at topic message_key event trace_context = do
  assert_non_empty_string topic "topic"
  assert_non_empty_string message_key "messageKey"
  assert_valid_event_envelope event
  ok (record {
    id = id;
    topic = topic;
    message_key = message_key;
    event_type = event_type event;
    event_id = event.event_id;
    event = event;
    trace_context = trace_context;
    status = OutboxStatus.pending;
    attempts = 0;
    next_attempt_at = none;
    locked_by = none;
    locked_until = none;
    published_at = none;
    last_error = none;
    created_at = created_at;
  })
