-- ===== src/Dlq/Service.antt =====
-- app/order-service/src/modules/dlq/dlq.service.ts. A transaction is a function from the tables to a
-- result with new tables; one that throws leaves the tables as they were.
use kafka_nest_playground.Prelude.{
  ℕ, String, Bool, false, Option, none, some, ltb, leb, eqb, if◌then◌else◌, ◌&&◌,
}
use kafka_nest_playground.Prelude.Text.{trim, utf16_length, is_empty}
use kafka_nest_playground.Prelude.Tx.{Result, ok, err, Error, ◌>>=◌, ◌>>◌, guard}
use kafka_nest_playground.Contracts.Events.{Number, DeadLetterPayload}
use kafka_nest_playground.Outbox.Entity.{OutboxStatus, assert_non_empty_string}
use kafka_nest_playground.Kafka.Headers.{KafkaHeaders, Node, read_header, or_else}
use kafka_nest_playground.Kafka.Headers
use kafka_nest_playground.Orders.Entity.{Draws}
use kafka_nest_playground.Dlq.Json.{Json, number, Fields, get}
use kafka_nest_playground.Dlq.Reprocess.{
  JsonRuntime, text_of, parse_original_event, create_reprocessed_event,
}
use kafka_nest_playground.Dlq.Tables.{
  DeadLetterStatus, is_new, DeadLetterRow, DlqAuditAction, DlqAuditLog, OutboxJsonRow, DlqDb,
  find_by_id, save_dead_letter, insert_outbox_json, insert_audit, save_if_absent,
}

-- `KafkaConsumerMessageContext<DeadLetterEvent>`, what `capture` reads of it.
pub record DeadLetterContext : Type 0 where
  pub event_id : String
  pub payload : DeadLetterPayload
  pub key : Option String
  pub headers : KafkaHeaders

-- The language's conversions: `Number(text)` of `Node`, and `new Date(text)` where it is a date.
pub record Runtime : Type 0 where
  pub node : Node
  pub json : JsonRuntime
  pub parse_date : String → Option ℕ
  pub is_positive_integer : Number → Bool

abbrev pub or_zero : Option ℕ → ℕ
or_zero none = 0
or_zero (some n) = n

-- `readNonNegativeIntegerHeader`.
unfoldable pub read_non_negative_integer_header : Node → KafkaHeaders → String → ℕ
read_non_negative_integer_header node headers name =
    or_zero (node.number (or_else (read_header node headers name) "0"))

abbrev pub date_of : Runtime → Option String → Option ℕ
date_of runtime none = none
date_of runtime (some value) = if is_empty value then none else runtime.parse_date value

-- `readDateHeader`.
unfoldable pub read_date_header : Runtime → KafkaHeaders → String → Option ℕ
read_date_header runtime headers name = date_of runtime (read_header runtime.node headers name)

abbrev pub id_of : Option Fields → Option String
id_of none = none
id_of (some event) = some (text_of (get "eventId" event))

-- `capture`.
unfoldable pub capture :
    Runtime → Draws → DeadLetterContext → DlqDb → Result (DeadLetterRow × DlqDb)
capture runtime draws context db =
    let original_event = parse_original_event runtime.json context.payload.raw_event in
    save_if_absent (draws.row_id 0) draws.now
      (record {
        event_id = context.event_id;
        payload = context.payload;
        message_key = context.key;
        error_code =
            or_else (read_header runtime.node context.headers Headers.error_code) "UNKNOWN_ERROR";
        retry_count =
            read_non_negative_integer_header runtime.node context.headers Headers.retry_count;
        first_failed_at = read_date_header runtime context.headers Headers.first_failed_at;
        original_event_id = id_of original_event;
        original_event = original_event;
      })
      db

-- `findOne`, and the lookup of the two commands.
unfoldable pub found : Option DeadLetterRow → Result DeadLetterRow
found none = err Error.not_found
found (some row) = ok row

-- `requireComment`.
unfoldable pub require_comment : String → Result String
require_comment value = do
  let comment = trim value
  guard (leb 5 (utf16_length comment) && leb (utf16_length comment) 1000) Error.unprocessable
  ok comment

-- `assertNewStatus`.
unfoldable pub assert_new_status : DeadLetterRow → Result (Unit {0})
assert_new_status row = guard (is_new row.status) Error.conflict

-- `assertExpectedVersion`; a number that is no positive integer is 0 here.
unfoldable pub assert_expected_version : DeadLetterRow → ℕ → Result (Unit {0})
assert_expected_version row expected_version = do
  guard (ltb 0 expected_version) Error.unprocessable
  guard (eqb row.version expected_version) Error.conflict

abbrev pub valid_original : Option Fields → Result Fields
valid_original none = err Error.unprocessable
valid_original (some event) = ok event

abbrev pub is_version : Runtime → Option Json → Bool
is_version runtime (some (number n)) = runtime.is_positive_integer n
is_version runtime _ = false

-- `assertValidEventEnvelope` of packages/outbox/src/create-outbox-event-entity.ts, of an object
-- whose fields are not typed; a payload is there, since the object has been validated.
unfoldable pub assert_valid_json_envelope : Runtime → Fields → Result (Unit {0})
unfolding assert_non_empty_string
assert_valid_json_envelope runtime event = do
  assert_non_empty_string (text_of (get "eventId" event)) "event.eventId"
  assert_non_empty_string (text_of (get "eventType" event)) "event.eventType"
  assert_non_empty_string (text_of (get "occurredAt" event)) "event.occurredAt"
  assert_non_empty_string (text_of (get "correlationId" event)) "event.correlationId"
  assert_non_empty_string (text_of (get "producer" event)) "event.producer"
  guard (is_version runtime (get "eventVersion" event)) (Error.plain_error "event.eventVersion")

-- `createOutboxEventEntity`, with the columns that the database fills in.
unfoldable pub create_outbox_json :
    Runtime → Draws → (topic message_key : String) → Fields → Result OutboxJsonRow
unfolding assert_non_empty_string
create_outbox_json runtime draws topic message_key event = do
  assert_non_empty_string topic "topic"
  assert_non_empty_string message_key "messageKey"
  assert_valid_json_envelope runtime event
  ok (record {
    id = draws.row_id 0;
    topic = topic;
    message_key = message_key;
    event_type = text_of (get "eventType" event);
    event_id = text_of (get "eventId" event);
    event = event;
    trace_context = draws.trace;
    status = OutboxStatus.pending;
    created_at = draws.now;
  })

pub record OperatorCommand : Type 0 where
  pub expected_version : ℕ
  pub operator_id : String
  pub comment : String

abbrev pub as_reprocessed :
    Draws → OperatorCommand → (comment event_id : String) → DeadLetterRow → DeadLetterRow
as_reprocessed draws command comment event_id row = record row {
  status = DeadLetterStatus.reprocessed;
  reprocessed_event_id = some event_id;
  reprocessed_at = some draws.now;
  resolved_by = some command.operator_id;
  resolution_comment = some comment;
}

abbrev pub as_ignored : Draws → OperatorCommand → (reason : String) → DeadLetterRow → DeadLetterRow
as_ignored draws command reason row = record row {
  status = DeadLetterStatus.ignored;
  ignored_at = some draws.now;
  ignore_reason = some reason;
  resolved_by = some command.operator_id;
  resolution_comment = some reason;
}

-- The audit row of a row whose status has changed.
abbrev pub audit_row :
    Draws
    → DlqAuditAction
    → OperatorCommand
    → (comment : String) → Option String
    → DeadLetterRow
    → DlqAuditLog
audit_row draws action command comment reprocessed_event_id row = record {
  id = draws.row_id 1;
  dead_letter_event_id = row.id;
  action = action;
  operator_id = command.operator_id;
  previous_status = DeadLetterStatus.new;
  new_status = row.status;
  comment = comment;
  reprocessed_event_id = reprocessed_event_id;
  created_at = draws.now;
}

-- The two `save` calls that end both commands: the row, and its audit row.
unfoldable pub settle_row : Draws → DeadLetterRow → DlqAuditLog → DlqDb → Result DlqDb
settle_row draws row audit_log db = do
  audit ← insert_audit audit_log db.audit
  ok (record db { dead_letters = save_dead_letter draws.now row db.dead_letters; audit = audit })

-- `entity.messageKey ?? reprocessed.messageKey`.
abbrev pub key_or : Option String → String → String
key_or none key = key
key_or (some own) key = own

-- The transaction of `reprocess` from the locked row on.
unfoldable pub reprocess_row :
    Runtime
    → Draws
    → OperatorCommand
    → (comment : String) → Fields
    → DeadLetterRow
    → DlqDb
    → Result (DeadLetterRow × DlqDb)
reprocess_row runtime draws command comment corrected row db = do
  assert_new_status row
  assert_expected_version row command.expected_version
  original ← valid_original row.original_event
  reprocessed ←
      create_reprocessed_event (draws.uuid 0) (runtime.json.to_iso_string draws.now) original
        corrected row.original_topic
  outbox_row ←
      create_outbox_json runtime draws reprocessed.topic
        (key_or row.message_key reprocessed.message_key) reprocessed.event
  outbox ← insert_outbox_json outbox_row db.outbox
  let event_id = text_of (get "eventId" reprocessed.event)
  let row' = as_reprocessed draws command comment event_id row
  db' ←
      settle_row draws row'
        (audit_row draws DlqAuditAction.reprocess command comment (some event_id) row')
        (record db { outbox = outbox })
  ok (row', db')

-- `reprocess`; the publisher is woken after it. The row is given as it is before `save` counts its
-- version.
unfoldable pub reprocess :
    Runtime
    → Draws
    → (id : String) → Fields
    → OperatorCommand
    → DlqDb
    → Result (DeadLetterRow × DlqDb)
reprocess runtime draws id corrected command db = do
  comment ← require_comment command.comment
  row ← found (find_by_id id db.dead_letters)
  reprocess_row runtime draws command comment corrected row db

-- `ignore`, whose reason is the comment.
unfoldable pub ignore :
    Draws → (id : String) → OperatorCommand → DlqDb → Result (DeadLetterRow × DlqDb)
ignore draws id command db = do
  reason ← require_comment command.comment
  row ← found (find_by_id id db.dead_letters)
  assert_new_status row
  assert_expected_version row command.expected_version
  let row' = as_ignored draws command reason row
  db' ← settle_row draws row' (audit_row draws DlqAuditAction.ignore command reason none row') db
  ok (row', db')
