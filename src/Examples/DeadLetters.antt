-- ===== src/Examples/DeadLetters.antt =====
-- An operator corrects one dead letter and ignores another; retention passes in between.
use kafka_nest_playground.Prelude.{◌≡◌, refl, String, true, List, [], ◌∷◌, none, some}
use kafka_nest_playground.Prelude.Text.{trim, trim_start, trim_end, utf16_length}
use kafka_nest_playground.Prelude.Tx.{ok}
use kafka_nest_playground.Contracts.Topics
use kafka_nest_playground.Outbox.Entity.{assert_non_empty_string}
use kafka_nest_playground.Kafka.Headers.{empty_headers, read_header}
use kafka_nest_playground.Orders.Entity.{Draws}
use kafka_nest_playground.Orders.OrderId.{is_uuid, match_groups}
use kafka_nest_playground.Dlq.Json.{number, text, object, Fields, end, field, get, set, merge, keys}
use kafka_nest_playground.Dlq.Contract.{
  read_event_type, allowed_fields, as_record, require_string, require_uuid, require_number,
  validate_payload, validate_domain_event,
}
use kafka_nest_playground.Dlq.Reprocess.{
  is_envelope, ReprocessedEventResult, assert_only_allowed_payload_fields, get_message_key,
  reprocessed_copy, create_reprocessed_event, parse_original_event,
}
use kafka_nest_playground.Dlq.Corrected.{IsCorrected, create_reprocessed_event-IsCorrected}
use kafka_nest_playground.Dlq.Tables.{
  DeadLetterRow, find_by_id, find_by_event, new_dead_letter, insert_or_ignore, save_dead_letter,
  insert_outbox_json, insert_audit, save_if_absent, filter, delete_resolved_before,
}
use kafka_nest_playground.Dlq.Service
use kafka_nest_playground.Dlq.Service.{
  Runtime, DeadLetterContext, OperatorCommand, as_reprocessed, read_non_negative_integer_header,
  read_date_header, found, require_comment, assert_new_status, assert_expected_version,
  assert_valid_json_envelope, create_outbox_json, settle_row, reprocess_row,
}
use kafka_nest_playground.Dlq.Decided.{Decided}
use kafka_nest_playground.Dlq.History.{
  DlqCall, capture, reprocess, ignore, clean_up, run, serve, empty_db, decided_once,
}
use kafka_nest_playground.Examples.{draws_of, order_id}
use kafka_nest_playground.Examples.KafkaRetry.{node}

-- An authorized payment whose currency is missing.
abbrev payment : Fields
payment = field "paymentId" (text "pay-1") (
    field "orderId" (text order_id)
      (field "amount" (number (record { bits = 30 })) (field "provider" (text "bank") end)))

abbrev original : Fields
original = field "eventId" (text "event-1") (
    field "eventType" (text "PaymentAuthorized") (
      field "eventVersion" (number (record { bits = 1 })) (
        field "occurredAt" (text "2026-01-01T00:00:00.000Z") (
          field "correlationId" (text "correlation-1")
            (field "producer" (text "payment-service") (field "payload" (object payment) end))))))

abbrev correction : Fields
correction = field "currency" (text "USD") end

abbrev corrected : ReprocessedEventResult
unfolding reprocessed_copy set merge get
corrected = record {
  event = reprocessed_copy "new-1" "2026-01-02T00:00:00.000Z" original (merge payment correction);
  topic = Topics.payment_payment_events;
  message_key = order_id;
}

is_corrected :
    create_reprocessed_event "new-1" "2026-01-02T00:00:00.000Z" original correction
      Topics.payment_payment_events
    ≡ ok corrected
unfolding create_reprocessed_event assert_only_allowed_payload_fields get_message_key
    reprocessed_copy set merge get keys read_event_type allowed_fields as_record require_string
    require_uuid require_number validate_payload validate_domain_event is_uuid match_groups trim
    trim_start trim_end
is_corrected = refl

create_reprocessed_event-IsCorrected_example :
    IsCorrected "new-1" "2026-01-02T00:00:00.000Z" original correction Topics.payment_payment_events
      corrected
create_reprocessed_event-IsCorrected_example =
    create_reprocessed_event-IsCorrected "new-1" "2026-01-02T00:00:00.000Z" original correction
      Topics.payment_payment_events corrected (unfold is_envelope get in refl) is_corrected

abbrev runtime : Runtime
runtime = record {
  node = node;
  json = record {
    parse = λ raw. some (object original);
    to_iso_string = λ ms. "2026-01-02T00:00:00.000Z";
  };
  parse_date = λ t. none;
  is_positive_integer = λ n. true;
}

abbrev letter : String → DeadLetterContext
letter event_id = record {
  event_id = event_id;
  payload = record {
    original_topic = Topics.payment_payment_events;
    original_partition = 0;
    original_offset = "7";
    error_message = "currency is missing";
    error_stack = none;
    raw_event = some "{}";
  };
  key = none;
  headers = empty_headers;
}

abbrev command : OperatorCommand
command = record { expected_version = 1; operator_id = "operator-1"; comment = "the currency" }

abbrev calls : List (Draws × DlqCall)
calls =
    (draws_of "a", capture (letter "dead-1"))
    ∷ (draws_of "b", capture (letter "dead-1"))
    ∷ (draws_of "c", capture (letter "dead-2"))
    ∷ (draws_of "d", reprocess "0a" correction command)
    ∷ (draws_of "e", ignore "0a" command)
    ∷ (draws_of "f", ignore "0c" command)
    ∷ (draws_of "g", clean_up 500)
    ∷ []

abbrev captured : DeadLetterRow
captured = new_dead_letter "0a" 1000 (record {
  event_id = "dead-1";
  payload = (letter "dead-1").payload;
  message_key = none;
  error_code = "UNKNOWN_ERROR";
  retry_count = 0;
  first_failed_at = none;
  original_event_id = some "event-1";
  original_event = some original;
})

abbrev settled : DeadLetterRow
settled = record (as_reprocessed (draws_of "d") command "the currency" "0d" captured) {
  version = 2;
  updated_at = 1000;
}

-- The second command at the same row finds it settled.
is_settled : find_by_id "0a" (run runtime calls empty_db).dead_letters ≡ some settled
unfolding run serve Service.capture Service.reprocess Service.ignore find_by_id find_by_event
    insert_or_ignore save_dead_letter insert_outbox_json insert_audit save_if_absent filter
    delete_resolved_before read_header parse_original_event is_envelope
    read_non_negative_integer_header read_date_header found require_comment assert_new_status
    assert_expected_version assert_valid_json_envelope create_outbox_json settle_row reprocess_row
    assert_non_empty_string create_reprocessed_event assert_only_allowed_payload_fields
    get_message_key reprocessed_copy set merge get keys read_event_type allowed_fields as_record
    require_string require_uuid require_number validate_payload validate_domain_event is_uuid
    match_groups trim trim_start trim_end utf16_length
is_settled = refl

decided_once_example : Decided (run runtime calls empty_db) settled
decided_once_example = decided_once runtime calls "0a" settled is_settled
