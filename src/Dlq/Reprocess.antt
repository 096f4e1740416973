-- ===== src/Dlq/Reprocess.antt =====
-- app/order-service/src/modules/dlq/dlq-reprocess.factory.ts, `createReprocessedEvent`, and
-- dlq-event.parser.ts. An event is a JSON object: the type `DomainEvent` is not checked at run time.
use kafka_nest_playground.Prelude.{
  ℕ, String, Bool, true, false, not, Option, none, some, any, if◌then◌else◌, ◌==◌, ◌&&◌,
}
use kafka_nest_playground.Prelude.Text.{is_empty}
use kafka_nest_playground.Prelude.Tx.{Result, ok, Error, ◌>>=◌, ◌>>◌, guard}
use kafka_nest_playground.Dlq.Json.{
  Json, null, number, text, object, Fields, get, set, remove, merge, keys,
}
use kafka_nest_playground.Dlq.Contract.{
  read_event_type, contract_topic, allowed_fields, as_record, require_string, validate_domain_event,
}

-- `JSON.parse`, which may throw, and `date.toISOString()`.
pub record JsonRuntime : Type 0 where
  pub parse : String → Option Json
  pub to_iso_string : ℕ → String

abbrev pub is_text : Option Json → Bool
is_text (some (text s)) = true
is_text _ = false

abbrev pub is_number : Option Json → Bool
is_number (some (number n)) = true
is_number _ = false

abbrev pub is_object : Option Json → Bool
is_object (some (object fs)) = true
is_object _ = false

-- `isDomainEventEnvelope`, of an object.
unfoldable pub is_envelope : Fields → Bool
is_envelope fs =
    is_object (get "payload" fs)
    && (is_text (get "eventId" fs)
        && (is_text (get "eventType" fs)
            && (is_number (get "eventVersion" fs)
                && (is_text (get "occurredAt" fs)
                    && (is_text (get "correlationId" fs) && is_text (get "producer" fs))))))

abbrev pub envelope_of : Option Json → Option Fields
envelope_of (some (object fs)) = if is_envelope fs then some fs else none
envelope_of _ = none

-- `parseOriginalEvent`.
unfoldable pub parse_original_event : JsonRuntime → Option String → Option Fields
parse_original_event json none = none
parse_original_event json (some raw) = if is_empty raw then none else envelope_of (json.parse raw)

abbrev pub text_of : Option Json → String
text_of (some (text s)) = s
text_of _ = ""

pub record ReprocessedEventResult : Type 0 where
  pub event : Fields
  pub topic : String
  pub message_key : String

-- `assertOnlyAllowedPayloadFields`.
unfoldable pub assert_only_allowed_payload_fields : String → Fields → Result (Unit {0})
assert_only_allowed_payload_fields event_type corrected =
    guard
      (not (
        any
          (λ key.
            not (any (λ allowed. allowed == key) (allowed_fields (read_event_type event_type))))
          (keys corrected)))
      Error.unprocessable

-- `a ?? b`.
abbrev pub coalesce : Option Json → Option Json → Option Json
coalesce none other = other
coalesce (some null) other = other
coalesce value other = value

-- `getMessageKey`.
unfoldable pub get_message_key : Fields → Result String
get_message_key event = do
  payload ← as_record (get "payload" event)
  require_string (
      coalesce (get "orderId" payload)
        (coalesce (get "notificationId" payload) (get "eventId" event)))

abbrev pub is_topic : String → Option String → Bool
is_topic expected none = false
is_topic expected (some topic) = topic == expected

-- A name whose value is `undefined` reads like a name that is missing.
abbrev pub set_or_drop : String → Option Json → Fields → Fields
set_or_drop name none fs = remove name fs
set_or_drop name (some v) fs = set name v fs

-- The copy of the event, with its new payload.
unfoldable pub reprocessed_copy : (uuid now_text : String) (original payload : Fields) → Fields
reprocessed_copy uuid now_text original payload = set "payload" (object payload) (
    set "producer" (text "order-service-dlq-reprocessor") (
      set_or_drop "causationId" (get "eventId" original)
        (set "occurredAt" (text now_text) (set "eventId" (text uuid) original))))

-- `createReprocessedEvent`.
unfoldable pub create_reprocessed_event :
    (uuid now_text : String) (original corrected : Fields) (expected_topic : String)
    → Result ReprocessedEventResult
create_reprocessed_event uuid now_text original corrected expected_topic = do
  assert_only_allowed_payload_fields (text_of (get "eventType" original)) corrected
  base ← as_record (get "payload" original)
  let event = reprocessed_copy uuid now_text original (merge base corrected)
  validate_domain_event event
  guard
      (is_topic expected_topic (contract_topic (read_event_type (text_of (get "eventType" event)))))
      Error.unprocessable
  message_key ← get_message_key event
  ok (record { event = event; topic = expected_topic; message_key = message_key })
